-- ===== src/Cache/Namespaced/Apart.antt =====
-- Two namespaces over one backend do not meet.
use repolith.Prelude.{
  All, ◌≡◌, ◌≢◌, refl, sym, ap, ◌∙◌, inl, inr, false, Option, List, [], ◌∷◌, ◌++◌, ok, ==-cases,
  arith,
}
use repolith.Prelude.Texts.{Text, starts_with}
use repolith.Types.{ActionId, action_id_eq, BuildEvent, event_id}
use repolith.Cache.{Cache}
use repolith.Cache.Contract.{IsStorable, IsStore, after_event, after_batch, event_of}
use repolith.Cache.Namespaced.{
  prefixed, prefixed_event, stripped_build, prefixed_events, namespaced,
}
use repolith.Cache.Namespaced.Laws.{
  prefixed-event_id, prefixed-IsStorable, All-prefixed-IsStorable, stripped-event_of,
}

-- Of two prefixes of one text, one is a prefix of the other.
apart-append :
    (p q s t : Text) → starts_with p q ≡ false → starts_with q p ≡ false → p ++ s ≢ q ++ t
unfolding starts_with
apart-append [] q s t hp hq e = ground arith
apart-append (c ∷ p) [] s t hp hq e = ground arith
apart-append (c ∷ p) (d ∷ q) s t hp hq e =
    apart-append p q s t (ground arith) (ground arith) (ground arith)

-- What callers of a cache can bring its state to, by writes that succeed.
pub data Written {S : Type 0} (c : Cache S) (before : S) : S → Type 0 where
  nothing : Written c before before
  one :
      {s s' : S}
      → Written c before s
      → (e : BuildEvent) → IsStorable e
      → c.record_event e s ≡ (ok tt, s')
      → Written c before s'
  batch :
      {s s' : S}
      → Written c before s
      → (events : List BuildEvent) → All IsStorable events
      → c.record_batch events s ≡ (ok tt, s')
      → Written c before s'

module _ (p q : Text) (hp : starts_with p q ≡ false) (hq : starts_with q p ≡ false) where
  after_event-apart :
      (e : BuildEvent) (i : ActionId) (before : Option BuildEvent)
      → after_event (prefixed q i) (prefixed_event p e) before ≡ before
  unfolding prefixed
  after_event-apart e i before = elim (==-cases (event_id (prefixed_event p e)) (prefixed q i)) [
    | inl (_, same) ↦ absurd (
        apart-append p q (event_id e).name i.name hp hq
          (ap (λ x. x.name) (sym (prefixed-event_id p e) ∙ same)))
    | inr (f, _) ↦ rw f refl
  ]

  after_batch-apart :
      (events : List BuildEvent) (i : ActionId) (before : Option BuildEvent)
      → after_batch (prefixed q i) (prefixed_events p events) before ≡ before
  after_batch-apart [] i before = refl
  after_batch-apart (e ∷ events) i before =
      after_batch-apart events i (after_event (prefixed q i) (prefixed_event p e) before)
      ∙ after_event-apart e i before

  -- On the backend, under the ids of the other namespace.
  Written-same :
      {S : Type 0} (inner : Cache S) (before : S) {after : S}
      → IsStore inner
      → Written (namespaced inner p) before after
      → (i : ActionId)
      → inner.last_build after (prefixed q i) ≡ inner.last_build before (prefixed q i)
  unfolding namespaced
  Written-same inner before store nothing i = refl
  Written-same inner before store (one {s} {s'} w e storable wrote) i =
      store.reads_event (prefixed_event p e) s s' (prefixed-IsStorable p e storable) wrote
        (prefixed q i)
      ∙ after_event-apart e i (inner.last_build s (prefixed q i))
      ∙ Written-same inner before store w i
  Written-same inner before store (batch {s} {s'} w events storable wrote) i =
      store.reads_batch (prefixed_events p events) s s' (All-prefixed-IsStorable p events storable)
        wrote (prefixed q i)
      ∙ after_batch-apart events i (inner.last_build s (prefixed q i))
      ∙ Written-same inner before store w i

-- Where neither prefix begins the other, whatever is written in one namespace, single events and
-- batches in any order, is not seen in the other: the last event of each id is as before, also as
-- the record of it gives it.
pub namespaced-apart :
    {S : Type 0} (inner : Cache S) (p q : Text) (s s' : S)
    → IsStore inner
    → starts_with p q ≡ false
    → starts_with q p ≡ false
    → Written (namespaced inner p) s s'
    → (i : ActionId)
    → ((namespaced inner q).last_build s' i ≡ (namespaced inner q).last_build s i)
      × (event_of ((namespaced inner q).last_record s' i)
          ≡ event_of ((namespaced inner q).last_record s i))
unfolding namespaced
namespaced-apart inner p q s s' store hp hq written i =
    let j = prefixed q i in
    let same = Written-same p q hp hq inner s store written i in
    (
      ap (stripped_build q) same,
      stripped-event_of q (inner.last_record s' j)
          ∙ ap (stripped_build q) (store.reads_record s' j ∙ same ∙ sym (store.reads_record s j))
          ∙ sym (stripped-event_of q (inner.last_record s j)),
    )
