-- ===== src/Cache/Namespaced/Laws.antt =====
-- A namespace over a backend is a backend, and two namespaces do not meet.
use repolith.Prelude.{
  All, ◌≡◌, refl, sym, ap, ◌∙◌, inl, inr, Option, none, some, List, [], ◌∷◌, ◌++◌, ◌==◌, ==_iff,
  ==-cases, nat_eq, arith,
}
use repolith.Prelude.Texts.{Text, strip_prefix}
use repolith.Types.{ActionId, action_id_eq, BuildEvent, success, failed, event_id, BuildRecord}
use repolith.Cache.{Cache}
use repolith.Cache.Contract.{IsStorable, IsStore, after_event, after_batch, event_of}
use repolith.Cache.Namespaced.{
  prefixed, prefixed_event, strip, stripped_event, stripped_build, stripped_record, prefixed_events,
  namespaced,
}

strip_prefix-append : (prefix s : Text) → strip_prefix prefix (prefix ++ s) ≡ some s
unfolding strip_prefix
strip_prefix-append [] s = refl
strip_prefix-append (c ∷ prefix) s = ground (arith, strip_prefix-append prefix s)

strip-prefixed : (prefix : Text) (i : ActionId) → strip prefix (prefixed prefix i) ≡ i
unfolding strip prefixed
strip-prefixed prefix i = ground (arith, strip_prefix-append prefix i.name)

-- What goes in comes out.
pub stripped-prefixed :
    (prefix : Text) (e : BuildEvent) → stripped_event prefix (prefixed_event prefix e) ≡ e
unfolding stripped_event prefixed_event
stripped-prefixed prefix (success i input output ms) =
    ap (λ j. success j input output ms) (strip-prefixed prefix i)
stripped-prefixed prefix (failed i input error ms) =
    ap (λ j. failed j input error ms) (strip-prefixed prefix i)

pub prefixed-event_id :
    (prefix : Text) (e : BuildEvent)
    → event_id (prefixed_event prefix e) ≡ prefixed prefix (event_id e)
unfolding prefixed_event
prefixed-event_id prefix (success i input output ms) = refl
prefixed-event_id prefix (failed i input error ms) = refl

prefixed-injective :
    (prefix : Text) (i j : ActionId) → prefixed prefix i ≡ prefixed prefix j → i ≡ j
prefixed-injective prefix i j e =
    sym (strip-prefixed prefix i) ∙ ap (strip prefix) e ∙ strip-prefixed prefix j

prefixed-== : (prefix : Text) (i j : ActionId) → (prefixed prefix i == prefixed prefix j) ≡ (i == j)
prefixed-== prefix i j = elim (==-cases i j) [
  | inl (t, same) ↦
      rw (t, ==_iff (prefixed prefix i) (prefixed prefix j))
        (ground (arith, ==_iff (prefixed prefix i) (prefixed prefix j), ap (prefixed prefix) same))
  | inr (f, other) ↦ elim (==-cases (prefixed prefix i) (prefixed prefix j)) [
    | inl (t, same) ↦ absurd (other (prefixed-injective prefix i j same))
    | inr (f', _) ↦ f' ∙ sym f
  ]
]

strip-after_event :
    (prefix : Text) (i : ActionId) (e : BuildEvent) (before : Option BuildEvent)
    → stripped_build prefix (after_event (prefixed prefix i) (prefixed_event prefix e) before)
      ≡ after_event i e (stripped_build prefix before)
strip-after_event prefix i e before =
    rw (prefixed-event_id prefix e, prefixed-== prefix (event_id e) i)
      (elim (==-cases (event_id e) i) [
        | inl (t, _) ↦ rw t (ap some (stripped-prefixed prefix e))
        | inr (f, _) ↦ rw f refl
      ])

strip-after_batch :
    (prefix : Text) (i : ActionId) (events : List BuildEvent) (before : Option BuildEvent)
    → stripped_build prefix (after_batch (prefixed prefix i) (prefixed_events prefix events) before)
      ≡ after_batch i events (stripped_build prefix before)
strip-after_batch prefix i [] before = refl
strip-after_batch prefix i (e ∷ events) before =
    strip-after_batch prefix i events
      (after_event (prefixed prefix i) (prefixed_event prefix e) before)
    ∙ ap (after_batch i events) (strip-after_event prefix i e before)

pub stripped-event_of :
    (prefix : Text) (r : Option BuildRecord)
    → event_of (stripped_record prefix r) ≡ stripped_build prefix (event_of r)
stripped-event_of prefix none = refl
stripped-event_of prefix (some r) = refl

pub prefixed-IsStorable :
    (prefix : Text) (e : BuildEvent) → IsStorable e → IsStorable (prefixed_event prefix e)
unfolding prefixed_event
prefixed-IsStorable prefix (success i input output ms) h = h
prefixed-IsStorable prefix (failed i input error ms) h = h

pub All-prefixed-IsStorable :
    (prefix : Text) (events : List BuildEvent)
    → All IsStorable events
    → All IsStorable (prefixed_events prefix events)
All-prefixed-IsStorable prefix [] h = tt
All-prefixed-IsStorable prefix (e ∷ events) h =
    (prefixed-IsStorable prefix e h.0, All-prefixed-IsStorable prefix events h.1)

-- A namespace over a backend that keeps the contract keeps it too: callers read back the events
-- that they wrote, with the ids that they wrote.
pub namespaced-IsStore :
    {S : Type 0} (inner : Cache S) (prefix : Text)
    → IsStore inner
    → IsStore (namespaced inner prefix)
unfolding namespaced
namespaced-IsStore inner prefix store = record {
  reads_event = λ e s s' storable wrote i.
      ap (stripped_build prefix) (
        store.reads_event (prefixed_event prefix e) s s' (prefixed-IsStorable prefix e storable)
          wrote (prefixed prefix i))
      ∙ strip-after_event prefix i e (inner.last_build s (prefixed prefix i));
  reads_batch = λ events s s' storable wrote i.
      ap (stripped_build prefix) (
        store.reads_batch (prefixed_events prefix events) s s'
          (All-prefixed-IsStorable prefix events storable) wrote (prefixed prefix i))
      ∙ strip-after_batch prefix i events (inner.last_build s (prefixed prefix i));
  reads_record = λ s i.
      stripped-event_of prefix (inner.last_record s (prefixed prefix i))
      ∙ ap (stripped_build prefix) (store.reads_record s (prefixed prefix i));
}
