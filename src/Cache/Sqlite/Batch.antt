-- ===== src/Cache/Sqlite/Batch.antt =====
-- A batch is written as a whole or not at all, and the backend keeps the cache contract.
use repolith.Prelude.{
  ◌≡◌, ◌≢◌, refl, sym, ap, ◌∙◌, inl, inr, ◌⊎◌, false, Option, List, [], ◌∷◌, Result, ok, err, panic,
  ==-cases, All, Result-cases, Bool-cases, err≢ok, panic≢err, panic≢ok, ℕ,
}
use repolith.Prelude.Texts.{Text}
use repolith.Types.{ActionId, action_id_eq, BuildEvent, event_id, BuildRecord}
use repolith.Cache.{CacheError}
use repolith.Cache.Contract.{IsStorable, IsStore, after_event, after_batch, event_of}
use repolith.Cache.Sqlite.{
  Row, Driver, fetch, insert_event, insert_events, record_event, commit_batch, write_batch,
  record_batch, sqlite,
}
use repolith.Cache.Sqlite.Contract.{IsDriver}
use repolith.Cache.Sqlite.Laws.{
  after_write, fetch_congr, fetch-insert_event, insert_event-poisons, insert_event-panics,
}

event_of-after_write :
    (i : ActionId) (e : BuildEvent) (now : Option ℕ) (before : Option BuildRecord)
    → event_of (after_write i e now before) ≡ after_event i e (event_of before)
event_of-after_write i e now before = elim (==-cases (event_id e) i) [
  | inl (t, same) ↦ rw t refl
  | inr (f, other) ↦ rw f refl
]

module _ {W T : Type 0} (d : Driver W T) where
  -- What a write of events does: all of them are read back, or an error is given and no record
  -- has changed.
  abbrev pub IsAtomic : List BuildEvent → W → Result CacheError (Unit {0}) × W → Type 0
  IsAtomic events w (r, w') =
      (r ≡ ok tt)
        × ((i : ActionId) → event_of (fetch d w' i) ≡ after_batch i events (event_of (fetch d w i)))
      ⊎ ((e : CacheError) × (r ≡ err e) × ((i : ActionId) → fetch d w' i ≡ fetch d w i))

module _ {W T : Type 0} {d : Driver W T} {saved : T → Text → Option Row}
    (law : IsDriver d saved) where
  insert_events-poisons :
      (events : List BuildEvent) (w : W)
      → d.is_poisoned (insert_events d events w).1 ≡ d.is_poisoned w
  unfolding insert_events
  insert_events-poisons [] w = refl
  insert_events-poisons (e ∷ events) w = elim (Result-cases (insert_event d e w).0) [
    | inl (u, t) ↦
        rw (insert_events, t)
          (insert_events-poisons events (insert_event d e w).1 ∙ insert_event-poisons law e w)
    | inr (inl (x, t)) ↦ rw (insert_events, t) (insert_event-poisons law e w)
    | inr (inr t) ↦ rw (insert_events, t) (insert_event-poisons law e w)
  ]

  event_of-insert_event :
      (e : BuildEvent) (w : W)
      → IsStorable e
      → d.is_poisoned w ≡ false
      → (insert_event d e w).0 ≡ ok tt
      → (j : ActionId)
      → event_of (fetch d (insert_event d e w).1 j) ≡ after_event j e (event_of (fetch d w j))
  event_of-insert_event e w storable live wrote j =
      ap event_of (fetch-insert_event law e w storable live wrote j)
      ∙ event_of-after_write j e (d.now w) (fetch d w j)

  event_of-insert_events :
      (events : List BuildEvent) (w : W)
      → All IsStorable events
      → d.is_poisoned w ≡ false
      → (insert_events d events w).0 ≡ ok tt
      → (j : ActionId)
      → event_of (fetch d (insert_events d events w).1 j)
        ≡ after_batch j events (event_of (fetch d w j))
  unfolding insert_events
  event_of-insert_events [] w storable live wrote j = refl
  event_of-insert_events (e ∷ events) w (head, tail) live wrote j =
      elim (Result-cases (insert_event d e w).0) [
        | inl (u, t) ↦
            let w' = (insert_event d e w).1 in
            rw (insert_events, t)
              (event_of-insert_events events w' tail (insert_event-poisons law e w ∙ live)
                  (rw (insert_events, t) at wrote) j
                ∙ ap (after_batch j events) (event_of-insert_event e w head live t j))
        | inr (inl (x, t)) ↦ absurd (err≢ok (rw (insert_events, t) at wrote))
        | inr (inr t) ↦ absurd (panic≢ok (rw (insert_events, t) at wrote))
      ]

  insert_events-panics : (events : List BuildEvent) (w : W) → (insert_events d events w).0 ≢ panic
  unfolding insert_events
  insert_events-panics [] w panics = cc
  insert_events-panics (e ∷ events) w panics = elim (Result-cases (insert_event d e w).0) [
    | inl (u, t) ↦
        insert_events-panics events (insert_event d e w).1 (rw (insert_events, t) at panics)
    | inr (inl (x, t)) ↦ panic≢err (sym (rw (insert_events, t) at panics))
    | inr (inr t) ↦ insert_event-panics law e w t
  ]

  -- A transaction that began after `w` and is rolled back leaves the records of `w`.
  rolled_back-fetch :
      (tx : T) (w w' : W)
      → (d.transaction w).0 ≡ ok tx
      → d.is_poisoned w' ≡ d.is_poisoned w
      → (i : ActionId) → fetch d (d.rollback tx w') i ≡ fetch d w i
  rolled_back-fetch tx w w' t same i =
      fetch_congr law w (d.rollback tx w') i (law.rollback_poisons tx w' ∙ same)
        (ap (λ q. q i.name) (law.rolled_back tx w' ∙ law.began w tx t))

  commit_batch-IsAtomic :
      (events : List BuildEvent) (tx : T) (w : W)
      → All IsStorable events
      → d.is_poisoned w ≡ false
      → (d.transaction w).0 ≡ ok tx
      → IsAtomic d events w (commit_batch d tx (insert_events d events (d.transaction w).1))
  unfolding commit_batch
  commit_batch-IsAtomic events tx w storable live t =
      let w1 = (d.transaction w).1 in
      let w2 = (insert_events d events w1).1 in
      let p1 : d.is_poisoned w1 ≡ d.is_poisoned w = law.transaction_poisons w in
      let p2 : d.is_poisoned w2 ≡ d.is_poisoned w = insert_events-poisons events w1 ∙ p1 in
      elim (Result-cases (insert_events d events w1).0) [
        | inl (u, s) ↦ elim (Result-cases (d.commit tx w2).0) [
          | inl (v, c) ↦
              rw (commit_batch, s, c)
                (inl (
                  refl,
                  λ i.
                      ap event_of (
                        fetch_congr law w2 (d.commit tx w2).1 i (law.commit_poisons tx w2)
                          (ap (λ q. q i.name) (law.committed tx w2 c)))
                      ∙ event_of-insert_events events w1 storable (p1 ∙ live) s i
                      ∙ ap (λ r. after_batch i events (event_of r))
                          (fetch_congr law w w1 i p1 (ap (λ q. q i.name) (law.begun w))),
                ))
          | inr (inl (e, c)) ↦
              rw (commit_batch, s, c)
                (inr (
                  _,
                  refl,
                  rolled_back-fetch tx w (d.commit tx w2).1 t (law.commit_poisons tx w2 ∙ p2),
                ))
          | inr (inr c) ↦ absurd (law.commit_panics tx w2 c)
        ]
        | inr (inl (e, s)) ↦ rw (commit_batch, s) (inr (e, refl, rolled_back-fetch tx w w2 t p2))
        | inr (inr s) ↦ absurd (insert_events-panics events w1 s)
      ]

  write_batch-IsAtomic :
      (events : List BuildEvent) (w : W)
      → All IsStorable events
      → IsAtomic d events w (write_batch d events w)
  unfolding write_batch
  write_batch-IsAtomic events w storable = elim (Bool-cases (d.is_poisoned w)) [
    | inl t ↦ rw (write_batch, t) (inr (_, refl, λ i. refl))
    | inr live ↦ elim (Result-cases (d.transaction w).0) [
      | inl (tx, t) ↦ rw (write_batch, live, t) (commit_batch-IsAtomic events tx w storable live t)
      | inr (inl (e, t)) ↦
          rw (write_batch, live, t)
            (inr (
              _,
              refl,
              λ i.
                  fetch_congr law w (d.transaction w).1 i (law.transaction_poisons w)
                    (ap (λ q. q i.name) (law.begun w)),
            ))
      | inr (inr t) ↦ absurd (law.transaction_panics w t)
    ]
  ]

  -- `record_batch` writes a batch as a whole: it succeeds and every event of the batch is read back,
  -- or it gives an error and every record is as it was before.
  pub record_batch-IsAtomic :
      (events : List BuildEvent) (w : W)
      → All IsStorable events
      → IsAtomic d events w (record_batch d events w)
  unfolding record_batch
  record_batch-IsAtomic [] w storable = inl (refl, λ i. refl)
  record_batch-IsAtomic (e ∷ events) w storable = write_batch-IsAtomic (e ∷ events) w storable

  record_event-wrote :
      (e : BuildEvent) (w w' : W)
      → record_event d e w ≡ (ok tt, w')
      → (d.is_poisoned w ≡ false) × (insert_event d e w ≡ (ok tt, w'))
  unfolding record_event
  record_event-wrote e w w' wrote = elim (Bool-cases (d.is_poisoned w)) [
    | inl t ↦ absurd (err≢ok (ap (λ p. p.0) (rw (record_event, t) at wrote)))
    | inr live ↦ (live, rw (record_event, live) at wrote)
  ]

  -- An event that is recorded is read back with the date of the write, and no other record changes.
  pub fetch-record_event :
      (e : BuildEvent) (w w' : W)
      → IsStorable e
      → record_event d e w ≡ (ok tt, w')
      → (j : ActionId) → fetch d w' j ≡ after_write j e (d.now w) (fetch d w j)
  fetch-record_event e w w' storable wrote j =
      let (live, written) = record_event-wrote e w w' wrote in
      ap (λ p. fetch d p.1 j) (sym written)
      ∙ fetch-insert_event law e w storable live (ap (λ p. p.0) written) j

  -- The SQLite backend keeps the cache contract.
  pub sqlite-IsStore : IsStore (sqlite d)
  unfolding sqlite
  sqlite-IsStore = record {
    reads_event = λ e w w' storable wrote i.
        ap event_of (fetch-record_event e w w' storable wrote i)
        ∙ event_of-after_write i e (d.now w) (fetch d w i);
    reads_batch = λ events w w' storable wrote i. elim (record_batch-IsAtomic events w storable) [
      | inl (done, reads) ↦ ap (λ p. event_of (fetch d p.1 i)) (sym wrote) ∙ reads i
      | inr (e, refused, _) ↦ absurd (err≢ok (sym refused ∙ ap (λ p. p.0) wrote))
    ];
    reads_record = λ w i. refl;
  }
