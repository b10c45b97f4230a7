-- ===== src/Cache/Sqlite/Laws.antt =====
-- What the SQLite backend keeps of what it is given.
use repolith.Prelude.{
  ℕ, ◌≡◌, ◌≢◌, refl, sym, ap, ◌∙◌, inl, inr, ◌⊎◌, false, Option, some, ok, err, panic, ◌==◌,
  ==-cases, if◌then◌else◌, Result-cases, Bool-cases, err≢ok, panic≢err, map_err-eq-err,
  map_err-eq-panic, map_err-eq-ok, nat_eq, list_eq,
}
use repolith.Prelude.Texts.{Text}
use repolith.Types.{
  ActionId, id_beq, action_id_eq, BuildError, BuildEvent, event_id, success, failed, BuildRecord,
}
use repolith.Cache.{CacheError, backend}
use repolith.Cache.Contract.{IsStorable}
use repolith.Cache.Sqlite.{Row, Driver, row_record, fetch, success_row, failed_row, insert_event}
use repolith.Cache.Sqlite.Contract.{IsDriver}
use repolith.Cache.Sqlite.Rows.{date_of, row_record-success_row, row_record-failed_row}

abbrev event_ms : BuildEvent → ℕ
event_ms (success i input output ms) = ms
event_ms (failed i input error ms) = ms

-- What is read for an id after an event is written at a time.
abbrev pub after_write :
    ActionId → BuildEvent → (now : Option ℕ) → Option BuildRecord → Option BuildRecord
after_write i e now before =
    if event_id e == i
    then some (record { event = e; recorded_at = date_of now (event_ms e) })
    else before

module _ {W T : Type 0} {d : Driver W T} {saved : T → Text → Option Row}
    (law : IsDriver d saved) where
  fetch-replaced :
      (i j : ActionId) (row : Row) (w : W)
      → d.is_poisoned w ≡ false
      → (d.insert_or_replace i.name row w).0 ≡ ok tt
      → fetch d (d.insert_or_replace i.name row w).1 j
        ≡ (if i == j then row_record d i row else fetch d w j)
  unfolding fetch id_beq
  fetch-replaced i j row w live wrote = elim (==-cases i j) [
    | inl (t, same) ↦
        rw (fetch, law.insert_poisons i.name row w, live, law.inserted i.name row w j.name wrote, t)
          (ap (λ k. row_record d k row) (sym same))
    | inr (f, other) ↦
        rw (fetch, law.insert_poisons i.name row w, live, law.inserted i.name row w j.name wrote, f)
          refl
  ]

  pub fetch_congr :
      (w w' : W) (j : ActionId)
      → d.is_poisoned w' ≡ d.is_poisoned w
      → d.query_row w' j.name ≡ d.query_row w j.name
      → fetch d w' j ≡ fetch d w j
  unfolding fetch
  fetch_congr w w' j p q = elim (Bool-cases (d.is_poisoned w)) [
    | inl t ↦ rw (fetch, p, t) refl
    | inr f ↦ rw (fetch, p, f, q) refl
  ]

  to_string-cases :
      (error : BuildError)
      → ((json : Text) × (d.to_string error ≡ ok json)) ⊎ ((e : Text) × (d.to_string error ≡ err e))
  to_string-cases error = elim (Result-cases (d.to_string error)) [
    | inl wrote ↦ inl wrote
    | inr (inl failure) ↦ inr failure
    | inr (inr panics) ↦ absurd (law.to_string_panics error panics)
  ]

  pub insert_event-poisons :
      (e : BuildEvent) (w : W) → d.is_poisoned (insert_event d e w).1 ≡ d.is_poisoned w
  unfolding insert_event
  insert_event-poisons (success i input output ms) w =
      law.insert_poisons i.name (success_row d (d.now w) input output ms) w
  insert_event-poisons (failed i input error ms) w = elim (to_string-cases error) [
    | inl (json, wrote) ↦
        rw (insert_event, wrote)
          (law.insert_poisons i.name (failed_row d (d.now w) input json ms) w)
    | inr (e, refused) ↦ rw (insert_event, refused) refl
  ]

  -- A write that succeeds is read back, with the duration and the date of the write, and touches
  -- no other id.
  pub fetch-insert_event :
      (e : BuildEvent) (w : W)
      → IsStorable e
      → d.is_poisoned w ≡ false
      → (insert_event d e w).0 ≡ ok tt
      → (j : ActionId) → fetch d (insert_event d e w).1 j ≡ after_write j e (d.now w) (fetch d w j)
  unfolding insert_event
  fetch-insert_event (success i input output ms) w (hi, ho, h) live wrote j =
      let row = success_row d (d.now w) input output ms in
      fetch-replaced i j row w live
        (map_err-eq-ok backend (d.insert_or_replace i.name row w).0 tt wrote)
      ∙ rw (row_record-success_row law (d.now w) i input output ms hi ho h) refl
  fetch-insert_event (failed i input error ms) w (hi, h) live wrote j =
      elim (to_string-cases error) [
        | inl (json, read) ↦
            let row = failed_row d (d.now w) input json ms in
            rw (insert_event, read)
              (fetch-replaced i j row w live (
                  map_err-eq-ok backend (d.insert_or_replace i.name row w).0 tt
                    (rw (insert_event, read) at wrote))
                ∙ rw (row_record-failed_row law (d.now w) i input error json ms hi read h) refl)
        | inr (e, refused) ↦ absurd (err≢ok (rw (insert_event, refused) at wrote))
      ]

  -- A write that fails changes no row.
  pub insert_event-refused :
      (e : BuildEvent) (w : W) (error : CacheError)
      → (insert_event d e w).0 ≡ err error
      → (k : Text) → d.query_row (insert_event d e w).1 k ≡ d.query_row w k
  unfolding insert_event
  insert_event-refused (success i input output ms) w error refused k =
      let row = success_row d (d.now w) input output ms in
      let (e, failure) =
        map_err-eq-err backend (d.insert_or_replace i.name row w).0 error refused in
      law.refused i.name row w e k failure
  insert_event-refused (failed i input error ms) w problem refused k =
      elim (to_string-cases error) [
        | inl (json, read) ↦
            let row = failed_row d (d.now w) input json ms in
            let (e, failure) =
              map_err-eq-err backend (d.insert_or_replace i.name row w).0 problem
                (rw (insert_event, read) at refused) in
            rw (insert_event, read) (law.refused i.name row w e k failure)
        | inr (e, failure) ↦ rw (insert_event, failure) refl
      ]

  pub insert_event-panics : (e : BuildEvent) (w : W) → (insert_event d e w).0 ≢ panic
  unfolding insert_event
  insert_event-panics (success i input output ms) w panics =
      let row = success_row d (d.now w) input output ms in
      law.insert_panics i.name row w
        (map_err-eq-panic backend (d.insert_or_replace i.name row w).0 panics)
  insert_event-panics (failed i input error ms) w panics = elim (to_string-cases error) [
    | inl (json, read) ↦
        let row = failed_row d (d.now w) input json ms in
        law.insert_panics i.name row w (
          map_err-eq-panic backend (d.insert_or_replace i.name row w).0
            (rw (insert_event, read) at panics))
    | inr (e, failure) ↦ absurd (panic≢err (sym (rw (insert_event, failure) at panics)))
  ]
