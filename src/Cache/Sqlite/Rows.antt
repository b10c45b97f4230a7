-- ===== src/Cache/Sqlite/Rows.antt =====
-- A written row reads back as the event, with the date of the write.
use repolith.Prelude.{
  list_beq, ℕ, ◌≡◌, refl, ◌≤◌, Option, none, some, ok, nat_eq, list_eq, leb, if◌then◌else◌, arith,
}
use repolith.Prelude.Texts.{Text, codes}
use repolith.Prelude.Int.{◌-ℤ◌}
use repolith.Types.{ActionId, Sha256, BuildError, success, failed}
use repolith.Cache.Contract.{IsDigest}
use repolith.Cache.Sqlite.{
  Row, Driver, max_i64, saturate, wrap_i64, stamps, parse_sha256, to_u64, recorded_at, row_ms,
  row_error, row_event, row_record, success_row, failed_row,
}
use repolith.Cache.Sqlite.Contract.{IsDriver}

-- The date that a row can carry: none where the clock cannot be read or stands at or before the
-- duration.
unfoldable pub date_of : (now : Option ℕ) → (ms : ℕ) → Option ℕ
unfolding saturate
date_of none ms = none
date_of (some t) ms = if leb (saturate t) ms then none else some (saturate t)

saturate-le : (n : ℕ) → saturate n ≤ max_i64
unfolding saturate
saturate-le n = ground arith

saturate_of_le : (n : ℕ) → n ≤ max_i64 → saturate n ≡ n
unfolding saturate
saturate_of_le n h = ground arith

-- The duration of the stamps is the one that was given.
abbrev IsStamped : Option ℕ → ℕ → Row → Type 0
IsStamped now ms row = (row.started_at ≡ (stamps now ms).0) × (row.ended_at ≡ (stamps now ms).1)

row_ms-stamps :
    (now : Option ℕ) (ms : ℕ) (row : Row) → IsStamped now ms row → ms ≤ max_i64 → row_ms row ≡ ms
unfolding row_ms wrap_i64 ◌-ℤ◌ stamps
row_ms-stamps none ms row (s, e) h = rw (s, e, saturate_of_le ms h) (ground arith)
row_ms-stamps (some t) ms row (s, e) h =
    rw (s, e, saturate_of_le ms h) (ground (arith, saturate-le t))

recorded_at-stamps :
    (now : Option ℕ) (ms : ℕ) (row : Row)
    → IsStamped now ms row
    → ms ≤ max_i64
    → recorded_at row ≡ date_of now ms
unfolding recorded_at to_u64 date_of stamps
recorded_at-stamps none ms row (s, e) h = rw s refl
recorded_at-stamps (some t) ms row (s, e) h = rw (s, e, saturate_of_le ms h) (ground arith)

module _ {W T : Type 0} {d : Driver W T} {saved : T → Text → Option Row}
    (law : IsDriver d saved) where
  parse_sha256-encode :
      (h : Sha256) → IsDigest h → parse_sha256 d.decode (d.encode h.bytes) ≡ some h
  unfolding parse_sha256
  parse_sha256-encode h (size, bytes) = ground (arith, law.decodes h.bytes bytes)

  pub row_record-success_row :
      (now : Option ℕ) (i : ActionId) (input output : Sha256) (ms : ℕ)
      → IsDigest input
      → IsDigest output
      → ms ≤ max_i64
      → row_record d i (success_row d now input output ms)
        ≡ some (record { event = success i input output ms; recorded_at = date_of now ms })
  unfolding row_record row_event success_row codes list_beq
  row_record-success_row now i input output ms hi ho h =
      let row = success_row d now input output ms in
      rw
        (
          row_record,
          row_event,
          parse_sha256-encode input hi,
          parse_sha256-encode output ho,
          row_ms-stamps now ms row (refl, refl) h,
          recorded_at-stamps now ms row (refl, refl) h,
        )
        refl

  pub row_record-failed_row :
      (now : Option ℕ) (i : ActionId) (input : Sha256) (error : BuildError) (json : Text) (ms : ℕ)
      → IsDigest input
      → d.to_string error ≡ ok json
      → ms ≤ max_i64
      → row_record d i (failed_row d now input json ms)
        ≡ some (record { event = failed i input error ms; recorded_at = date_of now ms })
  unfolding row_record row_event failed_row row_error codes list_beq
  row_record-failed_row now i input error json ms hi wrote h =
      let row = failed_row d now input json ms in
      rw
        (
          row_record,
          row_event,
          parse_sha256-encode input hi,
          law.parses error json wrote,
          row_ms-stamps now ms row (refl, refl) h,
          recorded_at-stamps now ms row (refl, refl) h,
        )
        refl
