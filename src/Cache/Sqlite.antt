-- ===== src/Cache/Sqlite.antt =====
-- `SqliteCache` (crates/repolith-cache/src/sqlite.rs). `rusqlite`, the `hex` and `serde_json` crates
-- and the clock are a record of operations on the world `W`, which holds the database; `T` is an
-- open transaction. The columns are signed 64-bit numbers, whose subtraction wraps.
pub mod Contract
pub mod Rows
pub mod Laws
pub mod Batch
use repolith.Prelude.{
  ℕ, ◌+◌, ◌-◌, Bool, true, false, Option, none, some, List, [], ◌∷◌, ◌++◌, Result, ok, err, panic,
  ◌==◌, list_eq, nat_eq, leb, length, if◌then◌else◌, map_err,
}
use repolith.Prelude.Texts.{Text, codes}
use repolith.Prelude.Int.{ℤ, pos, negsuc, pos_part, sub_ℕ, ◌-ℤ◌}
use repolith.Types.{
  ActionId, Sha256, BuildError, cancelled, BuildEvent, success, failed, BuildRecord,
}
use repolith.Cache.{Cache, CacheError, backend, Write}
use repolith.Cache.Contract.{event_of}

-- A row of `build_events` (schema.sql), without its key.
pub record Row : Type 0 where
  pub input_hash : Text
  pub output_hash : Option Text
  pub status : Text
  pub started_at : ℤ
  pub ended_at : ℤ
  pub error_json : Option Text

-- What is called of other crates. `now` is the milliseconds since the epoch, where the clock can be
-- read.
pub record Driver (W T : Type 0) : Type 0 where
  pub query_row : W → Text → Option Row
  pub insert_or_replace : Text → Row → W → Result Text (Unit {0}) × W
  pub transaction : W → Result Text T × W
  pub commit : T → W → Result Text (Unit {0}) × W
  pub rollback : T → W → W
  pub is_poisoned : W → Bool
  pub now : W → Option ℕ
  pub encode : List ℕ → Text
  pub decode : Text → Option (List ℕ)
  pub to_string : BuildError → Result Text Text
  pub from_str : Text → Option BuildError

-- `i64::MAX`.
abbrev pub max_i64 : ℕ
max_i64 = 9223372036854775807

-- `i64::try_from(n).unwrap_or(i64::MAX)`.
unfoldable pub saturate : ℕ → ℕ
saturate n = if leb n max_i64 then n else max_i64

-- An integer as a 64-bit one.
unfoldable pub wrap_i64 : ℤ → ℤ
wrap_i64 (pos n) = if leb n max_i64 then pos n else sub_ℕ n 18446744073709551616
wrap_i64 (negsuc n) = if leb n max_i64 then negsuc n else pos (18446744073709551615 - n)

unfoldable pub stamps : (now : Option ℕ) → (ms : ℕ) → ℤ × ℤ
unfolding saturate
stamps none ms = (pos 0, pos (saturate ms))
stamps (some since_epoch) ms =
    let ended = saturate since_epoch in
    if leb ended (saturate ms)
    then (pos 0, pos (saturate ms))
    else (pos (ended - saturate ms), pos ended)

unfoldable pub parse_sha256 : (decode : Text → Option (List ℕ)) → Text → Option Sha256
parse_sha256 decode s = elim (decode s) [
  | none ↦ none
  | some bytes ↦ if length bytes == 32 then some (record { bytes = bytes }) else none
]

-- `u64::try_from(n).ok()`.
unfoldable pub to_u64 : ℤ → Option ℕ
to_u64 (pos n) = some n
to_u64 (negsuc n) = none

unfoldable pub recorded_at : Row → Option ℕ
unfolding to_u64
recorded_at row = elim row.started_at [
  | pos n ↦ if n == 0 then none else to_u64 row.ended_at
  | negsuc n ↦ to_u64 row.ended_at
]

unfoldable pub row_ms : Row → ℕ
unfolding wrap_i64 ◌-ℤ◌
row_ms row = pos_part (wrap_i64 (row.ended_at -ℤ row.started_at))

-- The error of a row that is no success: `Cancelled` where it cannot be read.
unfoldable pub row_error : (from_str : Text → Option BuildError) → Option Text → BuildError
row_error from_str none = cancelled
row_error from_str (some json) = elim (from_str json) [ none ↦ cancelled | some error ↦ error ]

module _ {W T : Type 0} (d : Driver W T) where
  unfoldable pub row_event : ActionId → Row → Option BuildEvent
  unfolding parse_sha256 row_ms row_error codes
  row_event i row = elim (parse_sha256 d.decode row.input_hash) [
    | none ↦ none
    | some input ↦ elim (row.status == codes "success") [
      | true ↦ elim row.output_hash [
        | none ↦ none
        | some out_hex ↦ elim (parse_sha256 d.decode out_hex) [
          | none ↦ none
          | some output ↦ some (success i input output (row_ms row))
        ]
      ]
      | false ↦ some (failed i input (row_error d.from_str row.error_json) (row_ms row))
    ]
  ]

  -- The closure that reads the columns of a row.
  unfoldable pub row_record : ActionId → Row → Option BuildRecord
  unfolding row_event recorded_at
  row_record i row = elim (row_event i row) [
    | none ↦ none
    | some event ↦ some (record { event = event; recorded_at = recorded_at row })
  ]

  unfoldable pub fetch : W → ActionId → Option BuildRecord
  unfolding row_record
  fetch w i = elim (d.is_poisoned w) [
    | true ↦ none
    | false ↦ elim (d.query_row w i.name) [ none ↦ none | some row ↦ row_record i row ]
  ]

  -- The row that is written for a success, and for a failure.
  unfoldable pub success_row : (now : Option ℕ) → (input output : Sha256) → (ms : ℕ) → Row
  unfolding stamps codes
  success_row now input output ms =
      let (started, ended) = stamps now ms in
      record {
        input_hash = d.encode input.bytes;
        output_hash = some (d.encode output.bytes);
        status = codes "success";
        started_at = started;
        ended_at = ended;
        error_json = none;
      }

  unfoldable pub failed_row :
      (now : Option ℕ) → (input : Sha256) → (err_json : Text) → (ms : ℕ) → Row
  unfolding stamps codes
  failed_row now input err_json ms =
      let (started, ended) = stamps now ms in
      record {
        input_hash = d.encode input.bytes;
        output_hash = none;
        status = codes "failed";
        started_at = started;
        ended_at = ended;
        error_json = some err_json;
      }

  abbrev write_row : ActionId → Row → Write W
  write_row i row w = let (r, w') = d.insert_or_replace i.name row w in (map_err backend r, w')

  unfoldable pub insert_event : BuildEvent → Write W
  unfolding success_row failed_row codes
  insert_event (success i input output ms) w = write_row i (success_row (d.now w) input output ms) w
  insert_event (failed i input error ms) w = elim (d.to_string error) [
    | ok err_json ↦ write_row i (failed_row (d.now w) input err_json ms) w
    | err e ↦ (err (backend (codes "serialize error: " ++ e)), w)
    | panic ↦ (panic, w)
  ]

  -- The loop of `record_batch`, which stops at the first error.
  unfoldable pub insert_events : List BuildEvent → Write W
  unfolding insert_event
  insert_events [] w = (ok tt, w)
  insert_events (event ∷ events) w =
      let (r, w') = insert_event event w in
      elim r [ ok u ↦ insert_events events w' | err e ↦ (err e, w') | panic ↦ (panic, w') ]

  abbrev poisoned : CacheError
  poisoned = backend (codes "connection mutex poisoned")

  unfoldable pub record_event : BuildEvent → Write W
  unfolding insert_event codes
  record_event event w = if d.is_poisoned w then (err poisoned, w) else insert_event event w

  -- The drop of a transaction that is not committed rolls it back.
  unfoldable pub commit_batch :
      T → Result CacheError (Unit {0}) × W → Result CacheError (Unit {0}) × W
  unfolding codes
  commit_batch tx (err e, w) = (err e, d.rollback tx w)
  commit_batch tx (panic, w) = (panic, d.rollback tx w)
  commit_batch tx (ok u, w) =
      let (r, w') = d.commit tx w in
      elim r [
        | ok u ↦ (ok tt, w')
        | err e ↦ (err (backend (codes "commit transaction: " ++ e)), d.rollback tx w')
        | panic ↦ (panic, d.rollback tx w')
      ]

  -- `record_batch` of a batch that is not empty.
  unfoldable pub write_batch : List BuildEvent → Write W
  unfolding insert_events commit_batch codes
  write_batch events w = elim (d.is_poisoned w) [
    | true ↦ (err poisoned, w)
    | false ↦
        let (r, w') = d.transaction w in
        elim r [
          | ok tx ↦ commit_batch tx (insert_events events w')
          | err e ↦ (err (backend (codes "begin transaction: " ++ e)), w')
          | panic ↦ (panic, w')
        ]
  ]

  unfoldable pub record_batch : List BuildEvent → Write W
  unfolding write_batch
  record_batch [] w = (ok tt, w)
  record_batch (event ∷ events) w = write_batch (event ∷ events) w

  unfoldable pub sqlite : Cache W
  unfolding fetch record_event record_batch
  sqlite = record {
    last_build = λ w i. event_of (fetch w i);
    last_record = fetch;
    record_event = record_event;
    record_batch = record_batch;
  }
