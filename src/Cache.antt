-- ===== src/Cache.antt =====
-- The cache trait: crates/repolith-core/src/cache.rs. `S` is the state of a backend. A write gives
-- the new state also when it fails, since a failed write may have changed some of it.
pub mod Contract
pub mod Namespaced
pub mod Sqlite
use repolith.Prelude.{Option, none, some, List, [], ◌∷◌, Result, ok, err, panic}
use repolith.Prelude.Texts.{Text}
use repolith.Types.{ActionId, BuildEvent, BuildRecord}

pub data CacheError : Type 0 where
  io : Text → CacheError
  backend : Text → CacheError

abbrev pub Write : Type 0 → Type 0
Write S = S → Result CacheError (Unit {0}) × S

pub record Cache (S : Type 0) : Type 0 where
  pub last_build : S → ActionId → Option BuildEvent
  pub last_record : S → ActionId → Option BuildRecord
  pub record_event : BuildEvent → Write S
  pub record_batch : List BuildEvent → Write S

-- The default body of `last_record`.
unfoldable pub default_last_record : Option BuildEvent → Option BuildRecord
default_last_record none = none
default_last_record (some event) = some (record { event = event; recorded_at = none })

-- The default body of `record_batch`: a loop that stops at the first error.
unfoldable pub default_record_batch :
    {S : Type 0} → (BuildEvent → Write S) → List BuildEvent → Write S
default_record_batch record_event [] s = (ok tt, s)
default_record_batch record_event (event ∷ events) s =
    let (r, s') = record_event event s in
    elim r [
      | ok u ↦ default_record_batch record_event events s'
      | err e ↦ (err e, s')
      | panic ↦ (panic, s')
    ]
