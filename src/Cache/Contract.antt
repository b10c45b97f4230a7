-- ===== src/Cache/Contract.antt =====
-- What the cache trait promises of a backend (crates/repolith-core/src/cache.rs): the last event
-- of each id is what is read back, for the events that every backend can hold.
use repolith.Prelude.{
  ◌≡◌, ◌≤◌, ◌<◌, Option, none, some, List, [], ◌∷◌, ok, ◌==◌, if◌then◌else◌, length, All,
}
use repolith.Types.{
  ActionId, action_id_eq, Sha256, BuildEvent, success, failed, event_id, BuildRecord,
}
use repolith.Cache.{Cache}

-- What is read for an id after an event is written.
abbrev pub after_event : ActionId → BuildEvent → Option BuildEvent → Option BuildEvent
after_event i e before = if event_id e == i then some e else before

abbrev pub after_batch : ActionId → List BuildEvent → Option BuildEvent → Option BuildEvent
after_batch i [] before = before
after_batch i (e ∷ events) before = after_batch i events (after_event i e before)

abbrev pub event_of : Option BuildRecord → Option BuildEvent
event_of none = none
event_of (some r) = some r.event

-- `[u8; 32]`.
abbrev pub IsDigest : Sha256 → Type 0
IsDigest h = (length h.bytes ≡ 32) × All (λ b. b < 256) h.bytes

-- Digests of 32 bytes, and a duration that fits a signed 64-bit column.
abbrev pub IsStorable : BuildEvent → Type 0
IsStorable (success i input output ms) =
    IsDigest input × IsDigest output × (ms ≤ 9223372036854775807)
IsStorable (failed i input error ms) = IsDigest input × (ms ≤ 9223372036854775807)

module _ {S : Type 0} where
  -- The contract: a write that succeeds is read back, and touches no other id.
  pub record IsStore (c : Cache S) : Type 0 where
    pub reads_event :
        (e : BuildEvent) (s s' : S)
        → IsStorable e
        → c.record_event e s ≡ (ok tt, s')
        → (i : ActionId) → c.last_build s' i ≡ after_event i e (c.last_build s i)
    pub reads_batch :
        (events : List BuildEvent) (s s' : S)
        → All IsStorable events
        → c.record_batch events s ≡ (ok tt, s')
        → (i : ActionId) → c.last_build s' i ≡ after_batch i events (c.last_build s i)
    pub reads_record : (s : S) (i : ActionId) → event_of (c.last_record s i) ≡ c.last_build s i
