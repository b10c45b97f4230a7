-- ===== src/Plan/Reasons.antt =====
-- Why an action is stale: `ChangeReason`, its `Display`, and `classify`
-- (crates/repolith-core/src/plan.rs).
pub mod Laws
use repolith.Prelude.{
  ℕ, Bool, true, false, Option, none, some, List, [], ◌∷◌, ◌++◌, ◌&&◌, length, take, find, ltb,
  ◌==◌, nat_eq, contains, if◌then◌else◌,
}
use repolith.Prelude.Texts.{Text, codes}
use repolith.Types.{
  ActionId, action_id_eq, Sha256, sha256_eq, short, BuildEvent, success, failed, error_to_string,
}
use repolith.Action.{Action}

pub data ChangeReason : Type 0 where
  no_cached_build : ChangeReason
  input_hash_changed : (before after : Sha256) → ChangeReason
  upstream_moved : (dep : ActionId) → ChangeReason
  output_missing : ChangeReason
  previous_failure : (error : Text) → ChangeReason
  forced : ChangeReason

starts_with_feed : Text → Bool
starts_with_feed [] = false
starts_with_feed (c ∷ s) = c == 10

-- `error.lines().next().unwrap_or(error)`: the text up to the first line feed, without a carriage
-- return right before it.
unfoldable pub first_line : Text → Text
unfolding starts_with_feed
first_line [] = []
first_line (c ∷ s) =
    let rest = first_line s in
    if c == 10 then [] else if (c == 13) && starts_with_feed s then [] else c ∷ rest

-- `trimmed.len() < first.len()` counts bytes: a prefix has fewer bytes when it has fewer characters.
pub failure_cell : Text → Text
unfolding codes
failure_cell first =
    let trimmed = take 72 first in
    let cell = codes "previous run failed: " ++ trimmed in
    if ltb (length trimmed) (length first) then cell ++ codes "..." else cell

-- `ChangeReason`'s `Display`; `encode` is `hex::encode`.
pub reason_to_string : (encode : List ℕ → Text) → ChangeReason → Text
unfolding codes short failure_cell first_line
reason_to_string encode no_cached_build = codes "never built"
reason_to_string encode forced = codes "forced"
reason_to_string encode (input_hash_changed before after) =
    codes "inputs changed ("
    ++ (short encode before ++ (codes " -> " ++ (short encode after ++ codes ")")))
reason_to_string encode (upstream_moved dep) = codes "upstream " ++ (dep.name ++ codes " is stale")
reason_to_string encode output_missing = codes "artifact missing"
reason_to_string encode (previous_failure error) = failure_cell (first_line error)

moved : Option ActionId → Option ChangeReason
moved none = none
moved (some dep) = some (upstream_moved dep)

-- The match on the cached event.
classify_event : Action → Sha256 → List ActionId → Bool → BuildEvent → Option ChangeReason
unfolding moved find contains
classify_event action now stale output_present (failed id input error ms) =
    some (previous_failure (error_to_string error))
classify_event action now stale output_present (success id input output ms) =
    if input == now
    then if output_present then moved (find (contains stale) action.deps) else some output_missing
    else some (input_hash_changed input now)

unfoldable pub classify :
    Action
    → Sha256
    → Option BuildEvent
    → List ActionId
    → (output_present forced : Bool) → Option ChangeReason
unfolding classify_event
classify action now last stale output_present true = some forced
classify action now none stale output_present false = some no_cached_build
classify action now (some event) stale output_present false =
    classify_event action now stale output_present event
