-- ===== src/Examples/Showing.antt =====
-- What is shown of a layer of two actions.
use repolith.Prelude.{ℕ, ◌≡◌, ◌≤◌, refl, [], ◌∷◌, ◌++◌, List, ok, contains, ltb, list_beq, length}
use repolith.Prelude.Maps.{get, has, insert, IsNodup}
use repolith.Types.{action_id_eq, id_beq, fail_fast, io}
use repolith.Plan.Compute.{by_id_of}
use repolith.Plan.Reasons.Laws.{IsOneLine}
use repolith.Engine.Layer.{Call, on_layer_end, prepare, start}
use repolith.Engine.Layer.Accounts.{weigh, is_at}
use repolith.Cli.Progress.{new, brief, replay}
use repolith.Cli.Progress.Brief.{brief-IsShort}
use repolith.Cli.Progress.Layers.{in_flight-running, execute_layer-shown}
use repolith.Examples.{clone_id, install_id, both, quiet, fresh_plan}
use repolith.Examples.Running.{
  pair, half_way, drain-start, one_layer, layer_events, layer_calls, layer-settled,
}

abbrev clock : ℕ → ℕ
clock k = k

both-IsNodup : IsNodup (clone_id ∷ install_id ∷ [])
unfolding contains id_beq list_beq
both-IsNodup = (refl, (refl, tt))

pair-prepared :
    prepare (by_id_of both) fresh_plan.input_hashes (clone_id ∷ install_id ∷ []) ≡ ok pair
unfolding prepare by_id_of get insert id_beq list_beq
pair-prepared = refl

in_flight-running_example :
    has clone_id (replay clock half_way.calls new).in_flight
    ≡ ltb 0 (weigh (is_at clone_id) half_way.running)
in_flight-running_example =
    in_flight-running clock new fail_fast quiet (by_id_of both) fresh_plan.input_hashes 1
      (clone_id ∷ install_id ∷ []) (start clone_id ∷ []) pair half_way refl refl both-IsNodup
      pair-prepared drain-start refl clone_id

execute_layer-shown_example :
    (before : List Call) × (layer_calls ≡ before ++ on_layer_end 1 ∷ [])
    × ((replay clock before new).in_flight ≡ [])
    × ((replay clock layer_calls new).written ≡ (replay clock before new).written)
execute_layer-shown_example =
    execute_layer-shown clock new fail_fast quiet (by_id_of both) fresh_plan.input_hashes 1
      (clone_id ∷ install_id ∷ []) 1 one_layer layer_events layer_calls refl refl both-IsNodup
      layer-settled

brief-IsShort_example :
    IsOneLine (brief (io (b'a' ∷ 10 ∷ []))) × (length (brief (io (b'a' ∷ 10 ∷ []))) ≤ 73)
brief-IsShort_example = brief-IsShort (io (b'a' ∷ 10 ∷ []))
