-- ===== src/Examples/Running.antt =====
-- A run of the plan for two actions, with one permit.
use repolith.Prelude.{◌≤◌, ◌≡◌, refl, false, none, some, List, [], ◌∷◌, All, ok, list_beq}
use repolith.Prelude.Maps.{get, insert}
use repolith.Types.{ActionId, action_id_eq, id_beq, fail_fast, BuildEvent, success, event_id}
use repolith.Plan.Compute.{by_id_of}
use repolith.Engine.Builder.{Orchestrator, cache_boxed, max_parallelism, builder, set, build}
use repolith.Engine.Run.{pool}
use repolith.Engine.Run.Permits.{configure, build-pool}
use repolith.Engine.Layer.{
  Call, on_layer_start, on_layer_end, on_action_start, on_action_ok, Pending, Turn, start, finish,
  LayerRun, drain, initial, execute_layer,
}
use repolith.Engine.Layer.Accounts.{weigh, charge, emitted, event_input}
use repolith.Engine.Layer.Complete.{due, execute_layer-IsComplete}
use repolith.Engine.Layer.Progress.{drain-IsBounded}
use repolith.Engine.Run.{Outcome, execute_plan_observed}
use repolith.Engine.Run.Laws.{
  Ended, dues, execute_plan_observed-Ended, execute_plan_observed-IsComplete,
}
use repolith.Examples.{
  clone_id, install_id, digest, clone, install, both, quiet, memory, fresh_plan,
}

abbrev pub pair : List Pending
pair =
    record { id = clone_id; action = clone; input_hash = digest }
    ∷ record { id = install_id; action = install; input_hash = digest }
    ∷ []

abbrev pub half_way : LayerRun
half_way = record {
  queued = record { id = install_id; action = install; input_hash = digest } ∷ [];
  running = record { id = clone_id; action = clone; input_hash = digest } ∷ [];
  free = 0;
  is_cancelled = false;
  events = [];
  calls = on_action_start clone_id ∷ [];
  panicked = false;
}

pub drain-start : drain fail_fast quiet (start clone_id ∷ []) (initial pair 1) ≡ some half_way
unfolding drain id_beq list_beq
drain-start = refl

drain-IsBounded_example : weigh charge half_way.running ≤ 1
drain-IsBounded_example =
    drain-IsBounded fail_fast quiet pair 1 (start clone_id ∷ []) half_way drain-start refl

abbrev pub one_layer : List Turn
one_layer =
    start install_id ∷ finish install_id 4 false ∷ start clone_id ∷ finish clone_id 5 false ∷ []

abbrev pub layer_events : List BuildEvent
layer_events = success install_id digest digest 4 ∷ success clone_id digest digest 5 ∷ []

abbrev pub layer_calls : List Call
layer_calls =
    on_action_start install_id
    ∷ on_action_ok install_id 4
    ∷ on_action_start clone_id
    ∷ on_action_ok clone_id 5
    ∷ on_layer_end 1
    ∷ []

pub layer-settled :
    execute_layer fail_fast quiet
      (by_id_of both)
      fresh_plan.input_hashes
      1
      1
      (clone_id ∷ install_id ∷ [])
      one_layer
    ≡ some (ok layer_events, layer_calls)
unfolding execute_layer by_id_of get insert id_beq list_beq
layer-settled = refl

execute_layer-IsComplete_example :
    ((x : ActionId) → emitted x layer_events ≡ due (by_id_of both) (clone_id ∷ install_id ∷ []) x)
    × All (λ e. get (event_id e) fresh_plan.input_hashes ≡ some (event_input e)) layer_events
execute_layer-IsComplete_example =
    execute_layer-IsComplete fail_fast quiet (by_id_of both) fresh_plan.input_hashes 1 1
      (clone_id ∷ install_id ∷ []) one_layer layer_events layer_calls layer-settled

abbrev pub engine : Orchestrator (List BuildEvent)
engine = record {
  actions = both;
  store = record { cache = memory; state = [] };
  manifest = none;
  max_parallelism = 1;
  shared_semaphore = none;
  base_ctx = quiet;
}

abbrev pub schedules : List (List Turn)
schedules =
    (start clone_id ∷ finish clone_id 5 false ∷ [])
    ∷ (start install_id ∷ finish install_id 4 false ∷ [])
    ∷ []

abbrev pub events : List BuildEvent
events = success clone_id digest digest 5 ∷ success install_id digest digest 4 ∷ []

abbrev pub outcome : Outcome (List BuildEvent)
outcome = record {
  answer = ok events;
  state = success install_id digest digest 4 ∷ success clone_id digest digest 5 ∷ [];
  calls =
      on_layer_start 1 2 (clone_id ∷ [])
      ∷ on_action_start clone_id
      ∷ on_action_ok clone_id 5
      ∷ on_layer_end 1
      ∷ on_layer_start 2 2 (install_id ∷ [])
      ∷ on_action_start install_id
      ∷ on_action_ok install_id 4
      ∷ on_layer_end 2
      ∷ [];
}

pub plan-executed : execute_plan_observed engine fresh_plan fail_fast schedules ≡ some outcome
unfolding execute_plan_observed by_id_of get insert id_beq list_beq
plan-executed = refl

execute_plan_observed-Ended_example : Ended memory [] [] (ok events) outcome.state
execute_plan_observed-Ended_example =
    execute_plan_observed-Ended engine fresh_plan fail_fast schedules outcome plan-executed

execute_plan_observed-IsComplete_example :
    emitted install_id events ≡ dues fresh_plan (by_id_of both) fresh_plan.layers install_id
execute_plan_observed-IsComplete_example =
    execute_plan_observed-IsComplete engine fresh_plan fail_fast schedules outcome events
      plan-executed refl install_id

build-engine :
    build (
      configure
        (cache_boxed (record { cache = memory; state = [] }) ∷ max_parallelism 0 ∷ [])
        (builder 4 []))
    ≡ ok (record engine { actions = [] })
unfolding build set builder
build-engine = refl

build-pool_example : 1 ≤ pool (record engine { actions = [] })
build-pool_example =
    build-pool 4 [] (cache_boxed (record { cache = memory; state = [] }) ∷ max_parallelism 0 ∷ [])
      (record engine { actions = [] }) (tt, (tt, tt)) build-engine
