-- ===== src/Engine/Run.antt =====
-- `execute_plan_observed` and `execute_plan` (crates/repolith-engine/src/orchestrator.rs).
pub mod Batches
pub mod Laws
pub mod Reads
pub mod Again
pub mod Permits
use repolith.Prelude.{
  ℕ, zero, suc, Bool, true, false, Option, none, some, List, [], ◌∷◌, ◌++◌, Result, ok, err, panic,
  any, keep, length, is_empty, not, if◌then◌else◌,
}
use repolith.Prelude.Maps.{has}
use repolith.Types.{ActionId, action_id_eq, Sha256, Ctx, ExecMode, BuildEvent, is_failed}
use repolith.Action.{Action}
use repolith.Cache.{Cache, CacheError}
use repolith.Plan.Reasons.{ChangeReason}
use repolith.Plan.Compute.{Plan, ById, by_id_of}
use repolith.Engine.Builder.{Store, Orchestrator, ExecError, layer_failed, plan, cache}
use repolith.Engine.Layer.{Call, on_layer_start, Turn, execute_layer}

-- The ids of a layer that the plan gives a reason for.
unfoldable pub stale_of : Plan → List ActionId → List ActionId
unfolding keep
stale_of p layer = keep (λ i. has i p.reasons) layer

-- What a run has done: its answer, the cache's state, the sink's calls.
pub record Outcome (S : Type 0) : Type 0 where
  pub answer : Result ExecError (List BuildEvent)
  pub state : S
  pub calls : List Call

-- What the run carries from layer to layer: the polls of the base token, the layers started.
pub record Progress (S : Type 0) : Type 0 where
  pub polls : ℕ
  pub layer_index : ℕ
  pub all_events : List BuildEvent
  pub state : S
  pub calls : List Call

abbrev leave : {S : Type 0} → Progress S → Result ExecError (List BuildEvent) → Outcome S
leave g answer = record { answer = answer; state = g.state; calls = g.calls }

module _ {S : Type 0} (c : Cache S) where
  -- After the batch of a layer is written: the next layer's progress, or the way out.
  unfoldable pub after_write :
      (events : List BuildEvent)
      → Result CacheError (Unit {0})
      → Progress S
      → Result (Outcome S) (Progress S)
  unfolding any
  after_write events (err e) g = err (leave g (err (cache e)))
  after_write events panic g = err (leave g panic)
  after_write events (ok u) g =
      let all = g.all_events ++ events in
      if any is_failed events
      then err (leave g (err (layer_failed all)))
      else ok (record g { all_events = all })

  -- The batch of a layer that has settled.
  unfoldable pub persist : (events : List BuildEvent) → Progress S → Result (Outcome S) (Progress S)
  unfolding after_write
  persist events g =
      let (written, state) = c.record_batch events g.state in
      after_write events written (record g { state = state })

  -- The result of `execute_layer`, and then the cache.
  unfoldable pub close_layer :
      Result ExecError (List BuildEvent) × List Call → Progress S → Result (Outcome S) (Progress S)
  unfolding persist
  close_layer (ok events, calls) g = persist events (record g { calls = g.calls ++ calls })
  close_layer (err e, calls) g = err (leave (record g { calls = g.calls ++ calls }) (err e))
  close_layer (panic, calls) g = err (leave (record g { calls = g.calls ++ calls }) panic)

module _ {S : Type 0} (c : Cache S) (mode : ExecMode) (ctx : Ctx) (by_id : ById) (permits : ℕ)
    (p : Plan) (total : ℕ) where
  -- One layer with work to do; its schedule is the first of those left.
  unfoldable pub run_layer :
      (stale : List ActionId) → List Turn → Progress S → Option (Result (Outcome S) (Progress S))
  unfolding execute_layer close_layer
  run_layer stale schedule g =
      let index = suc g.layer_index in
      let announced = record g {
        layer_index = index;
        calls = g.calls ++ on_layer_start index total stale ∷ [];
      } in
      elim (execute_layer mode ctx by_id p.input_hashes permits index stale schedule) [
        | none ↦ none
        | some done ↦ some (close_layer c done announced)
      ]

  -- The loop over the layers. A layer with nothing stale uses no schedule.
  unfoldable pub run_layers :
      List (List ActionId) → List (List Turn) → Progress S → Option (Outcome S)
  unfolding stale_of run_layer
  run_layers [] schedules g = some (leave g (ok g.all_events))
  run_layers (layer ∷ layers) schedules g = elim (ctx.cancel.is_cancelled g.polls) [
    | true ↦ some (leave g (err (layer_failed g.all_events)))
    | false ↦
        let next = record g { polls = suc g.polls } in
        elim (stale_of p layer) [
          | [] ↦ run_layers layers schedules next
          | i ∷ ids ↦ elim schedules [
            | [] ↦ none
            | schedule ∷ later ↦ elim (run_layer (i ∷ ids) schedule next) [
              | none ↦ none
              | some (err out) ↦ some out
              | some panic ↦ none
              | some (ok g') ↦ run_layers layers later g'
            ]
          ]
        ]
  ]

-- The permits that the run draws on.
abbrev pub pool : {S : Type 0} → Orchestrator S → ℕ
pool o = elim o.shared_semaphore [ none ↦ o.max_parallelism | some permits ↦ permits ]

-- `total_running`.
unfoldable pub total_running : Plan → ℕ
unfolding keep stale_of
total_running p = length (keep (λ layer. not (is_empty (stale_of p layer))) p.layers)

unfoldable pub execute_plan_observed :
    {S : Type 0}
    → Orchestrator S
    → Plan
    → ExecMode
    → (schedules : List (List Turn)) → Option (Outcome S)
unfolding run_layers total_running
execute_plan_observed o p mode schedules =
    run_layers o.store.cache mode o.base_ctx (by_id_of o.actions) (pool o) p (total_running p)
      p.layers schedules
      (record { polls = 0; layer_index = 0; all_events = []; state = o.store.state; calls = [] })

-- `execute_plan`: the same run, whose sink hears nothing.
unfoldable pub execute_plan :
    {S : Type 0}
    → Orchestrator S
    → Plan
    → ExecMode
    → (schedules : List (List Turn)) → Option (Result ExecError (List BuildEvent) × S)
unfolding execute_plan_observed
execute_plan o p mode schedules = elim (execute_plan_observed o p mode schedules) [
  | none ↦ none
  | some out ↦ some (out.answer, out.state)
]
