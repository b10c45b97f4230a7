-- ===== src/Engine/Layer.antt =====
-- `execute_layer` (crates/repolith-engine/src/orchestrator.rs). The runtime that drives the futures
-- is a schedule, the list of the turns that happen: an action gets its permit, the base token
-- fires, an action finishes. A turn that the code does not allow gives `none`.
pub mod Accounts
pub mod Complete
pub mod Progress
use repolith.Prelude.{
  ℕ, zero, suc, Bool, true, false, Option, none, some, List, [], ◌∷◌, ◌++◌, Result, ok, err, panic,
  ◌>>=◌, ◌>>◌, ◌==◌, ◌||◌, ◌&&◌, not, is_empty, if◌then◌else◌,
}
use repolith.Prelude.Maps.{get}
use repolith.Types.{
  ActionId, action_id_eq, Sha256, Ctx, CancellationToken, ExecMode, fail_fast, keep_going,
  BuildError, cancelled, upstream_unreachable, command_failed, io, BuildOutput, BuildEvent, success,
  failed,
}
use repolith.Action.{Action}
use repolith.Plan.Compute.{ById}
use repolith.Engine.Builder.{ExecError}

-- The calls of a `ProgressSink`.
pub data Call : Type 0 where
  on_layer_start : (index total : ℕ) (actions : List ActionId) → Call
  on_layer_end : (index : ℕ) → Call
  on_action_start : ActionId → Call
  on_action_ok : ActionId → (ms : ℕ) → Call
  on_action_failed : ActionId → BuildError → (ms : ℕ) → Call
  on_action_cancelled : ActionId → (ms : ℕ) → Call

-- A future of the layer: what the async block has captured.
pub record Pending : Type 0 where
  pub id : ActionId
  pub action : Action
  pub input_hash : Sha256

abbrev expect : {A : Type 0} → Option A → Result ExecError A
expect none = panic
expect (some a) = ok a

-- The futures, in the order of the ids; an id without an action is skipped, and one without a
-- planned hash panics.
unfoldable pub prepare :
    ById
    → (input_hashes : List (ActionId × Sha256)) → List ActionId
    → Result ExecError (List Pending)
prepare by_id input_hashes [] = ok []
prepare by_id input_hashes (i ∷ ids) = elim (get i by_id) [
  | none ↦ prepare by_id input_hashes ids
  | some action ↦ do
    hash ← expect (get i input_hashes)
    rest ← prepare by_id input_hashes ids
    ok (record { id = i; action = action; input_hash = hash } ∷ rest)
]

pub data Turn : Type 0 where
  start : ActionId → Turn
  interrupt : Turn
  finish : ActionId → (ms : ℕ) (sees_cancel : Bool) → Turn

-- The layer at work: futures that wait for a permit, those that run, the free permits, the layer's
-- token, and what has been emitted.
pub record LayerRun : Type 0 where
  pub queued : List Pending
  pub running : List Pending
  pub free : ℕ
  pub is_cancelled : Bool
  pub events : List BuildEvent
  pub calls : List Call
  pub panicked : Bool

-- The future with an id, and the others.
unfoldable pub take_out : ActionId → List Pending → Option (Pending × List Pending)
take_out i [] = none
take_out i (p ∷ ps) =
    let rest = take_out i ps in
    if p.id == i
    then some (p, ps)
    else elim rest [ none ↦ none | some (q, others) ↦ some (q, p ∷ others) ]

-- `sem.acquire()`, which a coordinator skips: the permits left, or none while it has to wait.
unfoldable pub acquire : Pending → ℕ → Option ℕ
acquire p free = elim p.action.is_coordinator [
  | true ↦ some free
  | false ↦ elim free [ zero ↦ none | suc n ↦ some n ]
]

-- The drop of the permit.
unfoldable pub release : Pending → ℕ → ℕ
release p free = if p.action.is_coordinator then free else suc free

unfoldable pub start_future : Pending × List Pending → LayerRun → Option LayerRun
unfolding acquire
start_future (p, others) r = elim (acquire p r.free) [
  | none ↦ none
  | some free ↦ some (record r {
    queued = others;
    running = p ∷ r.running;
    free = free;
    calls = r.calls ++ on_action_start p.id ∷ [];
  })
]

-- What an action sees of the layer's token.
abbrev token : Bool → CancellationToken
token sees = record { is_cancelled = λ n. sees; wins_race = λ i. sees }

unfoldable pub failure_call : ActionId → BuildError → ℕ → Call
failure_call i cancelled ms = on_action_cancelled i ms
failure_call i (upstream_unreachable s) ms = on_action_failed i (upstream_unreachable s) ms
failure_call i (command_failed code stderr) ms = on_action_failed i (command_failed code stderr) ms
failure_call i (io s) ms = on_action_failed i (io s) ms

-- `cancel.cancel()` under `FailFast`.
abbrev after_failure : ExecMode → Bool → Bool
after_failure fail_fast cancel = true
after_failure keep_going cancel = cancel

-- The body of the drain loop for one finished future; the permit is dropped with the future. A
-- panic of the action drops every other future.
unfoldable pub settle_future :
    ExecMode → Pending → (ms : ℕ) → Result BuildError BuildOutput → LayerRun → LayerRun
unfolding failure_call release
settle_future mode p ms (ok out) r = record r {
  free = release p r.free;
  events = r.events ++ success p.id p.input_hash out.output_hash ms ∷ [];
  calls = r.calls ++ on_action_ok p.id ms ∷ [];
}
settle_future mode p ms (err e) r = record r {
  free = release p r.free;
  is_cancelled = after_failure mode r.is_cancelled;
  events = r.events ++ failed p.id p.input_hash e ms ∷ [];
  calls = r.calls ++ failure_call p.id e ms ∷ [];
}
settle_future mode p ms panic r = record r { queued = []; running = []; panicked = true }

abbrev pub with_running : LayerRun → List Pending → LayerRun
with_running r others = record r { running = others }

-- One turn.
unfoldable pub take_turn : ExecMode → Ctx → Turn → LayerRun → Option LayerRun
unfolding take_out start_future settle_future
take_turn mode ctx (start i) r = elim (take_out i r.queued) [
  | none ↦ none
  | some found ↦ start_future found r
]
take_turn mode ctx interrupt r = some (record r { is_cancelled = true })
take_turn mode ctx (finish i ms sees) r = elim (not sees || r.is_cancelled) [
  | false ↦ none
  | true ↦ elim (take_out i r.running) [
    | none ↦ none
    | some (p, others) ↦ some (
        settle_future mode p ms (p.action.execute (record ctx { cancel = token sees }))
          (with_running r others))
  ]
]

-- The turns of a schedule, one after the other.
unfoldable pub drain : ExecMode → Ctx → List Turn → LayerRun → Option LayerRun
unfolding take_turn
drain mode ctx [] r = some r
drain mode ctx (t ∷ schedule) r = elim (take_turn mode ctx t r) [
  | none ↦ none
  | some r' ↦ drain mode ctx schedule r'
]

unfoldable pub is_finished : LayerRun → Bool
is_finished r = is_empty r.queued && is_empty r.running

-- `LayerGuard` reports the end of the layer on every way out.
unfoldable pub guarded : (index : ℕ) → LayerRun → Result ExecError (List BuildEvent) × List Call
guarded index r = (if r.panicked then panic else ok r.events, r.calls ++ on_layer_end index ∷ [])

abbrev pub initial : List Pending → ℕ → LayerRun
initial pending permits = record {
  queued = pending;
  running = [];
  free = permits;
  is_cancelled = false;
  events = [];
  calls = [];
  panicked = false;
}

unfoldable pub execute_layer :
    ExecMode
    → Ctx
    → ById
    → (input_hashes : List (ActionId × Sha256)) → (permits index : ℕ) → (stale_ids : List ActionId)
    → (schedule : List Turn) → Option (Result ExecError (List BuildEvent) × List Call)
unfolding prepare drain is_finished guarded
execute_layer mode ctx by_id input_hashes permits index stale_ids schedule =
    elim (prepare by_id input_hashes stale_ids) [
      | err e ↦ some (err e, on_layer_end index ∷ [])
      | panic ↦ some (panic, on_layer_end index ∷ [])
      | ok pending ↦ elim (drain mode ctx schedule (initial pending permits)) [
        | none ↦ none
        | some r ↦ if is_finished r then some (guarded index r) else none
      ]
    ]
