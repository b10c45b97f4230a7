-- ===== src/Cli/Sync.antt =====
-- `repolith sync` (crates/repolith-cli/src/main.rs), on an orchestrator that is set up. The ticks of the
-- heartbeat, which only add lines, are left out.
pub mod Forced
use repolith.Prelude.{
  ℕ, suc, Bool, true, false, Option, none, some, List, [], ◌∷◌, ◌++◌, Result, ok, err, panic, keep,
  length, is_empty, not, ◌||◌, ◌&&◌, if◌then◌else◌,
}
use repolith.Prelude.Maps.{distinct}
use repolith.Prelude.Texts.{Text, codes, decimal, starts_with}
use repolith.Types.{ActionId, action_id_eq, ExecMode, fail_fast, keep_going}
use repolith.Action.{Action}
use repolith.Plan.Layers.{PlanError}
use repolith.Plan.Compute.{Plan}
use repolith.Plan.Reasons.{ChangeReason, reason_to_string}
use repolith.Engine.Builder.{
  Orchestrator, ExecError, layer_failed, plan, cache, compute_plan_with_forced,
}
use repolith.Engine.Layer.{Turn}
use repolith.Engine.Run.{Outcome, execute_plan_observed}
use repolith.Cli.Progress.{CliProgress, new, replay, summary}

pub record SyncArgs : Type 0 where
  pub jobs : ℕ
  pub keep_going : Bool
  pub explain : Bool
  pub dry_run : Bool
  pub force : Option Text

-- The errors that a sync exits with.
pub data SyncError : Type 0 where
  no_match : (filter : Text) → SyncError
  not_planned : PlanError → SyncError
  sync_failed : SyncError
  not_executed : ExecError → SyncError

-- `str::contains`.
unfoldable pub has_text : (needle : Text) → Text → Bool
unfolding starts_with
has_text needle [] = starts_with needle []
has_text needle (c ∷ s) = starts_with needle (c ∷ s) || has_text needle s

abbrev pub ids_of : List Action → List ActionId
ids_of [] = []
ids_of (a ∷ actions) = a.id ∷ ids_of actions

unfoldable pub resolve_forced :
    List Action → (filter : Option Text) → Result SyncError (List ActionId)
unfolding has_text keep distinct
resolve_forced actions none = ok []
resolve_forced actions (some filter) =
    let forced = distinct (keep (λ i. has_text filter i.name) (ids_of actions)) in
    if is_empty forced && not (is_empty filter) then err (no_match filter) else ok forced

unfoldable pub reason_lines : (encode : List ℕ → Text) → List (ActionId × ChangeReason) → List Text
unfolding codes
reason_lines encode [] = []
reason_lines encode ((i, reason) ∷ reasons) =
    (codes "• " ++ (i.name ++ (codes ": " ++ reason_to_string encode reason)))
    ∷ reason_lines encode reasons

unfoldable pub explained : (encode : List ℕ → Text) → SyncArgs → Plan → List Text
unfolding reason_lines codes
explained encode args p =
    if args.explain || args.dry_run
    then if is_empty p.reasons
      then codes "up to date — no stale actions" ∷ []
      else reason_lines encode p.reasons
    else []

-- What a sync leaves behind: its exit, what it printed before the run, what it showed, the cache.
pub record Synced (S : Type 0) : Type 0 where
  pub exit : Result SyncError (Unit {0})
  pub printed : List Text
  pub progress : CliProgress
  pub state : S

module _ {S : Type 0} (encode : List ℕ → Text) (now : ℕ → ℕ) where
  -- The summary and the exit of a run.
  unfoldable pub report : List Text → Outcome S → Synced S
  unfolding replay summary
  report printed out =
      let shown = replay now out.calls new in
      elim out.answer [
        | ok events ↦ record {
          exit = ok tt;
          printed = printed;
          progress = summary events shown;
          state = out.state;
        }
        | err e ↦ elim e [
          | layer_failed events ↦ record {
            exit = err sync_failed;
            printed = printed;
            progress = summary events shown;
            state = out.state;
          }
          | plan e ↦ record {
            exit = err (not_executed (plan e));
            printed = printed;
            progress = shown;
            state = out.state;
          }
          | cache e ↦ record {
            exit = err (not_executed (cache e));
            printed = printed;
            progress = shown;
            state = out.state;
          }
        ]
        | panic ↦ record { exit = panic; printed = printed; progress = shown; state = out.state }
      ]

  abbrev stopped : Orchestrator S → List Text → Result SyncError (Unit {0}) → Synced S
  stopped o printed exit = record {
    exit = exit;
    printed = printed;
    progress = new;
    state = o.store.state;
  }

  -- With the plan.
  unfoldable pub sync_plan :
      Orchestrator S → SyncArgs → (schedules : List (List Turn)) → Plan → Option (Synced S)
  unfolding explained report execute_plan_observed decimal codes
  sync_plan o args schedules p = elim args.dry_run [
    | true ↦ some (
        stopped o
          (explained encode args p
            ++ (codes "dry-run: " ++ (decimal (length p.reasons) ++ codes " action(s) would run"))
              ∷ [])
          (ok tt))
    | false ↦
        elim (execute_plan_observed o p (if args.keep_going then keep_going else fail_fast)
          schedules) [ none ↦ none | some out ↦ some (report (explained encode args p) out) ]
  ]

  unfoldable pub run_sync :
      Orchestrator S → SyncArgs → (schedules : List (List Turn)) → Option (Synced S)
  unfolding resolve_forced compute_plan_with_forced sync_plan
  run_sync o args schedules = elim (resolve_forced o.actions args.force) [
    | err e ↦ some (stopped o [] (err e))
    | panic ↦ some (stopped o [] panic)
    | ok forced ↦ elim (compute_plan_with_forced o forced) [
      | err e ↦ some (stopped o [] (err (not_planned e)))
      | panic ↦ some (stopped o [] panic)
      | ok p ↦ sync_plan o args schedules p
    ]
  ]
