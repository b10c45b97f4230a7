-- ===== src/Engine/Stacks.antt =====
-- A run with the child stacks that its coordinators run, all on one pool of permits:
-- `execute_layer` and `run_layers` of crates/repolith-engine/src/orchestrator.rs, and
-- `RepolithSync::execute` of federation.rs there, of which the parts are kept that wait for
-- something: a permit, a child's run, a layer. A panic, which ends the whole run, is left out.
pub mod Permits
pub mod Deadlocks
use repolith.Prelude.{ℕ, zero, suc, ◌≡◌, some, List, [], ◌∷◌}
use repolith.Engine.Layer.{Pending, acquire, release}

-- What a run still awaits. `waits` and `runs` are a future before and after it has its permit,
-- with the run of its child stack; `beside` are futures of one layer, `before` two layers.
pub data Futures : Type 0 where
  over : Futures
  waits : Pending → (child : Futures) → Futures
  runs : Pending → (child : Futures) → Futures
  beside : Futures → Futures → Futures
  before : Futures → Futures → Futures

-- The futures of one layer; `child` is the run that an action's child stack asks for.
unfoldable pub layer_futures : (child : Pending → Futures) → List Pending → Futures
layer_futures child [] = over
layer_futures child (p ∷ pending) = beside (waits p (child p)) (layer_futures child pending)

unfoldable pub run_futures : (child : Pending → Futures) → List (List Pending) → Futures
unfolding layer_futures
run_futures child [] = over
run_futures child (layer ∷ layers) = before (layer_futures child layer) (run_futures child layers)

-- One step, with the free permits before and after it. An action may give up before its child's run
-- begins (no manifest, no plan, cancelled); it finishes when its child's run is over, and what else it
-- does is taken to return. A layer ends when its futures have, and the run goes on or stops, after a
-- failure or a cancellation.
pub data Step : ℕ → Futures → ℕ → Futures → Type 0 where
  starts :
      {free left : ℕ} {p : Pending} {child : Futures}
      → acquire p free ≡ some left
      → Step free (waits p child) left (runs p child)
  gives_up :
      {free left : ℕ} {p : Pending} {child : Futures}
      → acquire p free ≡ some left
      → Step free (waits p child) left (runs p over)
  finishes : {free : ℕ} {p : Pending} → Step free (runs p over) (release p free) over
  inside :
      {free left : ℕ} {p : Pending} {child rest : Futures}
      → Step free child left rest
      → Step free (runs p child) left (runs p rest)
  on_left :
      {free left : ℕ} {a b rest : Futures}
      → Step free a left rest
      → Step free (beside a b) left (beside rest b)
  on_right :
      {free left : ℕ} {a b rest : Futures}
      → Step free b left rest
      → Step free (beside a b) left (beside a rest)
  joins : {free : ℕ} → Step free (beside over over) free over
  in_layer :
      {free left : ℕ} {a b rest : Futures}
      → Step free a left rest
      → Step free (before a b) left (before rest b)
  goes_on : {free : ℕ} {b : Futures} → Step free (before over b) free b
  stops : {free : ℕ} {b : Futures} → Step free (before over b) free over

-- What a number of steps leads to.
pub data Reaches (permits : ℕ) (start : Futures) : ℕ → ℕ → Futures → Type 0 where
  here : Reaches permits start zero permits start
  later :
      {n free left : ℕ} {f rest : Futures}
      → Reaches permits start n free f
      → Step free f left rest
      → Reaches permits start (suc n) left rest
