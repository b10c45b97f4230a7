-- ===== src/Engine/Builder.antt =====
-- The orchestrator and its builder (crates/repolith-engine/src/orchestrator.rs). A semaphore is its
-- number of permits. The number of CPUs and the current directory are arguments.
use repolith.Prelude.{ℕ, zero, suc, false, Option, none, some, List, [], ◌∷◌, ◌++◌, Result, ok, err}
use repolith.Prelude.Texts.{Text}
use repolith.Types.{ActionId, Ctx, CancellationToken, BuildEvent}
use repolith.Action.{Action}
use repolith.Cache.{Cache, CacheError}
use repolith.Plan.Layers.{PlanError}
use repolith.Plan.Compute.{Plan, compute_with_forced, compute}
use repolith.Manifest.{Manifest}

-- A cache with its present state, as a `Box<dyn Cache>`.
pub record Store (S : Type 0) : Type 0 where
  pub cache : Cache S
  pub state : S

pub record Orchestrator (S : Type 0) : Type 0 where
  pub actions : List Action
  pub store : Store S
  pub manifest : Option Manifest
  pub max_parallelism : ℕ
  pub shared_semaphore : Option ℕ
  pub base_ctx : Ctx

pub data ExecError : Type 0 where
  layer_failed : (events : List BuildEvent) → ExecError
  plan : PlanError → ExecError
  cache : CacheError → ExecError

pub data BuilderError : Type 0 where
  missing_cache : BuilderError

pub record Builder (S : Type 0) : Type 0 where
  pub actions : List Action
  pub store : Option (Store S)
  pub manifest : Option Manifest
  pub max_parallelism : ℕ
  pub shared_semaphore : Option ℕ
  pub base_ctx : Ctx

-- `n.max(1)`.
abbrev at_least_one : ℕ → ℕ
at_least_one zero = 1
at_least_one (suc n) = suc n

-- `CancellationToken::new()`: nobody cancels it.
abbrev pub quiet_token : CancellationToken
quiet_token = record { is_cancelled = λ n. false; wins_race = λ i. false }

-- The builder's methods, one constructor each; `register` boxes its action and `cache` its cache.
pub data Setting (S : Type 0) : Type 0 where
  cache_boxed : Store S → Setting S
  manifest : Manifest → Setting S
  max_parallelism : ℕ → Setting S
  shared_semaphore : ℕ → Setting S
  base_ctx : Ctx → Setting S
  register_boxed : Action → Setting S

module _ {S : Type 0} where
  unfoldable pub builder : (num_cpus : ℕ) (current_dir : Text) → Builder S
  builder num_cpus current_dir = record {
    actions = [];
    store = none;
    manifest = none;
    max_parallelism = at_least_one num_cpus;
    shared_semaphore = none;
    base_ctx = record { cancel = quiet_token; workdir = current_dir; env = [] };
  }

  unfoldable pub set : Setting S → Builder S → Builder S
  set (cache_boxed c) b = record b { store = some c }
  set (manifest m) b = record b { manifest = some m }
  set (max_parallelism n) b = record b { max_parallelism = at_least_one n }
  set (shared_semaphore permits) b = record b { shared_semaphore = some permits }
  set (base_ctx ctx) b = record b { base_ctx = ctx }
  set (register_boxed a) b = record b { actions = b.actions ++ a ∷ [] }

  unfoldable pub build : Builder S → Result BuilderError (Orchestrator S)
  build b = elim b.store [
    | none ↦ err missing_cache
    | some store ↦ ok (record {
      actions = b.actions;
      store = store;
      manifest = b.manifest;
      max_parallelism = b.max_parallelism;
      shared_semaphore = b.shared_semaphore;
      base_ctx = b.base_ctx;
    })
  ]

  unfoldable pub compute_plan_with_forced :
      Orchestrator S → (forced : List ActionId) → Result PlanError Plan
  unfolding compute_with_forced
  compute_plan_with_forced o forced =
      compute_with_forced o.store.cache o.store.state o.actions o.base_ctx forced

  unfoldable pub compute_plan : Orchestrator S → Result PlanError Plan
  unfolding compute
  compute_plan o = compute o.store.cache o.store.state o.actions o.base_ctx
