-- ===== src/Cli/Setup.antt =====
-- How a command sets its orchestrator up (crates/repolith-cli/src/main.rs). The environment, the file
-- system, the cache that is opened and the actions' behaviour are arguments.
use repolith.Prelude.{
  ℕ, zero, suc, Option, none, some, List, [], ◌∷◌, Result, ◌>>=◌, list_eq, nat_eq, contains,
  if◌then◌else◌, map_err,
}
use repolith.Prelude.Maps.{collect_onto}
use repolith.Prelude.Texts.{Text, codes}
use repolith.Types.{Ctx, CancellationToken, ExecMode}
use repolith.Action.{Action}
use repolith.Manifest.{Manifest}
use repolith.Factory.{Paths, Behaviour, boxed_all, build_actions_from_manifest}
use repolith.Engine.Builder.{
  Store, Orchestrator, Builder, cache_boxed, manifest, max_parallelism, shared_semaphore, base_ctx,
  register_boxed, builder, set, build,
}

-- `ENV_ALLOWLIST`.
unfoldable pub env_allowlist : List Text
unfolding codes
env_allowlist =
    codes "PATH"
    ∷ codes "HOME"
    ∷ codes "USER"
    ∷ codes "SHELL"
    ∷ codes "TMPDIR"
    ∷ codes "CARGO_HOME"
    ∷ codes "RUSTUP_HOME"
    ∷ codes "RUSTUP_TOOLCHAIN"
    ∷ codes "RUST_LOG"
    ∷ codes "RUST_BACKTRACE"
    ∷ codes "TZ"
    ∷ codes "LANG"
    ∷ codes "LC_ALL"
    ∷ codes "SSH_AUTH_SOCK"
    ∷ codes "XDG_CONFIG_HOME"
    ∷ []

abbrev keep_allowed : List (Text × Text) → List (Text × Text)
keep_allowed [] = []
keep_allowed ((k, v) ∷ vars) =
    let rest = keep_allowed vars in if contains env_allowlist k then (k, v) ∷ rest else rest

unfoldable pub filtered_env : (vars : List (Text × Text)) → List (Text × Text)
unfolding env_allowlist collect_onto
filtered_env vars = collect_onto [] (keep_allowed vars)

-- What a command finds on its machine.
pub record Host (S : Type 0) : Type 0 where
  pub manifest : Result Text Manifest
  pub canonicalize : Text → Result Text Text
  pub parent : Text → Option Text
  pub current_dir : Option Text
  pub vars : List (Text × Text)
  pub num_cpus : ℕ
  pub open_cache : Result Text (Store S)
  pub paths : Paths
  pub behaviour : Behaviour

abbrev or_dot : Option Text → Text
or_dot none = b'.' ∷ []
or_dot (some p) = p

abbrev at_least_one : ℕ → ℕ
at_least_one zero = 1
at_least_one (suc n) = suc n

module _ {S : Type 0} where
  unfoldable pub register_all : List Action → Builder S → Builder S
  unfolding set
  register_all [] b = b
  register_all (a ∷ actions) b = register_all actions (set (register_boxed a) b)

  -- `build_orchestrator`; `path` is `cli.manifest`.
  unfoldable pub build_orchestrator :
      Host S
      → (path : Text) → CancellationToken
      → (jobs : ℕ) → ExecMode
      → Result Text (Orchestrator S)
  unfolding filtered_env register_all builder set build build_actions_from_manifest codes
  build_orchestrator host path cancel jobs mode = do
    m ← host.manifest
    manifest_path ← host.canonicalize path
    made ← build_actions_from_manifest host.paths m (record {
      base_dir = or_dot (host.parent manifest_path);
      chain = manifest_path ∷ [];
      mode = mode;
    })
    store ← host.open_cache
    let ctx : Ctx = record {
      cancel = cancel;
      workdir = or_dot host.current_dir;
      env = filtered_env host.vars;
    }
    let b0 = set (cache_boxed store) (builder host.num_cpus (or_dot host.current_dir))
    let b = set (base_ctx ctx) (
        set (shared_semaphore (at_least_one jobs))
          (set (max_parallelism jobs) (set (manifest m) b0)))
    map_err (λ e. codes "missing cache") (build (register_all (boxed_all host.behaviour made) b))
