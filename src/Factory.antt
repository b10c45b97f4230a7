-- ===== src/Factory.antt =====
-- From a manifest to its actions: crates/repolith-cli/src/factory.rs, with `expand_tilde` of
-- crates/repolith-actions/src/paths.rs. `Path::join`, the home directory, and the probes and
-- subprocesses of the actions are arguments; error messages are those of the source.
pub mod Acyclic
use repolith.Prelude.{
  ℕ, zero, suc, Bool, true, false, Option, none, some, List, [], ◌∷◌, ◌++◌, Result, ok, err, panic,
  ◌>>=◌, ◌>>◌, ◌==◌, list_eq, nat_eq, if◌then◌else◌,
}
use repolith.Prelude.Texts.{Text, codes, strip_prefix}
use repolith.Types.{ActionId, Sha256, Ctx, ExecMode, BuildError, BuildOutput}
use repolith.Action.{Action}
use repolith.Manifest.{
  Manifest, NodeEntry, ActionEntry, git_clone, cargo_install, docker, repolith_stack,
}
use repolith.Manifest.ActionIds.{action_id, id_of}

-- What the factory needs of the file system and the environment.
pub record Paths : Type 0 where
  pub join : Text → Text → Text
  pub home_dir : Option Text

pub record FactoryCtx : Type 0 where
  pub base_dir : Text
  pub chain : List Text
  pub mode : ExecMode

pub data CargoSource : Type 0 where
  path : Text → CargoSource
  git : (url : Text) (branch : Option Text) → CargoSource

-- The fields of an action besides its id and its dependencies, one constructor for each of
-- `GitClone`, `CargoInstall`, `DockerBuild` and `RepolithSync`.
pub data Task : Type 0 where
  git_clone_task : (repo_url path : Text) → Task
  cargo_install_task :
      (source : CargoSource) (crate_name package_name profile : Option Text) (features : List Text)
      (install_to : Text)
      → Task
  docker_build : (tag : Text) (dockerfile context : Option Text) (node_path : Text) → Task
  repolith_sync :
      (node_path : Text) (manifest_rel : Option Text) (chain : List Text) (mode : ExecMode) → Task

pub record Made : Type 0 where
  pub id : ActionId
  pub deps : List ActionId
  pub task : Task

module _ (paths : Paths) where
  abbrev at_home : Text → Option Text → (Text → Text) → Text
  at_home p none f = p
  at_home p (some home) f = f home

  unfoldable pub expand_tilde : Text → Text
  unfolding strip_prefix codes
  expand_tilde p = elim (strip_prefix (codes "~/") p) [
    | some rest ↦ at_home p paths.home_dir (λ home. paths.join home rest)
    | none ↦ if p == codes "~" then at_home p paths.home_dir (λ home. home) else p
  ]

  unfoldable pub default_install_to : Text
  unfolding codes
  default_install_to =
      paths.join (elim paths.home_dir [ none ↦ codes "." | some home ↦ home ]) (codes ".repolith")

  unfoldable pub resolve_node_path : (base_dir p : Text) → Text
  unfolding expand_tilde
  resolve_node_path base_dir p = paths.join base_dir (expand_tilde p)

  abbrev node_error : NodeEntry → Text → Text
  node_error node what = codes "node `" ++ (node.id ++ (codes "`: " ++ what))

  unfoldable pub required_node_path : NodeEntry → FactoryCtx → (what : Text) → Result Text Text
  unfolding resolve_node_path codes
  required_node_path node fctx what = elim node.path [
    | none ↦ err (node_error node what)
    | some p ↦ ok (resolve_node_path fctx.base_dir p)
  ]

  unfoldable pub clone_path : NodeEntry → FactoryCtx → Text
  unfolding resolve_node_path
  clone_path node fctx = elim node.path [
    | none ↦ paths.join fctx.base_dir node.id
    | some p ↦ resolve_node_path fctx.base_dir p
  ]

  unfoldable pub cargo_source : NodeEntry → FactoryCtx → Result Text CargoSource
  unfolding resolve_node_path codes
  cargo_source node fctx = elim node.path [
    | some p ↦ ok (path (resolve_node_path fctx.base_dir p))
    | none ↦ elim node.git [
      | some url ↦ ok (git url none)
      | none ↦ err (
          node_error node
            (codes "cargo-install action requires either `git` or `path` on the node"))
    ]
  ]

  abbrev or_else : Option Text → Text → Option Text
  or_else none d = some d
  or_else (some s) d = some s

  abbrev install_root : Option Text → Text
  install_root none = default_install_to
  install_root (some p) = expand_tilde p

  unfoldable pub task_for_entry : NodeEntry → ActionEntry → FactoryCtx → Result Text Task
  unfolding required_node_path clone_path cargo_source expand_tilde default_install_to codes
  task_for_entry node git_clone fctx = elim node.git [
    | none ↦ err (node_error node (codes "git-clone action requires `git` URL on the node"))
    | some url ↦ ok (git_clone_task url (clone_path node fctx))
  ]
  task_for_entry node (cargo_install crate_name package_name profile features install_to) fctx = do
    source ← cargo_source node fctx
    ok (
        cargo_install_task source (or_else crate_name node.id) package_name profile features
          (install_root install_to))
  task_for_entry node (docker tag dockerfile context) fctx = do
    node_path ←
        required_node_path node fctx
          (codes "docker action requires `path` on the node (build context base)")
    ok (docker_build tag dockerfile context node_path)
  task_for_entry node (repolith_stack rel) fctx = do
    node_path ←
        required_node_path node fctx
          (codes "repolith action requires `path` on the node (child stack root)")
    ok (repolith_sync node_path rel fctx.chain fctx.mode)

  unfoldable pub action_for_entry :
      NodeEntry → ActionEntry → ActionId → (deps : List ActionId) → FactoryCtx → Result Text Made
  unfolding task_for_entry
  action_for_entry node entry i deps fctx = do
    task ← task_for_entry node entry fctx
    ok (record { id = i; deps = deps; task = task })

  -- The inner loop: `prev` is the dependency list that `prev_id` gives, and `idx` the index.
  unfoldable pub build_node :
      NodeEntry
      → FactoryCtx
      → (idx : ℕ) (prev : List ActionId) → List ActionEntry
      → Result Text (List Made)
  unfolding action_for_entry action_id
  build_node node fctx idx prev [] = ok []
  build_node node fctx idx prev (entry ∷ entries) =
      let i = id_of node.id entry idx in
      do
        made ← action_for_entry node entry i prev fctx
        rest ← build_node node fctx (suc idx) (i ∷ []) entries
        ok (made ∷ rest)

  unfoldable pub build_nodes : FactoryCtx → List NodeEntry → Result Text (List Made)
  unfolding build_node
  build_nodes fctx [] = ok []
  build_nodes fctx (node ∷ nodes) = do
    made ← build_node node fctx 0 [] node.actions
    rest ← build_nodes fctx nodes
    ok (made ++ rest)

  unfoldable pub build_actions_from_manifest : Manifest → FactoryCtx → Result Text (List Made)
  unfolding build_nodes
  build_actions_from_manifest manifest fctx = build_nodes fctx manifest.nodes

-- What an action does when it is probed or run; every implementation of the trait returns its own
-- `id` and `deps`.
pub record Behaviour : Type 0 where
  pub input_hash : Task → Ctx → Result BuildError Sha256
  pub execute : Task → Ctx → Result BuildError BuildOutput
  pub output_present : Task → Ctx → Bool

-- Only `RepolithSync` overrides `is_coordinator`.
unfoldable pub task_is_coordinator : Task → Bool
task_is_coordinator (repolith_sync node_path manifest_rel chain mode) = true
task_is_coordinator (git_clone_task repo_url target) = false
task_is_coordinator
      (cargo_install_task source crate_name package_name profile features install_to) =
    false
task_is_coordinator (docker_build tag dockerfile context node_path) = false

unfoldable pub boxed : Behaviour → Made → Action
unfolding task_is_coordinator
boxed b m = record {
  id = m.id;
  deps = m.deps;
  input_hash = b.input_hash m.task;
  execute = b.execute m.task;
  is_coordinator = task_is_coordinator m.task;
  output_present = b.output_present m.task;
}

abbrev pub boxed_all : Behaviour → List Made → List Action
boxed_all b [] = []
boxed_all b (m ∷ made) = boxed b m ∷ boxed_all b made
