-- ===== src/Sources/Closure.antt =====
-- `local_closure` of crates/repolith-actions/src/source_closure.rs: the local trees that a source
-- tree is built from. `metadata` is `run_metadata`. The loop has fuel; the head of the queue is the
-- end of the vector.
pub mod Edges
pub mod Keeps
pub mod Reach
pub mod Returns
use repolith.Prelude.{
  ℕ, zero, suc, Bool, true, false, Option, none, some, List, [], ◌∷◌, ◌==◌, contains, list_eq,
  nat_eq, if◌then◌else◌,
}
use repolith.Prelude.Texts.{Text}
use repolith.Prelude.Maps.{get, has, insert}
use repolith.Sources.{Meta}

pub record Closure : Type 0 where
  pub dep_trees : List Text
  pub workspace_roots : List Text

-- The variables of the loop.
pub record Walk : Type 0 where
  pub graph : List (Text × List Text)
  pub workspace_roots : List Text
  pub dep_trees : List Text
  pub visited : List Text
  pub queue : List Text

-- `BTreeSet::insert`, as far as membership goes.
unfoldable pub add : Text → List Text → List Text
add x xs = if contains xs x then xs else x ∷ xs

-- `graph.entry(pkg_dir).or_insert(deps)` for each package.
unfoldable pub or_insert :
    List (Text × List Text) → List (Text × List Text) → List (Text × List Text)
or_insert graph [] = graph
or_insert graph ((dir, deps) ∷ packages) =
    or_insert (if has dir graph then graph else insert dir deps graph) packages

module _ (canonicalize : Text → Option Text) (metadata : Text → Option Meta) (root : Text) where
  -- A dependency at its canonical path.
  unfoldable pub push_dep : Text → Walk → Walk
  unfolding add
  push_dep c s = record s {
    dep_trees = if c == root then s.dep_trees else add c s.dep_trees;
    queue = c ∷ s.queue;
  }

  unfoldable pub follow : List Text → Walk → Walk
  unfolding push_dep
  follow [] s = s
  follow (dep ∷ deps) s = elim (canonicalize dep) [
    | none ↦ follow deps s
    | some c ↦ follow deps (push_dep c s)
  ]

  -- The graph with the packages of a directory that it does not have; none where the directory
  -- does not resolve.
  unfoldable pub load : (dir : Text) → Walk → Option Walk
  unfolding add or_insert
  load dir s = if has dir s.graph then some s else elim (metadata dir) [
    | none ↦ none
    | some meta ↦ some (record s {
      workspace_roots = add meta.workspace_root s.workspace_roots;
      graph = or_insert s.graph meta.packages;
    })
  ]

  unfoldable pub follow_deps : (dir : Text) → Walk → Walk
  unfolding follow
  follow_deps dir s = elim (get dir s.graph) [ none ↦ s | some deps ↦ follow deps s ]

  -- The body of the loop for a directory that was popped; none where the root does not resolve.
  unfoldable pub visit : (dir : Text) → Walk → Option Walk
  unfolding load follow_deps
  visit dir s =
      if contains s.visited dir
      then some s
      else let entered : Walk = record s { visited = dir ∷ s.visited } in
        elim (load dir entered) [
          | some loaded ↦ some (follow_deps dir loaded)
          | none ↦ if dir == root then none else some entered
        ]

  -- The outer `none` is for want of fuel.
  unfoldable pub walk_from : (fuel : ℕ) → Walk → Option (Option Closure)
  unfolding visit
  walk_from zero s = none
  walk_from (suc fuel) s = elim s.queue [
    | [] ↦ some (some (record { dep_trees = s.dep_trees; workspace_roots = s.workspace_roots }))
    | dir ∷ rest ↦ elim (visit dir (record s { queue = rest })) [
      | none ↦ some none
      | some s' ↦ walk_from fuel s'
    ]
  ]

  abbrev pub begin : Walk
  begin = record {
    graph = [];
    workspace_roots = [];
    dep_trees = [];
    visited = [];
    queue = root ∷ [];
  }

unfoldable pub local_closure :
    (canonicalize : Text → Option Text)
    → (metadata : Text → Option Meta) → (fuel : ℕ) → (path : Text) → Option (Option Closure)
unfolding walk_from
local_closure canonicalize metadata fuel path = elim (canonicalize path) [
  | none ↦ some none
  | some root ↦ walk_from canonicalize metadata root fuel (begin canonicalize metadata root)
]
