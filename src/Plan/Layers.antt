-- ===== src/Plan/Layers.antt =====
-- The first two parts of `Plan::compute_with_forced`: the dependency maps, and Kahn's extraction of
-- layers (crates/repolith-core/src/plan.rs).
pub mod Graph
mod Settle
pub mod Extract
pub mod Order
pub mod Errors
use repolith.Prelude.{
  ℕ, zero, suc, ◌-◌, ◌^◌, Bool, true, false, Option, none, some, List, [], ◌∷◌, ◌++◌, length,
  is_empty, Result, ok, err, ◌>>=◌, ◌==◌, nat_eq, contains, if◌then◌else◌,
}
use repolith.Prelude.Maps.{get, insert, remove, adjust, keys, distinct}
use repolith.Prelude.Sorting.{sort_by}
use repolith.Prelude.Texts.{text_le}
use repolith.Types.{ActionId, action_id_eq, BuildError}
use repolith.Action.{Action}

pub data PlanError : Type 0 where
  cycle : List ActionId → PlanError
  missing_dep : (from to : ActionId) → PlanError
  build : BuildError → PlanError

-- `inbound` counts the dependencies of an action that are not settled yet.
pub record DepMaps : Type 0 where
  pub inbound : List (ActionId × ℕ)
  pub dependents : List (ActionId × List ActionId)

abbrev pub or_default : Option (List ActionId) → List ActionId
or_default none = []
or_default (some ids) = ids

-- One dependency `dep` of the action `a`.
pub add_edge : ActionId → ActionId → DepMaps → DepMaps
add_edge a dep g = record {
  inbound = adjust a suc g.inbound;
  dependents = insert dep (or_default (get dep g.dependents) ++ a ∷ []) g.dependents;
}

pub add_deps : List ActionId → ActionId → List ActionId → DepMaps → Result PlanError DepMaps
unfolding add_edge
add_deps ids a [] g = ok g
add_deps ids a (dep ∷ deps) g =
    let rest = add_deps ids a deps (add_edge a dep g) in
    if contains ids dep then rest else err (missing_dep a dep)

pub add_actions : List ActionId → List Action → DepMaps → Result PlanError DepMaps
unfolding add_deps
add_actions ids [] g = ok g
add_actions ids (a ∷ actions) g = do g' ← add_deps ids a.id a.deps g; add_actions ids actions g'

abbrev pub ids_of : List Action → List ActionId
ids_of [] = []
ids_of (a ∷ actions) = a.id ∷ ids_of actions

abbrev pub zero_counts : List ActionId → List (ActionId × ℕ)
zero_counts [] = []
zero_counts (i ∷ ids) = (i, 0) ∷ zero_counts ids

-- Part 1: the inbound and dependents maps.
pub build_maps : List Action → Result PlanError DepMaps
unfolding add_actions distinct
build_maps actions =
    let ids = distinct (ids_of actions) in
    add_actions ids actions (record { inbound = zero_counts ids; dependents = [] })

abbrev usize_max : ℕ
usize_max = 2 ^ 64 - 1

-- `*c -= 1` on a `usize`, which wraps in a release build.
pub usize_dec : ℕ → ℕ
usize_dec zero = usize_max
usize_dec (suc c) = c

-- The ids whose dependencies are all settled.
pub ready : List (ActionId × ℕ) → List ActionId
ready [] = []
ready ((i, c) ∷ inbound) = let rest = ready inbound in if c == 0 then i ∷ rest else rest

pub settle_children : List ActionId → List (ActionId × ℕ) → List (ActionId × ℕ)
unfolding usize_dec
settle_children [] inbound = inbound
settle_children (child ∷ children) inbound =
    settle_children children (adjust child usize_dec inbound)

abbrev pub Dependents : Type 0
Dependents = List (ActionId × List ActionId)

-- The body of `for id in &layer`.
pub settle : Dependents → ActionId → List (ActionId × ℕ) → List (ActionId × ℕ)
unfolding settle_children
settle dependents i inbound = settle_children (or_default (get i dependents)) (remove i inbound)

pub settle_layer : Dependents → List ActionId → List (ActionId × ℕ) → List (ActionId × ℕ)
unfolding settle
settle_layer dependents [] inbound = inbound
settle_layer dependents (i ∷ layer) inbound =
    settle_layer dependents layer (settle dependents i inbound)

-- `a.0.cmp(&b.0)`.
pub id_le : ActionId → ActionId → Bool
unfolding text_le
id_le a b = text_le a.name b.name

pub next_layer : List (ActionId × ℕ) → List ActionId
unfolding ready id_le sort_by
next_layer inbound = sort_by id_le (ready inbound)

-- Part 2: the `loop` of layers, and what is left of `inbound` when it ends. Every round takes an
-- entry away, so the number of entries is fuel enough.
pub extract : ℕ → Dependents → List (ActionId × ℕ) → List (List ActionId) × List (ActionId × ℕ)
unfolding next_layer settle_layer
extract zero dependents inbound = ([], inbound)
extract (suc fuel) dependents inbound = elim (next_layer inbound) [
  | [] ↦ ([], inbound)
  | i ∷ layer ↦
      let (layers, rest) = extract fuel dependents (settle_layer dependents (i ∷ layer) inbound) in
      ((i ∷ layer) ∷ layers, rest)
]

abbrev pub settled :
    List (List ActionId) × List (ActionId × ℕ) → Result PlanError (List (List ActionId))
settled (layers, []) = ok layers
settled (layers, (i, c) ∷ rest) = err (cycle (sort_by id_le (i ∷ keys rest)))

unfoldable pub layers_of : List Action → Result PlanError (List (List ActionId))
unfolding build_maps extract
layers_of actions = do
  g ← build_maps actions
  settled (extract (length g.inbound) g.dependents g.inbound)
