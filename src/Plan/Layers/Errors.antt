-- ===== src/Plan/Layers/Errors.antt =====
-- When the layers cannot be computed, and what the error then says.
use repolith.Prelude.{
  ℕ, zero, suc, ◌<◌, ◌≡◌, ◌≢◌, refl, sym, ◌∙◌, true, false, List, [], ◌∷◌, All, length, Result, ok,
  err, panic, Result-cases, panic≢err, ==_iff, contains, contains-head, All-of_contains, arith,
  Bool-cases, inl, inr,
}
use repolith.Prelude.Maps.{has, keys, has-keys, contains-distinct}
use repolith.Prelude.Sorting.{sort_by, contains-sort_by}
use repolith.Types.{ActionId, action_id_eq}
use repolith.Action.{Action}
use repolith.Plan.Layers.{
  DepMaps, PlanError, cycle, missing_dep, build, add_edge, add_deps, add_actions, ids_of,
  build_maps, extract, settled, layers_of, id_le,
}
use repolith.Plan.Layers.Graph.{
  depends_on, known_ids, IsClosed, build_maps-IsGraph, build_maps-eq-ok,
}
use repolith.Plan.Layers.Settle.{Inbound}
use repolith.Plan.Layers.Order.{open_dep, rest_known}

-- Every dependency is an action of the set, and `rank` falls along every dependency.
abbrev pub IsAcyclic : (ActionId → ℕ) → List Action → Type 0
IsAcyclic rank actions =
    (x d : ActionId)
    → depends_on actions x d ≡ true
    → (contains (ids_of actions) d ≡ true) × (rank d < rank x)

closed_of :
    (ids : List ActionId) (actions : List Action)
    → ((x d : ActionId) → depends_on actions x d ≡ true → contains ids d ≡ true)
    → All (λ a. All (λ d. contains ids d ≡ true) a.deps) actions
unfolding depends_on
closed_of ids [] h = tt
closed_of ids (a ∷ actions) h = (
  All-of_contains (λ d. contains ids d ≡ true) a.deps
      (λ d m. h a.id d (ground (arith, ==_iff a.id a.id))),
  closed_of ids actions (λ x d e. h x d (ground arith)),
)

module _ (rank : ActionId → ℕ) (actions : List Action) (acyclic : IsAcyclic rank actions) where
  closed : IsClosed actions
  closed =
      closed_of (known_ids actions) actions
        λ x d e. contains-distinct (ids_of actions) d ∙ (acyclic x d e).0

  module _ (g : DepMaps) (built : build_maps actions ≡ ok g) where
    abbrev rest : Inbound
    rest = (extract (length g.inbound) g.dependents g.inbound).1

    -- An action left over would have a dependency left over, of a lower rank, and so on.
    descent : (n : ℕ) (x : ActionId) → rank x < n → has x rest ≡ true → ⊥
    descent zero x below h = omega arith
    descent (suc n) x below h =
        let (d, dep, present) = open_dep actions g built x h in
        descent n d (omega (arith, (acyclic x d dep).1)) present

  settles :
      (r : List (List ActionId) × Inbound)
      → ((x : ActionId) → has x r.1 ≡ true → ⊥)
      → (layers : List (List ActionId)) × (settled r ≡ ok layers)
  settles (layers, []) none_left = (layers, refl)
  settles (layers, (i, c) ∷ m) none_left =
      absurd (none_left i (has-keys i ((i, c) ∷ m) ∙ contains-head i (keys m)))

-- A set of actions whose dependencies are all in it and have no cycle is put into layers.
pub layers_of_of_IsAcyclic :
    (rank : ActionId → ℕ) (actions : List Action)
    → IsAcyclic rank actions
    → (layers : List (List ActionId)) × (layers_of actions ≡ ok layers)
unfolding layers_of
layers_of_of_IsAcyclic rank actions acyclic =
    let (g, built) = build_maps-eq-ok actions (closed rank actions acyclic) in
    let (layers, e) =
      settles rank actions acyclic (extract (length g.inbound) g.dependents g.inbound)
        (λ x. descent rank actions acyclic g built (suc (rank x)) x (omega arith)) in
    (layers, rw built e)

add_deps_errors :
    (ids : List ActionId) (a : ActionId) (deps : List ActionId) (g : DepMaps) (e : PlanError)
    → add_deps ids a deps g ≡ err e
    → (d : ActionId) × (e ≡ missing_dep a d) × (contains deps d ≡ true) × (contains ids d ≡ false)
unfolding add_deps contains
add_deps_errors ids a [] g e h = cc
add_deps_errors ids a (d ∷ deps) g e h = elim (Bool-cases (contains ids d)) [
  | inl known ↦
      let (b, same, m, unknown) =
        add_deps_errors ids a deps (add_edge a d g) e (rw (known, add_deps) at h) in
      (b, same, ground arith, unknown)
  | inr unknown ↦ (d, ground arith, ground (arith, ==_iff d d), unknown)
]

add_actions_errors :
    (ids : List ActionId) (actions : List Action) (g : DepMaps) (e : PlanError)
    → add_actions ids actions g ≡ err e
    → (x d : ActionId) × (e ≡ missing_dep x d)
      × (depends_on actions x d ≡ true)
      × (contains ids d ≡ false)
unfolding add_actions depends_on
add_actions_errors ids [] g e h = cc
add_actions_errors ids (a ∷ actions) g e h = elim (Result-cases (add_deps ids a.id a.deps g)) [
  | inl (g₁, q) ↦
      let (x, d, same, dep, unknown) =
        add_actions_errors ids actions g₁ e (rw (q, add_actions) at h) in
      (x, d, same, ground arith, unknown)
  | inr (inl (e₁, q)) ↦
      let (d, same, m, unknown) = add_deps_errors ids a.id a.deps g e₁ q in
      (a.id, d, ground arith, ground (arith, ==_iff a.id a.id), unknown)
  | inr (inr q) ↦ absurd (panic≢err (rw (q, add_actions) at h))
]

add_deps-ne-panic :
    (ids : List ActionId) (a : ActionId) (deps : List ActionId) (g : DepMaps)
    → add_deps ids a deps g ≢ panic
unfolding add_deps
add_deps-ne-panic ids a [] g h = cc
add_deps-ne-panic ids a (d ∷ deps) g h = elim (Bool-cases (contains ids d)) [
  | inl known ↦ add_deps-ne-panic ids a deps (add_edge a d g) (rw (known, add_deps) at h)
  | inr unknown ↦ ground arith
]

add_actions-ne-panic :
    (ids : List ActionId) (actions : List Action) (g : DepMaps) → add_actions ids actions g ≢ panic
unfolding add_actions
add_actions-ne-panic ids [] g h = cc
add_actions-ne-panic ids (a ∷ actions) g h = elim (Result-cases (add_deps ids a.id a.deps g)) [
  | inl (g₁, q) ↦ add_actions-ne-panic ids actions g₁ (rw (q, add_actions) at h)
  | inr (inl (e₁, q)) ↦ absurd (panic≢err (sym (rw (q, add_actions) at h)))
  | inr (inr q) ↦ absurd (add_deps-ne-panic ids a.id a.deps g q)
]

-- The reported cycle: some action of the set, and with each action one of its dependencies.
abbrev pub IsCycle : List Action → List ActionId → Type 0
IsCycle actions left =
    ((i : ActionId) × (contains left i ≡ true))
    × ((x : ActionId)
        → contains left x ≡ true
        → (contains (ids_of actions) x ≡ true)
          × ((d : ActionId) × (depends_on actions x d ≡ true) × (contains left d ≡ true)))

-- Some action declares a dependency on an id that no action of the set has.
abbrev pub IsMissing : List Action → ActionId → ActionId → Type 0
IsMissing actions x d = (depends_on actions x d ≡ true) × (contains (ids_of actions) d ≡ false)

-- What each result of the layering means.
abbrev pub Means : List Action → Result PlanError (List (List ActionId)) → Type 0
Means actions (ok layers) = IsClosed actions
Means actions (err (cycle left)) = IsCycle actions left
Means actions (err (missing_dep x d)) = IsMissing actions x d
Means actions (err (build e)) = ⊥
Means actions panic = ⊥

settled-Means :
    (actions : List Action) (r : List (List ActionId) × Inbound)
    → IsClosed actions
    → ((x : ActionId)
        → has x r.1 ≡ true
        → (contains (ids_of actions) x ≡ true)
          × ((d : ActionId) × (depends_on actions x d ≡ true) × (has d r.1 ≡ true)))
    → Means actions (settled r)
settled-Means actions (layers, []) is_closed h = is_closed
settled-Means actions (layers, (i, c) ∷ m) is_closed h = (
  (i, left_eq i ∙ has-keys i ((i, c) ∷ m) ∙ contains-head i (keys m)),
  λ x e.
      let (is_known, (d, dep, present)) = h x (sym (left_eq x) ∙ e) in
      (is_known, (d, dep, left_eq d ∙ present)),
)
  where
    left_eq : (x : ActionId) → contains (sort_by id_le (i ∷ keys m)) x ≡ has x ((i, c) ∷ m)
    left_eq x = contains-sort_by id_le x (i ∷ keys m) ∙ sym (has-keys x ((i, c) ∷ m))

built-Means :
    (actions : List Action) (g : DepMaps)
    → build_maps actions ≡ ok g
    → Means actions (settled (extract (length g.inbound) g.dependents g.inbound))
built-Means actions g built =
    settled-Means actions _ (build_maps-IsGraph actions g built).1
      λ x present. (rest_known actions g built x present, open_dep actions g built x present)

failed-Means :
    (actions : List Action) (e : PlanError) → build_maps actions ≡ err e → Means actions (err e)
unfolding build_maps
failed-Means actions e q =
    let (x, d, same, dep, unknown) = add_actions_errors (known_ids actions) actions _ e q in
    rw same (dep, sym (contains-distinct (ids_of actions) d) ∙ unknown)

-- Whatever the actions, the layering ends without a panic: in layers only when every dependency
-- is an action of the set; in a cycle error only with actions that all wait for one another; and
-- in a missing dependency only for one that is declared and that no action bears.
pub layers_of-Means : (actions : List Action) → Means actions (layers_of actions)
unfolding layers_of
layers_of-Means actions = elim (Result-cases (build_maps actions)) [
  | inl (g, built) ↦ rw built (built-Means actions g built)
  | inr (inl (e, q)) ↦ rw q (failed-Means actions e q)
  | inr (inr q) ↦ absurd (unfold build_maps in add_actions-ne-panic (known_ids actions) actions _ q)
]
