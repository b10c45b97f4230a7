-- ===== src/Plan/Layers/Order.antt =====
-- The layers are a topological order of the actions, and the planner's errors say what is wrong.
use repolith.Prelude.{
  ℕ, zero, suc, ◌≡◌, refl, sym, ◌∙◌, ap, subst, true, some, List, [], ◌∷◌, ◌++◌, All, length, ok,
  >>=-eq-ok, ok-injective, err≢ok, contains, All-contains, Option-cases, is_some, arith, inl, inr,
}
use mathlib.Core.Bool.{false≢true}
use repolith.Prelude.Maps.{
  get, has, has-nil, IsNodup, has-keys, contains-distinct, distinct-IsNodup,
}
use repolith.Types.{ActionId, action_id_eq}
use repolith.Action.{Action}
use repolith.Plan.Layers.{DepMaps, ids_of, build_maps, extract, settled, layers_of}
use repolith.Plan.Layers.Graph.{
  Edges, has_edge, edges_of, depends_on, has_edge-edges_of, known_ids, IsGraph, build_maps-IsGraph,
}
use repolith.Plan.Layers.Settle.{Inbound, live-in_degree, open_of_live}
use repolith.Plan.Layers.Extract.{flat_topo, IsLayered, Inv, Outcome, extract_rule}

known_of_depends_on :
    (ids : List ActionId) (actions : List Action) (x d : ActionId)
    → All (λ a. All (λ e. contains ids e ≡ true) a.deps) actions
    → depends_on actions x d ≡ true
    → contains ids d ≡ true
unfolding depends_on
known_of_depends_on ids [] x d h e = cc
known_of_depends_on ids (a ∷ actions) x d h e = ground (
  arith,
  known_of_depends_on ids actions x d h.1,
  All-contains (λ b. contains ids b ≡ true) a.deps d h.0,
)

module _ (actions : List Action) (g : DepMaps) (built : build_maps actions ≡ ok g) where
  abbrev ids : List ActionId
  ids = known_ids actions

  abbrev es : Edges
  es = edges_of actions

  graph : IsGraph ids es g
  graph = (build_maps-IsGraph actions g built).0

  known : (x d : ActionId) → has_edge es x d ≡ true → contains ids d ≡ true
  known x d edge =
      known_of_depends_on ids actions x d (build_maps-IsGraph actions g built).1
        (sym (has_edge-edges_of actions x d) ∙ edge)

  has_inbound : (d : ActionId) → has d g.inbound ≡ contains ids d
  has_inbound d = has-keys d g.inbound ∙ ap (λ l. contains l d) graph.keys_eq

  Inv-start : Inv ids es g.dependents graph.fan known [] g.inbound
  Inv-start = record {
    is_open = record {
      nodup = subst IsNodup (sym graph.keys_eq) (distinct-IsNodup (ids_of actions));
      counted = λ x c e. ground (
        arith,
        graph.counts x,
        live-in_degree es g.inbound x (λ y d edge. has_inbound d ∙ known y d edge),
      );
    };
    placed_once = tt;
    either = λ d. unfold contains in sym (has_inbound d);
    apart = λ d e. unfold contains in cc e;
  }

  outcome :
      Outcome ids es g.dependents graph.fan known []
        (extract (length g.inbound) g.dependents g.inbound)
  outcome =
      extract_rule ids es g.dependents graph.fan known (length g.inbound) [] g.inbound Inv-start
        (omega arith)

  -- An action that is left has a dependency that is left.
  pub open_dep :
      (x : ActionId)
      → has x (extract (length g.inbound) g.dependents g.inbound).1 ≡ true
      → (d : ActionId) × (depends_on actions x d ≡ true)
        × (has d (extract (length g.inbound) g.dependents g.inbound).1 ≡ true)
  open_dep x h = elim (Option-cases (get x rest)) [
    | inl gone ↦ absurd (false≢true (ap is_some (sym gone) ∙ h))
    | inr (c, e) ↦ positive c e
  ]
    where
      rest : Inbound
      rest = (extract (length g.inbound) g.dependents g.inbound).1

      positive :
          (c : ℕ)
          → get x rest ≡ some c
          → (d : ActionId) × (depends_on actions x d ≡ true) × (has d rest ≡ true)
      positive zero e = absurd (outcome.stuck x e)
      positive (suc c) e =
          let (d, edge, present) =
            open_of_live es rest x c (sym (outcome.rest_inv.is_open.counted x (suc c) e)) in
          (d, sym (has_edge-edges_of actions x d) ∙ edge, present)

  -- What is left are actions of the set.
  pub rest_known :
      (x : ActionId)
      → has x (extract (length g.inbound) g.dependents g.inbound).1 ≡ true
      → contains (ids_of actions) x ≡ true
  rest_known x h = ground (arith, outcome.rest_inv.either x, contains-distinct (ids_of actions) x)

-- Every dependency of a layer's actions stands in an earlier layer, or in `placed`.
abbrev pub IsOrdered : List Action → List ActionId → List (List ActionId) → Type 0
IsOrdered actions placed [] = Unit
IsOrdered actions placed (layer ∷ layers) =
    ((x d : ActionId)
      → contains layer x ≡ true
      → depends_on actions x d ≡ true
      → contains placed d ≡ true)
    × IsOrdered actions (placed ++ layer) layers

IsOrdered-of_IsLayered :
    (actions : List Action) (placed : List ActionId) (layers : List (List ActionId))
    → IsLayered (edges_of actions) placed layers
    → IsOrdered actions placed layers
IsOrdered-of_IsLayered actions placed [] h = tt
IsOrdered-of_IsLayered actions placed (layer ∷ layers) h = (
  λ x d m dep. h.0 x d m (has_edge-edges_of actions x d ∙ dep),
  IsOrdered-of_IsLayered actions (placed ++ layer) layers h.1,
)

settled-eq-ok :
    (r : List (List ActionId) × Inbound) (layers : List (List ActionId))
    → settled r ≡ ok layers
    → (r.0 ≡ layers) × (r.1 ≡ [])
settled-eq-ok (ls, []) layers e = (ok-injective e, refl)
settled-eq-ok (ls, (i, c) ∷ rest) layers e = absurd (err≢ok e)

-- When the layers are computed, each action stands in a later layer than all of its dependencies.
pub layers_of-IsOrdered :
    (actions : List Action) (layers : List (List ActionId))
    → layers_of actions ≡ ok layers
    → IsOrdered actions [] layers
unfolding layers_of
layers_of-IsOrdered actions layers e =
    let (g, built, ends) = >>=-eq-ok (build_maps actions) _ e in
    let (same, _) = settled-eq-ok _ layers ends in
    subst (IsOrdered actions []) same
      (IsOrdered-of_IsLayered actions [] _ (outcome actions g built).layered)

-- When the layers are computed, the ids of the actions stand in them, each exactly once.
pub layers_of-IsNodup :
    (actions : List Action) (layers : List (List ActionId))
    → layers_of actions ≡ ok layers
    → IsNodup (flat_topo layers)
      × ((x : ActionId) → contains (flat_topo layers) x ≡ contains (ids_of actions) x)
unfolding layers_of
layers_of-IsNodup actions layers e =
    let (g, built, ends) = >>=-eq-ok (build_maps actions) _ e in
    let (same, empty) = settled-eq-ok _ layers ends in
    let inv = (outcome actions g built).rest_inv in
    (
      subst (λ ls. IsNodup (flat_topo ls)) same inv.placed_once,
      λ x. ground (
        arith,
        inv.either x,
        contains-distinct (ids_of actions) x,
        ap (λ ls. contains (flat_topo ls) x) same,
        has-nil x _ empty,
      ),
    )
