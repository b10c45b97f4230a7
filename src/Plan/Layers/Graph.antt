-- ===== src/Plan/Layers/Graph.antt =====
-- The inbound and dependents maps hold exactly the declared dependencies.
use repolith.Prelude.{
  ℕ, suc, ◌≡◌, refl, Bool, true, false, ◌&&◌, ◌||◌, none, some, List, [], ◌∷◌, ◌++◌, All, ok,
  >>=-eq-ok, ok-injective, err≢ok, subst, ◌==◌, ==_iff, contains, count, count-snoc, if◌then◌else◌,
  arith, Bool-cases, inl, inr,
}
use repolith.Prelude.Maps.{get, keys, distinct, get-insert, get-adjust, keys-adjust}
use repolith.Types.{ActionId, action_id_eq}
use repolith.Action.{Action}
use repolith.Plan.Layers.{
  DepMaps, or_default, add_edge, add_deps, add_actions, ids_of, zero_counts, build_maps,
}

-- An edge is an action and one of its dependencies; a dependency that is listed twice is two edges.
abbrev pub Edges : Type 0
Edges = List (ActionId × ActionId)

unfoldable pub in_degree : Edges → ActionId → ℕ
in_degree [] x = 0
in_degree ((a, d) ∷ es) x = let n = in_degree es x in if a == x then suc n else n

unfoldable pub fanout : Edges → ActionId → ActionId → ℕ
fanout [] d x = 0
fanout ((a, e) ∷ es) d x = let n = fanout es d x in if (e == d) && (a == x) then suc n else n

unfoldable pub has_edge : Edges → ActionId → ActionId → Bool
has_edge [] x d = false
has_edge ((a, e) ∷ es) x d = (a == x) && (e == d) || has_edge es x d

pub record IsGraph (ids : List ActionId) (es : Edges) (g : DepMaps) : Type 0 where
  pub keys_eq : keys g.inbound ≡ ids
  pub counts :
      (x : ActionId) → get x g.inbound ≡ (if contains ids x then some (in_degree es x) else none)
  pub fan : (d x : ActionId) → count (or_default (get d g.dependents)) x ≡ fanout es d x

module _ (ids : List ActionId) where
  add_edge-IsGraph :
      (a d : ActionId) (es : Edges) (g : DepMaps)
      → IsGraph ids es g
      → IsGraph ids ((a, d) ∷ es) (add_edge a d g)
  unfolding add_edge in_degree fanout
  add_edge-IsGraph a d es g h = record {
    keys_eq = rw keys-adjust h.keys_eq;
    counts = λ x. ground (arith, get-adjust a x suc g.inbound, h.counts x);
    fan = λ e x. ground (
      arith,
      get-insert d e (or_default (get d g.dependents) ++ a ∷ []) g.dependents,
      count-snoc (or_default (get d g.dependents)) a x,
      h.fan e x,
      h.fan d x,
      ==_iff d e,
    );
  }

push_deps : ActionId → List ActionId → Edges → Edges
push_deps a [] es = es
push_deps a (d ∷ deps) es = push_deps a deps ((a, d) ∷ es)

push_actions : List Action → Edges → Edges
push_actions [] es = es
push_actions (a ∷ actions) es = push_actions actions (push_deps a.id a.deps es)

-- The edges of a set of actions.
pub edges_of : List Action → Edges
unfolding push_actions
edges_of actions = push_actions actions []

-- Some action of the id `x` declares the dependency `d`.
unfoldable pub depends_on : List Action → ActionId → ActionId → Bool
depends_on [] x d = false
depends_on (a ∷ actions) x d = (a.id == x) && contains a.deps d || depends_on actions x d

has_edge-push_deps :
    (a : ActionId) (deps : List ActionId) (es : Edges) (x d : ActionId)
    → has_edge (push_deps a deps es) x d ≡ ((a == x) && contains deps d || has_edge es x d)
unfolding push_deps has_edge contains
has_edge-push_deps a [] es x d = ground arith
has_edge-push_deps a (e ∷ deps) es x d = ground (arith, has_edge-push_deps a deps ((a, e) ∷ es) x d)

has_edge-push_actions :
    (actions : List Action) (es : Edges) (x d : ActionId)
    → has_edge (push_actions actions es) x d ≡ (depends_on actions x d || has_edge es x d)
unfolding push_actions depends_on
has_edge-push_actions [] es x d = refl
has_edge-push_actions (a ∷ actions) es x d = ground (
  arith,
  has_edge-push_actions actions (push_deps a.id a.deps es) x d,
  has_edge-push_deps a.id a.deps es x d,
)

-- The edges are the declared dependencies.
pub has_edge-edges_of :
    (actions : List Action) (x d : ActionId)
    → has_edge (edges_of actions) x d ≡ depends_on actions x d
unfolding edges_of has_edge
has_edge-edges_of actions x d = ground (arith, has_edge-push_actions actions [] x d)

module _ (ids : List ActionId) where
  add_deps-IsGraph :
      (a : ActionId) (deps : List ActionId) (es : Edges) (g g' : DepMaps)
      → IsGraph ids es g
      → add_deps ids a deps g ≡ ok g'
      → IsGraph ids (push_deps a deps es) g' × All (λ d. contains ids d ≡ true) deps
  unfolding add_deps push_deps
  add_deps-IsGraph a [] es g g' h e = (subst (IsGraph ids es) (ok-injective e) h, tt)
  add_deps-IsGraph a (d ∷ deps) es g g' h e = elim (Bool-cases (contains ids d)) [
    | inl known ↦
        let (graph, rest) =
          add_deps-IsGraph a deps ((a, d) ∷ es) (add_edge a d g) g'
            (add_edge-IsGraph ids a d es g h) (rw known at e) in
        (graph, (known, rest))
    | inr unknown ↦ absurd (err≢ok (rw unknown at e))
  ]

  add_actions-IsGraph :
      (actions : List Action) (es : Edges) (g g' : DepMaps)
      → IsGraph ids es g
      → add_actions ids actions g ≡ ok g'
      → IsGraph ids (push_actions actions es) g'
        × All (λ a. All (λ d. contains ids d ≡ true) a.deps) actions
  unfolding add_actions push_actions
  add_actions-IsGraph [] es g g' h e = (subst (IsGraph ids es) (ok-injective e) h, tt)
  add_actions-IsGraph (a ∷ actions) es g g' h e =
      let (g₁, here, rest) = >>=-eq-ok (add_deps ids a.id a.deps g) (add_actions ids actions) e in
      let (graph, deps_known) = add_deps-IsGraph a.id a.deps es g g₁ h here in
      let (final, all_known) =
        add_actions-IsGraph actions (push_deps a.id a.deps es) g₁ g' graph rest in
      (final, (deps_known, all_known))

  add_deps-eq-ok :
      (a : ActionId) (deps : List ActionId) (g : DepMaps)
      → All (λ d. contains ids d ≡ true) deps
      → (g' : DepMaps) × (add_deps ids a deps g ≡ ok g')
  unfolding add_deps
  add_deps-eq-ok a [] g h = (g, refl)
  add_deps-eq-ok a (d ∷ deps) g h = rw h.0 (add_deps-eq-ok a deps (add_edge a d g) h.1)

  -- Where every dependency is an id of the set, the maps are built.
  add_actions-eq-ok :
      (actions : List Action) (g : DepMaps)
      → All (λ a. All (λ d. contains ids d ≡ true) a.deps) actions
      → (g' : DepMaps) × (add_actions ids actions g ≡ ok g')
  unfolding add_actions
  add_actions-eq-ok [] g h = (g, refl)
  add_actions-eq-ok (a ∷ actions) g h =
      let (g₁, e₁) = add_deps-eq-ok a.id a.deps g h.0 in
      let (g₂, e₂) = add_actions-eq-ok actions g₁ h.1 in (g₂, rw e₁ e₂)

  get-zero_counts :
      (xs : List ActionId) (x : ActionId)
      → get x (zero_counts xs) ≡ (if contains xs x then some 0 else none)
  unfolding get contains
  get-zero_counts [] x = refl
  get-zero_counts (y ∷ xs) x = ground (arith, get-zero_counts xs x)

  keys-zero_counts : (xs : List ActionId) → keys (zero_counts xs) ≡ xs
  keys-zero_counts [] = refl
  keys-zero_counts (x ∷ xs) = ground (arith, keys-zero_counts xs)

abbrev pub known_ids : List Action → List ActionId
known_ids actions = distinct (ids_of actions)

-- Every dependency names an action of the set.
abbrev pub IsClosed : List Action → Type 0
IsClosed actions = All (λ a. All (λ d. contains (known_ids actions) d ≡ true) a.deps) actions

pub build_maps-IsGraph :
    (actions : List Action) (g : DepMaps)
    → build_maps actions ≡ ok g
    → IsGraph (known_ids actions) (edges_of actions) g × IsClosed actions
unfolding build_maps edges_of
build_maps-IsGraph actions g e =
    add_actions-IsGraph ids actions [] (record { inbound = zero_counts ids; dependents = [] }) g
      empty e
  where
    ids : List ActionId
    ids = known_ids actions

    empty : IsGraph ids [] (record { inbound = zero_counts ids; dependents = [] })
    empty = record {
      keys_eq = keys-zero_counts ids ids;
      counts = λ x. unfold in_degree in get-zero_counts ids ids x;
      fan = λ d x. unfold fanout get count in refl;
    }

pub build_maps-eq-ok :
    (actions : List Action) → IsClosed actions → (g : DepMaps) × (build_maps actions ≡ ok g)
unfolding build_maps
build_maps-eq-ok actions h = add_actions-eq-ok (known_ids actions) actions _ h
