-- ===== src/Plan/Layers/Extract.antt =====
-- What the loop of layers establishes.
use repolith.Prelude.{
  ℕ, zero, suc, ◌≤◌, ◌<◌, ◌≡◌, refl, sym, ◌∙◌, ap, subst, true, false, ◌||◌, some, List, [], ◌∷◌,
  ◌++◌, length, nat_eq, ==_iff, contains, ◌≢◌, List-cases, contains-nil, contains-head, is_some,
  arith, Bool-cases, inl, inr,
}
use mathlib.Core.List.{append-nil, append_assoc}
use repolith.Prelude.Maps.{
  get, has, remove, adjust, keys, IsNodup, has-keys, contains-append, append-IsNodup,
  length-remove-lt, length-adjust, length-remove-le,
}
use repolith.Prelude.Sorting.{contains-sort_by, sort_by-IsNodup}
use repolith.Types.{ActionId, action_id_eq}
use repolith.Plan.Layers.{
  Dependents, or_default, usize_dec, ready, settle_children, settle, settle_layer, id_le,
  next_layer, extract,
}
use repolith.Plan.Layers.Graph.{Edges, has_edge}
use repolith.Plan.Layers.Settle.{
  Inbound, settled_of_live, HasFanout, has-settle_layer, IsOpen, settle_layer-IsOpen,
}

contains-ready :
    (m : Inbound) (x : ActionId) → IsNodup (keys m) → contains (ready m) x ≡ true → get x m ≡ some 0
unfolding ready contains get
contains-ready [] x n h = cc
contains-ready ((i, c) ∷ m) x n h = ground (arith, contains-ready m x, ==_iff i x, has-keys x m)

ready_complete : (m : Inbound) (x : ActionId) → get x m ≡ some 0 → contains (ready m) x ≡ true
unfolding ready contains get
ready_complete [] x h = cc
ready_complete ((i, c) ∷ m) x h = ground (arith, ready_complete m x, ==_iff i x)

contains-ready-keys :
    (m : Inbound) (x : ActionId) → contains (ready m) x ≡ true → contains (keys m) x ≡ true
unfolding ready contains
contains-ready-keys [] x h = cc
contains-ready-keys ((i, c) ∷ m) x h = ground (arith, contains-ready-keys m x)

ready-IsNodup : (m : Inbound) → IsNodup (keys m) → IsNodup (ready m)
unfolding ready
ready-IsNodup [] n = tt
ready-IsNodup ((i, c) ∷ m) n = elim (Bool-cases (contains (ready m) i)) [
  | inl e ↦ ground (arith, contains-ready-keys m i)
  | inr e ↦ ground (arith, ready-IsNodup m)
]

-- A layer is, sorted, the set of the actions whose count is zero.
contains-next_layer :
    (m : Inbound) (x : ActionId)
    → IsNodup (keys m)
    → contains (next_layer m) x ≡ true
    → get x m ≡ some 0
unfolding next_layer
contains-next_layer m x n h = contains-ready m x n (sym (contains-sort_by id_le x (ready m)) ∙ h)

next_layer_complete :
    (m : Inbound) (x : ActionId) → get x m ≡ some 0 → contains (next_layer m) x ≡ true
unfolding next_layer
next_layer_complete m x h = contains-sort_by id_le x (ready m) ∙ ready_complete m x h

next_layer-IsNodup : (m : Inbound) → IsNodup (keys m) → IsNodup (next_layer m)
unfolding next_layer
next_layer-IsNodup m n = sort_by-IsNodup id_le (ready m) (ready-IsNodup m n)

length-settle_children :
    (children : List ActionId) (m : Inbound) → length (settle_children children m) ≡ length m
unfolding settle_children
length-settle_children [] m = refl
length-settle_children (c ∷ children) m =
    length-settle_children children (adjust c usize_dec m) ∙ length-adjust c usize_dec m

length-settle_layer-le :
    (dependents : Dependents) (layer : List ActionId) (m : Inbound)
    → length (settle_layer dependents layer m) ≤ length m
unfolding settle_layer settle
length-settle_layer-le dependents [] m = omega arith
length-settle_layer-le dependents (i ∷ layer) m = omega (
  arith,
  length-settle_layer-le dependents layer (settle dependents i m),
  length-settle_children (or_default (get i dependents)) (remove i m),
  length-remove-le i m,
)

-- A round that settles something takes an entry away.
length-settle_layer-lt :
    (dependents : Dependents) (i : ActionId) (layer : List ActionId) (m : Inbound)
    → has i m ≡ true
    → length (settle_layer dependents (i ∷ layer) m) < length m
unfolding settle_layer settle
length-settle_layer-lt dependents i layer m h = omega (
  arith,
  length-settle_layer-le dependents layer (settle dependents i m),
  length-settle_children (or_default (get i dependents)) (remove i m),
  length-remove-lt i m h,
)

-- `Plan::flat_topo`.
abbrev pub flat_topo : List (List ActionId) → List ActionId
flat_topo [] = []
flat_topo (layer ∷ layers) = layer ++ flat_topo layers

-- Every dependency of a layer's actions stands in an earlier layer, or in `placed`.
abbrev pub IsLayered : Edges → List ActionId → List (List ActionId) → Type 0
IsLayered es placed [] = Unit
IsLayered es placed (layer ∷ layers) =
    ((x d : ActionId) → contains layer x ≡ true → has_edge es x d ≡ true → contains placed d ≡ true)
    × IsLayered es (placed ++ layer) layers

module _ (ids : List ActionId) (es : Edges) (dependents : Dependents)
    (fan : HasFanout es dependents)
    (closed : (x d : ActionId) → has_edge es x d ≡ true → contains ids d ≡ true) where
  pub record Inv (placed : List ActionId) (m : Inbound) : Type 0 where
    pub is_open : IsOpen es dependents fan m
    pub placed_once : IsNodup placed
    pub either : (d : ActionId) → contains ids d ≡ (contains placed d || has d m)
    pub apart : (d : ActionId) → contains placed d ≡ true → has d m ≡ false

  layer_settled :
      (placed : List ActionId) (m : Inbound)
      → Inv placed m
      → (x d : ActionId) → contains (next_layer m) x ≡ true
      → has_edge es x d ≡ true
      → contains placed d ≡ true
  layer_settled placed m inv x d e edge =
      let zero_count = contains-next_layer m x inv.is_open.nodup e in
      ground (
        arith,
        settled_of_live es m x d (sym (inv.is_open.counted x 0 zero_count)) edge,
        inv.either d,
        closed x d edge,
      )

  Inv-round :
      (placed : List ActionId) (m : Inbound)
      → Inv placed m
      → Inv (placed ++ next_layer m) (settle_layer dependents (next_layer m) m)
  Inv-round placed m inv = record {
    is_open =
        settle_layer-IsOpen es dependents fan (next_layer m) m layer_nodup present inv.is_open;
    placed_once =
        append-IsNodup placed (next_layer m) inv.placed_once layer_nodup
          λ a e. ground (arith, present a e, inv.apart a);
    either = λ d. ground (
      arith,
      inv.either d,
      contains-append placed (next_layer m) d,
      has-settle_layer es dependents fan (next_layer m) m d,
      present d,
    );
    apart = λ d e. ground (
      arith,
      inv.apart d,
      contains-append placed (next_layer m) d,
      has-settle_layer es dependents fan (next_layer m) m d,
    );
  }
    where
      layer_nodup : IsNodup (next_layer m)
      layer_nodup = next_layer-IsNodup m inv.is_open.nodup

      present : (i : ActionId) → contains (next_layer m) i ≡ true → has i m ≡ true
      present i e = ground (arith, contains-next_layer m i inv.is_open.nodup e)

  -- The loop ends by its own test: no open action is left without an open dependency.
  pub record Outcome (placed : List ActionId) (r : List (List ActionId) × Inbound) : Type 0 where
    pub layered : IsLayered es placed r.0
    pub rest_inv : Inv (placed ++ flat_topo r.0) r.1
    pub stuck : (x : ActionId) → get x r.1 ≢ some 0

  stop :
      (placed : List ActionId) (m : Inbound)
      → Inv placed m
      → next_layer m ≡ []
      → Outcome placed ([], m)
  stop placed m inv e = record {
    layered = tt;
    rest_inv = subst (λ l. Inv l m) (sym (append-nil placed)) inv;
    stuck = λ x zero_count.
        cc (sym (next_layer_complete m x zero_count) ∙ ap (λ l. contains l x) e, contains-nil x);
  }

  round_done :
      (placed layer : List ActionId) (r : List (List ActionId) × Inbound)
      → ((x d : ActionId)
          → contains layer x ≡ true
          → has_edge es x d ≡ true
          → contains placed d ≡ true)
      → Outcome (placed ++ layer) r
      → Outcome placed (layer ∷ r.0, r.1)
  round_done placed layer r settled_deps o = record {
    layered = (settled_deps, o.layered);
    rest_inv = subst (λ l. Inv l r.1) (append_assoc placed layer (flat_topo r.0)) o.rest_inv;
    stuck = o.stuck;
  }

  pub extract_rule :
      (fuel : ℕ) (placed : List ActionId) (m : Inbound)
      → Inv placed m
      → length m ≤ fuel
      → Outcome placed (extract fuel dependents m)
  unfolding extract
  extract_rule zero placed [] inv h = stop placed [] inv (unfold next_layer ready in refl)
  extract_rule zero placed (x ∷ m) inv h = absurd (omega arith)
  extract_rule (suc fuel) placed m inv h = elim (List-cases (next_layer m)) [
    | inl e ↦ rw (e, extract) (stop placed m inv e)
    | inr (i, layer, e) ↦
        let next : Inv (placed ++ i ∷ layer) (settle_layer dependents (i ∷ layer) m) =
          subst (λ l. Inv (placed ++ l) (settle_layer dependents l m)) e (Inv-round placed m inv) in
        let member : contains (next_layer m) i ≡ true =
          ap (λ l. contains l i) e ∙ contains-head i layer in
        let present : has i m ≡ true =
          ap is_some (contains-next_layer m i inv.is_open.nodup member) in
        let shorter = length-settle_layer-lt dependents i layer m present in
        let ih =
          extract_rule fuel (placed ++ i ∷ layer) (settle_layer dependents (i ∷ layer) m) next
            (omega arith) in
        rw (e, extract)
          (round_done placed (i ∷ layer)
            (extract fuel dependents (settle_layer dependents (i ∷ layer) m))
            (λ x d c edge. layer_settled placed m inv x d (ap (λ l. contains l x) e ∙ c) edge) ih)
  ]
