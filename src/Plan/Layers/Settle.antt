-- ===== src/Plan/Layers/Settle.antt =====
-- Settling an action lowers the counts of its dependents to the number of their open dependencies.
use repolith.Prelude.{
  ℕ, zero, suc, ◌+◌, ◌≡◌, refl, sym, ◌∙◌, ap, true, false, ◌&&◌, some, List, [], ◌∷◌, ◌==◌, ==_iff,
  contains, count, if◌then◌else◌, arith, Option-cases, Bool-cases, subst, inl, inr,
}
use repolith.Prelude.Maps.{
  get, has, remove, adjust, keys, map_value, IsNodup, get-remove, get-adjust, keys-adjust, has-keys,
  keys-remove-IsNodup,
}
use repolith.Types.{ActionId, action_id_eq}
use repolith.Plan.Layers.{Dependents, or_default, usize_dec, settle_children, settle, settle_layer}
use repolith.Plan.Layers.Graph.{Edges, in_degree, fanout, has_edge}

abbrev pub Inbound : Type 0
Inbound = List (ActionId × ℕ)

-- The dependencies of `x` that are still in the map.
pub live : Edges → Inbound → ActionId → ℕ
live [] m x = 0
live ((a, d) ∷ es) m x = let n = live es m x in if (a == x) && has d m then suc n else n

dec_times : ℕ → ℕ → ℕ
dec_times zero c = c
dec_times (suc n) c = dec_times n (usize_dec c)

dec_times-add : (n c : ℕ) → dec_times n (c + n) ≡ c
unfolding dec_times usize_dec
dec_times-add zero c = omega arith
dec_times-add (suc n) c = let e : c + suc n ≡ suc (c + n) = omega arith in rw e (dec_times-add n c)

get-settle_children :
    (children : List ActionId) (m : Inbound) (x : ActionId)
    → get x (settle_children children m) ≡ map_value (dec_times (count children x)) (get x m)
unfolding settle_children dec_times count
get-settle_children [] m x = ground arith
get-settle_children (c ∷ children) m x =
    ground
      (arith, get-settle_children children (adjust c usize_dec m) x, get-adjust c x usize_dec m)

keys-settle_children :
    (children : List ActionId) (m : Inbound) → keys (settle_children children m) ≡ keys m
unfolding settle_children
keys-settle_children [] m = refl
keys-settle_children (c ∷ children) m =
    keys-settle_children children (adjust c usize_dec m) ∙ keys-adjust c usize_dec m

live_congr :
    (es : Edges) (m m' : Inbound) (x : ActionId)
    → ((d : ActionId) → has d m ≡ has d m')
    → live es m x ≡ live es m' x
unfolding live
live_congr [] m m' x h = refl
live_congr ((a, d) ∷ es) m m' x h = ground (arith, h d, live_congr es m m' x h)

live-remove :
    (es : Edges) (m : Inbound) (i x : ActionId)
    → has i m ≡ true
    → live es m x ≡ live es (remove i m) x + fanout es i x
unfolding live fanout
live-remove [] m i x h = omega arith
live-remove ((a, d) ∷ es) m i x h =
    ground (arith, live-remove es m i x h, get-remove i d m, ==_iff d i, ==_iff i d)

-- An action with no open dependency has all of its dependencies settled.
pub settled_of_live :
    (es : Edges) (m : Inbound) (x d : ActionId)
    → live es m x ≡ 0
    → has_edge es x d ≡ true
    → has d m ≡ false
unfolding live has_edge
settled_of_live [] m x d h e = cc
settled_of_live ((a, b) ∷ es) m x d h e = ground (arith, settled_of_live es m x d, ==_iff b d)

-- An action with an open dependency has one that is still in the map.
pub open_of_live :
    (es : Edges) (m : Inbound) (x : ActionId) (c : ℕ)
    → live es m x ≡ suc c
    → (d : ActionId) × (has_edge es x d ≡ true) × (has d m ≡ true)
unfolding live has_edge
open_of_live [] m x c h = absurd (omega arith)
open_of_live ((a, b) ∷ es) m x c h = elim (Bool-cases ((a == x) && has b m)) [
  | inl here ↦ (b, ground (arith, ==_iff b b), ground arith)
  | inr other ↦
      let (d, edge, present) = open_of_live es m x c (ground arith) in (d, ground arith, present)
]

-- With every dependency in the map, the open dependencies are all dependencies.
pub live-in_degree :
    (es : Edges) (m : Inbound) (x : ActionId)
    → ((y d : ActionId) → has_edge es y d ≡ true → has d m ≡ true)
    → live es m x ≡ in_degree es x
unfolding live in_degree has_edge
live-in_degree [] m x h = refl
live-in_degree ((a, d) ∷ es) m x h = ground (
  arith,
  live-in_degree es m x (λ y e edge. h y e (ground arith)),
  h a d (ground (arith, ==_iff a a, ==_iff d d)),
)

-- Each count in the map is the number of open dependencies.
abbrev pub IsCounted : Edges → Inbound → Type 0
IsCounted es m = (x : ActionId) (c : ℕ) → get x m ≡ some c → c ≡ live es m x

abbrev pub HasFanout : Edges → Dependents → Type 0
HasFanout es dependents = (d x : ActionId) → count (or_default (get d dependents)) x ≡ fanout es d x

module _ (es : Edges) (dependents : Dependents) (fan : HasFanout es dependents) where
  keys-settle : (i : ActionId) (m : Inbound) → keys (settle dependents i m) ≡ keys (remove i m)
  unfolding settle
  keys-settle i m = keys-settle_children (or_default (get i dependents)) (remove i m)

  has-settle : (i d : ActionId) (m : Inbound) → has d (settle dependents i m) ≡ has d (remove i m)
  has-settle i d m =
      has-keys d (settle dependents i m)
      ∙ ap (λ l. contains l d) (keys-settle i m)
      ∙ sym (has-keys d (remove i m))

  settle-IsCounted :
      (i : ActionId) (m : Inbound)
      → has i m ≡ true
      → IsCounted es m
      → IsCounted es (settle dependents i m)
  settle-IsCounted i m present counted x c e = elim (Option-cases (get x m)) [
    | inl gone ↦ ground (arith, settled_value, get-remove i x m)
    | inr (c₀, e₀) ↦ ground (
      arith,
      settled_value,
      get-remove i x m,
      fan i x,
      counted x c₀ e₀,
      live-remove es m i x present,
      dec_times-add (fanout es i x) (live es (remove i m) x),
      live_congr es (settle dependents i m) (remove i m) x (λ d. has-settle i d m),
    )
  ]
    where
      settled_value :
          get x (settle dependents i m)
          ≡ map_value (dec_times (count (or_default (get i dependents)) x)) (get x (remove i m))
      settled_value =
          unfold settle in get-settle_children (or_default (get i dependents)) (remove i m) x

  settle-IsNodup :
      (i : ActionId) (m : Inbound) → IsNodup (keys m) → IsNodup (keys (settle dependents i m))
  settle-IsNodup i m h = subst IsNodup (sym (keys-settle i m)) (keys-remove-IsNodup i m h)

  -- A settled layer is gone from the map, and nothing else is.
  pub has-settle_layer :
      (layer : List ActionId) (m : Inbound) (d : ActionId)
      → has d (settle_layer dependents layer m) ≡ (if contains layer d then false else has d m)
  unfolding settle_layer contains
  has-settle_layer [] m d = refl
  has-settle_layer (i ∷ layer) m d =
      ground (
        arith,
        has-settle_layer layer (settle dependents i m) d,
        has-settle i d m,
        get-remove i d m,
      )

  pub record IsOpen (m : Inbound) : Type 0 where
    pub nodup : IsNodup (keys m)
    pub counted : IsCounted es m

  pub settle_layer-IsOpen :
      (layer : List ActionId) (m : Inbound)
      → IsNodup layer
      → ((i : ActionId) → contains layer i ≡ true → has i m ≡ true)
      → IsOpen m
      → IsOpen (settle_layer dependents layer m)
  unfolding settle_layer contains
  settle_layer-IsOpen [] m n sub h = h
  settle_layer-IsOpen (i ∷ layer) m n sub h =
      settle_layer-IsOpen layer (settle dependents i m) n.1 still (record {
        nodup = settle-IsNodup i m h.nodup;
        counted = settle-IsCounted i m here h.counted;
      })
    where
      here : has i m ≡ true
      here = ground (arith, sub i, ==_iff i i)

      still : (j : ActionId) → contains layer j ≡ true → has j (settle dependents i m) ≡ true
      still j e = ground (arith, sub j, has-settle i j m, get-remove i j m, ==_iff i j)
