-- ===== src/Plan/Compute/Returns.antt =====
-- When a plan is computed at all.
use repolith.Prelude.{
  ℕ, suc, ◌≡◌, refl, sym, ◌∙◌, ap, subst, true, false, some, List, [], ◌∷◌, All, ok, is_some,
  some_inj, none≢some, ==_iff, ==-cases, contains, arith, Option-cases, inl, inr,
}
use mathlib.Core.Bool.{false≢true}
use repolith.Prelude.Maps.{
  get, has, insert, keys, collect, collect_onto, IsNodup, get-insert, has-collect_onto,
  contains-append, split-IsNodup,
}
use repolith.Types.{ActionId, action_id_eq, Sha256, Ctx}
use repolith.Action.{Action}
use repolith.Cache.{Cache}
use repolith.Plan.Layers.{ids_of}
use repolith.Plan.Layers.Graph.{depends_on}
use repolith.Plan.Layers.Extract.{flat_topo}
use repolith.Plan.Layers.Order.{layers_of-IsNodup}
use repolith.Plan.Layers.Errors.{IsAcyclic, layers_of_of_IsAcyclic}
use repolith.Plan.Compute.{
  Plan, ById, LayerProbes, pairs_of, by_id_of, hash_probes, hashes_of, cached_of, presence_of,
  Marks, cascade, probe_layer, walk, compute_with_forced,
}
use repolith.Plan.Compute.Probes.{IsProbed, probe_layer-IsProbed}
use repolith.Plan.Compute.Cascade.{cascade_step}
use repolith.Plan.Compute.Stale.{by_id-declared}

keys-pairs_of : (actions : List Action) → keys (pairs_of actions) ≡ ids_of actions
keys-pairs_of [] = refl
keys-pairs_of (a ∷ actions) = ap (λ l. a.id ∷ l) (keys-pairs_of actions)

-- Every id of the set is registered.
has-by_id_of :
    (actions : List Action) (x : ActionId) → has x (by_id_of actions) ≡ contains (ids_of actions) x
unfolding by_id_of get
has-by_id_of actions x =
    has-collect_onto x (pairs_of actions) []
    ∙ ground (arith, ap (λ l. contains l x) (keys-pairs_of actions))

module _ (P : Action → Type 0) where
  collect-All :
      (actions : List Action) (m : ById) (x : ActionId) (a : Action)
      → All P actions
      → ((y : ActionId) (b : Action) → get y m ≡ some b → P b)
      → get x (collect_onto m (pairs_of actions)) ≡ some a
      → P a
  unfolding collect_onto
  collect-All [] m x a h hm e = hm x a e
  collect-All (b ∷ actions) m x a h hm e = collect-All actions (insert b.id b m) x a h.1 inserted e
    where
      inserted : (y : ActionId) (c : Action) → get y (insert b.id b m) ≡ some c → P c
      inserted y c q = elim (==-cases b.id y) [
        | inl (test, same) ↦ subst P (some_inj (ground (arith, get-insert b.id y b m, test, q))) h.0
        | inr (test, other) ↦ hm y c (ground (arith, get-insert b.id y b m, test, q))
      ]

  hash_probes-eq-ok :
      (by_id : ById) (layer : List ActionId)
      → ((i : ActionId) → contains layer i ≡ true → has i by_id ≡ true)
      → ((i : ActionId) (a : Action) → get i by_id ≡ some a → P a)
      → (probes : List (ActionId × Action)) × (hash_probes by_id layer ≡ ok probes)
        × All (λ e. P e.1) probes
  unfolding hash_probes contains
  hash_probes-eq-ok by_id [] reg h = ([], refl, tt)
  hash_probes-eq-ok by_id (i ∷ layer) reg h = elim (Option-cases (get i by_id)) [
    | inl gone ↦ absurd (false≢true (ap is_some (sym gone) ∙ reg i (ground (arith, ==_iff i i))))
    | inr (a, found) ↦
        let (rest, e, all) = hash_probes-eq-ok by_id layer (λ j m. reg j (ground arith)) h in
        ((i, a) ∷ rest, ground arith, (h i a found, all))
  ]

-- The probe of an action gives a hash, and the token does not win the race against it.
abbrev pub Hashes : Ctx → Action → Type 0
Hashes ctx a = (now : Sha256) × (a.input_hash ctx ≡ ok now)

module _ (ctx : Ctx) (unraced : (i : ActionId) → ctx.cancel.wins_race i ≡ false) where
  hashes_of-eq-ok :
      (probes : List (ActionId × Action)) (hashes : List (ActionId × Sha256))
      → All (λ e. Hashes ctx e.1) probes
      → (final : List (ActionId × Sha256)) × (hashes_of ctx probes hashes ≡ ok final)
  unfolding hashes_of
  hashes_of-eq-ok [] hashes h = (hashes, refl)
  hashes_of-eq-ok ((i, a) ∷ probes) hashes h =
      let (now, ran) = h.0 in
      let (final, e) = hashes_of-eq-ok probes (insert i now hashes) h.1 in
      (final, ground (arith, unraced i))

module _ {S : Type 0} (cache : Cache S) (s : S) (ctx : Ctx) (forced : List ActionId)
    (actions : List Action) (unraced : (i : ActionId) → ctx.cancel.wins_race i ≡ false)
    (hashed : All (Hashes ctx) actions) where
  abbrev by_id : ById
  by_id = by_id_of actions

  probe_layer-eq-ok :
      (layer : List ActionId)
      → ((i : ActionId) → contains layer i ≡ true → contains (ids_of actions) i ≡ true)
      → (p : LayerProbes) × (probe_layer cache s ctx by_id layer ≡ ok p)
  unfolding probe_layer by_id_of get
  probe_layer-eq-ok layer known =
      let (probes, e₁, all) =
        hash_probes-eq-ok (Hashes ctx) by_id layer (λ i m. has-by_id_of actions i ∙ known i m)
          (λ i a q.
            collect-All (Hashes ctx) actions [] i a hashed (λ y b r. absurd (none≢some r)) q) in
      let (hashes, e₂) = hashes_of-eq-ok ctx unraced probes [] all in
      (
        record {
          hashes_now = hashes;
          cached_map = collect (cached_of cache s layer);
          presence_map = collect (presence_of ctx probes);
        },
        ground arith,
      )

  cascade-eq-ok :
      (p : LayerProbes) (layer : List ActionId) (m : Marks)
      → ((i : ActionId) → contains layer i ≡ true → IsProbed cache s ctx by_id p i)
      → (final : Marks) × (cascade by_id forced p layer m ≡ ok final)
  unfolding contains
  cascade-eq-ok p [] m probed = (m, unfold cascade in refl)
  cascade-eq-ok p (i ∷ layer) m probed =
      let q = probed i (ground (arith, ==_iff i i)) in
      let (final, e) = cascade-eq-ok p layer _ (λ j h. probed j (ground arith)) in
      (
        final,
        cascade_step cache s ctx by_id forced (depends_on actions) (by_id-declared actions) p layer
              i m q
            ∙ e,
      )

  walk-eq-ok :
      (poll : ℕ) (layers : List (List ActionId)) (m : Marks)
      → ((n : ℕ) → ctx.cancel.is_cancelled n ≡ false)
      → IsNodup (flat_topo layers)
      → ((i : ActionId) → contains (flat_topo layers) i ≡ true → contains (ids_of actions) i ≡ true)
      → (final : Marks) × (walk cache s ctx by_id forced poll layers m ≡ ok final)
  unfolding walk
  walk-eq-ok poll [] m live n known = (m, refl)
  walk-eq-ok poll (layer ∷ layers) m live n known =
      let (nl, nr, apart) = split-IsNodup layer (flat_topo layers) n in
      let (p, e₁) =
        probe_layer-eq-ok layer
          λ i h. known i (contains-append layer (flat_topo layers) i ∙ ground (arith, h)) in
      let (m₁, e₂) =
        cascade-eq-ok p layer m (probe_layer-IsProbed cache s ctx by_id layer p nl e₁) in
      let (final, e₃) =
        walk-eq-ok (suc poll) layers m₁ live nr
          λ i h. known i (contains-append layer (flat_topo layers) i ∙ ground (arith, h)) in
      (final, ground (arith, live poll))

-- For actions whose dependencies are all registered and have no cycle, with a token that never
-- fires and probes that all give a hash, a plan is computed.
pub compute_with_forced_returns :
    {S : Type 0} (cache : Cache S) (s : S) (ctx : Ctx) (forced : List ActionId)
    (actions : List Action) (rank : ActionId → ℕ)
    → IsAcyclic rank actions
    → ((n : ℕ) → ctx.cancel.is_cancelled n ≡ false)
    → ((i : ActionId) → ctx.cancel.wins_race i ≡ false)
    → All (Hashes ctx) actions
    → (p : Plan) × (compute_with_forced cache s actions ctx forced ≡ ok p)
unfolding compute_with_forced
compute_with_forced_returns cache s ctx forced actions rank acyclic live unraced hashed =
    let (layers, e₁) = layers_of_of_IsAcyclic rank actions acyclic in
    let (n, members) = layers_of-IsNodup actions layers e₁ in
    let (m, e₂) =
      walk-eq-ok cache s ctx forced actions unraced hashed 0 layers
        (record { reasons = []; stale = []; input_hashes = [] }) live n
        (λ i h. sym (members i) ∙ h) in
    (record { layers = layers; reasons = m.reasons; input_hashes = m.input_hashes }, ground arith)
