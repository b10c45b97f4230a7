-- ===== src/Plan/Compute/Probes.antt =====
-- What the maps of a layer's probes hold.
use repolith.Prelude.{
  ◌≡◌, refl, sym, ◌∙◌, ap, Bool, true, false, Option, none, some, List, [], ◌∷◌, Result, ok,
  map_err, >>=-eq-ok, map_err-eq-ok, is_some, some_inj, subst, ==-cases, ok-injective, ==_iff,
  contains, arith, Option-cases, inl, inr,
}
use mathlib.Core.Bool.{false≢true}
use repolith.Prelude.Maps.{
  get, insert, collect, keys, IsNodup, get-insert, has-keys, get-collect_onto,
}
use repolith.Types.{ActionId, action_id_eq, Sha256, Ctx}
use repolith.Action.{Action}
use repolith.Cache.{Cache}
use repolith.Plan.Layers.{build}
use repolith.Plan.Compute.{
  ById, index, LayerProbes, raced_hash, hash_probes, hashes_of, presence_of, cached_of, probe_layer,
}

index-eq-ok :
    {E V : Type 0} (i : ActionId) (m : List (ActionId × V)) (v : V)
    → ◌≡◌ {A = Result E V} (index i m) (ok v)
    → get i m ≡ some v
index-eq-ok i m v e = ground arith

hash_probes_lem :
    (by_id : ById) (layer : List ActionId) (probes : List (ActionId × Action))
    → hash_probes by_id layer ≡ ok probes
    → (keys probes ≡ layer)
      × ((i : ActionId) → contains layer i ≡ true → get i probes ≡ get i by_id)
unfolding hash_probes contains get
hash_probes_lem by_id [] probes e = (ground arith, λ i h. cc)
hash_probes_lem by_id (j ∷ layer) probes e =
    let (action, found, e₁) = >>=-eq-ok (index j by_id) _ e in
    let (rest, e₂, e₃) = >>=-eq-ok (hash_probes by_id layer) _ e₁ in
    let (ks, vs) = hash_probes_lem by_id layer rest e₂ in
    let at_j = index-eq-ok j by_id action found in
    let same = ok-injective e₃ in
    (
      ap keys (sym same) ∙ ap (λ l. j ∷ l) ks,
      λ i h. ap (get i) (sym same) ∙ ground (arith, vs i, ==_iff j i, at_j),
    )

module _ (ctx : Ctx) where
  abbrev map_present : Option Action → Option Bool
  map_present none = none
  map_present (some a) = some (a.output_present ctx)

  hashes_of_lem :
      (probes : List (ActionId × Action)) (hashes final : List (ActionId × Sha256))
      → IsNodup (keys probes)
      → hashes_of ctx probes hashes ≡ ok final
      → ((i : ActionId) → contains (keys probes) i ≡ false → get i final ≡ get i hashes)
        × ((i : ActionId) (a : Action)
            → get i probes ≡ some a
            → (now : Sha256) × (get i final ≡ some now) × (raced_hash ctx i a ≡ ok now))
  unfolding hashes_of contains get
  hashes_of_lem [] hashes final n e = (λ i h. ap (get i) (sym (ok-injective e)), λ i a h. cc)
  hashes_of_lem ((j, b) ∷ probes) hashes final n e =
      let (now, ran, e₁) = >>=-eq-ok (map_err build (raced_hash ctx j b)) _ e in
      let (frame, vals) = hashes_of_lem probes (insert j now hashes) final n.1 e₁ in
      (
        λ i h. ground (arith, frame i, get-insert j i now hashes),
        λ i a h. elim (==-cases j i) [
          | inl (test, same) ↦ (
            now,
            ap (λ k. get k final) (sym same)
                ∙ frame j n.0
                ∙ ground (arith, get-insert j j now hashes, ==_iff j j),
            subst (λ k. raced_hash ctx k a ≡ ok now) same
                (subst (λ c. raced_hash ctx j c ≡ ok now) (some_inj (rw test at h))
                  (map_err-eq-ok build (raced_hash ctx j b) now ran)),
          )
          | inr (test, other) ↦ vals i a (rw test at h)
        ],
      )

  get-presence_of :
      (probes : List (ActionId × Action)) (i : ActionId)
      → get i (presence_of ctx probes) ≡ map_present (get i probes)
  unfolding get
  get-presence_of [] i = refl
  get-presence_of ((j, a) ∷ probes) i = ground (arith, get-presence_of probes i)

  keys-presence_of :
      (probes : List (ActionId × Action)) → keys (presence_of ctx probes) ≡ keys probes
  keys-presence_of [] = refl
  keys-presence_of ((j, a) ∷ probes) = ap (λ l. j ∷ l) (keys-presence_of probes)

module _ {S : Type 0} (cache : Cache S) (s : S) where
  get-cached_of :
      (layer : List ActionId) (i : ActionId)
      → contains layer i ≡ true
      → get i (cached_of cache s layer) ≡ some (cache.last_build s i)
  unfolding get contains
  get-cached_of [] i h = cc
  get-cached_of (j ∷ layer) i h = ground (arith, get-cached_of layer i, ==_iff j i)

  keys-cached_of : (layer : List ActionId) → keys (cached_of cache s layer) ≡ layer
  keys-cached_of [] = refl
  keys-cached_of (j ∷ layer) = ap (λ l. j ∷ l) (keys-cached_of layer)

  -- What the probes of a layer found for one of its actions.
  pub record IsProbed (ctx : Ctx) (by_id : ById) (p : LayerProbes) (i : ActionId) : Type 0 where
    pub action : Action
    pub now : Sha256
    pub registered : get i by_id ≡ some action
    pub hashed : get i p.hashes_now ≡ some now
    pub ran : raced_hash ctx i action ≡ ok now
    pub cached : get i p.cached_map ≡ some (cache.last_build s i)
    pub present : get i p.presence_map ≡ some (action.output_present ctx)

  pub probe_layer-IsProbed :
      (ctx : Ctx) (by_id : ById) (layer : List ActionId) (p : LayerProbes)
      → IsNodup layer
      → probe_layer cache s ctx by_id layer ≡ ok p
      → (i : ActionId) → contains layer i ≡ true
      → IsProbed ctx by_id p i
  unfolding probe_layer
  probe_layer-IsProbed ctx by_id layer p n e i m =
      let (probes, e₁, e₂) = >>=-eq-ok (hash_probes by_id layer) _ e in
      let (hashes, e₃, e₄) = >>=-eq-ok (hashes_of ctx probes []) _ e₂ in
      let (ks, vs) = hash_probes_lem by_id layer probes e₁ in
      let same = ok-injective e₄ in
      let probes_nodup : IsNodup (keys probes) = subst IsNodup (sym ks) n in
      let here : contains (keys probes) i ≡ true = ap (λ l. contains l i) ks ∙ m in
      elim (Option-cases (get i probes)) [
        | inl gone ↦ absurd (false≢true (ap is_some (sym gone) ∙ has-keys i probes ∙ here))
        | inr (a, found) ↦
            let (now, hashed, ran) =
              (hashes_of_lem ctx probes [] hashes probes_nodup e₃).1 i a found in
            record {
              action = a;
              now = now;
              registered = sym (vs i m) ∙ found;
              hashed = ap (λ q. get i q.hashes_now) (sym same) ∙ hashed;
              ran = ran;
              cached = ap (λ q. get i q.cached_map) (sym same) ∙ cached_found;
              present =
                  ap (λ q. get i q.presence_map) (sym same)
                  ∙ present_found probes a found probes_nodup here;
            }
      ]
    where
      cached_found : get i (collect (cached_of cache s layer)) ≡ some (cache.last_build s i)
      cached_found =
          let ks = keys-cached_of layer in
          ground (
            arith,
            get-collect_onto i (cached_of cache s layer) [] (subst IsNodup (sym ks) n),
            ap (λ l. contains l i) ks,
            get-cached_of layer i m,
          )

      present_found :
          (probes : List (ActionId × Action)) (a : Action)
          → get i probes ≡ some a
          → IsNodup (keys probes)
          → contains (keys probes) i ≡ true
          → get i (collect (presence_of ctx probes)) ≡ some (a.output_present ctx)
      present_found probes a found nodup here =
          let ks = keys-presence_of ctx probes in
          ground (
            arith,
            get-collect_onto i (presence_of ctx probes) [] (subst IsNodup (sym ks) nodup),
            ap (λ l. contains l i) ks,
            get-presence_of ctx probes i,
          )
