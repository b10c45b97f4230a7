-- ===== src/Engine/Run/Again.antt =====
-- A run that has succeeded leaves nothing to do.
use repolith.Prelude.{
  ◌≡◌, ◌≤◌, refl, sym, ap, ◌∙◌, subst, inl, inr, true, false, Option, none, some, List, [], ◌∷◌,
  ◌++◌, All, All-of_contains, ok, ==-cases, arith, keep, contains, is_some, some_inj, Option-cases,
  Bool-cases, ok-injective, >>=-eq-ok,
}
use mathlib.Core.Bool.{false≢true}
use repolith.Prelude.Maps.{get, has, contains-append}
use repolith.Types.{ActionId, action_id_eq, Sha256, Ctx, ExecMode, BuildEvent, success, failed}
use repolith.Action.{Action}
use repolith.Cache.{Cache}
use repolith.Cache.Contract.{IsStorable, IsStore, after_batch}
use repolith.Plan.Layers.{layers_of}
use repolith.Plan.Layers.Graph.{depends_on}
use repolith.Plan.Layers.Extract.{flat_topo}
use repolith.Plan.Layers.Order.{IsOrdered, layers_of-IsOrdered}
use repolith.Plan.Reasons.Laws.{IsBuilt}
use repolith.Plan.Compute.{Plan, ById, Marks, by_id_of, walk, compute_with_forced}
use repolith.Plan.Compute.Stale.{by_id-declared, compute_with_forced-up_to_date_iff}
use repolith.Engine.Builder.{Orchestrator}
use repolith.Engine.Layer.{Turn}
use repolith.Engine.Layer.Complete.{due}
use repolith.Engine.Run.{stale_of, Outcome, execute_plan_observed}
use repolith.Engine.Run.Laws.{dues, execute_plan_observed-IsComplete}
use repolith.Engine.Run.Reads.{
  IsBuiltAs, after_batch-absent, after_batch-IsBuiltAs, execute_plan_observed-reads,
}

plan-layers :
    {S : Type 0} (c : Cache S) (s : S) (actions : List Action) (ctx : Ctx) (forced : List ActionId)
    (p : Plan)
    → compute_with_forced c s actions ctx forced ≡ ok p
    → layers_of actions ≡ ok p.layers
unfolding compute_with_forced
plan-layers c s actions ctx forced p e =
    let (layers, e₁, e₂) = >>=-eq-ok (layers_of actions) _ e in
    let marks : Marks = record { reasons = []; stale = []; input_hashes = [] } in
    let (m, e₃, e₄) = >>=-eq-ok (walk c s ctx (by_id_of actions) forced 0 layers marks) _ e₂ in
    e₁ ∙ ap (λ q. ok q) (ap (λ (q : Plan). q.layers) (ok-injective e₄))

module _ (p : Plan) (by_id : ById) (x : ActionId) where
  due-fresh : (ids : List ActionId) → has x p.reasons ≡ false → due by_id (stale_of p ids) x ≡ 0
  unfolding stale_of keep
  due-fresh [] h = refl
  due-fresh (i ∷ ids) h = elim (==-cases i x) [
    | inl (t, same) ↦ ground (arith, due-fresh ids h, ap (λ j. has j p.reasons) same)
    | inr (f, other) ↦ elim (Bool-cases (has i p.reasons)) [
      | inl y ↦ rw y (ground (arith, due-fresh ids h))
      | inr n ↦ rw n (due-fresh ids h)
    ]
  ]

  dues-fresh : (layers : List (List ActionId)) → has x p.reasons ≡ false → dues p by_id layers x ≡ 0
  dues-fresh [] h = refl
  dues-fresh (layer ∷ layers) h = omega (arith, due-fresh layer h, dues-fresh layers h)

  due-stale :
      (ids : List ActionId)
      → has x p.reasons ≡ true
      → has x by_id ≡ true
      → contains ids x ≡ true
      → 1 ≤ due by_id (stale_of p ids) x
  unfolding stale_of keep contains
  due-stale [] h k m = cc
  due-stale (i ∷ ids) h k m = elim (==-cases i x) [
    | inl (t, same) ↦
        rw (ap (λ j. has j p.reasons) same ∙ h) (ground (arith, ap (λ j. has j by_id) same ∙ k, t))
    | inr (f, other) ↦ elim (Bool-cases (has i p.reasons)) [
      | inl y ↦ rw y (ground (arith, due-stale ids h k))
      | inr n ↦ rw n (due-stale ids h k (ground arith))
    ]
  ]

  dues-stale :
      (layers : List (List ActionId))
      → has x p.reasons ≡ true
      → has x by_id ≡ true
      → contains (flat_topo layers) x ≡ true
      → 1 ≤ dues p by_id layers x
  unfolding contains
  dues-stale [] h k m = cc
  dues-stale (layer ∷ layers) h k m = elim (Bool-cases (contains layer x)) [
    | inl y ↦ omega (arith, due-stale layer h k y)
    | inr n ↦
        omega (
          arith,
          dues-stale layers h k (ground (arith, contains-append layer (flat_topo layers) x)),
        )
  ]

-- What holds of an action once it holds of all its dependencies holds of all actions of the layers.
layers_rule :
    (P : ActionId → Type 0) (actions : List Action) (placed : List ActionId)
    (layers : List (List ActionId))
    → IsOrdered actions placed layers
    → ((d : ActionId) → contains placed d ≡ true → P d)
    → ((x : ActionId)
        → contains (flat_topo layers) x ≡ true
        → ((d : ActionId) → depends_on actions x d ≡ true → P d)
        → P x)
    → (x : ActionId) → contains (flat_topo layers) x ≡ true
    → P x
unfolding contains
layers_rule P actions placed [] o known step x m = cc
layers_rule P actions placed (layer ∷ layers) o known step x m =
    let here : (y : ActionId) → contains layer y ≡ true → P y = λ y n.
      step y (ground (arith, contains-append layer (flat_topo layers) y))
        (λ d e. known d (o.0 y d n e)) in
    elim (Bool-cases (contains layer x)) [
      | inl y ↦ here x y
      | inr n ↦
          layers_rule P actions (placed ++ layer) layers o.1
            (λ d k. elim (Bool-cases (contains placed d)) [
              | inl old ↦ known d old
              | inr new ↦ here d (ground (arith, contains-append placed layer d))
            ])
            (λ y k. step y (ground (arith, contains-append layer (flat_topo layers) y))) x
            (ground (arith, contains-append layer (flat_topo layers) x))
    ]

IsBuilt-of_IsBuiltAs :
    (hashes : List (ActionId × Sha256)) (x : ActionId) (now : Sha256) (last : Option BuildEvent)
    → get x hashes ≡ some now
    → IsBuiltAs hashes x last
    → IsBuilt now last
IsBuilt-of_IsBuiltAs hashes x now none e h = h
IsBuilt-of_IsBuiltAs hashes x now (some (success j input output ms)) e h = some_inj (sym h ∙ e)
IsBuilt-of_IsBuiltAs hashes x now (some (failed j input error ms)) e h = h

module _ {S : Type 0} (o : Orchestrator S) (forced : List ActionId) (p : Plan) (mode : ExecMode)
    (schedules : List (List Turn)) (out : Outcome S) (events : List BuildEvent) where
  -- After a run that has succeeded, the cache has a success of every action for the planned hash.
  remembered :
      IsStore o.store.cache
      → All IsStorable events
      → compute_with_forced o.store.cache o.store.state o.actions o.base_ctx forced ≡ ok p
      → execute_plan_observed o p mode schedules ≡ some out
      → out.answer ≡ ok events
      → (x : ActionId) → contains (flat_topo p.layers) x ≡ true
      → (a : Action) × (now : Sha256) × (get x (by_id_of o.actions) ≡ some a)
        × (a.input_hash o.base_ctx ≡ ok now)
        × IsBuilt now (o.store.cache.last_build out.state x)
  remembered store storable planned run answer x m =
      let (a, now, registered, hash, recorded, fresh) =
        compute_with_forced-up_to_date_iff o.store.cache o.store.state o.base_ctx forced o.actions p
          x planned m in
      let (reads, good, hashes) =
        execute_plan_observed-reads o p mode schedules out events run answer store storable in
      let whole = execute_plan_observed-IsComplete o p mode schedules out events run answer x in
      (
        a,
        now,
        registered,
        hash,
        elim (Option-cases (get x p.reasons)) [
          | inl none_yet ↦
              let old = (fresh.0 none_yet).1 in
              let kept =
                reads x
                ∙ after_batch-absent x events (o.store.cache.last_build o.store.state x)
                    (whole ∙ dues-fresh p (by_id_of o.actions) x p.layers (ap is_some none_yet)) in
              subst (IsBuilt now) (sym kept) old
          | inr (r, stale) ↦
              let due_once =
                dues-stale p (by_id_of o.actions) x p.layers (ap is_some stale)
                  (ap is_some registered) m in
              subst (IsBuilt now) (sym (reads x)) (
                IsBuilt-of_IsBuiltAs p.input_hashes x now
                  (after_batch x events (o.store.cache.last_build o.store.state x)) recorded
                  (after_batch-IsBuiltAs p.input_hashes x events
                    (o.store.cache.last_build o.store.state x) good hashes
                    (omega (arith, whole, due_once))))
        ],
      )

  -- A run that has succeeded over a cache that keeps its contract leaves nothing to do: the next plan
  -- of the same actions, whose inputs have not changed and whose artifacts are there, has no stale
  -- action, whatever was forced before.
  pub nothing_stale :
      (p' : Plan)
      → IsStore o.store.cache
      → All IsStorable events
      → compute_with_forced o.store.cache o.store.state o.actions o.base_ctx forced ≡ ok p
      → execute_plan_observed o p mode schedules ≡ some out
      → out.answer ≡ ok events
      → ((x : ActionId) (a : Action)
          → get x (by_id_of o.actions) ≡ some a
          → a.output_present o.base_ctx ≡ true)
      → compute_with_forced o.store.cache out.state o.actions o.base_ctx [] ≡ ok p'
      → (x : ActionId) → contains (flat_topo p'.layers) x ≡ true
      → get x p'.reasons ≡ none
  unfolding contains
  nothing_stale p' store storable planned run answer present again =
      let layers = plan-layers o.store.cache o.store.state o.actions o.base_ctx forced p planned in
      let layers' = plan-layers o.store.cache out.state o.actions o.base_ctx [] p' again in
      let same : p'.layers ≡ p.layers = ok-injective (sym layers' ∙ layers) in
      layers_rule (λ x. get x p'.reasons ≡ none) o.actions [] p'.layers
        (layers_of-IsOrdered o.actions p'.layers layers') (λ d k. absurd (false≢true k))
        (λ x m deps.
          let (a, now, registered, hash, recorded, fresh) =
            compute_with_forced-up_to_date_iff o.store.cache out.state o.base_ctx [] o.actions p' x
              again m in
          let (b, before, registered', hash', built) =
            remembered store storable planned run answer x
              (sym (ap (λ ls. contains (flat_topo ls) x) same) ∙ m) in
          let is_b : b ≡ a = some_inj (sym registered' ∙ registered) in
          let is_now : before ≡ now =
            ok-injective (sym hash' ∙ (ap (λ c. c.input_hash o.base_ctx) is_b ∙ hash)) in
          fresh.1 (
            refl,
            subst (λ h. IsBuilt h (o.store.cache.last_build out.state x)) is_now built,
            present x a registered,
            All-of_contains (λ d. get d p'.reasons ≡ none) a.deps
                (λ d k. deps d (by_id-declared o.actions x a registered d k)),
          ))
