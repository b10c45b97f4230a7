-- ===== src/Engine/Run/Laws.antt =====
-- What a run returns and what it leaves in the cache, layer by layer.
use repolith.Prelude.{
  append_assoc, append-nil, ℕ, ◌+◌, ◌≡◌, refl, sym, ap, subst, ◌⊎◌, inl, inr, ◌∙◌, true, false,
  some, List, [], ◌∷◌, ◌++◌, All, All-of_any, Result, ok, err, panic, any, arith,
}
use repolith.Types.{ActionId, action_id_eq, Ctx, ExecMode, BuildEvent, is_failed}
use repolith.Cache.{Cache}
use repolith.Plan.Compute.{Plan, ById, by_id_of}
use repolith.Engine.Builder.{Orchestrator, ExecError, layer_failed, plan, cache}
use repolith.Engine.Layer.{Turn}
use repolith.Engine.Layer.Accounts.{emitted}
use repolith.Engine.Layer.Complete.{due, execute_layer-IsComplete}
use repolith.Engine.Run.{stale_of, Outcome, Progress, pool, total_running, execute_plan_observed}
use repolith.Engine.Run.Batches.{
  Runs, finished, halted, skipped, ran, failed, unwritten, unwound, run_layers-Runs,
}

emitted-append :
    (x : ActionId) (xs ys : List BuildEvent) → emitted x (xs ++ ys) ≡ emitted x xs + emitted x ys
emitted-append x [] ys = omega arith
emitted-append x (e ∷ xs) ys = omega (arith, emitted-append x xs ys)

abbrev pub IsSuccess : BuildEvent → Type 0
IsSuccess e = is_failed e ≡ false

abbrev pub concat : List (List BuildEvent) → List BuildEvent
concat [] = []
concat (b ∷ batches) = b ++ concat batches

-- How often an id is due in the layers.
abbrev pub dues : Plan → ById → List (List ActionId) → ActionId → ℕ
dues p by_id [] x = 0
dues p by_id (layer ∷ layers) x = due by_id (stale_of p layer) x + dues p by_id layers x

module _ {S : Type 0} (c : Cache S) where
  -- The cache takes the batches one after the other, each without an error.
  abbrev pub Written : S → List (List BuildEvent) → S → Type 0
  Written s [] s' = s ≡ s'
  Written s (b ∷ batches) s' =
      (next : S) × (c.record_batch b s ≡ (ok tt, next)) × Written next batches s'

  -- No layer, or one with a failure: what a failed run ends with.
  abbrev pub IsLast : List (List BuildEvent) → Type 0
  IsLast last = (last ≡ []) ⊎ ((b : List BuildEvent) × (last ≡ b ∷ []) × (any is_failed b ≡ true))

  -- What an answer says of the batches written from a state to another, after the events `before`.
  abbrev pub Ended : List BuildEvent → S → Result ExecError (List BuildEvent) → S → Type 0
  Ended before s (ok events) s' =
      (batches : List (List BuildEvent)) × (events ≡ before ++ concat batches)
      × Written s batches s'
      × All (All IsSuccess) batches
  Ended before s (err (layer_failed events)) s' =
      (batches last : List (List BuildEvent)) × (events ≡ before ++ concat (batches ++ last))
      × Written s (batches ++ last) s'
      × All (All IsSuccess) batches
      × IsLast last
  Ended before s (err (cache e)) s' =
      (batches : List (List BuildEvent)) × (b : List BuildEvent) × (t : S) × Written s batches t
      × (c.record_batch b t ≡ (err e, s'))
      × All (All IsSuccess) batches
  Ended before s (err (plan e)) s' = ⊥
  Ended before s panic s' = Unit

  -- One more batch in front.
  batch-Ended :
      (before b : List BuildEvent) (s t s' : S) (answer : Result ExecError (List BuildEvent))
      → c.record_batch b s ≡ (ok tt, t)
      → All IsSuccess b
      → Ended (before ++ b) t answer s'
      → Ended before s answer s'
  batch-Ended before b s t s' (ok events) wrote good (batches, same, written, all_good) = (
    b ∷ batches,
    same ∙ append_assoc before b (concat batches),
    (t, wrote, written),
    (good, all_good),
  )
  batch-Ended before b s t s' (err (layer_failed events)) wrote good
        (batches, last, same, written, all_good, is_last) =
      (
        b ∷ batches,
        last,
        same ∙ append_assoc before b (concat (batches ++ last)),
        (t, wrote, written),
        (good, all_good),
        is_last,
      )
  batch-Ended before b s t s' (err (cache e)) wrote good
        (batches, b', u, written, failed_write, all_good) =
      (b ∷ batches, b', u, (t, wrote, written), failed_write, (good, all_good))
  batch-Ended before b s t s' (err (plan e)) wrote good h = h
  batch-Ended before b s t s' panic wrote good h = tt

  module _ (mode : ExecMode) (ctx : Ctx) (by_id : ById) (permits : ℕ) (p : Plan) (total : ℕ) where
    Runs-Ended :
        {layers : List (List ActionId)} {g : Progress S} {out : Outcome S}
        → Runs c mode ctx by_id permits p total layers g out
        → Ended g.all_events g.state out.answer out.state
    Runs-Ended {g} {out} (finished answer state) =
        subst (λ a. Ended g.all_events g.state a out.state) (sym answer)
          ([], sym (append-nil g.all_events), sym state, tt)
    Runs-Ended {g} {out} (halted answer state) =
        subst (λ a. Ended g.all_events g.state a out.state) (sym answer)
          ([], [], sym (append-nil g.all_events), sym state, tt, inl refl)
    Runs-Ended {g} {out} (skipped g' empty same rest) =
        subst (λ s. Ended g.all_events s out.answer out.state) same.1
          (subst (λ es. Ended es g'.state out.answer out.state) same.0 (Runs-Ended rest))
    Runs-Ended {g} {out} (ran g' events settled wrote good all rest) =
        batch-Ended g.all_events events g.state g'.state out.state out.answer wrote
          (All-of_any is_failed events good)
          (subst (λ es. Ended es g'.state out.answer out.state) all (Runs-Ended rest))
    Runs-Ended {g} {out} (failed events settled wrote bad answer) =
        subst (λ a. Ended g.all_events g.state a out.state) (sym answer)
          (
            [],
            events ∷ [],
            ap (λ es. g.all_events ++ es) (sym (append-nil events)),
            (out.state, wrote, refl),
            tt,
            inr (events, refl, bad),
          )
    Runs-Ended {g} {out} (unwritten events e settled wrote answer) =
        subst (λ a. Ended g.all_events g.state a out.state) (sym answer)
          ([], events, g.state, refl, wrote, tt)
    Runs-Ended {g} {out} (unwound answer) =
        subst (λ a. Ended g.all_events g.state a out.state) (sym answer) tt

    -- A run that returns its events has run every layer.
    abbrev IsWhole :
        List (List ActionId) → List BuildEvent → Result ExecError (List BuildEvent) → Type 0
    IsWhole layers before (ok events) =
        (x : ActionId) → emitted x events ≡ emitted x before + dues p by_id layers x
    IsWhole layers before (err e) = Unit
    IsWhole layers before panic = Unit

    skip-IsWhole :
        (layer : List ActionId) (layers : List (List ActionId)) (before : List BuildEvent)
        (answer : Result ExecError (List BuildEvent))
        → stale_of p layer ≡ []
        → IsWhole layers before answer
        → IsWhole (layer ∷ layers) before answer
    skip-IsWhole layer layers before (ok events) empty h =
        λ x. omega (arith, h x, ap (λ ids. due by_id ids x) empty)
    skip-IsWhole layer layers before (err e) empty h = tt
    skip-IsWhole layer layers before panic empty h = tt

    add-IsWhole :
        (layer : List ActionId) (layers : List (List ActionId)) (before b : List BuildEvent)
        (answer : Result ExecError (List BuildEvent))
        → ((x : ActionId) → emitted x b ≡ due by_id (stale_of p layer) x)
        → IsWhole layers (before ++ b) answer
        → IsWhole (layer ∷ layers) before answer
    add-IsWhole layer layers before b (ok events) own h =
        λ x. omega (arith, h x, own x, emitted-append x before b)
    add-IsWhole layer layers before b (err e) own h = tt
    add-IsWhole layer layers before b panic own h = tt

    Runs-IsWhole :
        {layers : List (List ActionId)} {g : Progress S} {out : Outcome S}
        → Runs c mode ctx by_id permits p total layers g out
        → IsWhole layers g.all_events out.answer
    Runs-IsWhole {g} (finished answer state) =
        subst (IsWhole [] g.all_events) (sym answer) (λ x. omega arith)
    Runs-IsWhole {layers} {g} (halted answer state) =
        subst (IsWhole layers g.all_events) (sym answer) tt
    Runs-IsWhole {layers = layer ∷ layers} {g} {out} (skipped g' empty same rest) =
        skip-IsWhole layer layers g.all_events out.answer empty
          (subst (λ es. IsWhole layers es out.answer) same.0 (Runs-IsWhole rest))
    Runs-IsWhole {layers = layer ∷ layers} {g} {out}
          (ran g' events (index, schedule, calls, executed) wrote good all rest) =
        add-IsWhole layer layers g.all_events events out.answer
          (execute_layer-IsComplete mode ctx by_id p.input_hashes permits index (stale_of p layer)
            schedule events calls executed).0
          (subst (λ es. IsWhole layers es out.answer) all (Runs-IsWhole rest))
    Runs-IsWhole {layers} {g} (failed events settled wrote bad answer) =
        subst (IsWhole layers g.all_events) (sym answer) tt
    Runs-IsWhole {layers} {g} (unwritten events e settled wrote answer) =
        subst (IsWhole layers g.all_events) (sym answer) tt
    Runs-IsWhole {layers} {g} (unwound answer) = subst (IsWhole layers g.all_events) (sym answer) tt

module _ {S : Type 0} (o : Orchestrator S) (p : Plan) (mode : ExecMode)
    (schedules : List (List Turn)) where
  -- Whatever the schedule: the events of a run are those of the batches that the cache took, in
  -- order. A run that returns them has no failure among them; a failed layer is the last that was
  -- run and written, and a run that is cancelled between layers, or that a write stops, has only
  -- successful layers before.
  pub execute_plan_observed-Ended :
      (out : Outcome S)
      → execute_plan_observed o p mode schedules ≡ some out
      → Ended o.store.cache [] o.store.state out.answer out.state
  unfolding execute_plan_observed
  execute_plan_observed-Ended out e =
      Runs-Ended o.store.cache mode o.base_ctx (by_id_of o.actions) (pool o) p (total_running p) (
        run_layers-Runs o.store.cache mode o.base_ctx (by_id_of o.actions) (pool o) p
          (total_running p) p.layers schedules _ out e)

  -- A run that returns its events has one for each time that a registered action is stale in the
  -- plan, and no other.
  pub execute_plan_observed-IsComplete :
      (out : Outcome S) (events : List BuildEvent)
      → execute_plan_observed o p mode schedules ≡ some out
      → out.answer ≡ ok events
      → (x : ActionId) → emitted x events ≡ dues p (by_id_of o.actions) p.layers x
  unfolding execute_plan_observed
  execute_plan_observed-IsComplete out events e answer x =
      let whole =
        subst
          (IsWhole o.store.cache mode o.base_ctx (by_id_of o.actions) (pool o) p (total_running p)
            p.layers [])
          answer
          (Runs-IsWhole o.store.cache mode o.base_ctx (by_id_of o.actions) (pool o) p
            (total_running p)
            (run_layers-Runs o.store.cache mode o.base_ctx (by_id_of o.actions) (pool o) p
              (total_running p) p.layers schedules _ out e)) in
      omega (arith, whole x)
