-- ===== src/Engine/Run/Reads.antt =====
-- What the cache gives back after a run.
use repolith.Prelude.{
  ℕ, ◌≡◌, ◌≤◌, refl, sym, ap, ◌∙◌, subst, inl, inr, Option, none, some, List, [], ◌∷◌, ◌++◌, All,
  All-append, Result, ok, err, panic, ==-cases, arith,
}
use repolith.Prelude.Maps.{get}
use repolith.Types.{
  ActionId, action_id_eq, Sha256, Ctx, ExecMode, BuildEvent, success, failed, event_id,
}
use repolith.Cache.{Cache}
use repolith.Cache.Contract.{IsStorable, IsStore, after_event, after_batch}
use repolith.Plan.Compute.{Plan, ById, by_id_of}
use repolith.Engine.Builder.{Orchestrator, ExecError}
use repolith.Engine.Layer.{Turn}
use repolith.Engine.Layer.Accounts.{emitted, event_input}
use repolith.Engine.Layer.Complete.{execute_layer-IsComplete}
use repolith.Engine.Run.{stale_of, Outcome, Progress, pool, total_running, execute_plan_observed}
use repolith.Engine.Run.Batches.{
  Runs, finished, halted, skipped, ran, failed, unwritten, unwound, run_layers-Runs,
}
use repolith.Engine.Run.Laws.{Written, Ended, IsSuccess, concat, execute_plan_observed-Ended}

after_batch-append :
    (i : ActionId) (xs ys : List BuildEvent) (before : Option BuildEvent)
    → after_batch i (xs ++ ys) before ≡ after_batch i ys (after_batch i xs before)
after_batch-append i [] ys before = refl
after_batch-append i (e ∷ xs) ys before = after_batch-append i xs ys (after_event i e before)

All-split : {A : Type 0} (P : A → Type 0) (xs ys : List A) → All P (xs ++ ys) → All P xs × All P ys
All-split P [] ys h = (tt, h)
All-split P (x ∷ xs) ys h = let (front, back) = All-split P xs ys h.1 in ((h.0, front), back)

-- The batches of a run are read back.
Written-reads :
    {S : Type 0} (c : Cache S) (s s' : S) (batches : List (List BuildEvent))
    → IsStore c
    → Written c s batches s'
    → All IsStorable (concat batches)
    → (i : ActionId) → c.last_build s' i ≡ after_batch i (concat batches) (c.last_build s i)
Written-reads c s s' [] store same storable i = ap (λ t. c.last_build t i) (sym same)
Written-reads c s s' (b ∷ batches) store (next, wrote, written) storable i =
    let (front, back) = All-split IsStorable b (concat batches) storable in
    Written-reads c next s' batches store written back i
    ∙ ap (after_batch i (concat batches)) (store.reads_batch b s next front wrote i)
    ∙ sym (after_batch-append i b (concat batches) (c.last_build s i))

-- An id without an event keeps what it had.
pub after_batch-absent :
    (i : ActionId) (events : List BuildEvent) (before : Option BuildEvent)
    → emitted i events ≡ 0
    → after_batch i events before ≡ before
after_batch-absent i [] before h = refl
after_batch-absent i (e ∷ events) before h = ground (arith, after_batch-absent i events before)

-- A success with the hash that the plan has.
abbrev pub IsBuiltAs : List (ActionId × Sha256) → ActionId → Option BuildEvent → Type 0
IsBuiltAs hashes i none = ⊥
IsBuiltAs hashes i (some (success j input output ms)) = get i hashes ≡ some input
IsBuiltAs hashes i (some (failed j input error ms)) = ⊥

abbrev IsPlannedEvent : List (ActionId × Sha256) → BuildEvent → Type 0
IsPlannedEvent hashes e = get (event_id e) hashes ≡ some (event_input e)

-- Once built so, an id stays so.
after_batch-stays :
    (hashes : List (ActionId × Sha256)) (i : ActionId) (events : List BuildEvent)
    (before : Option BuildEvent)
    → All IsSuccess events
    → All (IsPlannedEvent hashes) events
    → IsBuiltAs hashes i before
    → IsBuiltAs hashes i (after_batch i events before)
after_batch-stays hashes i [] before good planned h = h
after_batch-stays hashes i (success j input output ms ∷ events) before good planned h =
    elim (==-cases j i) [
      | inl (t, same) ↦ rw t (
          after_batch-stays hashes i events (some (success j input output ms)) good.1 planned.1
            (subst (λ k. get k hashes ≡ some input) same planned.0))
      | inr (f, other) ↦ rw f (after_batch-stays hashes i events before good.1 planned.1 h)
    ]
after_batch-stays hashes i (failed j input error ms ∷ events) before good planned h = cc

pub after_batch-IsBuiltAs :
    (hashes : List (ActionId × Sha256)) (i : ActionId) (events : List BuildEvent)
    (before : Option BuildEvent)
    → All IsSuccess events
    → All (IsPlannedEvent hashes) events
    → 1 ≤ emitted i events
    → IsBuiltAs hashes i (after_batch i events before)
after_batch-IsBuiltAs hashes i [] before good planned h = absurd (omega arith)
after_batch-IsBuiltAs hashes i (success j input output ms ∷ events) before good planned h =
    elim (==-cases j i) [
      | inl (t, same) ↦ rw t (
          after_batch-stays hashes i events (some (success j input output ms)) good.1 planned.1
            (subst (λ k. get k hashes ≡ some input) same planned.0))
      | inr (f, other) ↦
          rw f (after_batch-IsBuiltAs hashes i events before good.1 planned.1 (ground arith))
    ]
after_batch-IsBuiltAs hashes i (failed j input error ms ∷ events) before good planned h = cc

module _ {S : Type 0} (c : Cache S) (mode : ExecMode) (ctx : Ctx) (by_id : ById) (permits : ℕ)
    (p : Plan) (total : ℕ) where
  -- The events of a run carry the hashes of the plan.
  abbrev AllPlanned : List BuildEvent → Result ExecError (List BuildEvent) → Type 0
  AllPlanned before (ok events) =
      All (IsPlannedEvent p.input_hashes) before → All (IsPlannedEvent p.input_hashes) events
  AllPlanned before (err e) = Unit
  AllPlanned before panic = Unit

  more-AllPlanned :
      (before b : List BuildEvent) (answer : Result ExecError (List BuildEvent))
      → All (IsPlannedEvent p.input_hashes) b
      → AllPlanned (before ++ b) answer
      → AllPlanned before answer
  more-AllPlanned before b (ok events) own h = λ planned. h (All-append _ before b planned own)
  more-AllPlanned before b (err e) own h = tt
  more-AllPlanned before b panic own h = tt

  Runs-AllPlanned :
      {layers : List (List ActionId)} {g : Progress S} {out : Outcome S}
      → Runs c mode ctx by_id permits p total layers g out
      → AllPlanned g.all_events out.answer
  Runs-AllPlanned {g} (finished answer state) =
      subst (AllPlanned g.all_events) (sym answer) (λ h. h)
  Runs-AllPlanned {g} (halted answer state) = subst (AllPlanned g.all_events) (sym answer) tt
  Runs-AllPlanned {g} {out} (skipped g' empty same rest) =
      subst (λ es. AllPlanned es out.answer) same.0 (Runs-AllPlanned rest)
  Runs-AllPlanned {layers = layer ∷ layers} {g} {out}
        (ran g' events (index, schedule, calls, executed) wrote good all rest) =
      more-AllPlanned g.all_events events out.answer
        (execute_layer-IsComplete mode ctx by_id p.input_hashes permits index (stale_of p layer)
          schedule events calls executed).1
        (subst (λ es. AllPlanned es out.answer) all (Runs-AllPlanned rest))
  Runs-AllPlanned {g} (failed events settled wrote bad answer) =
      subst (AllPlanned g.all_events) (sym answer) tt
  Runs-AllPlanned {g} (unwritten events e settled wrote answer) =
      subst (AllPlanned g.all_events) (sym answer) tt
  Runs-AllPlanned {g} (unwound answer) = subst (AllPlanned g.all_events) (sym answer) tt

-- The events of batches without a failure.
All-concat :
    (batches : List (List BuildEvent))
    → All (All IsSuccess) batches
    → All IsSuccess (concat batches)
All-concat [] h = tt
All-concat (b ∷ batches) h = All-append IsSuccess b (concat batches) h.0 (All-concat batches h.1)

module _ {S : Type 0} (o : Orchestrator S) (p : Plan) (mode : ExecMode)
    (schedules : List (List Turn)) where
  -- A run that returns its events has none but successes, with the hashes of the plan, and leaves
  -- them in the cache.
  pub execute_plan_observed-reads :
      (out : Outcome S) (events : List BuildEvent)
      → execute_plan_observed o p mode schedules ≡ some out
      → out.answer ≡ ok events
      → IsStore o.store.cache
      → All IsStorable events
      → ((i : ActionId)
          → o.store.cache.last_build out.state i
            ≡ after_batch i events (o.store.cache.last_build o.store.state i))
        × All IsSuccess events
        × All (IsPlannedEvent p.input_hashes) events
  unfolding execute_plan_observed
  execute_plan_observed-reads out events e answer store storable =
      let (batches, same, written, good) =
        subst (λ a. Ended o.store.cache [] o.store.state a out.state) answer
          (execute_plan_observed-Ended o p mode schedules out e) in
      let planned =
        subst
          (AllPlanned o.store.cache mode o.base_ctx (by_id_of o.actions) (pool o) p
            (total_running p) [])
          answer
          (Runs-AllPlanned o.store.cache mode o.base_ctx (by_id_of o.actions) (pool o) p
            (total_running p)
            (run_layers-Runs o.store.cache mode o.base_ctx (by_id_of o.actions) (pool o) p
              (total_running p) p.layers schedules _ out e)) in
      (
        λ i.
            Written-reads o.store.cache o.store.state out.state batches store written
              (subst (All IsStorable) same storable) i
            ∙ ap (λ es. after_batch i es (o.store.cache.last_build o.store.state i)) (sym same),
        subst (All IsSuccess) (sym same) (All-concat batches good),
        planned tt,
      )
