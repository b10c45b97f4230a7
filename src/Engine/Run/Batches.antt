-- ===== src/Engine/Run/Batches.antt =====
-- How a run goes through the layers of a plan, and what it leaves in the cache.
use repolith.Prelude.{
  ℕ, suc, ◌≡◌, refl, sym, ap, subst, inl, inr, true, false, some, List, [], ◌∷◌, ◌++◌, Result, ok,
  err, panic, any, arith, Bool-cases, Option-cases, Result-cases, List-cases, some_inj,
}
use repolith.Prelude.Maps.{get}
use repolith.Types.{ActionId, action_id_eq, Sha256, Ctx, ExecMode, BuildEvent, is_failed}
use repolith.Cache.{Cache, CacheError}
use repolith.Plan.Compute.{Plan, ById}
use repolith.Engine.Builder.{ExecError, layer_failed, cache}
use repolith.Engine.Layer.{
  Call, Turn, prepare, drain, initial, guarded, execute_layer, on_layer_start,
}
use repolith.Engine.Run.{
  stale_of, Outcome, Progress, after_write, persist, close_layer, run_layer, run_layers,
}

prepare-no-err :
    (by_id : ById) (hashes : List (ActionId × Sha256)) (ids : List ActionId) (e : ExecError)
    → prepare by_id hashes ids ≡ err e
    → ⊥
unfolding prepare
prepare-no-err by_id hashes [] e eq = cc
prepare-no-err by_id hashes (i ∷ ids) e eq = elim (Option-cases (get i by_id)) [
  | inl n ↦ prepare-no-err by_id hashes ids e (ground arith)
  | inr (action, found) ↦ elim (Option-cases (get i hashes)) [
    | inl n ↦ ground arith
    | inr (hash, known) ↦ elim (Result-cases (prepare by_id hashes ids)) [
      | inl (rest, done) ↦ ground arith
      | inr (inl (f, done)) ↦ prepare-no-err by_id hashes ids f done
      | inr (inr done) ↦ ground arith
    ]
  ]
]

module _ (mode : ExecMode) (ctx : Ctx) (by_id : ById) (hashes : List (ActionId × Sha256))
    (permits index : ℕ) (stale : List ActionId) (schedule : List Turn) where
  execute_layer-no-err :
      (e : ExecError) (calls : List Call)
      → execute_layer mode ctx by_id hashes permits index stale schedule ≡ some (err e, calls)
      → ⊥
  unfolding execute_layer guarded
  execute_layer-no-err e calls eq = elim (Result-cases (prepare by_id hashes stale)) [
    | inl (pending, done) ↦
        elim (Option-cases (drain mode ctx schedule (initial pending permits))) [
          | inl n ↦ ground arith
          | inr (r, drained) ↦ elim (Bool-cases r.panicked) [
            | inl t ↦ ground arith
            | inr f ↦ ground arith
          ]
        ]
    | inr (inl (f, done)) ↦ prepare-no-err by_id hashes stale f done
    | inr (inr done) ↦ ground arith
  ]

module _ {S : Type 0} (c : Cache S) (mode : ExecMode) (ctx : Ctx) (by_id : ById) (permits : ℕ)
    (p : Plan) (total : ℕ) where
  -- The layer's futures have given these events.
  abbrev pub Settled : List ActionId → List BuildEvent → Type 0
  Settled stale events =
      (index : ℕ) × (schedule : List Turn) × (calls : List Call) × (execute_layer mode ctx by_id
          p.input_hashes permits index stale schedule
        ≡ some (ok events, calls))

  -- The run as a relation: from the layers left and the progress to the outcome.
  pub data Runs : List (List ActionId) → Progress S → Outcome S → Type 0 where
    finished :
        {g : Progress S} {out : Outcome S}
        → out.answer ≡ ok g.all_events
        → out.state ≡ g.state
        → Runs [] g out
    halted :
        {layer : List ActionId} {layers : List (List ActionId)} {g : Progress S} {out : Outcome S}
        → out.answer ≡ err (layer_failed g.all_events)
        → out.state ≡ g.state
        → Runs (layer ∷ layers) g out
    skipped :
        {layer : List ActionId} {layers : List (List ActionId)} {g : Progress S} {out : Outcome S}
        (g' : Progress S)
        → stale_of p layer ≡ []
        → (g'.all_events ≡ g.all_events) × (g'.state ≡ g.state)
        → Runs layers g' out
        → Runs (layer ∷ layers) g out
    ran :
        {layer : List ActionId} {layers : List (List ActionId)} {g : Progress S} {out : Outcome S}
        (g' : Progress S) (events : List BuildEvent)
        → Settled (stale_of p layer) events
        → c.record_batch events g.state ≡ (ok tt, g'.state)
        → any is_failed events ≡ false
        → g'.all_events ≡ g.all_events ++ events
        → Runs layers g' out
        → Runs (layer ∷ layers) g out
    failed :
        {layer : List ActionId} {layers : List (List ActionId)} {g : Progress S} {out : Outcome S}
        (events : List BuildEvent)
        → Settled (stale_of p layer) events
        → c.record_batch events g.state ≡ (ok tt, out.state)
        → any is_failed events ≡ true
        → out.answer ≡ err (layer_failed (g.all_events ++ events))
        → Runs (layer ∷ layers) g out
    unwritten :
        {layer : List ActionId} {layers : List (List ActionId)} {g : Progress S} {out : Outcome S}
        (events : List BuildEvent) (e : CacheError)
        → Settled (stale_of p layer) events
        → c.record_batch events g.state ≡ (err e, out.state)
        → out.answer ≡ err (cache e)
        → Runs (layer ∷ layers) g out
    unwound :
        {layer : List ActionId} {layers : List (List ActionId)} {g : Progress S} {out : Outcome S}
        → out.answer ≡ panic
        → Runs (layer ∷ layers) g out

  -- A layer that has run: the loop goes on, or the run ends there.
  abbrev Closed : List ActionId → Progress S → Result (Outcome S) (Progress S) → Type 0
  Closed layer g (ok g') =
      (events : List BuildEvent) × Settled (stale_of p layer) events
      × (c.record_batch events g.state ≡ (ok tt, g'.state))
      × (any is_failed events ≡ false)
      × (g'.all_events ≡ g.all_events ++ events)
  Closed layer g (err out) = (layers : List (List ActionId)) → Runs (layer ∷ layers) g out
  Closed layer g panic = Unit

  after_write-Closed :
      (layer : List ActionId) (g g' : Progress S) (events : List BuildEvent)
      (written : Result CacheError (Unit {0}))
      → Settled (stale_of p layer) events
      → c.record_batch events g.state ≡ (written, g'.state)
      → g'.all_events ≡ g.all_events
      → Closed layer g (after_write c events written g')
  unfolding after_write
  after_write-Closed layer g g' events (err e) settled wrote same =
      λ layers. unwritten events e settled wrote refl
  after_write-Closed layer g g' events panic settled wrote same = λ layers. unwound refl
  after_write-Closed layer g g' events (ok u) settled wrote same =
      elim (Bool-cases (any is_failed events)) [
        | inl t ↦ rw t (λ layers.
            failed events settled wrote t (ap (λ es. err (layer_failed (es ++ events))) same))
        | inr f ↦ rw f (events, settled, wrote, f, ap (λ es. es ++ events) same)
      ]

  close_layer-Closed :
      (layer : List ActionId) (g g' : Progress S)
      (done : Result ExecError (List BuildEvent) × List Call) (index : ℕ) (schedule : List Turn)
      → execute_layer mode ctx by_id p.input_hashes permits index (stale_of p layer) schedule
        ≡ some done
      → (g'.all_events ≡ g.all_events) × (g'.state ≡ g.state)
      → Closed layer g (close_layer c done g')
  unfolding close_layer persist
  close_layer-Closed layer g g' (ok events, calls) index schedule e same =
      let now = record g' {
        calls = g'.calls ++ calls;
        state = (c.record_batch events g'.state).1;
      } in
      after_write-Closed layer g now events (c.record_batch events g'.state).0
        (index, schedule, calls, e) (ap (c.record_batch events) (sym same.1)) same.0
  close_layer-Closed layer g g' (err error, calls) index schedule e same = absurd (
      execute_layer-no-err mode ctx by_id p.input_hashes permits index (stale_of p layer) schedule
        error calls e)
  close_layer-Closed layer g g' (panic, calls) index schedule e same = λ layers. unwound refl

  run_layer-Closed :
      (layer : List ActionId) (g g' : Progress S) (schedule : List Turn)
      (r : Result (Outcome S) (Progress S))
      → run_layer c mode ctx by_id permits p total (stale_of p layer) schedule g' ≡ some r
      → (g'.all_events ≡ g.all_events) × (g'.state ≡ g.state)
      → Closed layer g r
  unfolding run_layer
  run_layer-Closed layer g g' schedule r e same =
      let index = suc g'.layer_index in
      let stale = stale_of p layer in
      let announced = record g' {
        layer_index = index;
        calls = g'.calls ++ on_layer_start index total stale ∷ [];
      } in
      elim (Option-cases
        (execute_layer mode ctx by_id p.input_hashes permits index stale schedule)) [
          | inl n ↦ absurd (ground arith)
          | inr (done, executed) ↦
              subst (Closed layer g) (some_inj (rw (run_layer, executed) at e))
                (close_layer-Closed layer g announced done index schedule executed same)
        ]

  -- Every run of the loop is a derivation of the relation.
  pub run_layers-Runs :
      (layers : List (List ActionId)) (schedules : List (List Turn)) (g : Progress S)
      (out : Outcome S)
      → run_layers c mode ctx by_id permits p total layers schedules g ≡ some out
      → Runs layers g out
  unfolding run_layers
  run_layers-Runs [] schedules g out e = finished (ground arith) (ground arith)
  run_layers-Runs (layer ∷ layers) schedules g out e =
      elim (Bool-cases (ctx.cancel.is_cancelled g.polls)) [
        | inl t ↦ halted (ground arith) (ground arith)
        | inr f ↦
            let next = record g { polls = suc g.polls } in
            elim (List-cases (stale_of p layer)) [
              | inl empty ↦
                  skipped next empty (refl, refl)
                    (run_layers-Runs layers schedules next out (rw (run_layers, f, empty) at e))
              | inr (i, ids, some_stale) ↦ elim (List-cases schedules) [
                | inl n ↦ absurd (ground arith)
                | inr (schedule, later, scheduled) ↦
                    elim (Option-cases
                      (run_layer c mode ctx by_id permits p total (i ∷ ids) schedule next)) [
                        | inl n ↦ absurd (ground arith)
                        | inr (r, done) ↦
                            let closed =
                              run_layer-Closed layer g next schedule r (rw some_stale done)
                                (refl, refl) in
                            elim (Result-cases r) [
                              | inl (g', isok) ↦
                                  let (events, settled, wrote, calm, all) =
                                    subst (Closed layer g) isok closed in
                                  ran g' events settled wrote calm all (
                                    run_layers-Runs layers later g' out
                                      (rw (run_layers, f, some_stale, scheduled, done, isok) at e))
                              | inr (inl (left, iserr)) ↦
                                  subst (Runs (layer ∷ layers) g)
                                    (some_inj
                                      (rw (run_layers, f, some_stale, scheduled, done, iserr) at e))
                                    (subst (Closed layer g) iserr closed layers)
                              | inr (inr bad) ↦ absurd (ground arith)
                            ]
                      ]
              ]
            ]
      ]
