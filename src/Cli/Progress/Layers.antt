-- ===== src/Cli/Progress/Layers.antt =====
-- What is shown of a layer: what runs, and nothing that vanished.
use repolith.Prelude.{
  ℕ, ◌≤◌, ◌≡◌, refl, sym, ap, ◌∙◌, inl, inr, false, some, List, [], ◌∷◌, ◌++◌, ok, ==_iff, arith,
  ltb, contains, ==-cases,
}
use repolith.Prelude.Maps.{get, has, IsNodup}
use repolith.Types.{ActionId, action_id_eq, Sha256, Ctx, ExecMode, BuildEvent}
use repolith.Plan.Compute.{ById}
use repolith.Engine.Layer.{
  Call, on_layer_end, Pending, prepare, Turn, LayerRun, drain, initial, execute_layer,
}
use repolith.Engine.Layer.Accounts.{weigh, is_at}
use repolith.Engine.Layer.Complete.{due, prepare-tally, execute_layer-eq-ok}
use repolith.Cli.Progress.{CliProgress, call_line, vanished_lines, settle_call, show, replay}
use repolith.Cli.Progress.Flight.{Tracks, replay-snoc, drain-Tracks}

due-absent :
    (by_id : ById) (ids : List ActionId) (x : ActionId)
    → contains ids x ≡ false
    → due by_id ids x ≡ 0
unfolding contains
due-absent by_id [] x h = refl
due-absent by_id (i ∷ ids) x h = ground (arith, due-absent by_id ids x)

due-le : (by_id : ById) (ids : List ActionId) (x : ActionId) → IsNodup ids → due by_id ids x ≤ 1
due-le by_id [] x n = omega arith
due-le by_id (i ∷ ids) x (fresh, n) = elim (==-cases i x) [
  | inl (t, same) ↦ ground (arith, due-absent by_id ids x (ap (contains ids) (sym same) ∙ fresh))
  | inr (f, other) ↦ ground (arith, due-le by_id ids x n)
]

empty_of_has : {V : Type 0} (m : List (ActionId × V)) → ((x : ActionId) → has x m ≡ false) → m ≡ []
unfolding get
empty_of_has [] h = refl
empty_of_has ((i, v) ∷ m) h = ground (arith, h i, ==_iff i i)

-- Before anything has started.
initial-Tracks :
    (now : ℕ → ℕ) (p0 : CliProgress) (pending : List Pending) (permits : ℕ)
    → p0.map_poisoned ≡ false
    → p0.in_flight ≡ []
    → Tracks now p0 (initial pending permits).calls (initial pending permits).running
unfolding replay get
initial-Tracks now p0 pending permits live empty = (live, λ x. ap (has x) empty)

module _ (now : ℕ → ℕ) (p0 : CliProgress) (mode : ExecMode) (ctx : Ctx) (by_id : ById)
    (hashes : List (ActionId × Sha256)) (permits : ℕ) (stale_ids : List ActionId) where
  -- At every moment of a layer of distinct ids that has not panicked, whatever the schedule, a sink
  -- that began with nothing in flight has in flight exactly the actions that run.
  pub in_flight-running :
      (schedule : List Turn) (pending : List Pending) (r : LayerRun)
      → p0.map_poisoned ≡ false
      → p0.in_flight ≡ []
      → IsNodup stale_ids
      → prepare by_id hashes stale_ids ≡ ok pending
      → drain mode ctx schedule (initial pending permits) ≡ some r
      → r.panicked ≡ false
      → (x : ActionId) → has x (replay now r.calls p0).in_flight ≡ ltb 0 (weigh (is_at x) r.running)
  in_flight-running schedule pending r live empty distinct prepared drained fine =
      let (same, _) = prepare-tally by_id hashes stale_ids pending prepared in
      (drain-Tracks now p0 mode ctx schedule (initial pending permits) r drained
        (λ x. omega (arith, same x, due-le by_id stale_ids x distinct))
        (initial-Tracks now p0 pending permits live empty) fine).1

  -- When a layer of distinct ids returns its events, the end of the layer finds nothing in flight and
  -- writes nothing: no action is reported as vanished.
  pub execute_layer-shown :
      (index : ℕ) (schedule : List Turn) (events : List BuildEvent) (calls : List Call)
      → p0.map_poisoned ≡ false
      → p0.in_flight ≡ []
      → IsNodup stale_ids
      → execute_layer mode ctx by_id hashes permits index stale_ids schedule
        ≡ some (ok events, calls)
      → (before : List Call) × (calls ≡ before ++ on_layer_end index ∷ [])
        × ((replay now before p0).in_flight ≡ [])
        × ((replay now calls p0).written ≡ (replay now before p0).written)
  unfolding show vanished_lines settle_call call_line
  execute_layer-shown index schedule events calls live empty distinct e =
      let (pending, r, prepared, drained, _, idle, fine, _, ended) =
        execute_layer-eq-ok mode ctx by_id hashes permits index stale_ids schedule events calls e in
      let flown : (replay now r.calls p0).in_flight ≡ [] =
        empty_of_has (replay now r.calls p0).in_flight (λ x.
          in_flight-running schedule pending r live empty distinct prepared drained fine x
          ∙ ap (λ ps. ltb 0 (weigh (is_at x) ps)) idle) in
      (
        r.calls,
        ended,
        flown,
        ap (λ cs. (replay now cs p0).written) ended
            ∙ ap (λ q. q.written) (replay-snoc now r.calls (on_layer_end index) p0)
            ∙ rw (show, flown) refl,
      )
