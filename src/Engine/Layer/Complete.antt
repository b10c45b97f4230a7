-- ===== src/Engine/Layer/Complete.antt =====
-- What a settled layer has done, whatever its schedule was.
use repolith.Prelude.{
  ℕ, ◌+◌, ◌≡◌, ap, subst, inl, inr, false, some, List, [], ◌∷◌, ◌++◌, All, ok, ◌==◌, arith,
  if◌then◌else◌, Bool-cases, Option-cases, Result-cases,
}
use repolith.Prelude.Maps.{get, has}
use repolith.Types.{ActionId, action_id_eq, Sha256, Ctx, ExecMode, BuildEvent, event_id}
use repolith.Plan.Compute.{ById}
use repolith.Engine.Layer.{
  Call, on_layer_end, Pending, prepare, Turn, LayerRun, drain, is_finished, guarded, initial,
  execute_layer,
}
use repolith.Engine.Layer.Accounts.{
  weigh, is_at, emitted, event_input, drain-Balances, drain-IsPlanned,
}

-- The ids that are due, with an action to run.
abbrev pub due : ById → List ActionId → ActionId → ℕ
due by_id [] x = 0
due by_id (i ∷ ids) x = (if has i by_id then (if i == x then 1 else 0) else 0) + due by_id ids x

pub prepare-tally :
    (by_id : ById) (hashes : List (ActionId × Sha256)) (ids : List ActionId)
    (pending : List Pending)
    → prepare by_id hashes ids ≡ ok pending
    → ((x : ActionId) → weigh (is_at x) pending ≡ due by_id ids x)
      × All (λ p. get p.id hashes ≡ some p.input_hash) pending
unfolding prepare
prepare-tally by_id hashes [] pending e = (λ x. ground arith, ground arith)
prepare-tally by_id hashes (i ∷ ids) pending e = elim (Option-cases (get i by_id)) [
  | inl n ↦
      let (same, planned) = prepare-tally by_id hashes ids pending (ground arith) in
      (λ x. ground (arith, same x), planned)
  | inr (action, found) ↦ elim (Option-cases (get i hashes)) [
    | inl n ↦ absurd (ground arith)
    | inr (hash, known) ↦ elim (Result-cases (prepare by_id hashes ids)) [
      | inl (rest, done) ↦
          let (same, planned) = prepare-tally by_id hashes ids rest done in
          (λ x. ground (arith, same x), ground (arith, planned))
      | inr (inl (error, done)) ↦ absurd (ground arith)
      | inr (inr done) ↦ absurd (ground arith)
    ]
  ]
]

module _ (mode : ExecMode) (ctx : Ctx) (by_id : ById) (hashes : List (ActionId × Sha256))
    (permits index : ℕ) (stale_ids : List ActionId) (schedule : List Turn) where
  -- A layer that returns events has drained a schedule to its end without a panic.
  pub execute_layer-eq-ok :
      (events : List BuildEvent) (calls : List Call)
      → execute_layer mode ctx by_id hashes permits index stale_ids schedule
        ≡ some (ok events, calls)
      → (pending : List Pending) × (r : LayerRun) × (prepare by_id hashes stale_ids ≡ ok pending)
        × (drain mode ctx schedule (initial pending permits) ≡ some r)
        × (r.queued ≡ [])
        × (r.running ≡ [])
        × (r.panicked ≡ false)
        × (r.events ≡ events)
        × (calls ≡ r.calls ++ on_layer_end index ∷ [])
  unfolding execute_layer is_finished guarded
  execute_layer-eq-ok events calls e = elim (Result-cases (prepare by_id hashes stale_ids)) [
    | inl (pending, done) ↦
        elim (Option-cases (drain mode ctx schedule (initial pending permits))) [
          | inl n ↦ absurd (ground arith)
          | inr (r, drained) ↦ elim (Bool-cases r.panicked) [
            | inl t ↦ absurd (ground arith)
            | inr f ↦ (
              pending,
              r,
              done,
              drained,
              ground arith,
              ground arith,
              f,
              ground arith,
              ground arith,
            )
          ]
        ]
    | inr (inl (error, done)) ↦ absurd (ground arith)
    | inr (inr done) ↦ absurd (ground arith)
  ]

  -- When a layer returns events, each stale id with a registered action has as many events as it
  -- stands in the layer, no other id has one, and each event carries the hash of the plan, whatever
  -- the order in which the runtime drives the actions.
  pub execute_layer-IsComplete :
      (events : List BuildEvent) (calls : List Call)
      → execute_layer mode ctx by_id hashes permits index stale_ids schedule
        ≡ some (ok events, calls)
      → ((x : ActionId) → emitted x events ≡ due by_id stale_ids x)
        × All (λ e. get (event_id e) hashes ≡ some (event_input e)) events
  execute_layer-IsComplete events calls e =
      let (pending, r, prepared, drained, queued, running, fine, same, _) =
        execute_layer-eq-ok events calls e in
      let (start_tally, planned) = prepare-tally by_id hashes stale_ids pending prepared in
      let (_, tallies, _) =
        drain-Balances mode ctx schedule (initial pending permits) r drained fine in
      let (_, _, hashed) =
        drain-IsPlanned hashes mode ctx schedule (initial pending permits) r drained
          (planned, tt, tt) in
      (
        λ x. ground (
          arith,
          start_tally x,
          tallies x,
          ap (weigh (is_at x)) queued,
          ap (weigh (is_at x)) running,
          ap (emitted x) same,
        ),
        subst (All (λ e. get (event_id e) hashes ≡ some (event_input e))) same hashed,
      )
