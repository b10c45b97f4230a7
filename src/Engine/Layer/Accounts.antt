-- ===== src/Engine/Layer/Accounts.antt =====
-- What every turn of a layer keeps: where the futures are, and who holds the permits.
use repolith.Prelude.{
  ℕ, ◌+◌, ◌≡◌, refl, inl, inr, true, false, some, List, [], ◌∷◌, ◌++◌, All, All-append, Result, ok,
  err, panic, ◌==◌, arith, if◌then◌else◌, not, Bool-cases, ◌||◌, Option-cases, some_inj, subst,
}
use repolith.Prelude.Maps.{get}
use repolith.Types.{
  ActionId, action_id_eq, Sha256, Ctx, ExecMode, BuildError, BuildOutput, BuildEvent, success,
  failed, event_id,
}
use repolith.Engine.Layer.{
  Pending, Turn, start, interrupt, finish, LayerRun, take_out, acquire, release, start_future,
  settle_future, take_turn, drain, with_running, token,
}

-- The total weight of futures.
abbrev pub weigh : (Pending → ℕ) → List Pending → ℕ
weigh f [] = 0
weigh f (p ∷ ps) = f p + weigh f ps

pub take_out-weigh :
    (f : Pending → ℕ) (i : ActionId) (ps : List Pending) (p : Pending) (others : List Pending)
    → take_out i ps ≡ some (p, others)
    → weigh f ps ≡ f p + weigh f others
unfolding take_out
take_out-weigh f i [] p others e = absurd (ground arith)
take_out-weigh f i (q ∷ ps) p others e = elim (Bool-cases (q.id == i)) [
  | inl t ↦ ground arith
  | inr u ↦ elim (Option-cases (take_out i ps)) [
    | inl n ↦ absurd (ground arith)
    | inr (found, same) ↦ ground (arith, take_out-weigh f i ps found.0 found.1 same)
  ]
]

pub take_out-All :
    (P : Pending → Type 0) (i : ActionId) (ps : List Pending) (p : Pending) (others : List Pending)
    → take_out i ps ≡ some (p, others)
    → All P ps
    → P p × All P others
unfolding take_out
take_out-All P i [] p others e h = absurd (ground arith)
take_out-All P i (q ∷ ps) p others e h = elim (Bool-cases (q.id == i)) [
  | inl t ↦ ground arith
  | inr u ↦ elim (Option-cases (take_out i ps)) [
    | inl n ↦ absurd (ground arith)
    | inr (found, same) ↦ ground (arith, take_out-All P i ps found.0 found.1 same h.1)
  ]
]

-- One permit, unless the action coordinates others.
abbrev pub charge : Pending → ℕ
charge p = if p.action.is_coordinator then 0 else 1

abbrev pub is_at : ActionId → Pending → ℕ
is_at x p = if p.id == x then 1 else 0

-- The events with an id.
abbrev pub emitted : ActionId → List BuildEvent → ℕ
emitted x [] = 0
emitted x (e ∷ events) = (if event_id e == x then 1 else 0) + emitted x events

emitted-snoc :
    (x : ActionId) (events : List BuildEvent) (e : BuildEvent)
    → emitted x (events ++ e ∷ []) ≡ emitted x events + (if event_id e == x then 1 else 0)
emitted-snoc x [] e = omega arith
emitted-snoc x (d ∷ events) e = omega (arith, emitted-snoc x events e)

-- An id's futures and events together.
abbrev pub tally : LayerRun → ActionId → ℕ
tally r x = weigh (is_at x) r.queued + (weigh (is_at x) r.running + emitted x r.events)

-- The permits, free or held.
abbrev pub permits_of : LayerRun → ℕ
permits_of r = r.free + weigh charge r.running

abbrev pub event_input : BuildEvent → Sha256
event_input (success i input output ms) = input
event_input (failed i input error ms) = input

-- Every event and every future carries the hash that the plan has for its id.
abbrev pub IsPlanned : List (ActionId × Sha256) → LayerRun → Type 0
IsPlanned hashes r =
    All (λ p. get p.id hashes ≡ some p.input_hash) r.queued
    × All (λ p. get p.id hashes ≡ some p.input_hash) r.running
    × All (λ e. get (event_id e) hashes ≡ some (event_input e)) r.events

-- Two states of a layer that has not panicked agree on the accounts.
abbrev pub Balances : LayerRun → LayerRun → Type 0
Balances r r' =
    r'.panicked ≡ false
    → (r.panicked ≡ false)
      × ((x : ActionId) → tally r' x ≡ tally r x)
      × (permits_of r' ≡ permits_of r)

start-Balances :
    (i : ActionId) (r r' : LayerRun) (p : Pending) (others : List Pending)
    → take_out i r.queued ≡ some (p, others)
    → start_future (p, others) r ≡ some r'
    → Balances r r'
unfolding start_future acquire
start-Balances i r r' p others e moved fine = elim (Bool-cases p.action.is_coordinator) [
  | inl t ↦ (
    ground arith,
    λ x. ground (arith, take_out-weigh (is_at x) i r.queued p others e),
    ground arith,
  )
  | inr f ↦ (
    ground arith,
    λ x. ground (arith, take_out-weigh (is_at x) i r.queued p others e),
    ground arith,
  )
]

settle-Balances :
    (mode : ExecMode) (i : ActionId) (ms : ℕ) (r : LayerRun) (p : Pending) (others : List Pending)
    (result : Result BuildError BuildOutput)
    → take_out i r.running ≡ some (p, others)
    → Balances r (settle_future mode p ms result (with_running r others))
unfolding settle_future release
settle-Balances mode i ms r p others (ok out) e fine = (
  fine,
  λ x. omega (
    arith,
    take_out-weigh (is_at x) i r.running p others e,
    emitted-snoc x r.events (success p.id p.input_hash out.output_hash ms),
  ),
  ground (arith, take_out-weigh charge i r.running p others e),
)
settle-Balances mode i ms r p others (err error) e fine = (
  fine,
  λ x. omega (
    arith,
    take_out-weigh (is_at x) i r.running p others e,
    emitted-snoc x r.events (failed p.id p.input_hash error ms),
  ),
  ground (arith, take_out-weigh charge i r.running p others e),
)
settle-Balances mode i ms r p others panic e fine = absurd (ground arith)

start-IsPlanned :
    (hashes : List (ActionId × Sha256)) (i : ActionId) (r r' : LayerRun) (p : Pending)
    (others : List Pending)
    → take_out i r.queued ≡ some (p, others)
    → start_future (p, others) r ≡ some r'
    → IsPlanned hashes r
    → IsPlanned hashes r'
unfolding start_future acquire
start-IsPlanned hashes i r r' p others e moved h =
    let (own, rest) =
      take_out-All (λ q. get q.id hashes ≡ some q.input_hash) i r.queued p others e h.0 in
    elim (Bool-cases p.action.is_coordinator) [ inl t ↦ ground arith | inr f ↦ ground arith ]

settle-IsPlanned :
    (hashes : List (ActionId × Sha256)) (mode : ExecMode) (i : ActionId) (ms : ℕ) (r : LayerRun)
    (p : Pending) (others : List Pending) (result : Result BuildError BuildOutput)
    → take_out i r.running ≡ some (p, others)
    → IsPlanned hashes r
    → IsPlanned hashes (settle_future mode p ms result (with_running r others))
unfolding settle_future
settle-IsPlanned hashes mode i ms r p others (ok out) e h =
    let (own, rest) =
      take_out-All (λ q. get q.id hashes ≡ some q.input_hash) i r.running p others e h.1 in
    (h.0, rest, All-append _ r.events _ h.2 (own, tt))
settle-IsPlanned hashes mode i ms r p others (err error) e h =
    let (own, rest) =
      take_out-All (λ q. get q.id hashes ≡ some q.input_hash) i r.running p others e h.1 in
    (h.0, rest, All-append _ r.events _ h.2 (own, tt))
settle-IsPlanned hashes mode i ms r p others panic e h = (tt, tt, h.2)

-- A property that every move of the layer keeps, every turn keeps.
pub take_turn_rule :
    (Q : LayerRun → LayerRun → Type 0) (mode : ExecMode) (ctx : Ctx) (t : Turn) (r r' : LayerRun)
    → ((i : ActionId) (p : Pending) (others : List Pending)
        → take_out i r.queued ≡ some (p, others)
        → start_future (p, others) r ≡ some r'
        → Q r r')
    → Q r (record r { is_cancelled = true })
    → ((i : ActionId) (ms : ℕ) (p : Pending) (others : List Pending)
          (result : Result BuildError BuildOutput)
        → take_out i r.running ≡ some (p, others)
        → Q r (settle_future mode p ms result (with_running r others)))
    → take_turn mode ctx t r ≡ some r'
    → Q r r'
unfolding take_turn
take_turn_rule Q mode ctx (start i) r r' starts interrupts settles e =
    elim (Option-cases (take_out i r.queued)) [
      | inl n ↦ absurd (ground arith)
      | inr ((p, others), found) ↦ starts i p others found (rw (take_turn, found) at e)
    ]
take_turn_rule Q mode ctx interrupt r r' starts interrupts settles e =
    subst (λ s. Q r s) (some_inj e) interrupts
take_turn_rule Q mode ctx (finish i ms sees) r r' starts interrupts settles e =
    elim (Bool-cases (not sees || r.is_cancelled)) [
      | inl t ↦ elim (Option-cases (take_out i r.running)) [
        | inl n ↦ absurd (ground arith)
        | inr ((p, others), found) ↦
            subst (λ s. Q r s) (some_inj (rw (take_turn, t, found) at e))
              (settles i ms p others (p.action.execute (record ctx { cancel = token sees })) found)
      ]
      | inr f ↦ absurd (ground arith)
    ]

pub take_turn-Balances :
    (mode : ExecMode) (ctx : Ctx) (t : Turn) (r r' : LayerRun)
    → take_turn mode ctx t r ≡ some r'
    → Balances r r'
take_turn-Balances mode ctx t r r' e =
    take_turn_rule Balances mode ctx t r r' (λ i p others. start-Balances i r r' p others)
      (λ fine. (fine, λ x. refl, refl))
      (λ i ms p others result. settle-Balances mode i ms r p others result) e

pub take_turn-IsPlanned :
    (hashes : List (ActionId × Sha256)) (mode : ExecMode) (ctx : Ctx) (t : Turn) (r r' : LayerRun)
    → take_turn mode ctx t r ≡ some r'
    → IsPlanned hashes r
    → IsPlanned hashes r'
take_turn-IsPlanned hashes mode ctx t r r' e =
    take_turn_rule (λ r r'. IsPlanned hashes r → IsPlanned hashes r') mode ctx t r r'
      (λ i p others found moved. start-IsPlanned hashes i r r' p others found moved) (λ h. h)
      (λ i ms p others result found. settle-IsPlanned hashes mode i ms r p others result found) e

pub drain-Balances :
    (mode : ExecMode) (ctx : Ctx) (schedule : List Turn) (r r' : LayerRun)
    → drain mode ctx schedule r ≡ some r'
    → Balances r r'
unfolding drain
drain-Balances mode ctx [] r r' e fine =
    subst (λ s. Balances r s) (some_inj e) (λ fine. (fine, λ x. refl, refl)) fine
drain-Balances mode ctx (t ∷ schedule) r r' e fine = elim (Option-cases (take_turn mode ctx t r)) [
  | inl n ↦ absurd (ground arith)
  | inr (next, took) ↦
      let (mid, tallies, permits) =
        drain-Balances mode ctx schedule next r' (rw (drain, took) at e) fine in
      let (first, tallies', permits') = take_turn-Balances mode ctx t r next took mid in
      (first, λ x. omega (arith, tallies x, tallies' x), omega (arith, permits, permits'))
]

pub drain-IsPlanned :
    (hashes : List (ActionId × Sha256)) (mode : ExecMode) (ctx : Ctx) (schedule : List Turn)
    (r r' : LayerRun)
    → drain mode ctx schedule r ≡ some r'
    → IsPlanned hashes r
    → IsPlanned hashes r'
unfolding drain
drain-IsPlanned hashes mode ctx [] r r' e h = subst (IsPlanned hashes) (some_inj e) h
drain-IsPlanned hashes mode ctx (t ∷ schedule) r r' e h =
    elim (Option-cases (take_turn mode ctx t r)) [
      | inl n ↦ absurd (ground arith)
      | inr (next, took) ↦
          drain-IsPlanned hashes mode ctx schedule next r' (rw (drain, took) at e)
            (take_turn-IsPlanned hashes mode ctx t r next took h)
    ]
