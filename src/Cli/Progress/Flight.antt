-- ===== src/Cli/Progress/Flight.antt =====
-- The in-flight map follows the actions of a layer, whatever its schedule.
use repolith.Prelude.{
  ℕ, suc, ◌+◌, ◌≤◌, ◌≡◌, refl, ap, ◌∙◌, inl, inr, false, some, List, [], ◌∷◌, ◌++◌, Result, ok, err,
  panic, arith, ltb, length, Option-cases, some_inj, none≢some, subst, ==-cases,
}
use repolith.Prelude.Texts.{Text}
use repolith.Prelude.Maps.{has, insert, remove, get-insert, get-remove}
use repolith.Types.{
  ActionId, action_id_eq, Ctx, ExecMode, BuildError, cancelled, upstream_unreachable,
  command_failed, io, BuildOutput,
}
use repolith.Engine.Layer.{
  Call, on_action_start, on_action_ok, Pending, Turn, LayerRun, start_future, acquire,
  settle_future, failure_call, take_out, take_turn, drain, with_running,
}
use repolith.Engine.Layer.Accounts.{
  weigh, is_at, tally, take_out-weigh, take_turn_rule, take_turn-Balances, drain-Balances,
}
use repolith.Cli.Progress.{
  CliProgress, line, lines_on, call_line, vanished, vanished_lines, settle_call, remember, forget,
  show, replay,
}

pub replay-snoc :
    (now : ℕ → ℕ) (calls : List Call) (c : Call) (p : CliProgress)
    → replay now (calls ++ c ∷ []) p ≡ show (now (length calls)) c (replay now calls p)
unfolding replay
replay-snoc now [] c p = refl
replay-snoc now (d ∷ calls) c p = replay-snoc (λ k. now (suc k)) calls c (show (now 0) d p)

lines_on-fields :
    (ss : List Text) (p : CliProgress)
    → ((lines_on ss p).in_flight ≡ p.in_flight) × ((lines_on ss p).map_poisoned ≡ p.map_poisoned)
unfolding line
lines_on-fields [] p = (refl, refl)
lines_on-fields (s ∷ ss) p = lines_on-fields ss (line s p)

vanished_lines-fields :
    (ids : List ActionId) (p : CliProgress)
    → ((vanished_lines ids p).in_flight ≡ p.in_flight)
      × ((vanished_lines ids p).map_poisoned ≡ p.map_poisoned)
unfolding vanished_lines line
vanished_lines-fields [] p = (refl, refl)
vanished_lines-fields (i ∷ ids) p = vanished_lines-fields ids (line _ p)

-- A call changes the map as its bookkeeping does.
show-fields :
    (now : ℕ) (c : Call) (p : CliProgress)
    → ((show now c p).in_flight ≡ (settle_call now c p).in_flight)
      × ((show now c p).map_poisoned ≡ (settle_call now c p).map_poisoned)
unfolding show
show-fields now c p =
    let q = settle_call now c p in
    let (a, b) = lines_on-fields (call_line c) q in
    let (a', b') = vanished_lines-fields (vanished c p) (lines_on (call_line c) q) in
    (a' ∙ a, b' ∙ b)

-- A terminal call of an action takes it off the map.
abbrev Forgets : ActionId → Call → Type 0
Forgets i c = (now : ℕ) (p : CliProgress) → settle_call now c p ≡ forget i p

failure_call-Forgets : (i : ActionId) (e : BuildError) (ms : ℕ) → Forgets i (failure_call i e ms)
unfolding failure_call settle_call
failure_call-Forgets i (upstream_unreachable s) ms now p = refl
failure_call-Forgets i (command_failed code s) ms now p = refl
failure_call-Forgets i (io s) ms now p = refl
failure_call-Forgets i cancelled ms now p = refl

module _ (now : ℕ → ℕ) (p0 : CliProgress) where
  -- What the sink has in flight after some calls is what runs.
  abbrev pub Tracks : List Call → List Pending → Type 0
  Tracks calls running =
      ((replay now calls p0).map_poisoned ≡ false)
      × ((x : ActionId) → has x (replay now calls p0).in_flight ≡ ltb 0 (weigh (is_at x) running))

  start-Tracks :
      (p : Pending) (calls : List Call) (running : List Pending)
      → Tracks calls running
      → Tracks (calls ++ on_action_start p.id ∷ []) (p ∷ running)
  unfolding settle_call remember
  start-Tracks p calls running (live, same) =
      let before = replay now calls p0 in
      let t = now (length calls) in
      let (flight, poison) = show-fields t (on_action_start p.id) before in
      let settled : remember t p.id before
          ≡ record before { in_flight = insert p.id t before.in_flight } =
        rw (remember, live) refl in
      (
        ap (λ q. q.map_poisoned) (replay-snoc now calls (on_action_start p.id) p0)
            ∙ poison
            ∙ ap (λ q. q.map_poisoned) settled
            ∙ live,
        λ x.
            ap (λ q. has x q.in_flight) (replay-snoc now calls (on_action_start p.id) p0)
            ∙ ap (has x) flight
            ∙ ap (λ q. has x q.in_flight) settled
            ∙ ground (arith, get-insert p.id x t before.in_flight, same x),
      )

  settle-Tracks :
      (p : Pending) (c : Call) (calls : List Call) (running others : List Pending)
      → Forgets p.id c
      → ((x : ActionId) → weigh (is_at x) running ≡ is_at x p + weigh (is_at x) others)
      → weigh (is_at p.id) running ≤ 1
      → Tracks calls running
      → Tracks (calls ++ c ∷ []) others
  unfolding forget
  settle-Tracks p c calls running others forgets parts once (live, same) =
      let before = replay now calls p0 in
      let t = now (length calls) in
      let (flight, poison) = show-fields t c before in
      let settled : settle_call t c before
          ≡ record before { in_flight = remove p.id before.in_flight } =
        forgets t before ∙ rw (forget, live) refl in
      (
        ap (λ q. q.map_poisoned) (replay-snoc now calls c p0)
            ∙ poison
            ∙ ap (λ q. q.map_poisoned) settled
            ∙ live,
        λ x.
            ap (λ q. has x q.in_flight) (replay-snoc now calls c p0)
            ∙ ap (has x) flight
            ∙ ap (λ q. has x q.in_flight) settled
            ∙ removed x,
      )
    where
      removed :
          (x : ActionId)
          → has x (remove p.id (replay now calls p0).in_flight) ≡ ltb 0 (weigh (is_at x) others)
      removed x = elim (==-cases p.id x) [
        | inl (t, eq) ↦
            let once' : weigh (is_at x) running ≤ 1 =
              subst (λ y. weigh (is_at y) running ≤ 1) eq once in
            ground (arith, get-remove p.id x (replay now calls p0).in_flight, parts x)
        | inr (f, other) ↦
            ground (arith, get-remove p.id x (replay now calls p0).in_flight, parts x, same x)
      ]

  -- One turn of a layer.
  take_turn-Tracks :
      (mode : ExecMode) (ctx : Ctx) (t : Turn) (r r' : LayerRun)
      → take_turn mode ctx t r ≡ some r'
      → ((x : ActionId) → tally r x ≤ 1)
      → Tracks r.calls r.running
      → r'.panicked ≡ false
      → Tracks r'.calls r'.running
  unfolding start_future settle_future settle_call forget
  take_turn-Tracks mode ctx t r r' took once tracks fine =
      take_turn_rule
        (λ r r'.
          ((x : ActionId) → tally r x ≤ 1)
          → Tracks r.calls r.running
          → r'.panicked ≡ false
          → Tracks r'.calls r'.running)
        mode ctx t r r' started (λ once tracks fine. tracks) settled took once tracks fine
    where
      started :
          (i : ActionId) (p : Pending) (others : List Pending)
          → take_out i r.queued ≡ some (p, others)
          → start_future (p, others) r ≡ some r'
          → ((x : ActionId) → tally r x ≤ 1)
          → Tracks r.calls r.running
          → r'.panicked ≡ false
          → Tracks r'.calls r'.running
      started i p others e moved once tracks fine = elim (Option-cases (acquire p r.free)) [
        | inl n ↦ absurd (none≢some (rw (start_future, n) at moved))
        | inr (free, got) ↦
            subst (λ s. Tracks s.calls s.running) (some_inj (rw (start_future, got) at moved))
              (start-Tracks p r.calls r.running tracks)
      ]

      settled :
          (i : ActionId) (ms : ℕ) (p : Pending) (others : List Pending)
          (result : Result BuildError BuildOutput)
          → take_out i r.running ≡ some (p, others)
          → ((x : ActionId) → tally r x ≤ 1)
          → Tracks r.calls r.running
          → (settle_future mode p ms result (with_running r others)).panicked ≡ false
          → Tracks
              (settle_future mode p ms result (with_running r others)).calls
              (settle_future mode p ms result (with_running r others)).running
      settled i ms p others (ok out) e once tracks fine =
          settle-Tracks p (on_action_ok p.id ms) r.calls r.running others (λ now q. refl)
            (λ x. take_out-weigh (is_at x) i r.running p others e) (omega (arith, once p.id)) tracks
      settled i ms p others (err error) e once tracks fine =
          settle-Tracks p (failure_call p.id error ms) r.calls r.running others
            (failure_call-Forgets p.id error ms)
            (λ x. take_out-weigh (is_at x) i r.running p others e) (omega (arith, once p.id)) tracks
      settled i ms p others panic e once tracks fine = cc

  pub drain-Tracks :
      (mode : ExecMode) (ctx : Ctx) (schedule : List Turn) (r r' : LayerRun)
      → drain mode ctx schedule r ≡ some r'
      → ((x : ActionId) → tally r x ≤ 1)
      → Tracks r.calls r.running
      → r'.panicked ≡ false
      → Tracks r'.calls r'.running
  unfolding drain
  drain-Tracks mode ctx [] r r' e once tracks fine =
      subst (λ s. Tracks s.calls s.running) (some_inj e) tracks
  drain-Tracks mode ctx (t ∷ schedule) r r' e once tracks fine =
      elim (Option-cases (take_turn mode ctx t r)) [
        | inl n ↦ absurd (none≢some (rw (drain, n) at e))
        | inr (next, took) ↦
            let rest = rw (drain, took) at e in
            let (mid, _, _) = drain-Balances mode ctx schedule next r' rest fine in
            let (_, tallies, _) = take_turn-Balances mode ctx t r next took mid in
            drain-Tracks mode ctx schedule next r' rest (λ x. omega (arith, tallies x, once x))
              (take_turn-Tracks mode ctx t r next took once tracks mid) fine
      ]
