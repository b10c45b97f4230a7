-- ===== src/Plan/Compute/Cascade.antt =====
-- The walk over the layers keeps the verdict on every action that it has passed.
use repolith.Prelude.{
  ◌≡◌, ◌≢◌, refl, sym, ◌∙◌, ap, subst, Bool, true, false, ◌||◌, Option, none, some, List, [], ◌∷◌,
  ok, ok-injective, is_some, ◌==◌, ==_iff, ==-cases, contains, All-of_contains, if◌then◌else◌,
  arith, inl, inr,
}
use repolith.Prelude.Maps.{get, has, IsNodup, get-insert}
use repolith.Types.{ActionId, action_id_eq, Sha256, Ctx}
use repolith.Action.{Action}
use repolith.Cache.{Cache}
use repolith.Plan.Reasons.{ChangeReason, classify}
use repolith.Plan.Reasons.Laws.{classify_congr}
use repolith.Plan.Compute.{ById, LayerProbes, raced_hash, Marks, mark, cascade}
use repolith.Plan.Compute.Probes.{IsProbed}

module _ (i : ActionId) (now : Sha256) (m : Marks) where
  mark-reasons :
      (r : Option ChangeReason) (x : ActionId)
      → get i m.reasons ≡ none
      → get x (mark i now r m).reasons ≡ (if i == x then r else get x m.reasons)
  unfolding mark
  mark-reasons none x h = ground (arith, ==_iff i x)
  mark-reasons (some reason) x h = get-insert i x reason m.reasons

  mark-stale :
      (r : Option ChangeReason) (x : ActionId)
      → contains m.stale i ≡ false
      → contains (mark i now r m).stale x ≡ (if i == x then is_some r else contains m.stale x)
  unfolding mark contains
  mark-stale none x h = ground (arith, ==_iff i x)
  mark-stale (some reason) x h = ground arith

  mark-input_hashes :
      (r : Option ChangeReason) (x : ActionId)
      → get x (mark i now r m).input_hashes ≡ (if i == x then some now else get x m.input_hashes)
  unfolding mark
  mark-input_hashes none x = get-insert i x now m.input_hashes
  mark-input_hashes (some reason) x = get-insert i x now m.input_hashes

module _ {S : Type 0} (cache : Cache S) (s : S) (ctx : Ctx) (by_id : ById) (forced : List ActionId)
    (depends : ActionId → ActionId → Bool)
    (declared : (x : ActionId) (a : Action)
      → get x by_id ≡ some a
      → (d : ActionId) → contains a.deps d ≡ true
      → depends x d ≡ true) where
  abbrev verdict : ActionId → Action → Sha256 → List ActionId → Option ChangeReason
  verdict x a now stale =
      classify a now (cache.last_build s x) stale (a.output_present ctx) (contains forced x)

  -- The marks hold the probed hash of `x`, and the verdict on it against the stale set.
  pub record IsJudged (m : Marks) (x : ActionId) : Type 0 where
    pub action : Action
    pub now : Sha256
    pub registered : get x by_id ≡ some action
    pub ran : raced_hash ctx x action ≡ ok now
    pub hashed : get x m.input_hashes ≡ some now
    pub judged :
        get x m.reasons
        ≡ classify action now
            (cache.last_build s x)
            m.stale
            (action.output_present ctx)
            (contains forced x)

  pub record Inv (done : List ActionId) (m : Marks) : Type 0 where
    pub agree : (x : ActionId) → contains m.stale x ≡ has x m.reasons
    pub fresh : (x : ActionId) → contains done x ≡ false → get x m.reasons ≡ none
    pub all_judged : (x : ActionId) → contains done x ≡ true → IsJudged m x
    pub deps_done :
        (x d : ActionId) → contains done x ≡ true → depends x d ≡ true → contains done d ≡ true

  module _ (done : List ActionId) (m : Marks) (inv : Inv done m) (i : ActionId) (a : Action)
      (now : Sha256) (registered : get i by_id ≡ some a) (ran : raced_hash ctx i a ≡ ok now)
      (new : contains done i ≡ false)
      (ready : (d : ActionId) → depends i d ≡ true → contains done d ≡ true) where
    abbrev m' : Marks
    m' = mark i now (verdict i a now m.stale) m

    unmarked : get i m.reasons ≡ none
    unmarked = inv.fresh i new

    not_stale : contains m.stale i ≡ false
    not_stale = inv.agree i ∙ ap is_some unmarked

    stale_kept : (d : ActionId) → contains done d ≡ true → contains m.stale d ≡ contains m'.stale d
    stale_kept d h =
        ground (arith, mark-stale i now m (verdict i a now m.stale) d not_stale, ==_iff i d)

    same_verdict :
        (x : ActionId) (b : Action) (n : Sha256)
        → get x by_id ≡ some b
        → ((d : ActionId) → depends x d ≡ true → contains done d ≡ true)
        → verdict x b n m.stale ≡ verdict x b n m'.stale
    same_verdict x b n reg deps =
        classify_congr b n (cache.last_build s x) m.stale m'.stale (b.output_present ctx)
          (contains forced x)
          (All-of_contains (λ d. contains m.stale d ≡ contains m'.stale d) b.deps
            (λ d e. stale_kept d (deps d (declared x b reg d e))))

    self-IsJudged : IsJudged m' i
    self-IsJudged = record {
      action = a;
      now = now;
      registered = registered;
      ran = ran;
      hashed = ground (arith, mark-input_hashes i now m (verdict i a now m.stale) i, ==_iff i i);
      judged =
          ground (arith, mark-reasons i now m (verdict i a now m.stale) i unmarked, ==_iff i i)
          ∙ same_verdict i a now registered ready;
    }

    old-IsJudged : (x : ActionId) → contains done x ≡ true → i ≢ x → IsJudged m' x
    old-IsJudged x h other =
        let j = inv.all_judged x h in
        record {
          action = j.action;
          now = j.now;
          registered = j.registered;
          ran = j.ran;
          hashed =
              ground (
                arith,
                mark-input_hashes i now m (verdict i a now m.stale) x,
                ==_iff i x,
                j.hashed,
              );
          judged =
              ground (
                arith,
                mark-reasons i now m (verdict i a now m.stale) x unmarked,
                ==_iff i x,
                j.judged,
              )
              ∙ same_verdict x j.action j.now j.registered (λ d e. inv.deps_done x d h e);
        }

    mark-Inv : Inv (i ∷ done) m'
    unfolding contains
    mark-Inv = record {
      agree = λ x. ground (
        arith,
        mark-stale i now m (verdict i a now m.stale) x not_stale,
        mark-reasons i now m (verdict i a now m.stale) x unmarked,
        inv.agree x,
      );
      fresh = λ x h.
          ground (arith, mark-reasons i now m (verdict i a now m.stale) x unmarked, inv.fresh x);
      all_judged = λ x h. elim (==-cases i x) [
        | inl (test, same) ↦ subst (IsJudged m') same self-IsJudged
        | inr (test, other) ↦ old-IsJudged x (rw test at h) other
      ];
      deps_done = λ x d h e. ground (arith, ==_iff i x, ready d, inv.deps_done x d);
    }

  -- The ids that have been passed, the last one first.
  abbrev pub pass : List ActionId → List ActionId → List ActionId
  pass [] done = done
  pass (i ∷ layer) done = pass layer (i ∷ done)

  pub contains-pass :
      (layer done : List ActionId) (x : ActionId)
      → contains (pass layer done) x ≡ (contains layer x || contains done x)
  unfolding contains
  contains-pass [] done x = refl
  contains-pass (i ∷ layer) done x = ground (arith, contains-pass layer (i ∷ done) x)

  pub cascade_step :
      (probes : LayerProbes) (layer : List ActionId) (i : ActionId) (m : Marks)
      (p : IsProbed cache s ctx by_id probes i)
      → cascade by_id forced probes (i ∷ layer) m
        ≡ cascade by_id forced probes layer (mark i p.now (verdict i p.action p.now m.stale) m)
  unfolding cascade
  cascade_step probes layer i m p = ground (arith, p.hashed, p.registered, p.cached, p.present)

  pub cascade-Inv :
      (probes : LayerProbes) (layer done : List ActionId) (m final : Marks)
      → IsNodup layer
      → ((x : ActionId) → contains layer x ≡ true → contains done x ≡ false)
      → ((x : ActionId) → contains layer x ≡ true → IsProbed cache s ctx by_id probes x)
      → ((x d : ActionId) → contains layer x ≡ true → depends x d ≡ true → contains done d ≡ true)
      → Inv done m
      → cascade by_id forced probes layer m ≡ ok final
      → Inv (pass layer done) final
  unfolding cascade contains
  cascade-Inv probes [] done m final n new probed deps inv e = subst (Inv done) (ok-injective e) inv
  cascade-Inv probes (i ∷ layer) done m final n new probed deps inv e =
      let p = probed i (ground (arith, ==_iff i i)) in
      let is_new = new i (ground (arith, ==_iff i i)) in
      cascade-Inv probes layer (i ∷ done) (mark i p.now (verdict i p.action p.now m.stale) m) final
        n.1 (λ x h. ground (arith, new x, ==_iff i x, n.0)) (λ x h. probed x (ground arith))
        (λ x d h dep. ground (arith, deps x d))
        (mark-Inv done m inv i p.action p.now p.registered p.ran is_new
          (λ d. deps i d (ground (arith, ==_iff i i))))
        (sym (cascade_step probes layer i m p) ∙ e)
