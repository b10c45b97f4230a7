-- ===== src/Plan/Compute/Stale.antt =====
-- What a computed plan says of every action.
use repolith.Prelude.{
  ◌≡◌, ◌↔◌, refl, sym, ◌∙◌, ap, subst, Bool, true, false, ◌||◌, none, some, List, [], ◌∷◌, ◌++◌, ℕ,
  suc, none≢some, contains-nil, All-imp, All, ok, >>=-eq-ok, ok-injective, err≢ok, is_some,
  ==-cases, contains, All-of_contains, arith, some_inj, Option-cases, Bool-cases, ◌⊎◌, inl, inr,
}
use mathlib.Core.Bool.{false≢true}
use repolith.Prelude.Maps.{
  get, insert, keys, collect_onto, IsNodup, get-insert, has-keys, contains-append, split-IsNodup,
}
use repolith.Types.{ActionId, action_id_eq, Sha256, Ctx}
use repolith.Action.{Action}
use repolith.Cache.{Cache}
use repolith.Plan.Layers.{layers_of}
use repolith.Plan.Layers.Graph.{depends_on}
use repolith.Plan.Layers.Extract.{flat_topo}
use repolith.Plan.Layers.Order.{IsOrdered, layers_of-IsOrdered, layers_of-IsNodup}
use repolith.Plan.Reasons.{ChangeReason, classify}
use repolith.Plan.Reasons.Laws.{classify_congr, classify-eq-none_iff, IsBuilt}
use repolith.Plan.Compute.{
  Plan, ById, pairs_of, by_id_of, raced_hash, Marks, cascade, probe_layer, walk,
  compute_with_forced,
}
use repolith.Plan.Compute.Probes.{probe_layer-IsProbed}
use repolith.Plan.Compute.Cascade.{Inv, pass, contains-pass, cascade-Inv}

-- A registered action is one of the given actions.
collect_declared :
    (actions : List Action) (m : ById) (x : ActionId) (a : Action)
    → get x (collect_onto m (pairs_of actions)) ≡ some a
    → (get x m ≡ some a)
      ⊎ ((d : ActionId) → contains a.deps d ≡ true → depends_on actions x d ≡ true)
unfolding collect_onto depends_on
collect_declared [] m x a e = inl e
collect_declared (b ∷ actions) m x a e = elim (collect_declared actions (insert b.id b m) x a e) [
  | inl here ↦ inserted_declared here
  | inr later ↦ inr (λ d h. ground (arith, later d))
]
  where
    inserted_declared :
        get x (insert b.id b m) ≡ some a
        → (get x m ≡ some a)
          ⊎ ((d : ActionId) → contains a.deps d ≡ true → depends_on (b ∷ actions) x d ≡ true)
    inserted_declared here = elim (==-cases b.id x) [
      | inl (test, same) ↦
          let is_b : b ≡ a = some_inj (ground (arith, get-insert b.id x b m, test, here)) in
          inr λ d h.
            let h' : contains b.deps d ≡ true =
              subst (λ (c : Action). contains c.deps d ≡ true) (sym is_b) h in
            ground (arith, test, h')
      | inr (test, other) ↦ inl (ground (arith, get-insert b.id x b m, test, here))
    ]

pub by_id-declared :
    (actions : List Action) (x : ActionId) (a : Action)
    → get x (by_id_of actions) ≡ some a
    → (d : ActionId) → contains a.deps d ≡ true
    → depends_on actions x d ≡ true
unfolding by_id_of get
by_id-declared actions x a e = elim (collect_declared actions [] x a e) [
  | inl none_yet ↦ absurd (none≢some none_yet)
  | inr h ↦ h
]

module _ {S : Type 0} (cache : Cache S) (s : S) (ctx : Ctx) (forced : List ActionId)
    (actions : List Action) where
  abbrev by_id : ById
  by_id = by_id_of actions

  abbrev depends : ActionId → ActionId → Bool
  depends = depends_on actions

  abbrev Kept : List ActionId → Marks → Type 0
  Kept = Inv cache s ctx by_id forced depends (by_id-declared actions)

  abbrev pass_on : List ActionId → List ActionId → List ActionId
  pass_on = pass cache s ctx by_id forced depends (by_id-declared actions)

  passed :
      (layer done : List ActionId) (x : ActionId)
      → contains (pass_on layer done) x ≡ (contains layer x || contains done x)
  passed = contains-pass cache s ctx by_id forced depends (by_id-declared actions)

  walk-Inv :
      (poll : ℕ) (layers : List (List ActionId)) (placed done : List ActionId) (m final : Marks)
      → ((x : ActionId) → contains placed x ≡ contains done x)
      → IsOrdered actions placed layers
      → IsNodup (flat_topo layers)
      → ((x : ActionId) → contains (flat_topo layers) x ≡ true → contains done x ≡ false)
      → Kept done m
      → walk cache s ctx by_id forced poll layers m ≡ ok final
      → (all : List ActionId) × Kept all final
        × ((x : ActionId) → contains all x ≡ (contains done x || contains (flat_topo layers) x))
  unfolding walk contains
  walk-Inv poll [] placed done m final same ordered n new inv e =
      (done, subst (Kept done) (ok-injective e) inv, λ x. ground arith)
  walk-Inv poll (layer ∷ layers) placed done m final same ordered n new inv e =
      elim (Bool-cases (ctx.cancel.is_cancelled poll)) [
        | inl stopped ↦ absurd (err≢ok (rw (stopped, walk) at e))
        | inr runs ↦
            let (p, e₁, e₂) =
              >>=-eq-ok (probe_layer cache s ctx by_id layer) _ (rw (runs, walk) at e) in
            let (m₁, e₃, e₄) = >>=-eq-ok (cascade by_id forced p layer m) _ e₂ in
            let (nl, nr, apart) = split-IsNodup layer (flat_topo layers) n in
            let kept =
              cascade-Inv cache s ctx by_id forced depends (by_id-declared actions) p layer done m
                m₁ nl
                (λ x h. new x (contains-append layer (flat_topo layers) x ∙ ground (arith, h)))
                (probe_layer-IsProbed cache s ctx by_id layer p nl e₁)
                (λ x d h dep. sym (same d) ∙ ordered.0 x d h dep) inv e₃ in
            let (all, kept_all, members) =
              walk-Inv (suc poll) layers (placed ++ layer) (pass_on layer done) m₁ final
                (λ x. contains-append placed layer x ∙ ground (arith, same x, passed layer done x))
                ordered.1 nr
                (λ x h. ground (
                  arith,
                  passed layer done x,
                  apart x,
                  new x,
                  contains-append layer (flat_topo layers) x,
                  h,
                ))
                kept e₄ in
            (
              all,
              kept_all,
              λ x.
                  members x
                  ∙ ground (arith, passed layer done x, contains-append layer (flat_topo layers) x),
            )
      ]

module _ {S : Type 0} (cache : Cache S) (s : S) (ctx : Ctx) (forced : List ActionId)
    (actions : List Action) where
  absent_iff :
      (m : List (ActionId × ChangeReason)) (d : ActionId)
      → (contains (keys m) d ≡ false) ↔ (get d m ≡ none)
  absent_iff m d = elim (Option-cases (get d m)) [
    | inl gone ↦ (λ _. gone, λ _. sym (has-keys d m) ∙ ap is_some gone)
    | inr (r, found) ↦ (
      λ h. absurd (false≢true (sym h ∙ sym (has-keys d m) ∙ ap is_some found)),
      λ h. absurd (none≢some (sym h ∙ found)),
    )
  ]

  ran_alone :
      (x : ActionId) (a : Action) {now : Sha256}
      → raced_hash ctx x a ≡ ok now
      → a.input_hash ctx ≡ ok now
  ran_alone x a e = elim (Bool-cases (ctx.cancel.wins_race x)) [
    | inl lost ↦ absurd (err≢ok (rw lost at e))
    | inr won ↦ rw won at e
  ]

  -- The plan holds the hash that the probe of `x` gave, and the reason that `classify` gives for it
  -- against the ids that the plan calls stale.
  pub record IsJustified (p : Plan) (x : ActionId) : Type 0 where
    pub action : Action
    pub now : Sha256
    pub registered : get x (by_id_of actions) ≡ some action
    pub ran : raced_hash ctx x action ≡ ok now
    pub recorded : get x p.input_hashes ≡ some now
    pub judged :
        get x p.reasons
        ≡ classify action now
            (cache.last_build s x)
            (keys p.reasons)
            (action.output_present ctx)
            (contains forced x)

  IsJustified-of_Kept :
      (layers : List (List ActionId)) (done : List ActionId) (m : Marks) (x : ActionId)
      → Kept cache s ctx forced actions done m
      → contains done x ≡ true
      → IsJustified
          (record { layers = layers; reasons = m.reasons; input_hashes = m.input_hashes })
          x
  IsJustified-of_Kept layers done m x kept h =
      let j = kept.all_judged x h in
      record {
        action = j.action;
        now = j.now;
        registered = j.registered;
        ran = j.ran;
        recorded = j.hashed;
        judged =
            j.judged
            ∙ classify_congr j.action j.now (cache.last_build s x) m.stale (keys m.reasons)
                (j.action.output_present ctx) (contains forced x)
                (All-of_contains (λ d. contains m.stale d ≡ contains (keys m.reasons) d)
                  j.action.deps (λ d _. kept.agree d ∙ has-keys d m.reasons));
      }

  abbrev no_marks : Marks
  no_marks = record { reasons = []; stale = []; input_hashes = [] }

  Kept-start : Kept cache s ctx forced actions [] no_marks
  Kept-start =
      unfold get contains in
      record {
        agree = λ x. refl;
        fresh = λ x h. refl;
        all_judged = λ x h. absurd (false≢true h);
        deps_done = λ x d h e. absurd (false≢true h);
      }

  -- In a computed plan each action of each layer is justified.
  pub compute_with_forced-IsJustified :
      (p : Plan) (x : ActionId)
      → compute_with_forced cache s actions ctx forced ≡ ok p
      → contains (flat_topo p.layers) x ≡ true
      → IsJustified p x
  unfolding compute_with_forced
  compute_with_forced-IsJustified p x e h =
      let (layers, e₁, e₂) = >>=-eq-ok (layers_of actions) _ e in
      let (m, e₃, e₄) =
        >>=-eq-ok (walk cache s ctx (by_id_of actions) forced 0 layers no_marks) _ e₂ in
      let (all, kept, members) =
        walk-Inv cache s ctx forced actions 0 layers [] [] no_marks m (λ y. refl)
          (layers_of-IsOrdered actions layers e₁) (layers_of-IsNodup actions layers e₁).0
          (λ y _. contains-nil y) Kept-start e₃ in
      subst (λ (q : Plan). contains (flat_topo q.layers) x ≡ true → IsJustified q x)
        (ok-injective e₄)
        (λ here.
          IsJustified-of_Kept layers all m x kept
            (members x ∙ ground (arith, contains-nil x, here)))
        h

  -- An action of the plan is left out of the stale ones exactly when it is not forced, the cache
  -- holds a success for the hash that the plan recorded, the artifact is there, and none of its
  -- dependencies is stale.
  pub compute_with_forced-up_to_date_iff :
      (p : Plan) (x : ActionId)
      → compute_with_forced cache s actions ctx forced ≡ ok p
      → contains (flat_topo p.layers) x ≡ true
      → (a : Action) × (now : Sha256) × (get x (by_id_of actions) ≡ some a)
        × (a.input_hash ctx ≡ ok now)
        × (get x p.input_hashes ≡ some now)
        × ((get x p.reasons ≡ none) ↔ (
            (contains forced x ≡ false)
            × IsBuilt now (cache.last_build s x)
            × (a.output_present ctx ≡ true)
            × All (λ d. get d p.reasons ≡ none) a.deps))
  compute_with_forced-up_to_date_iff p x e h =
      let j = compute_with_forced-IsJustified p x e h in
      let fresh =
        classify-eq-none_iff j.action j.now (cache.last_build s x) (keys p.reasons)
          (j.action.output_present ctx) (contains forced x) in
      (
        j.action,
        j.now,
        j.registered,
        ran_alone x j.action j.ran,
        j.recorded,
        (
          λ unmarked.
              let (f, b, here, deps) = fresh.0 (sym j.judged ∙ unmarked) in
              (f, b, here, All-imp j.action.deps (λ d. (absent_iff p.reasons d).0) deps),
          λ (f, b, here, deps).
              j.judged
              ∙ fresh.1 (f, b, here, All-imp j.action.deps (λ d. (absent_iff p.reasons d).1) deps),
        ),
      )
