-- ===== src/Examples/Again.antt =====
-- Two runs in a row of the same actions.
use repolith.Prelude.{
  ◌≡◌, refl, true, none, [], All, ok, some, arith, subst, contains, list_beq, some_inj, ==-cases,
  inl, inr, none≢some,
}
use repolith.Prelude.Maps.{get, insert, adjust, remove}
use repolith.Types.{ActionId, action_id_eq, id_beq, sha_beq, fail_fast}
use repolith.Action.{Action}
use repolith.Cache.Contract.{IsStorable}
use repolith.Plan.Compute.{Plan, by_id_of, compute_with_forced}
use repolith.Engine.Run.Again.{nothing_stale}
use repolith.Examples.{
  clone_id, install_id, zeros-IsDigest, both, quiet, memory, memory-IsStore, fresh_plan,
}
use repolith.Examples.Planning.{compute-both}
use repolith.Plan.Layers.Extract.{flat_topo}
use repolith.Examples.Running.{engine, schedules, events, outcome, plan-executed}

abbrev second_plan : Plan
second_plan = record fresh_plan { reasons = [] }

events-IsStorable : All IsStorable events
events-IsStorable = (
  (zeros-IsDigest, zeros-IsDigest, omega arith),
  ((zeros-IsDigest, zeros-IsDigest, omega arith), tt),
)

second-planned : compute_with_forced memory outcome.state both quiet [] ≡ ok second_plan
unfolding compute_with_forced contains id_beq list_beq sha_beq adjust get insert remove
second-planned = refl

both-present :
    (x : ActionId) (a : Action) → get x (by_id_of both) ≡ some a → a.output_present quiet ≡ true
unfolding by_id_of get insert id_beq list_beq
both-present x a e = elim (==-cases install_id x) [
  | inl (t, same) ↦
      subst (λ (b : Action). b.output_present quiet ≡ true) (some_inj (rw (get, t) at e)) refl
  | inr (f, other) ↦ elim (==-cases clone_id x) [
    | inl (u, same) ↦
        subst (λ (b : Action). b.output_present quiet ≡ true) (some_inj (rw (get, f, u) at e)) refl
    | inr (g, other') ↦ absurd (none≢some (rw (get, f, g) at e))
  ]
]

install-listed : contains (flat_topo second_plan.layers) install_id ≡ true
unfolding contains id_beq list_beq
install-listed = refl

nothing_stale_example : get install_id second_plan.reasons ≡ none
nothing_stale_example =
    nothing_stale engine [] fresh_plan fail_fast schedules outcome events second_plan memory-IsStore
      events-IsStorable compute-both plan-executed refl both-present second-planned install_id
      install-listed
