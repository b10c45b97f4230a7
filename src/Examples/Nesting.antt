-- ===== src/Examples/Nesting.antt =====
-- A stack whose one action runs a child stack of one action, on one permit.
use repolith.Prelude.{
  Bool-cases, ℕ, ◌+◌, ◌≤◌, ◌≡◌, ◌⊎◌, inl, inr, refl, true, [], ◌∷◌, if◌then◌else◌, arith,
}
use repolith.Engine.Layer.{Pending, acquire}
use repolith.Engine.Stacks.{
  Futures, over, runs, beside, before, run_futures, Reaches, here, later, starts, inside, on_left,
  in_layer,
}
use repolith.Engine.Stacks.Permits.{
  held, steps_left, CanStep, IsParent, IsReady, run_futures-IsReady,
}
use repolith.Engine.Stacks.Deadlocks.{Reaches-CanStep}
use repolith.Examples.{clone_id, install_id, digest, clone, install}

abbrev parent : Pending
parent = record {
  id = install_id;
  action = record install { is_coordinator = true };
  input_hash = digest;
}

abbrev work : Pending
work = record { id = clone_id; action = clone; input_hash = digest }

abbrev child : Pending → Futures
child p = if p.action.is_coordinator then run_futures (λ q. over) ((work ∷ []) ∷ []) else over

abbrev whole : Futures
whole = run_futures child ((parent ∷ []) ∷ [])

-- The parent runs, and its child has taken the one permit.
abbrev both_run : Futures
both_run = before (beside (runs parent (before (beside (runs work over) over) over)) over) over

abbrev one_permit : ℕ
one_permit = 1

abbrev both_run_free : ℕ
both_run_free = 0

child-IsReady : (p : Pending) → IsParent p (child p) × IsReady (child p)
child-IsReady p = elim (Bool-cases p.action.is_coordinator) [
  | inl t ↦
      rw t (inl refl, run_futures-IsReady (λ q. over) (λ q. (inr refl, tt)) ((work ∷ []) ∷ []))
  | inr f ↦ rw f (inr refl, tt)
]

whole-IsReady : IsReady whole
whole-IsReady = run_futures-IsReady child child-IsReady ((parent ∷ []) ∷ [])

whole-both_run : Reaches 1 whole 2 0 both_run
unfolding run_futures acquire
whole-both_run =
    later (later here (in_layer (on_left (starts {left = 1} refl))))
      (in_layer (on_left (inside (in_layer (on_left (starts refl))))))

Reaches-CanStep_example :
    (both_run_free + held both_run ≡ one_permit)
    × (2 + steps_left both_run ≤ steps_left whole)
    × (((both_run ≡ over) × (both_run_free ≡ one_permit)) ⊎ CanStep both_run_free both_run)
Reaches-CanStep_example =
    Reaches-CanStep 1 2 0 whole both_run (omega arith) whole-IsReady whole-both_run
