-- ===== src/Engine/Stacks/Permits.antt =====
-- What each step of a run with child stacks keeps, and that it leaves less to do.
use repolith.Prelude.{
  List, [], ◌∷◌, ℕ, ◌+◌, ◌<◌, ◌≡◌, ◌≢◌, refl, ◌⊎◌, inl, inr, true, some, arith, Bool-cases,
}
use repolith.Engine.Layer.{Pending, acquire, release}
use repolith.Engine.Layer.Accounts.{charge}
use repolith.Engine.Stacks.{
  layer_futures, run_futures, Futures, over, waits, runs, beside, before, Step, starts, gives_up,
  finishes, inside, on_left, on_right, joins, in_layer, goes_on, stops,
}

-- Only a coordinator has a child stack to run.
abbrev pub IsParent : Pending → Futures → Type 0
IsParent p child = (p.action.is_coordinator ≡ true) ⊎ (child ≡ over)

-- Nothing has begun.
abbrev pub IsReady : Futures → Type 0
IsReady over = Unit
IsReady (waits p child) = IsParent p child × IsReady child
IsReady (runs p child) = ⊥
IsReady (beside a b) = IsReady a × IsReady b
IsReady (before a b) = IsReady a × IsReady b

layer_futures-IsReady :
    (child : Pending → Futures)
    → ((p : Pending) → IsParent p (child p) × IsReady (child p))
    → (pending : List Pending) → IsReady (layer_futures child pending)
unfolding layer_futures
layer_futures-IsReady child h [] = tt
layer_futures-IsReady child h (p ∷ pending) = (h p, layer_futures-IsReady child h pending)

-- A run of layers begins ready, where its child stacks do.
pub run_futures-IsReady :
    (child : Pending → Futures)
    → ((p : Pending) → IsParent p (child p) × IsReady (child p))
    → (layers : List (List Pending)) → IsReady (run_futures child layers)
unfolding run_futures
run_futures-IsReady child h [] = tt
run_futures-IsReady child h (layer ∷ layers) =
    (layer_futures-IsReady child h layer, run_futures-IsReady child h layers)

-- What has not begun is as it was.
abbrev pub IsSound : Futures → Type 0
IsSound over = Unit
IsSound (waits p child) = IsParent p child × IsReady child
IsSound (runs p child) = IsParent p child × IsSound child
IsSound (beside a b) = IsSound a × IsSound b
IsSound (before a b) = IsSound a × IsReady b

-- The permits that are held, on every level.
abbrev pub held : Futures → ℕ
held over = 0
held (waits p child) = 0
held (runs p child) = charge p + held child
held (beside a b) = held a + held b
held (before a b) = held a

-- A bound on the steps that are left.
abbrev pub steps_left : Futures → ℕ
steps_left over = 0
steps_left (waits p child) = 2 + steps_left child
steps_left (runs p child) = 1 + steps_left child
steps_left (beside a b) = 1 + (steps_left a + steps_left b)
steps_left (before a b) = 1 + (steps_left a + steps_left b)

abbrev pub CanStep : ℕ → Futures → Type 0
CanStep free f = (left : ℕ) × (rest : Futures) × Step free f left rest

pub held-ready : (f : Futures) → IsReady f → held f ≡ 0
held-ready over h = refl
held-ready (waits p child) h = refl
held-ready (runs p child) h = absurd h
held-ready (beside a b) h = omega (arith, held-ready a h.0, held-ready b h.1)
held-ready (before a b) h = held-ready a h.0

pub IsSound-ready : (f : Futures) → IsReady f → IsSound f
IsSound-ready over h = tt
IsSound-ready (waits p child) h = h
IsSound-ready (runs p child) h = absurd h
IsSound-ready (beside a b) h = (IsSound-ready a h.0, IsSound-ready b h.1)
IsSound-ready (before a b) h = (IsSound-ready a h.0, h.1)

Step-not_over : {free left : ℕ} {f rest : Futures} → Step free f left rest → f ≢ over
Step-not_over (starts got) = λ e. cc
Step-not_over (gives_up got) = λ e. cc
Step-not_over finishes = λ e. cc
Step-not_over (inside s) = λ e. cc
Step-not_over (on_left s) = λ e. cc
Step-not_over (on_right s) = λ e. cc
Step-not_over joins = λ e. cc
Step-not_over (in_layer s) = λ e. cc
Step-not_over goes_on = λ e. cc
Step-not_over stops = λ e. cc

pub Step-IsSound :
    {free left : ℕ} {f rest : Futures} → Step free f left rest → IsSound f → IsSound rest
Step-IsSound (starts {child} got) h = (h.0, IsSound-ready child h.1)
Step-IsSound (gives_up got) h = (inr refl, tt)
Step-IsSound finishes h = tt
Step-IsSound (inside s) h = elim h.0 [
  | inl c ↦ (inl c, Step-IsSound s h.1)
  | inr e ↦ absurd (Step-not_over s e)
]
Step-IsSound (on_left s) h = (Step-IsSound s h.0, h.1)
Step-IsSound (on_right s) h = (h.0, Step-IsSound s h.1)
Step-IsSound joins h = tt
Step-IsSound (in_layer s) h = (Step-IsSound s h.0, h.1)
Step-IsSound (goes_on {b}) h = IsSound-ready b h.1
Step-IsSound stops h = tt

acquire-charge : (p : Pending) (free left : ℕ) → acquire p free ≡ some left → left + charge p ≡ free
unfolding acquire
acquire-charge p free left got = elim (Bool-cases p.action.is_coordinator) [
  | inl t ↦ ground arith
  | inr f ↦ ground arith
]

release-charge : (p : Pending) (free : ℕ) → release p free ≡ free + charge p
unfolding release
release-charge p free = elim (Bool-cases p.action.is_coordinator) [
  | inl t ↦ ground arith
  | inr f ↦ ground arith
]

-- A permit is free or held.
pub Step-held :
    {free left : ℕ} {f rest : Futures}
    → Step free f left rest
    → IsSound f
    → left + held rest ≡ free + held f
Step-held (starts {free} {left} {p} {child} got) h =
    omega (arith, acquire-charge p free left got, held-ready child h.1)
Step-held (gives_up {free} {left} {p} got) h = omega (arith, acquire-charge p free left got)
Step-held (finishes {free} {p}) h = omega (arith, release-charge p free)
Step-held (inside s) h = omega (arith, Step-held s h.1)
Step-held (on_left s) h = omega (arith, Step-held s h.0)
Step-held (on_right s) h = omega (arith, Step-held s h.1)
Step-held joins h = refl
Step-held (in_layer s) h = Step-held s h.0
Step-held (goes_on {b}) h = omega (arith, held-ready b h.1)
Step-held stops h = refl

pub Step-steps_left :
    {free left : ℕ} {f rest : Futures} → Step free f left rest → steps_left rest < steps_left f
Step-steps_left (starts got) = omega arith
Step-steps_left (gives_up got) = omega arith
Step-steps_left finishes = omega arith
Step-steps_left (inside s) = omega (arith, Step-steps_left s)
Step-steps_left (on_left s) = omega (arith, Step-steps_left s)
Step-steps_left (on_right s) = omega (arith, Step-steps_left s)
Step-steps_left joins = omega arith
Step-steps_left (in_layer s) = omega (arith, Step-steps_left s)
Step-steps_left goes_on = omega arith
Step-steps_left stops = omega arith
