-- ===== src/Engine/Stacks/Deadlocks.antt =====
-- One pool of permits is enough for a run and all its child stacks.
use repolith.Prelude.{
  ℕ, zero, suc, ◌+◌, ◌≤◌, ◌≡◌, refl, sym, ap, ◌⊎◌, inl, inr, none, arith, Bool-cases, Option-cases,
  subst,
}
use repolith.Engine.Layer.{Pending, acquire, release}
use repolith.Engine.Stacks.{
  Futures, over, waits, runs, beside, before, Step, starts, finishes, inside, on_left, on_right,
  joins, in_layer, goes_on, Reaches, here, later,
}
use repolith.Engine.Stacks.Permits.{
  IsParent, IsReady, IsSound, held, steps_left, CanStep, held-ready, IsSound-ready, Step-IsSound,
  Step-held, Step-steps_left,
}

-- It is over, it can go on, or it wants a permit while none is free and it holds none.
abbrev Standing : ℕ → Futures → Type 0
Standing free f = (f ≡ over) ⊎ (CanStep free f ⊎ ((free ≡ 0) × (held f ≡ 0)))

no_permit : (p : Pending) (free : ℕ) → acquire p free ≡ none → free ≡ 0
unfolding acquire
no_permit p zero e = refl
no_permit p (suc n) e = elim (Bool-cases p.action.is_coordinator) [
  | inl t ↦ absurd (ground arith)
  | inr f ↦ absurd (ground arith)
]

waits-Standing : (free : ℕ) (p : Pending) (child : Futures) → Standing free (waits p child)
waits-Standing free p child = elim (Option-cases (acquire p free)) [
  | inr (left, got) ↦ inr (inl (left, runs p child, starts got))
  | inl none_free ↦ inr (inr (no_permit p free none_free, refl))
]

finishes-CanStep :
    (free : ℕ) (p : Pending) (child : Futures) → child ≡ over → CanStep free (runs p child)
finishes-CanStep free p child e =
    (release p free, over, subst (λ c. Step free (runs p c) (release p free) over) (sym e) finishes)

runs-Standing :
    (free : ℕ) (p : Pending) (child : Futures)
    → IsParent p child
    → Standing free child
    → Standing free (runs p child)
runs-Standing free p child parent h = elim h [
  | inl e ↦ inr (inl (finishes-CanStep free p child e))
  | inr (inl (left, rest, s)) ↦ inr (inl (left, runs p rest, inside s))
  | inr (inr (none_free, none_held)) ↦ elim parent [
    | inl c ↦ inr (inr (none_free, rw c (omega (arith, none_held))))
    | inr e ↦ inr (inl (finishes-CanStep free p child e))
  ]
]

beside-Standing :
    (free : ℕ) (a b : Futures) → Standing free a → Standing free b → Standing free (beside a b)
beside-Standing free a b ha hb = elim ha [
  | inr (inl (left, rest, s)) ↦ inr (inl (left, beside rest b, on_left s))
  | inl e ↦ elim hb [
    | inr (inl (left, rest, s)) ↦ inr (inl (left, beside a rest, on_right s))
    | inl e' ↦ inr (
        inl (
          free,
          over,
          subst (λ c. Step free (beside c b) free over) (sym e)
              (subst (λ c. Step free (beside over c) free over) (sym e') joins),
        ))
    | inr (inr hb') ↦ inr (inr (hb'.0, omega (arith, ap held e, hb'.1)))
  ]
  | inr (inr ha') ↦ elim hb [
    | inr (inl (left, rest, s)) ↦ inr (inl (left, beside a rest, on_right s))
    | inl e' ↦ inr (inr (ha'.0, omega (arith, ap held e', ha'.1)))
    | inr (inr hb') ↦ inr (inr (ha'.0, omega (arith, hb'.1, ha'.1)))
  ]
]

before-Standing : (free : ℕ) (a b : Futures) → Standing free a → Standing free (before a b)
before-Standing free a b h = elim h [
  | inl e ↦ inr (inl (free, b, subst (λ c. Step free (before c b) free b) (sym e) goes_on))
  | inr (inl (left, rest, s)) ↦ inr (inl (left, before rest b, in_layer s))
  | inr (inr stuck) ↦ inr (inr stuck)
]

standing : (free : ℕ) (f : Futures) → IsSound f → Standing free f
standing free over h = inl refl
standing free (waits p child) h = waits-Standing free p child
standing free (runs p child) h = runs-Standing free p child h.0 (standing free child h.1)
standing free (beside a b) h = beside-Standing free a b (standing free a h.0) (standing free b h.1)
standing free (before a b) h = before-Standing free a b (standing free a h.0)

abbrev Kept : Futures → (permits n free : ℕ) → Futures → Type 0
Kept start permits n free f =
    IsSound f × (free + held f ≡ permits) × (n + steps_left f ≤ steps_left start)

Reaches-Kept :
    {permits : ℕ} {start : Futures} {n free : ℕ} {f : Futures}
    → IsReady start
    → Reaches permits start n free f
    → Kept start permits n free f
Reaches-Kept {start} ready here =
    (IsSound-ready start ready, omega (arith, held-ready start ready), omega arith)
Reaches-Kept ready (later r s) =
    let (sound, permits, fewer) = Reaches-Kept ready r in
    (
      Step-IsSound s sound,
      omega (arith, Step-held s sound, permits),
      omega (arith, Step-steps_left s, fewer),
    )

-- A run and its child stacks, down to any depth, on one pool of at least one permit, where only
-- coordinators have a child stack: after any steps the free permits and those that the running
-- actions of all levels hold are those of the pool; there were at most as many steps as the run had
-- to begin with; and either the run is over and every permit is back, or a further step is
-- possible. So no order of the steps deadlocks, also on one permit, and each comes to an end.
pub Reaches-CanStep :
    (permits n free : ℕ) (start f : Futures)
    → 1 ≤ permits
    → IsReady start
    → Reaches permits start n free f
    → (free + held f ≡ permits)
      × (n + steps_left f ≤ steps_left start)
      × (((f ≡ over) × (free ≡ permits)) ⊎ CanStep free f)
Reaches-CanStep permits n free start f enough ready r =
    let (sound, kept, fewer) = Reaches-Kept ready r in
    (
      kept,
      fewer,
      elim (standing free f sound) [
        | inl e ↦ inl (e, omega (arith, ap held e, kept))
        | inr (inl s) ↦ inr s
        | inr (inr stuck) ↦ absurd (omega (arith, stuck.0, stuck.1, kept))
      ],
    )
