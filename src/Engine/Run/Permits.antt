-- ===== src/Engine/Run/Permits.antt =====
-- The permits of an orchestrator that the builder makes.
use repolith.Prelude.{
  ℕ, zero, suc, ◌≤◌, ◌≡◌, some, List, [], ◌∷◌, All, ok, arith, Option-cases, inl, inr,
}
use repolith.Prelude.Texts.{Text}
use repolith.Engine.Builder.{
  Orchestrator, Builder, builder, Setting, cache_boxed, manifest, max_parallelism, shared_semaphore,
  base_ctx, register_boxed, set, build,
}
use repolith.Engine.Run.{pool}

-- The builder after a chain of its methods.
abbrev pub configure : {S : Type 0} → List (Setting S) → Builder S → Builder S
configure [] b = b
configure (s ∷ settings) b = configure settings (set s b)

-- A shared pool has a permit; the other methods may be given anything.
abbrev pub HasPermit : {S : Type 0} → Setting S → Type 0
HasPermit (shared_semaphore permits) = 1 ≤ permits
HasPermit (cache_boxed c) = Unit
HasPermit (manifest m) = Unit
HasPermit (max_parallelism n) = Unit
HasPermit (base_ctx ctx) = Unit
HasPermit (register_boxed a) = Unit

abbrev IsPermitted : {S : Type 0} → Builder S → Type 0
IsPermitted b =
    (1 ≤ b.max_parallelism) × ((permits : ℕ) → b.shared_semaphore ≡ some permits → 1 ≤ permits)

set-IsPermitted :
    {S : Type 0} (s : Setting S) (b : Builder S)
    → HasPermit s
    → IsPermitted b
    → IsPermitted (set s b)
unfolding set
set-IsPermitted (cache_boxed c) b h (own, shared) = (own, shared)
set-IsPermitted (manifest m) b h (own, shared) = (own, shared)
set-IsPermitted (max_parallelism zero) b h (own, shared) = (omega arith, shared)
set-IsPermitted (max_parallelism (suc n)) b h (own, shared) = (omega arith, shared)
set-IsPermitted (shared_semaphore n) b h (own, shared) = (own, λ permits e. ground arith)
set-IsPermitted (base_ctx ctx) b h (own, shared) = (own, shared)
set-IsPermitted (register_boxed a) b h (own, shared) = (own, shared)

configure-IsPermitted :
    {S : Type 0} (settings : List (Setting S)) (b : Builder S)
    → All HasPermit settings
    → IsPermitted b
    → IsPermitted (configure settings b)
configure-IsPermitted [] b h p = p
configure-IsPermitted (s ∷ settings) b h p =
    configure-IsPermitted settings (set s b) h.1 (set-IsPermitted s b h.0 p)

builder-IsPermitted :
    (S : Type 0) (num_cpus : ℕ) (dir : Text) → IsPermitted (builder {S = S} num_cpus dir)
unfolding builder
builder-IsPermitted S zero dir = (omega arith, λ permits e. ground arith)
builder-IsPermitted S (suc n) dir = (omega arith, λ permits e. ground arith)

-- Whatever methods are called on a fresh builder, `max_parallelism` with 0 included, the
-- orchestrator has a permit to give, where each shared pool that it was given has one.
pub build-pool :
    {S : Type 0} (num_cpus : ℕ) (dir : Text) (settings : List (Setting S)) (o : Orchestrator S)
    → All HasPermit settings
    → build (configure settings (builder num_cpus dir)) ≡ ok o
    → 1 ≤ pool o
unfolding build
build-pool num_cpus dir settings o h e =
    let b = configure settings (builder num_cpus dir) in
    let (own, shared) =
      configure-IsPermitted settings (builder num_cpus dir) h
        (builder-IsPermitted _ num_cpus dir) in
    elim (Option-cases b.store) [
      | inl n ↦ absurd (ground arith)
      | inr (store, found) ↦ elim (Option-cases b.shared_semaphore) [
        | inl alone ↦ ground (arith, own)
        | inr (permits, given) ↦ ground (arith, shared permits given)
      ]
    ]
