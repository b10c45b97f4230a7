-- ===== src/Prelude/Equality.antt =====
-- Decidable equality as an interface: the derived `PartialEq` and `Eq` of the source.
use mathlib.Core.Path.{◌≡◌, refl, subst}
use mathlib.Core.Logic.{◌↔◌, ◌≢◌, ◌⊎◌, inl, inr}
use mathlib.Core.Bool.{Bool, true, false, ◌&&◌, ◌||◌, false≢true}
use mathlib.Core.List.{List, [], ◌∷◌, ◌++◌}
use Prim.Native.Nat.{ℕ, suc}
use native.Mathlib.Omega.{arith}
use repolith.Prelude.Lists.{All}
use repolith.Prelude.Tests.{nat_beq, nat_beq_iff, if◌then◌else◌}

pub record Eq {ℓ} (T : Type ℓ) : Type ℓ where
  pub beq : (x y : T) → Bool
  pub beq_iff : (x y : T) → (beq x y ≡ true) ↔ (x ≡ y)

infix 50 ◌==◌
abbrev pub ◌==◌ {ℓ} : {T : Type ℓ} ⦃eq : Eq T⦄ → T → T → Bool
◌==◌ ⦃eq⦄ = eq.beq

instance abbrev pub nat_eq : Eq ℕ
nat_eq = record { beq = nat_beq; beq_iff = nat_beq_iff }

module _ {ℓ} {A : Type ℓ} ⦃e : Eq A⦄ where
  pub ==_iff : (a b : A) → ((a == b) ≡ true) ↔ (a ≡ b)
  ==_iff = e.beq_iff

  pub ==_refl : (a : A) → (a == a) ≡ true
  ==_refl a = (e.beq_iff a a).1 refl

  pub ==-cases : (a b : A) → ((a == b) ≡ true) × (a ≡ b) ⊎ ((a == b) ≡ false) × (a ≢ b)
  ==-cases a b = ground (arith, e.beq_iff a b)

  unfoldable pub list_beq : List A → List A → Bool
  list_beq [] [] = true
  list_beq (x ∷ xs) (y ∷ ys) = x == y && list_beq xs ys
  list_beq _ _ = false

  pub list_beq_iff : (xs ys : List A) → (list_beq xs ys ≡ true) ↔ (xs ≡ ys)
  unfolding list_beq
  list_beq_iff [] [] = (λ _. refl, λ _. refl)
  list_beq_iff [] (y ∷ ys) = ground arith
  list_beq_iff (x ∷ xs) [] = ground arith
  list_beq_iff (x ∷ xs) (y ∷ ys) = ground (arith, e.beq_iff x y, list_beq_iff xs ys)

  -- `HashSet::contains`, and `slice::contains`.
  unfoldable pub contains : List A → A → Bool
  contains [] a = false
  contains (x ∷ xs) a = x == a || contains xs a

  pub contains-nil : (a : A) → contains [] a ≡ false
  unfolding contains
  contains-nil a = refl

  pub contains-head : (a : A) (xs : List A) → contains (a ∷ xs) a ≡ true
  unfolding contains
  contains-head a xs = ground (arith, e.beq_iff a a)

  -- What holds of all elements holds of a member.
  pub All-contains {κ} :
      (P : A → Type κ) (xs : List A) (a : A) → All P xs → contains xs a ≡ true → P a
  unfolding contains
  All-contains P [] a h m = absurd (false≢true m)
  All-contains P (x ∷ xs) a h m = elim (==-cases x a) [
    | inl (_, same) ↦ subst P same h.0
    | inr (other, _) ↦ All-contains P xs a h.1 (rw other at m)
  ]

  -- A claim for every member is a claim for all elements.
  pub All-of_contains {κ} :
      (P : A → Type κ) (xs : List A) → ((a : A) → contains xs a ≡ true → P a) → All P xs
  unfolding contains
  All-of_contains P [] h = tt
  All-of_contains P (x ∷ xs) h =
      (h x (ground (arith, e.beq_iff x x)), All-of_contains P xs (λ a m. h a (ground arith)))

  -- How often a value stands in a list.
  unfoldable pub count : List A → A → ℕ
  count [] a = 0
  count (x ∷ xs) a = let n = count xs a in if x == a then suc n else n

  pub count-snoc :
      (xs : List A) (x a : A)
      → count (xs ++ x ∷ []) a ≡ (if x == a then suc (count xs a) else count xs a)
  unfolding count
  count-snoc [] x a = ground arith
  count-snoc (y ∷ xs) x a = ground (arith, count-snoc xs x a)

instance abbrev pub list_eq {ℓ} : {A : Type ℓ} ⦃e : Eq A⦄ → Eq (List A)
list_eq = record { beq = list_beq; beq_iff = list_beq_iff }
