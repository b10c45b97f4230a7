-- ===== src/Prelude/Lists.antt =====
-- Lists over the native numbers, and Boolean searches.
use Prim.Native.Nat.{ℕ, zero, suc, ◌+◌, ◌≤◌}
use mathlib.Core.Path.{◌≡◌, refl, ap}
use mathlib.Core.Logic.{◌⊎◌, inl, inr}
use mathlib.Core.Bool.{Bool, true, false, ◌||◌}
use mathlib.Core.Option.{Option, none, some}
use mathlib.Core.List.{List, [], ◌∷◌, ◌++◌}
use native.Mathlib.Omega.{arith}
use repolith.Prelude.Tests.{if◌then◌else◌}

-- A predicate of every element, by recursion, so that it computes to a tuple.
abbrev pub All {ℓ κ} : {A : Type ℓ} → (A → Type κ) → List A → Type κ
All P [] = Unit
All P (x ∷ xs) = P x × All P xs

module _ {ℓ} {A : Type ℓ} where
  abbrev pub length : List A → ℕ
  length [] = 0
  length (x ∷ xs) = suc (length xs)

  abbrev pub take : ℕ → List A → List A
  take zero xs = []
  take (suc n) [] = []
  take (suc n) (x ∷ xs) = x ∷ take n xs

  abbrev pub is_empty : List A → Bool
  is_empty [] = true
  is_empty (x ∷ xs) = false

  -- `Iterator::find`: the first element that passes.
  unfoldable pub find : (A → Bool) → List A → Option A
  find p [] = none
  find p (x ∷ xs) = if p x then some x else find p xs

  unfoldable pub any : (A → Bool) → List A → Bool
  any p [] = false
  any p (x ∷ xs) = p x || any p xs

  -- `Iterator::filter` with a Boolean test.
  unfoldable pub keep : (A → Bool) → List A → List A
  keep p [] = []
  keep p (x ∷ xs) = if p x then x ∷ keep p xs else keep p xs

  pub length-append : (xs ys : List A) → length (xs ++ ys) ≡ length xs + length ys
  length-append [] ys = omega arith
  length-append (x ∷ xs) ys = omega (arith, length-append xs ys)

module _ {ℓ} {A : Type ℓ} where
  pub length-keep-le : (p : A → Bool) (xs : List A) → length (keep p xs) ≤ length xs
  unfolding keep
  length-keep-le p [] = omega arith
  length-keep-le p (x ∷ xs) = ground (arith, length-keep-le p xs)

  pub append_assoc : (xs ys zs : List A) → xs ++ ys ++ zs ≡ xs ++ (ys ++ zs)
  append_assoc [] ys zs = refl
  append_assoc (x ∷ xs) ys zs = ap (λ r. x ∷ r) (append_assoc xs ys zs)

  pub append-nil : (xs : List A) → xs ++ [] ≡ xs
  append-nil [] = refl
  append-nil (x ∷ xs) = ap (λ r. x ∷ r) (append-nil xs)

  -- `find` fails exactly when every element fails the test.
  pub All-of_find : (p : A → Bool) (xs : List A) → find p xs ≡ none → All (λ x. p x ≡ false) xs
  unfolding find
  All-of_find p [] h = tt
  All-of_find p (x ∷ xs) h = ground (arith, All-of_find p xs)

  pub All-of_any : (p : A → Bool) (xs : List A) → any p xs ≡ false → All (λ x. p x ≡ false) xs
  unfolding any
  All-of_any p [] h = tt
  All-of_any p (x ∷ xs) h = ground (arith, All-of_any p xs)

  pub All-append {κ} :
      (Q : A → Type κ) (front back : List A) → All Q front → All Q back → All Q (front ++ back)
  All-append Q [] back h k = k
  All-append Q (x ∷ front) back h k = (h.0, All-append Q front back h.1 k)

  pub List-cases : (xs : List A) → (xs ≡ []) ⊎ ((x : A) × (rest : List A) × (xs ≡ x ∷ rest))
  List-cases [] = inl refl
  List-cases (x ∷ xs) = inr (x, xs, refl)

  pub find_of_All : (p : A → Bool) (xs : List A) → All (λ x. p x ≡ false) xs → find p xs ≡ none
  unfolding find
  find_of_All p [] h = refl
  find_of_All p (x ∷ xs) h = ground (arith, find_of_All p xs)

  pub length-take-le : (n : ℕ) (xs : List A) → length (take n xs) ≤ n
  length-take-le zero xs = omega arith
  length-take-le (suc n) [] = omega arith
  length-take-le (suc n) (x ∷ xs) = omega (arith, length-take-le n xs)

  pub take_of_le : (n : ℕ) (xs : List A) → length xs ≤ n → take n xs ≡ xs
  take_of_le zero [] h = refl
  take_of_le zero (x ∷ xs) h = absurd (omega arith)
  take_of_le (suc n) [] h = refl
  take_of_le (suc n) (x ∷ xs) h = ground (arith, take_of_le n xs)

  pub find_congr : (p q : A → Bool) (xs : List A) → All (λ x. p x ≡ q x) xs → find p xs ≡ find q xs
  unfolding find
  find_congr p q [] h = refl
  find_congr p q (x ∷ xs) h = ground (arith, find_congr p q xs)

  pub All-imp {κ μ} :
      {P : A → Type κ} {Q : A → Type μ} (xs : List A) → ((x : A) → P x → Q x) → All P xs → All Q xs
  All-imp [] f h = tt
  All-imp (x ∷ xs) f h = (f x h.0, All-imp xs f h.1)
