-- ===== src/Prelude/Sorting.antt =====
-- `slice::sort_by` with a total order given as a Boolean test. The sort is stable; on keys that
-- differ, which is how the source calls it, every sort gives the same list.
pub mod Unique
use mathlib.Core.Path.{◌≡◌, refl}
use mathlib.Core.Bool.{Bool, false, ◌||◌}
use mathlib.Core.List.{List, [], ◌∷◌}
use native.Mathlib.Omega.{arith}
use repolith.Prelude.Tests.{if◌then◌else◌}
use repolith.Prelude.Equality.{Eq, ◌==◌, contains}
use repolith.Prelude.Maps.{IsNodup}

module _ {ℓ} {A : Type ℓ} (le : A → A → Bool) where
  unfoldable pub insert_sorted : A → List A → List A
  insert_sorted a [] = a ∷ []
  insert_sorted a (x ∷ xs) =
      let rest = insert_sorted a xs in if le a x then a ∷ x ∷ xs else x ∷ rest

  unfoldable pub sort_by : List A → List A
  unfolding insert_sorted
  sort_by [] = []
  sort_by (x ∷ xs) = insert_sorted x (sort_by xs)

module _ {ℓ} {A : Type ℓ} ⦃e : Eq A⦄ (le : A → A → Bool) where
  pub contains-insert_sorted :
      (a b : A) (xs : List A) → contains (insert_sorted le a xs) b ≡ (a == b || contains xs b)
  unfolding insert_sorted contains
  contains-insert_sorted a b [] = refl
  contains-insert_sorted a b (x ∷ xs) = ground (arith, contains-insert_sorted a b xs)

  -- Sorting keeps the members.
  pub contains-sort_by : (b : A) (xs : List A) → contains (sort_by le xs) b ≡ contains xs b
  unfolding sort_by contains
  contains-sort_by b [] = refl
  contains-sort_by b (x ∷ xs) =
      ground (arith, contains-insert_sorted x b (sort_by le xs), contains-sort_by b xs)

  insert_sorted-IsNodup :
      (a : A) (xs : List A) → contains xs a ≡ false → IsNodup xs → IsNodup (insert_sorted le a xs)
  unfolding insert_sorted contains
  insert_sorted-IsNodup a [] h n = (refl, tt)
  insert_sorted-IsNodup a (x ∷ xs) h n = ground (
    arith,
    insert_sorted-IsNodup a xs,
    contains-insert_sorted a x xs,
    e.beq_iff a x,
    e.beq_iff x a,
  )

  -- Sorting keeps values that differ apart.
  pub sort_by-IsNodup : (xs : List A) → IsNodup xs → IsNodup (sort_by le xs)
  unfolding sort_by
  sort_by-IsNodup [] n = tt
  sort_by-IsNodup (x ∷ xs) n =
      ground
        (arith, insert_sorted-IsNodup x (sort_by le xs), contains-sort_by x xs, sort_by-IsNodup xs)
