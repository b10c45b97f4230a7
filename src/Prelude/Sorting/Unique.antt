-- ===== src/Prelude/Sorting/Unique.antt =====
-- Sorting gives one list for all orders of the same values.
use mathlib.Core.Path.{◌≡◌, refl, sym, ◌∙◌}
use mathlib.Core.Logic.{inl, inr}
use mathlib.Core.Bool.{Bool, true, false}
use mathlib.Core.List.{List, [], ◌∷◌}
use native.Mathlib.Omega.{arith}
use repolith.Prelude.Tests.{Bool-cases}
use repolith.Prelude.Equality.{Eq, ==-cases, contains}
use repolith.Prelude.Maps.{IsNodup}
use repolith.Prelude.Sorting.{
  insert_sorted, sort_by, contains-insert_sorted, contains-sort_by, sort_by-IsNodup,
}

module _ {ℓ} {A : Type ℓ} ⦃e : Eq A⦄ (le : A → A → Bool) where
  pub record IsOrder : Type ℓ where
    pub total : (a b : A) → le a b ≡ false → le b a ≡ true
    pub trans : (a b c : A) → le a b ≡ true → le b c ≡ true → le a c ≡ true
    pub antisym : (a b : A) → le a b ≡ true → le b a ≡ true → a ≡ b

  abbrev pub IsSorted : List A → Type ℓ
  IsSorted [] = Unit {ℓ}
  IsSorted (x ∷ xs) = ((a : A) → contains xs a ≡ true → le x a ≡ true) × IsSorted xs

  insert_sorted-IsSorted :
      (a : A) (xs : List A) → IsOrder → IsSorted xs → IsSorted (insert_sorted le a xs)
  unfolding insert_sorted contains
  insert_sorted-IsSorted a [] o h = (λ b m. cc, h)
  insert_sorted-IsSorted a (x ∷ xs) o (least, rest) = elim (Bool-cases (le a x)) [
    | inl t ↦ rw t (below t, (least, rest))
    | inr t ↦ rw t (above t, insert_sorted-IsSorted a xs o rest)
  ]
    where
      below : le a x ≡ true → (b : A) → contains (x ∷ xs) b ≡ true → le a b ≡ true
      below t b m = elim (==-cases x b) [
        | inl (_, same) ↦ ground arith
        | inr (f, _) ↦ o.trans a x b t (least b (ground arith))
      ]

      above : le a x ≡ false → (b : A) → contains (insert_sorted le a xs) b ≡ true → le x b ≡ true
      above t b m = elim (==-cases a b) [
        | inl (_, same) ↦ ground (arith, o.total a x t)
        | inr (f, _) ↦ least b (ground (arith, contains-insert_sorted le a b xs))
      ]

  sort_by-IsSorted : (xs : List A) → IsOrder → IsSorted (sort_by le xs)
  unfolding sort_by
  sort_by-IsSorted [] o = tt
  sort_by-IsSorted (x ∷ xs) o = insert_sorted-IsSorted x (sort_by le xs) o (sort_by-IsSorted xs o)

  sorted_unique :
      (xs ys : List A)
      → IsOrder
      → IsSorted xs
      → IsSorted ys
      → IsNodup xs
      → IsNodup ys
      → ((a : A) → contains xs a ≡ contains ys a)
      → xs ≡ ys
  unfolding contains
  sorted_unique [] [] o hx hy nx ny same = refl
  sorted_unique [] (y ∷ ys) o hx hy nx ny same = ground (arith, same y, e.beq_iff y y)
  sorted_unique (x ∷ xs) [] o hx hy nx ny same = ground (arith, same x, e.beq_iff x x)
  sorted_unique (x ∷ xs) (y ∷ ys) o hx hy nx ny same =
      let heads : x ≡ y = elim (==-cases x y) [
        | inl (_, eq) ↦ eq
        | inr (f, _) ↦
            o.antisym x y (hx.0 y (ground (arith, same y, e.beq_iff y y)))
              (hy.0 x (ground (arith, same x, e.beq_iff x x, e.beq_iff y x)))
      ] in
      let tails : xs ≡ ys =
        sorted_unique xs ys o hx.1 hy.1 nx.1 ny.1
          (λ a. ground (arith, same a, e.beq_iff x a, e.beq_iff y a)) in
      cc

  -- Two lists without duplicates and with the same members are sorted into one list.
  pub sort_by_congr :
      (xs ys : List A)
      → IsOrder
      → IsNodup xs
      → IsNodup ys
      → ((a : A) → contains xs a ≡ contains ys a)
      → sort_by le xs ≡ sort_by le ys
  sort_by_congr xs ys o nx ny same =
      sorted_unique (sort_by le xs) (sort_by le ys) o (sort_by-IsSorted xs o)
        (sort_by-IsSorted ys o) (sort_by-IsNodup le xs nx) (sort_by-IsNodup le ys ny)
        (λ a. contains-sort_by le a xs ∙ same a ∙ sym (contains-sort_by le a ys))
