-- ===== src/Sources/Digest/Entries.antt =====
-- The files of a tree in the order of their relative paths, whatever the order of the walk.
use repolith.Prelude.{
  ◌≡◌, refl, ◌∙◌, Bool, true, false, some, some_inj, List, [], ◌∷◌, ◌==◌, ◌||◌, ==_iff, ==-cases,
  contains, arith, inl, inr, Bool-cases, if◌then◌else◌, list_eq, nat_eq,
}
use repolith.Prelude.Texts.{Text, text_le}
use repolith.Prelude.Texts.Order.{text_le_refl, text_le_total, text_le_trans, text_le_antisym}
use repolith.Prelude.Maps.{keys, get, has-keys, IsNodup}
use repolith.Prelude.Sorting.{insert_sorted, sort_by}
use repolith.Sources.Digest.{entry_le}

-- The keys come in order.
abbrev pub IsOrdered {ℓ} : {V : Type ℓ} → List (Text × V) → Type 0
IsOrdered [] = Unit
IsOrdered ((k, v) ∷ m) =
    ((r : Text) → contains (keys m) r ≡ true → text_le k r ≡ true) × IsOrdered m

pub ordered_unique :
    {V : Type 0} (xs ys : List (Text × V))
    → IsOrdered xs
    → IsOrdered ys
    → IsNodup (keys xs)
    → IsNodup (keys ys)
    → ((r : Text) → get r xs ≡ get r ys)
    → xs ≡ ys
unfolding get contains
ordered_unique [] [] hx hy nx ny same = refl
ordered_unique [] ((j, w) ∷ ys) hx hy nx ny same = ground (arith, same j, ==_iff j j)
ordered_unique ((k, v) ∷ xs) [] hx hy nx ny same = ground (arith, same k, ==_iff k k)
ordered_unique ((k, v) ∷ xs) ((j, w) ∷ ys) hx hy nx ny same = elim (==-cases k j) [
  | inl (t, eq) ↦
      let values : v ≡ w = some_inj (ground (arith, same j, ==_iff j j)) in
      let tails =
        ordered_unique xs ys hx.1 hy.1 nx.1 ny.1
          (λ r. ground (arith, same r, has-keys r xs, has-keys r ys, ==_iff k r, ==_iff j r)) in
      cc
  | inr (f, other) ↦ absurd (
      other (
        text_le_antisym k j (hx.0 j (ground (arith, same j, has-keys j xs, ==_iff j j)))
          (hy.0 k (ground (arith, same k, has-keys k ys, ==_iff k k, ==_iff j k)))))
]

module _ (path_le : Text → Text → Bool) where
  get-insert_sorted :
      (k v r : Text) (xs : List (Text × Text))
      → contains (keys xs) k ≡ false
      → get r (insert_sorted (entry_le path_le) (k, v) xs) ≡ (if k == r then some v else get r xs)
  unfolding get insert_sorted contains
  get-insert_sorted k v r [] h = refl
  get-insert_sorted k v r ((j, w) ∷ xs) h =
      ground (arith, get-insert_sorted k v r xs, ==_iff k r, ==_iff j r, ==_iff j k)

  contains-keys-insert_sorted :
      (k v r : Text) (xs : List (Text × Text))
      → contains (keys (insert_sorted (entry_le path_le) (k, v) xs)) r
        ≡ (k == r || contains (keys xs) r)
  unfolding insert_sorted contains
  contains-keys-insert_sorted k v r [] = refl
  contains-keys-insert_sorted k v r ((j, w) ∷ xs) =
      ground (arith, contains-keys-insert_sorted k v r xs)

  contains-keys-sort_by :
      (r : Text) (xs : List (Text × Text))
      → contains (keys (sort_by (entry_le path_le) xs)) r ≡ contains (keys xs) r
  unfolding sort_by contains
  contains-keys-sort_by r [] = refl
  contains-keys-sort_by r ((k, v) ∷ xs) = ground (
    arith,
    contains-keys-insert_sorted k v r (sort_by (entry_le path_le) xs),
    contains-keys-sort_by r xs,
  )

  pub get-sort_by :
      (r : Text) (xs : List (Text × Text))
      → IsNodup (keys xs)
      → get r (sort_by (entry_le path_le) xs) ≡ get r xs
  unfolding sort_by get
  get-sort_by r [] n = refl
  get-sort_by r ((k, v) ∷ xs) (fresh, n) =
      get-insert_sorted k v r (sort_by (entry_le path_le) xs) (contains-keys-sort_by k xs ∙ fresh)
      ∙ rw (get-sort_by r xs n) refl

  keys-insert_sorted-IsNodup :
      (k v : Text) (xs : List (Text × Text))
      → contains (keys xs) k ≡ false
      → IsNodup (keys xs)
      → IsNodup (keys (insert_sorted (entry_le path_le) (k, v) xs))
  unfolding insert_sorted contains
  keys-insert_sorted-IsNodup k v [] h n = (refl, tt)
  keys-insert_sorted-IsNodup k v ((j, w) ∷ xs) h n = ground (
    arith,
    keys-insert_sorted-IsNodup k v xs,
    contains-keys-insert_sorted k v j xs,
    ==_iff j k,
    ==_iff k j,
  )

  pub keys-sort_by-IsNodup :
      (xs : List (Text × Text)) → IsNodup (keys xs) → IsNodup (keys (sort_by (entry_le path_le) xs))
  unfolding sort_by
  keys-sort_by-IsNodup [] n = tt
  keys-sort_by-IsNodup ((k, v) ∷ xs) (fresh, n) =
      keys-insert_sorted-IsNodup k v (sort_by (entry_le path_le) xs)
        (contains-keys-sort_by k xs ∙ fresh) (keys-sort_by-IsNodup xs n)

  entry_le-text_le :
      (k v j w : Text)
      → (entry_le path_le (k, v) (j, w) ≡ true → text_le k j ≡ true)
        × (entry_le path_le (k, v) (j, w) ≡ false → text_le j k ≡ true)
  unfolding entry_le
  entry_le-text_le k v j w = elim (==-cases k j) [
    | inl (t, same) ↦ (λ h. rw same (text_le_refl j), λ h. rw same (text_le_refl j))
    | inr (f, other) ↦ rw f (λ h. h, λ h. text_le_total k j h)
  ]

  insert_sorted-IsOrdered :
      (k v : Text) (xs : List (Text × Text))
      → IsOrdered xs
      → IsOrdered (insert_sorted (entry_le path_le) (k, v) xs)
  unfolding insert_sorted contains
  insert_sorted-IsOrdered k v [] h = (λ r m. cc, tt)
  insert_sorted-IsOrdered k v ((j, w) ∷ xs) (least, rest) =
      elim (Bool-cases (entry_le path_le (k, v) (j, w))) [
        | inl t ↦ rw t (below ((entry_le-text_le k v j w).0 t), (least, rest))
        | inr t ↦ rw t (above ((entry_le-text_le k v j w).1 t), insert_sorted-IsOrdered k v xs rest)
      ]
    where
      below :
          text_le k j ≡ true
          → (r : Text) → contains (keys ((j, w) ∷ xs)) r ≡ true
          → text_le k r ≡ true
      below t r m = elim (==-cases j r) [
        | inl (_, same) ↦ ground arith
        | inr (f, _) ↦ text_le_trans k j r t (least r (ground arith))
      ]

      above :
          text_le j k ≡ true
          → (r : Text) → contains (keys (insert_sorted (entry_le path_le) (k, v) xs)) r ≡ true
          → text_le j r ≡ true
      above t r m = elim (==-cases k r) [
        | inl (_, same) ↦ ground arith
        | inr (f, _) ↦ least r (ground (arith, contains-keys-insert_sorted k v r xs))
      ]

  pub sort_by-IsOrdered : (xs : List (Text × Text)) → IsOrdered (sort_by (entry_le path_le) xs)
  unfolding sort_by
  sort_by-IsOrdered [] = tt
  sort_by-IsOrdered ((k, v) ∷ xs) =
      insert_sorted-IsOrdered k v (sort_by (entry_le path_le) xs) (sort_by-IsOrdered xs)
