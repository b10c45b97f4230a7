-- ===== src/Prelude/Maps.antt =====
-- `HashMap` and `HashSet` as association lists and lists. A key stands at most once in a map
-- built by `insert`; the order of the entries stands for the unspecified iteration order.
use Prim.Native.Nat.{◌≤◌, ◌<◌}
use mathlib.Core.Path.{◌≡◌, refl, ap}
use mathlib.Core.Bool.{Bool, true, false, ◌||◌}
use mathlib.Core.Option.{Option, none, some}
use mathlib.Core.List.{List, [], ◌∷◌, ◌++◌}
use native.Mathlib.Omega.{arith}
use repolith.Prelude.Tests.{if◌then◌else◌, is_some}
use repolith.Prelude.Lists.{length}
use repolith.Prelude.Equality.{Eq, ◌==◌, contains}

abbrev pub keys {ℓ κ} : {K : Type ℓ} {V : Type κ} → List (K × V) → List K
keys [] = []
keys ((k, v) ∷ m) = k ∷ keys m

abbrev pub map_value {ℓ} : {V : Type ℓ} → (V → V) → Option V → Option V
map_value f none = none
map_value f (some v) = some (f v)

-- `HashSet` collected from an iterator: each value once.
module _ {ℓ} {A : Type ℓ} ⦃e : Eq A⦄ where
  unfoldable pub distinct : List A → List A
  distinct [] = []
  distinct (x ∷ xs) = let rest = distinct xs in if contains rest x then rest else x ∷ rest

  -- No value stands twice.
  abbrev pub IsNodup : List A → Type 0
  IsNodup [] = Unit
  IsNodup (x ∷ xs) = (contains xs x ≡ false) × IsNodup xs

  pub contains-distinct : (xs : List A) (a : A) → contains (distinct xs) a ≡ contains xs a
  unfolding distinct contains
  contains-distinct [] a = refl
  contains-distinct (x ∷ xs) a =
      ground (arith, contains-distinct xs x, contains-distinct xs a, e.beq_iff x a)

  pub distinct-IsNodup : (xs : List A) → IsNodup (distinct xs)
  unfolding distinct
  distinct-IsNodup [] = tt
  distinct-IsNodup (x ∷ xs) = ground (arith, distinct-IsNodup xs)

  pub contains-append :
      (xs ys : List A) (a : A) → contains (xs ++ ys) a ≡ (contains xs a || contains ys a)
  unfolding contains
  contains-append [] ys a = refl
  contains-append (x ∷ xs) ys a = ground (arith, contains-append xs ys a)

  pub append-IsNodup :
      (xs ys : List A)
      → IsNodup xs
      → IsNodup ys
      → ((a : A) → contains ys a ≡ true → contains xs a ≡ false)
      → IsNodup (xs ++ ys)
  unfolding contains
  append-IsNodup [] ys hx hy apart = hy
  append-IsNodup (x ∷ xs) ys hx hy apart = (
    ground (arith, contains-append xs ys x, apart x, e.beq_iff x x),
    append-IsNodup xs ys hx.1 hy λ a m. ground (arith, apart a m),
  )

module _ {ℓ} {A : Type ℓ} ⦃e : Eq A⦄ where
  -- The parts of a list without duplicates have none, and share no value.
  pub split-IsNodup :
      (xs ys : List A)
      → IsNodup (xs ++ ys)
      → IsNodup xs × IsNodup ys × ((a : A) → contains xs a ≡ true → contains ys a ≡ false)
  unfolding contains
  split-IsNodup [] ys h = (tt, h, λ a m. cc)
  split-IsNodup (x ∷ xs) ys h =
      let (hx, hy, apart) = split-IsNodup xs ys h.1 in
      (
        (ground (arith, contains-append xs ys x, h.0), hx),
        hy,
        λ a m. ground (arith, contains-append xs ys x, h.0, apart a, e.beq_iff x a),
      )

module _ {ℓ κ} {K : Type ℓ} {V : Type κ} ⦃e : Eq K⦄ where
  unfoldable pub get : K → List (K × V) → Option V
  get k [] = none
  get k ((j, v) ∷ m) = if j == k then some v else get k m

  abbrev pub has : K → List (K × V) → Bool
  has k m = is_some (get k m)

  unfoldable pub insert : K → V → List (K × V) → List (K × V)
  insert k v [] = (k, v) ∷ []
  insert k v ((j, w) ∷ m) = if j == k then (k, v) ∷ m else (j, w) ∷ insert k v m

  unfoldable pub remove : K → List (K × V) → List (K × V)
  remove k [] = []
  remove k ((j, w) ∷ m) = let rest = remove k m in if j == k then rest else (j, w) ∷ rest

  -- `if let Some(v) = m.get_mut(k) { *v = f(*v) }`.
  unfoldable pub adjust : K → (V → V) → List (K × V) → List (K × V)
  adjust k f [] = []
  adjust k f ((j, w) ∷ m) = if j == k then (j, f w) ∷ m else (j, w) ∷ adjust k f m

  -- `collect` of pairs into a map: the last pair of a key wins.
  unfoldable pub collect_onto : List (K × V) → List (K × V) → List (K × V)
  collect_onto m [] = m
  collect_onto m ((k, v) ∷ pairs) = collect_onto (insert k v m) pairs

  abbrev pub collect : List (K × V) → List (K × V)
  collect = collect_onto []

module _ {ℓ κ} {K : Type ℓ} {V : Type κ} ⦃e : Eq K⦄ where
  pub has-nil : (k : K) (m : List (K × V)) → m ≡ [] → has k m ≡ false
  unfolding get
  has-nil k m e = ap (has k) e

  pub get-insert :
      (k j : K) (v : V) (m : List (K × V))
      → get j (insert k v m) ≡ (if k == j then some v else get j m)
  unfolding get insert
  get-insert k j v [] = refl
  get-insert k j v ((i, w) ∷ m) =
      ground (arith, e.beq_iff k j, e.beq_iff i k, e.beq_iff i j, get-insert k j v m)

  pub get-remove :
      (k j : K) (m : List (K × V)) → get j (remove k m) ≡ (if k == j then none else get j m)
  unfolding get remove
  get-remove k j [] = ground arith
  get-remove k j ((i, w) ∷ m) =
      ground (arith, e.beq_iff k j, e.beq_iff i k, e.beq_iff i j, get-remove k j m)

  pub get-adjust :
      (k j : K) (f : V → V) (m : List (K × V))
      → get j (adjust k f m) ≡ (if k == j then map_value f (get j m) else get j m)
  unfolding get adjust
  get-adjust k j f [] = ground arith
  get-adjust k j f ((i, w) ∷ m) =
      ground (arith, e.beq_iff k j, e.beq_iff i k, e.beq_iff i j, get-adjust k j f m)

  pub has-keys : (k : K) (m : List (K × V)) → has k m ≡ contains (keys m) k
  unfolding get contains
  has-keys k [] = refl
  has-keys k ((j, v) ∷ m) = ground (arith, has-keys k m)

  -- After a `collect` exactly the collected keys, and those from before, are there.
  pub has-collect_onto :
      (k : K) (pairs m : List (K × V))
      → has k (collect_onto m pairs) ≡ (contains (keys pairs) k || has k m)
  unfolding collect_onto contains
  has-collect_onto k [] m = refl
  has-collect_onto k ((j, v) ∷ pairs) m =
      ground (arith, has-collect_onto k pairs (insert j v m), get-insert j k v m)

  pub length-adjust : (k : K) (f : V → V) (m : List (K × V)) → length (adjust k f m) ≡ length m
  unfolding adjust
  length-adjust k f [] = refl
  length-adjust k f ((j, w) ∷ m) = ground (arith, length-adjust k f m)

  pub length-remove-le : (k : K) (m : List (K × V)) → length (remove k m) ≤ length m
  unfolding remove
  length-remove-le k [] = omega arith
  length-remove-le k ((j, w) ∷ m) = ground (arith, length-remove-le k m)

  pub length-remove-lt :
      (k : K) (m : List (K × V)) → has k m ≡ true → length (remove k m) < length m
  unfolding get remove
  length-remove-lt k [] h = cc
  length-remove-lt k ((j, w) ∷ m) h = ground (arith, length-remove-le k m, length-remove-lt k m)

  pub keys-adjust : (k : K) (f : V → V) (m : List (K × V)) → keys (adjust k f m) ≡ keys m
  unfolding adjust
  keys-adjust k f [] = refl
  keys-adjust k f ((j, w) ∷ m) = ground (arith, keys-adjust k f m)

  pub contains-keys-remove :
      (k j : K) (m : List (K × V))
      → contains (keys (remove k m)) j ≡ (if k == j then false else contains (keys m) j)
  contains-keys-remove k j m =
      ground (arith, get-remove k j m, has-keys j (remove k m), has-keys j m)

  pub keys-remove-IsNodup :
      (k : K) (m : List (K × V)) → IsNodup (keys m) → IsNodup (keys (remove k m))
  unfolding remove
  keys-remove-IsNodup k [] h = tt
  keys-remove-IsNodup k ((j, w) ∷ m) h =
      ground (arith, keys-remove-IsNodup k m, contains-keys-remove k j m)

  -- Pairs of different keys are all there after a `collect`.
  pub get-collect_onto :
      (k : K) (pairs m : List (K × V))
      → IsNodup (keys pairs)
      → get k (collect_onto m pairs) ≡ (if contains (keys pairs) k then get k pairs else get k m)
  unfolding collect_onto contains get
  get-collect_onto k [] m h = refl
  get-collect_onto k ((j, v) ∷ pairs) m h = ground (
    arith,
    get-collect_onto k pairs (insert j v m),
    get-insert j k v m,
    e.beq_iff j k,
    has-keys k pairs,
  )
