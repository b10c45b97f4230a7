-- ===== src/Sources/Digest/Injective.antt =====
-- What is hashed for a closure can be told apart: the digests that went in can be read off.
use repolith.Prelude.{
  ℕ, ◌≡◌, ◌≢◌, refl, sym, ap, ◌∙◌, Option, none, some, List, [], ◌∷◌, ◌++◌, contains, All,
  All-contains, All-of_contains, length, arith,
}
use repolith.Prelude.Texts.{codes}
use repolith.Prelude.Maps.{distinct, contains-distinct}
use repolith.Prelude.Sorting.{sort_by, contains-sort_by}
use repolith.Types.{Sha256, sha256_eq}
use repolith.Cache.Contract.{IsDigest}
use repolith.Sources.Digest.{sha_le, ingredient_bytes, closure_bytes}
use repolith.Sources.Digest.Stable.{IsSame}

append_cancel :
    (xs ys zs ws : List ℕ) → length xs ≡ length ys → xs ++ zs ≡ ys ++ ws → (xs ≡ ys) × (zs ≡ ws)
append_cancel [] [] zs ws n e = (refl, e)
append_cancel [] (y ∷ ys) zs ws n e = absurd (omega (arith, n))
append_cancel (x ∷ xs) [] zs ws n e = absurd (omega (arith, n))
append_cancel (x ∷ xs) (y ∷ ys) zs ws n e =
    let tails : xs ++ zs ≡ ys ++ ws = cc in
    let (front, back) = append_cancel xs ys zs ws (omega (arith, n)) tails in (cc, back)

digest_cancel :
    (a b : Sha256) (zs ws : List ℕ)
    → IsDigest a
    → IsDigest b
    → a.bytes ++ zs ≡ b.bytes ++ ws
    → (a ≡ b) × (zs ≡ ws)
digest_cancel a b zs ws ha hb e =
    let (same, rest) = append_cancel a.bytes b.bytes zs ws (ha.0 ∙ sym hb.0) e in
    (ap (λ bytes. record { bytes = bytes }) same, rest)

ingredient_bytes-injective :
    (ds es : List Sha256)
    → All IsDigest ds
    → All IsDigest es
    → ingredient_bytes ds ≡ ingredient_bytes es
    → ds ≡ es
unfolding ingredient_bytes codes
ingredient_bytes-injective [] [] hd he e = refl
ingredient_bytes-injective [] (b ∷ es) hd he e = cc
ingredient_bytes-injective (a ∷ ds) [] hd he e = cc
ingredient_bytes-injective (a ∷ ds) (b ∷ es) (ha, hd) (hb, he) e =
    let (same, rest) =
      digest_cancel a b (ingredient_bytes ds) (ingredient_bytes es) ha hb
        (append_cancel (codes ":in:") (codes ":in:") _ _ refl e).1 in
    let tails = ingredient_bytes-injective ds es hd he rest in cc

sorted-IsDigest : (ds : List Sha256) → All IsDigest ds → All IsDigest (sort_by sha_le (distinct ds))
sorted-IsDigest ds h = All-of_contains IsDigest (sort_by sha_le (distinct ds)) λ d m.
    All-contains IsDigest ds d h
      (sym (contains-sort_by sha_le d (distinct ds) ∙ contains-distinct ds d) ∙ m)

-- The digests of a closure, as far as they can be told apart.
abbrev pub IsAlike : Option (List Sha256) → Option (List Sha256) → Type 0
IsAlike none none = Unit
IsAlike (some ds) (some es) = IsSame ds es
IsAlike _ _ = ⊥

abbrev pub AreDigests : Option (List Sha256) → Type 0
AreDigests none = Unit
AreDigests (some ds) = All IsDigest ds

first_byte : List ℕ → ℕ
first_byte [] = 0
first_byte (c ∷ s) = c

-- The markers of a root that resolves and of one that does not.
told_apart :
    (xs ys : List ℕ)
    → codes "closure:v1:" ++ (codes "unresolved:" ++ xs)
      ≢ codes "closure:v1:" ++ (codes "resolved:root:" ++ ys)
unfolding codes first_byte
told_apart xs ys e =
    let front = codes "closure:v1:" in
    let firsts : 117 ≡ 114 = ap first_byte (append_cancel front front _ _ refl e).1 in
    omega (arith, firsts)

-- What is hashed for two closures is the same only where the digests of the roots are the same, both
-- have resolved or neither has, and the ingredients have the same digests.
pub closure_bytes-injective :
    (a b : Sha256) (ds es : Option (List Sha256))
    → IsDigest a
    → IsDigest b
    → AreDigests ds
    → AreDigests es
    → closure_bytes a ds ≡ closure_bytes b es
    → (a ≡ b) × IsAlike ds es
unfolding closure_bytes codes
closure_bytes-injective a b none none ha hb hd he e =
    let front = codes "closure:v1:unresolved:" in
    (
      ap (λ bytes. record { bytes = bytes }) (append_cancel front front a.bytes b.bytes refl e).1,
      tt,
    )
closure_bytes-injective a b none (some es) ha hb hd he e = absurd (told_apart _ _ e)
closure_bytes-injective a b (some ds) none ha hb hd he e = absurd (told_apart _ _ (sym e))
closure_bytes-injective a b (some ds) (some es) ha hb hd he e =
    let front = codes "closure:v1:resolved:root:" in
    let (same, rest) =
      digest_cancel a b (ingredient_bytes (sort_by sha_le (distinct ds)))
        (ingredient_bytes (sort_by sha_le (distinct es))) ha hb
        (append_cancel front front _ _ refl e).1 in
    let sorted =
      ingredient_bytes-injective (sort_by sha_le (distinct ds)) (sort_by sha_le (distinct es))
        (sorted-IsDigest ds hd) (sorted-IsDigest es he) rest in
    (
      same,
      λ d.
          sym (contains-sort_by sha_le d (distinct ds) ∙ contains-distinct ds d)
          ∙ ap (λ xs. contains xs d) sorted
          ∙ (contains-sort_by sha_le d (distinct es) ∙ contains-distinct es d),
    )
