-- ===== src/Sources/Digest/Trees.antt =====
-- The digest of a tree does not depend on where it lies, nor on the order of the walk.
use repolith.Prelude.{
  ℕ, ◌≡◌, refl, sym, ap, ◌∙◌, true, Option, none, some, List, [], ◌∷◌, ◌++◌, ok, ◌==◌, contains,
  inl, inr, Bool-cases, list_eq, nat_eq,
}
use repolith.Prelude.Texts.{Text, codes}
use repolith.Prelude.Maps.{keys, get, IsNodup}
use repolith.Prelude.Sorting.{sort_by}
use repolith.Types.{Sha256}
use repolith.Sources.{Files}
use repolith.Sources.Digest.{
  entry_le, is_walked, collect_entries, content, contents, tree_bytes, tree_digest,
}
use repolith.Sources.Digest.Entries.{
  IsOrdered, ordered_unique, get-sort_by, keys-sort_by-IsNodup, sort_by-IsOrdered,
}

module _ (utf8 : Text → List ℕ) (f : Files) where
  keys-contents : (xs : List (Text × Text)) → keys (contents f utf8 xs) ≡ keys xs
  keys-contents [] = refl
  keys-contents ((k, v) ∷ xs) = ap (λ m. k ∷ m) (keys-contents xs)

  contents-IsOrdered : (xs : List (Text × Text)) → IsOrdered xs → IsOrdered (contents f utf8 xs)
  contents-IsOrdered [] h = tt
  contents-IsOrdered ((k, v) ∷ xs) (least, rest) = (
    λ r m. least r (sym (ap (λ ks. contains ks r) (keys-contents xs)) ∙ m),
    contents-IsOrdered xs rest,
  )

  abbrev read_at : Option Text → Option (List ℕ)
  read_at none = none
  read_at (some abs) = some (content f utf8 abs)

  get-contents :
      (r : Text) (zs : List (Text × Text)) → get r (contents f utf8 zs) ≡ read_at (get r zs)
  unfolding get
  get-contents r [] = refl
  get-contents r ((k, v) ∷ zs) = elim (Bool-cases (k == r)) [
    | inl t ↦ rw t refl
    | inr t ↦ rw t (get-contents r zs)
  ]

  get-contents_congr :
      (r : Text) (xs ys : List (Text × Text))
      → get r xs ≡ get r ys
      → get r (contents f utf8 xs) ≡ get r (contents f utf8 ys)
  get-contents_congr r xs ys h = get-contents r xs ∙ ap read_at h ∙ sym (get-contents r ys)

  -- The files of a tree as they are hashed.
  abbrev sorted_contents : List (Text × Text) → List (Text × List ℕ)
  sorted_contents xs = contents f utf8 (sort_by (entry_le f.path_le) xs)

  sorted_contents-IsNodup :
      (xs : List (Text × Text)) → IsNodup (keys xs) → IsNodup (keys (sorted_contents xs))
  sorted_contents-IsNodup xs n =
      rw (keys-contents (sort_by (entry_le f.path_le) xs)) (keys-sort_by-IsNodup f.path_le xs n)

  get-sorted_contents :
      (r : Text) (xs : List (Text × Text))
      → IsNodup (keys xs)
      → get r (sorted_contents xs) ≡ get r (contents f utf8 xs)
  get-sorted_contents r xs n =
      get-contents_congr r (sort_by (entry_le f.path_le) xs) xs (get-sort_by f.path_le r xs n)

tree_digest-files :
    (sha : List ℕ → Sha256) (utf8 : Text → List ℕ) (f : Files) (p : Text) (xs : List (Text × Text))
    → f.exists p ≡ true
    → collect_entries f p (f.walk is_walked p) ≡ ok xs
    → tree_digest sha utf8 f p
      ≡ ok (sha (codes "tree:v1:" ++ tree_bytes utf8 (sorted_contents utf8 f xs)))
unfolding tree_digest
tree_digest-files sha utf8 f p xs here walked = rw (tree_digest, here, walked) refl

-- Two trees have the same digest if at each relative path they have the same file or both none,
-- where no two files of a tree share a relative path; the place of a tree and the order in which its
-- files are walked do not matter.
pub tree_digest_stable :
    (sha : List ℕ → Sha256) (utf8 : Text → List ℕ) (f g : Files) (p q : Text)
    (xs ys : List (Text × Text))
    → f.exists p ≡ true
    → g.exists q ≡ true
    → collect_entries f p (f.walk is_walked p) ≡ ok xs
    → collect_entries g q (g.walk is_walked q) ≡ ok ys
    → IsNodup (keys xs)
    → IsNodup (keys ys)
    → ((r : Text) → get r (contents f utf8 xs) ≡ get r (contents g utf8 ys))
    → tree_digest sha utf8 f p ≡ tree_digest sha utf8 g q
tree_digest_stable sha utf8 f g p q xs ys hp hq wx wy nx ny same =
    let files : sorted_contents utf8 f xs ≡ sorted_contents utf8 g ys =
      ordered_unique (sorted_contents utf8 f xs) (sorted_contents utf8 g ys)
        (contents-IsOrdered utf8 f (sort_by (entry_le f.path_le) xs)
          (sort_by-IsOrdered f.path_le xs))
        (contents-IsOrdered utf8 g (sort_by (entry_le g.path_le) ys)
          (sort_by-IsOrdered g.path_le ys))
        (sorted_contents-IsNodup utf8 f xs nx) (sorted_contents-IsNodup utf8 g ys ny)
        (λ r.
          get-sorted_contents utf8 f r xs nx ∙ same r ∙ sym (get-sorted_contents utf8 g r ys ny)) in
    tree_digest-files sha utf8 f p xs hp wx
    ∙ ap (λ zs. ok (sha (codes "tree:v1:" ++ tree_bytes utf8 zs))) files
    ∙ sym (tree_digest-files sha utf8 g q ys hq wy)
