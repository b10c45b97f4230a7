-- ===== src/Sources/Digest.antt =====
-- The digests of source trees: crates/repolith-actions/src/source_hash.rs, and the digests of
-- crates/repolith-actions/src/source_closure.rs. A hasher is the list of the bytes that it was fed;
-- `sha` is SHA-256, and `utf8` gives the bytes of a text.
pub mod Entries
pub mod Trees
pub mod Stable
pub mod Injective
use repolith.Prelude.{
  ℕ, Bool, true, false, Option, none, some, List, [], ◌∷◌, ◌++◌, Result, ok, err, panic, ◌>>=◌,
  ◌==◌, list_eq, nat_eq, if◌then◌else◌, map, not, ◌||◌,
}
use repolith.Prelude.Texts.{Text, codes, text_le}
use repolith.Prelude.Maps.{distinct}
use repolith.Prelude.Sorting.{sort_by}
use repolith.Types.{Sha256, sha256_eq, BuildError, io}
use repolith.Sources.{Entry, Files}
use repolith.Sources.Closure.{Closure}

-- The names that a walk leaves aside.
unfoldable pub is_walked : Option Text → Bool
unfolding codes
is_walked none = true
is_walked (some name) =
    not (name == codes ".git" || (name == codes "target" || name == codes ".repolith"))

-- `replace('\\', "/")`.
unfoldable pub slashes : Text → Text
slashes [] = []
slashes (c ∷ s) = (if c == 92 then b'/' else c) ∷ slashes s

-- The order of pairs of a relative path and a path.
unfoldable pub entry_le : (path_le : Text → Text → Bool) → Text × Text → Text × Text → Bool
unfolding text_le
entry_le path_le (rel, abs) (rel', abs') =
    if rel == rel' then path_le abs abs' else text_le rel rel'

module _ (f : Files) where
  -- The files that a walk yields, with their paths below the root; the first error ends it.
  unfoldable pub collect_entries :
      (root : Text) → List (Result Text Entry) → Result BuildError (List (Text × Text))
  unfolding slashes codes
  collect_entries root [] = ok []
  collect_entries root (err e ∷ walker) = err (io (codes "walk " ++ (root ++ (codes ": " ++ e))))
  collect_entries root (panic ∷ walker) = panic
  collect_entries root (ok entry ∷ walker) = elim entry.is_file [
    | false ↦ collect_entries root walker
    | true ↦ do
      rest ← collect_entries root walker
      ok ((slashes (f.relative root entry.path), entry.path) ∷ rest)
  ]

  -- What is hashed of a file.
  unfoldable pub content : (utf8 : Text → List ℕ) → (path : Text) → List ℕ
  unfolding codes
  content utf8 path = elim (f.read path) [
    | ok bytes ↦ codes "ok:" ++ bytes
    | err kind ↦ codes "unreadable:" ++ utf8 kind
    | panic ↦ []
  ]

  abbrev pub contents : (utf8 : Text → List ℕ) → List (Text × Text) → List (Text × List ℕ)
  contents utf8 [] = []
  contents utf8 ((rel, abs) ∷ entries) = (rel, content utf8 abs) ∷ contents utf8 entries

-- The loop over the sorted files.
unfoldable pub tree_bytes : (utf8 : Text → List ℕ) → List (Text × List ℕ) → List ℕ
unfolding codes
tree_bytes utf8 [] = []
tree_bytes utf8 ((rel, bytes) ∷ files) = utf8 rel ++ (0 ∷ bytes) ++ (10 ∷ tree_bytes utf8 files)

module _ (sha : List ℕ → Sha256) (utf8 : Text → List ℕ) (f : Files) where
  unfoldable pub tree_digest : Text → Result BuildError Sha256
  unfolding is_walked collect_entries entry_le sort_by tree_bytes codes
  tree_digest path = elim (f.exists path) [
    | false ↦ err (io (codes "source tree " ++ (path ++ codes " does not exist")))
    | true ↦ do
      entries ← collect_entries f path (f.walk is_walked path)
      ok (
          sha (
            codes "tree:v1:"
            ++ tree_bytes utf8 (contents f utf8 (sort_by (entry_le f.path_le) entries))))
  ]

  unfoldable pub tree_digest_or_marker : Text → Sha256
  unfolding tree_digest codes
  tree_digest_or_marker path = elim (tree_digest path) [
    | ok digest ↦ digest
    | err e ↦ sha (codes "absent-dep-tree")
    | panic ↦ sha (codes "absent-dep-tree")
  ]

  unfoldable pub file_digest : (label : List ℕ) → (path : Text) → Sha256
  unfolding codes
  file_digest label path = elim (f.read path) [
    | ok bytes ↦ sha (label ++ (codes "ok:" ++ bytes))
    | err kind ↦ sha (label ++ codes "absent")
    | panic ↦ sha (label ++ codes "absent")
  ]

  unfoldable pub workspace_digests : List Text → List Sha256
  unfolding file_digest codes
  workspace_digests [] = []
  workspace_digests (ws ∷ roots) =
      file_digest (codes "ws-manifest:") (f.join ws (codes "Cargo.toml"))
      ∷ file_digest (codes "ws-lock:") (f.join ws (codes "Cargo.lock"))
      ∷ workspace_digests roots

  -- The digests that a closure adds to the one of the root.
  unfoldable pub ingredients : Closure → List Sha256
  unfolding tree_digest_or_marker workspace_digests
  ingredients cl = map tree_digest_or_marker cl.dep_trees ++ workspace_digests cl.workspace_roots

unfoldable pub sha_le : Sha256 → Sha256 → Bool
unfolding text_le
sha_le a b = text_le a.bytes b.bytes

-- The ingredients, in the order of a `BTreeSet`.
unfoldable pub ingredient_bytes : List Sha256 → List ℕ
unfolding codes
ingredient_bytes [] = []
ingredient_bytes (d ∷ ds) = codes ":in:" ++ (d.bytes ++ ingredient_bytes ds)

-- What is hashed for a root, by the digest of its tree and, where it resolves, the ingredients.
unfoldable pub closure_bytes : (root : Sha256) → Option (List Sha256) → List ℕ
unfolding ingredient_bytes sha_le sort_by distinct codes
closure_bytes root none = codes "closure:v1:" ++ (codes "unresolved:" ++ root.bytes)
closure_bytes root (some ds) =
    codes "closure:v1:"
    ++ (codes "resolved:root:" ++ (root.bytes ++ ingredient_bytes (sort_by sha_le (distinct ds))))

-- `source_closure_digest`, with the closure that was computed.
unfoldable pub source_closure_digest :
    (sha : List ℕ → Sha256)
    → (utf8 : Text → List ℕ) → Files
    → Option Closure
    → (root : Text) → Result BuildError Sha256
unfolding tree_digest ingredients closure_bytes
source_closure_digest sha utf8 f closure root = do
  digest ← tree_digest sha utf8 f root
  ok (
      sha (
        closure_bytes digest
          (elim closure [ none ↦ none | some cl ↦ some (ingredients sha utf8 f cl) ])))

-- `platform_tag`.
unfoldable pub platform_tag : (arch os : Text) → List ℕ
unfolding codes
platform_tag arch os = codes ":arch:" ++ (arch ++ (codes ":os:" ++ os))
