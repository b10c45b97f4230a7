-- ===== src/Federation.antt =====
-- The guards of federation: `resolved_manifest` of crates/repolith-engine/src/federation.rs, and
-- `contain_within` of crates/repolith-core/src/paths.rs. The file system is an argument.
pub mod Guards
use repolith.Prelude.{
  ℕ, suc, ◌+◌, ◌≡◌, Bool, true, false, not, Option, none, some, List, [], ◌∷◌, ◌++◌, Result, ok,
  err, panic, ◌>>=◌, ◌>>◌, map_err, length, ◌==◌, list_eq, nat_eq, leb, if◌then◌else◌, contains,
}
use repolith.Prelude.Texts.{Text, codes, decimal}
use repolith.Types.{BuildError, io}

-- `Path::canonicalize` with its error's text, `Path::join`, and `Path::starts_with`.
pub record Files : Type 0 where
  pub canonicalize : Text → Result Text Text
  pub join : Text → Text → Text
  pub starts_with : Text → Text → Bool

abbrev pub max_federation_depth : ℕ
max_federation_depth = 8

-- `if test { return Err(e); }`.
abbrev pub fail_if : Bool → Text → Result BuildError (Unit {0})
fail_if true reason = err (io reason)
fail_if false reason = ok tt

unfoldable pub contain_within : Files → (base relative : Text) → Result BuildError Text
unfolding codes
contain_within files base relative = do
  base_canon ←
      map_err (λ e. io (codes "canonicalize base " ++ (base ++ (codes ": " ++ e))))
        (files.canonicalize base)
  let joined = files.join base_canon relative
  canon ←
      map_err (λ e. io (codes "canonicalize " ++ (joined ++ (codes ": " ++ e))))
        (files.canonicalize joined)
  fail_if (not (files.starts_with canon base_canon)) (
      codes "path "
      ++ (canon
          ++ (codes " escapes the node checkout "
              ++ (base_canon ++ codes " (symlink traversal?)"))))
  ok canon

-- `join(" -> ")`.
unfoldable pub arrows : List Text → Text
unfolding codes
arrows [] = []
arrows (p ∷ []) = p
arrows (p ∷ q ∷ ps) = p ++ (codes " -> " ++ arrows (q ∷ ps))

-- The chain from the first place of a path on.
unfoldable pub since : Text → List Text → List Text
since m [] = []
since m (p ∷ chain) = if p == m then p ∷ chain else since m chain

unfoldable pub default_manifest : Option Text → Text
unfolding codes
default_manifest none = codes "repolith.toml"
default_manifest (some rel) = rel

unfoldable pub resolved_manifest :
    Files
    → (chain : List Text) → (node_path : Text) → (manifest_rel : Option Text)
    → Result BuildError Text
unfolding contain_within arrows since default_manifest decimal contains codes
resolved_manifest files chain node_path manifest_rel = do
  manifest ← contain_within files node_path (default_manifest manifest_rel)
  fail_if (contains chain manifest)
      (codes "federation cycle: " ++ arrows (since manifest chain ++ manifest ∷ []))
  fail_if (leb max_federation_depth (length chain)) (
      codes "federation depth "
      ++ (decimal (length chain + 1)
          ++ (codes " exceeds the maximum of "
              ++ (decimal max_federation_depth
                  ++ (codes " (chain: " ++ (arrows chain ++ codes ")"))))))
  ok manifest

-- A child stack below a parent: `execute` pushes the child's manifest to the chain that its own
-- federation actions are built with.
pub data Descent (files : Files) : List Text → List Text → Type 0 where
  here : {chain : List Text} → Descent files chain chain
  down :
      {root chain : List Text} (node_path : Text) (manifest_rel : Option Text) (manifest : Text)
      → Descent files root chain
      → resolved_manifest files chain node_path manifest_rel ≡ ok manifest
      → Descent files root (chain ++ manifest ∷ [])
