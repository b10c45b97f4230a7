-- ===== src/Sources.antt =====
-- What cargo says of a source tree: `run_metadata` and `parse_metadata` of
-- crates/repolith-actions/src/source_closure.rs. The subprocess, the file system and `serde_json`
-- are arguments; `J` is a JSON value.
pub mod Closure
pub mod Digest
use repolith.Prelude.{
  ℕ, Bool, true, false, Option, none, some, List, [], ◌∷◌, Result, ok, err, panic, ◌==◌, list_eq,
  nat_eq, not, ◌&&◌, if◌then◌else◌,
}
use repolith.Prelude.Texts.{Text, codes}
use repolith.Prelude.Int.{ℤ}
use repolith.Types.{BuildError}

-- `std::process::Output`, with its status as an exit code, where the process was not killed.
pub record Output : Type 0 where
  pub success : Bool
  pub code : Option ℤ
  pub stdout : List ℕ
  pub stderr : List ℕ

-- `serde_json`'s untyped values.
pub record Json (J : Type 0) : Type 0 where
  pub from_slice : List ℕ → Option J
  pub field : J → Text → Option J
  pub as_str : J → Option Text
  pub as_array : J → Option (List J)

-- An entry of a walk.
pub record Entry : Type 0 where
  pub is_file : Bool
  pub path : Text

-- The file system, and `run`, which is `run_with_cancel` on an argument vector. `walk` gives what
-- `ignore`'s walker yields with a filter on file names, `relative` the path below a root with its
-- lossy conversion, `read` the bytes of a file or the kind of the error, and `path_le` the order of
-- paths.
pub record Files : Type 0 where
  pub canonicalize : Text → Option Text
  pub parent : Text → Option Text
  pub join : Text → Text → Text
  pub exists : Text → Bool
  pub walk : (keep : Option Text → Bool) → Text → List (Result Text Entry)
  pub relative : (root path : Text) → Text
  pub read : Text → Result Text (List ℕ)
  pub path_le : Text → Text → Bool
  pub run : List Text → Result BuildError Output

pub record Meta : Type 0 where
  pub workspace_root : Text
  pub packages : List (Text × List Text)

-- `Option::and_then`.
abbrev pub and_then : {A B : Type 0} → Option A → (A → Option B) → Option B
and_then none f = none
and_then (some a) f = f a

abbrev flatten_list : {A : Type 0} → Option (List A) → List A
flatten_list none = []
flatten_list (some xs) = xs

module _ {J : Type 0} (json : Json J) where
  abbrev text_field : J → Text → Option Text
  text_field v name = and_then (json.field v name) json.as_str

  -- Only dev-dependencies are never compiled.
  unfoldable pub is_dev : J → Bool
  unfolding codes
  is_dev dep = elim (text_field dep (codes "kind")) [
    | none ↦ false
    | some kind ↦ kind == codes "dev"
  ]

  -- The path dependencies of a package that are compiled.
  unfoldable pub dep_paths : List J → List Text
  unfolding is_dev codes
  dep_paths [] = []
  dep_paths (dep ∷ deps) =
      let rest = dep_paths deps in
      if is_dev dep
      then rest
      else elim (text_field dep (codes "path")) [ none ↦ rest | some path ↦ path ∷ rest ]

  unfoldable pub packages_of : Files → List J → List (Text × List Text)
  unfolding dep_paths codes
  packages_of files [] = []
  packages_of files (p ∷ ps) =
      let rest = packages_of files ps in
      elim (and_then (text_field p (codes "manifest_path")) files.parent) [
        | none ↦ rest
        | some dir ↦
            (
              dir,
              dep_paths
                  (flatten_list (and_then (json.field p (codes "dependencies")) json.as_array)),
            )
            ∷ rest
      ]

  unfoldable pub parse_metadata : Files → List ℕ → Option Meta
  unfolding packages_of codes
  parse_metadata files bytes = and_then (json.from_slice bytes) λ v.
      and_then (text_field v (codes "workspace_root")) λ root.
        and_then (and_then (json.field v (codes "packages")) json.as_array)
          λ packages. some (record { workspace_root = root; packages = packages_of files packages })

  unfoldable pub metadata_args : Files → (dir : Text) → List Text
  unfolding codes
  metadata_args files dir =
      codes "cargo"
      ∷ codes "metadata"
      ∷ codes "--no-deps"
      ∷ codes "--format-version"
      ∷ codes "1"
      ∷ codes "--manifest-path"
      ∷ files.join dir (codes "Cargo.toml")
      ∷ []

  unfoldable pub run_metadata : Files → (dir : Text) → Option Meta
  unfolding metadata_args parse_metadata
  run_metadata files dir = elim (files.run (metadata_args files dir)) [
    | ok out ↦ if out.success then parse_metadata files out.stdout else none
    | err e ↦ none
    | panic ↦ none
  ]
