-- ===== src/Actions/Cargo.antt =====
-- `CargoInstall` (crates/repolith-actions/src/cargo_install.rs). `utf8` gives the bytes of a text.
pub mod Flags
pub mod Checked
use repolith.Prelude.{
  ℕ, suc, Bool, true, false, Option, none, some, List, [], ◌∷◌, ◌++◌, Result, ok, err, panic, ◌==◌,
  nat_eq, ◌&&◌, is_empty, if◌then◌else◌, map_err,
}
use repolith.Prelude.Texts.{Text, codes}
use repolith.Types.{ActionId, Sha256, BuildError, BuildOutput, io, upstream_unreachable}
use repolith.Factory.{Paths, CargoSource, path, git, expand_tilde}
use repolith.Sources.{Output}
use repolith.Sources.Digest.{platform_tag}
use repolith.Actions.{Machine, Step, then_step, done, run_checked}

pub record CargoInstall : Type 0 where
  pub id : ActionId
  pub source : CargoSource
  pub crate_name : Option Text
  pub package_name : Option Text
  pub profile : Option Text
  pub features : List Text
  pub install_to : Text

after_colon : Text → Option Text
after_colon [] = none
after_colon (c ∷ s) = if c == b':' then some s else none

-- What stands after the last `::`.
unfoldable pub last_segment : Text → Option Text
unfolding after_colon
last_segment [] = none
last_segment (c ∷ s) = elim (last_segment s) [
  | some rest ↦ some rest
  | none ↦ if c == b':' then after_colon s else none
]

unfoldable pub resolved_crate_name : CargoInstall → Text
unfolding last_segment
resolved_crate_name a = elim a.crate_name [
  | some name ↦ name
  | none ↦ elim (last_segment a.id.name) [ some segment ↦ segment | none ↦ a.id.name ]
]

abbrev pub option_args : (flag : Text) → Option Text → List Text
option_args flag none = []
option_args flag (some value) = flag ∷ value ∷ []

abbrev pub positional : Option Text → List Text
positional none = []
positional (some value) = value ∷ []

unfoldable pub source_args : CargoSource → List Text
unfolding codes
source_args (git url branch) = codes "--git" ∷ url ∷ option_args (codes "--branch") branch
source_args (path p) = codes "--path" ∷ p ∷ []

-- `features.join(",")`.
unfoldable pub join_commas : List Text → Text
join_commas [] = []
join_commas (f ∷ []) = f
join_commas (f ∷ g ∷ fs) = f ++ b',' ∷ join_commas (g ∷ fs)

unfoldable pub feature_args : List Text → List Text
unfolding join_commas codes
feature_args features =
    if is_empty features then [] else codes "--features" ∷ join_commas features ∷ []

-- The argument vector of `cargo install`, after the program's name.
unfoldable pub cargo_args : CargoInstall → (install_to : Text) → List Text
unfolding source_args resolved_crate_name feature_args codes
cargo_args a install_to =
    codes "install"
    ∷ (source_args a.source
        ++ (positional a.package_name
            ++ (codes "--bin"
                ∷ resolved_crate_name a
                ∷ (option_args (codes "--profile") a.profile
                    ++ (feature_args a.features
                        ++ (codes "--locked"
                            ∷ codes "--force"
                            ∷ codes "--root"
                            ∷ install_to
                            ∷ []))))))

abbrev or_empty : Option Text → Text
or_empty none = []
or_empty (some s) = s

unfoldable pub feature_bytes : (utf8 : Text → List ℕ) → List Text → List ℕ
unfolding codes
feature_bytes utf8 [] = []
feature_bytes utf8 (f ∷ fs) = codes ":feat:" ++ (utf8 f ++ feature_bytes utf8 fs)

module _ {W : Type 0} (m : Machine W) (paths : Paths) (exe_suffix : Text) where
  unfoldable pub installed_bin : CargoInstall → Text
  unfolding resolved_crate_name expand_tilde codes
  installed_bin a =
      m.join (m.join (expand_tilde paths a.install_to) (codes "bin"))
        (resolved_crate_name a ++ exe_suffix)

  unfoldable pub output_present : CargoInstall → W → Bool
  unfolding installed_bin
  output_present a w = m.is_file w (installed_bin a)

  -- What stands in the hash for the source; `closure` is `source_closure_digest`.
  unfoldable pub source_bytes :
      (utf8 : Text → List ℕ) → (closure : Text → Step W Sha256) → CargoSource → Step W (List ℕ)
  unfolding expand_tilde then_step done codes
  source_bytes utf8 closure (git url branch) =
      done (ok (codes "git:" ++ (utf8 url ++ (codes ":" ++ utf8 (or_empty branch)))))
  source_bytes utf8 closure (path p) = λ w.
      let expanded = expand_tilde paths p in
      if m.exists w expanded
      then then_step (closure expanded) (λ digest. done (ok (codes "path:" ++ digest.bytes))) w
      else (ok (codes "path:" ++ codes "pre-clone"), w)

  -- The bytes that are hashed, before those of `cargo --version`.
  unfoldable pub input_bytes :
      (utf8 : Text → List ℕ) → (arch os : Text) → CargoInstall → List ℕ → List ℕ
  unfolding platform_tag feature_bytes resolved_crate_name codes
  input_bytes utf8 arch os a source =
      source
      ++ (platform_tag arch os
          ++ (feature_bytes utf8 a.features
              ++ (codes ":crate:"
                  ++ (utf8 (resolved_crate_name a)
                      ++ (codes ":pkg:"
                          ++ (utf8 (or_empty a.package_name)
                              ++ (codes ":profile:" ++ utf8 (or_empty a.profile))))))))

  unfoldable pub input_hash :
      (sha : List ℕ → Sha256)
      → (utf8 : Text → List ℕ) → (arch os : Text) → (closure : Text → Step W Sha256) → CargoInstall
      → Step W Sha256
  unfolding source_bytes input_bytes then_step done codes
  input_hash sha utf8 arch os closure a = then_step (source_bytes utf8 closure a.source) λ source.
      then_step (m.run (codes "cargo" ∷ codes "--version" ∷ [])) λ v. done (
        if v.success
        then ok (sha (input_bytes utf8 arch os a source ++ (codes ":cargo:" ++ v.stdout)))
        else err (upstream_unreachable (codes "cargo --version failed")))

  abbrev read_bin : CargoInstall → W → Result BuildError (List ℕ)
  read_bin a w =
      map_err (λ e. io (codes "read installed binary " ++ (installed_bin a ++ (codes ": " ++ e))))
        (m.read w (installed_bin a))

  unfoldable pub execute : (sha : List ℕ → Sha256) → CargoInstall → Step W BuildOutput
  unfolding cargo_args run_checked installed_bin expand_tilde then_step done codes
  execute sha a =
      then_step (run_checked m (codes "cargo" ∷ cargo_args a (expand_tilde paths a.install_to)))
        λ u.
          then_step (λ w. (read_bin a w, w))
            λ bytes. done (
              ok (record {
                output_hash = sha bytes;
                stdout = codes "installed -> " ++ installed_bin a;
              }))
