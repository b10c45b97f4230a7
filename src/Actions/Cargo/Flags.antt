-- ===== src/Actions/Cargo/Flags.antt =====
-- The flags among the arguments of `cargo install`.
use repolith.Prelude.{
  ◌≡◌, refl, ap, true, false, Option, none, some, List, [], ◌∷◌, ◌++◌, All, keep, is_empty,
  if◌then◌else◌, Bool-cases, inl, inr,
}
use repolith.Prelude.Texts.{Text, codes, starts_with_dash}
use repolith.Factory.{CargoSource, path, git}
use repolith.Manifest.Checks.Laws.{IsNoFlag, dash_iff}
use repolith.Manifest.Actions.Laws.{AllSome, IsListItem, IsPackage, IsProfile}
use repolith.Actions.Cargo.{
  CargoInstall, option_args, positional, source_args, join_commas, feature_args, cargo_args,
  resolved_crate_name,
}

-- The arguments that begin with a dash.
abbrev pub flags : List Text → List Text
flags args = keep starts_with_dash args

abbrev flag_of : (flag : Text) → Option Text → List Text
flag_of flag none = []
flag_of flag (some value) = flag ∷ []

abbrev source_flags : CargoSource → List Text
source_flags (git url branch) = codes "--git" ∷ flag_of (codes "--branch") branch
source_flags (path p) = codes "--path" ∷ []

-- The flags that the action means to pass.
abbrev pub meant_flags : CargoInstall → List Text
meant_flags a =
    source_flags a.source
    ++ (codes "--bin"
        ∷ (flag_of (codes "--profile") a.profile
            ++ ((if is_empty a.features then [] else codes "--features" ∷ [])
                ++ (codes "--locked" ∷ codes "--force" ∷ codes "--root" ∷ []))))

-- The texts that name the source.
abbrev pub IsPlainSource : CargoSource → Type 0
IsPlainSource (git url branch) = IsNoFlag url × AllSome IsNoFlag branch
IsPlainSource (path p) = IsNoFlag p

flags-append : (xs ys : List Text) → flags (xs ++ ys) ≡ flags xs ++ flags ys
unfolding keep
flags-append [] ys = refl
flags-append (x ∷ xs) ys = elim (Bool-cases (starts_with_dash x)) [
  | inl t ↦ rw t (ap (λ r. x ∷ r) (flags-append xs ys))
  | inr f ↦ rw f (flags-append xs ys)
]

plain : (s : Text) → IsNoFlag s → starts_with_dash s ≡ false
plain s h = (dash_iff s).1 h

option_args-flags :
    (flag : Text) (value : Option Text)
    → starts_with_dash flag ≡ true
    → AllSome IsNoFlag value
    → flags (option_args flag value) ≡ flag_of flag value
unfolding keep
option_args-flags flag none d h = refl
option_args-flags flag (some s) d h = rw (d, plain s h) refl

positional-flags : (value : Option Text) → AllSome IsNoFlag value → flags (positional value) ≡ []
unfolding keep
positional-flags none h = refl
positional-flags (some s) h = rw (plain s h) refl

source_args-flags :
    (source : CargoSource) → IsPlainSource source → flags (source_args source) ≡ source_flags source
unfolding source_args keep starts_with_dash codes
source_args-flags (git url branch) (u, b) =
    rw (plain url u)
      (ap (λ r. codes "--git" ∷ r) (option_args-flags (codes "--branch") branch refl b))
source_args-flags (path p) h = rw (plain p h) refl

-- A first feature that is no flag makes a list that is none.
join_commas-plain :
    (features : List Text)
    → All IsListItem features
    → starts_with_dash (join_commas features) ≡ false
unfolding join_commas starts_with_dash
join_commas-plain [] h = refl
join_commas-plain (f ∷ []) h = plain f h.0.0
join_commas-plain ([] ∷ g ∷ fs) h = refl
join_commas-plain ((c ∷ f) ∷ g ∷ fs) h = plain (c ∷ f) h.0.0

feature_args-flags :
    (features : List Text)
    → All IsListItem features
    → flags (feature_args features) ≡ (if is_empty features then [] else codes "--features" ∷ [])
unfolding feature_args keep codes starts_with_dash
feature_args-flags [] h = refl
feature_args-flags (f ∷ fs) h = rw (join_commas-plain (f ∷ fs) h) refl

package-plain : (value : Option Text) → AllSome IsPackage value → AllSome IsNoFlag value
package-plain none h = tt
package-plain (some s) h = h.0

profile-plain : (value : Option Text) → AllSome IsProfile value → AllSome IsNoFlag value
profile-plain none h = tt
profile-plain (some s) h = h.0

-- The arguments after the source and the package.
abbrev rest_args : CargoInstall → (root : Text) → List Text
rest_args a root =
    codes "--bin"
    ∷ resolved_crate_name a
    ∷ (option_args (codes "--profile") a.profile
        ++ (feature_args a.features
            ++ (codes "--locked" ∷ codes "--force" ∷ codes "--root" ∷ root ∷ [])))

rest-flags :
    (a : CargoInstall) (root : Text)
    → AllSome IsProfile a.profile
    → All IsListItem a.features
    → IsNoFlag (resolved_crate_name a)
    → IsNoFlag root
    → flags (rest_args a root)
      ≡ codes "--bin"
        ∷ (flag_of (codes "--profile") a.profile
            ++ ((if is_empty a.features then [] else codes "--features" ∷ [])
                ++ (codes "--locked" ∷ codes "--force" ∷ codes "--root" ∷ [])))
unfolding keep codes starts_with_dash
rest-flags a root p f c r =
    rw
      (
        plain (resolved_crate_name a) c,
        flags-append (option_args (codes "--profile") a.profile) (
            feature_args a.features
            ++ (codes "--locked" ∷ codes "--force" ∷ codes "--root" ∷ root ∷ [])),
        option_args-flags (codes "--profile") a.profile refl (profile-plain a.profile p),
        flags-append (feature_args a.features)
            (codes "--locked" ∷ codes "--force" ∷ codes "--root" ∷ root ∷ []),
        feature_args-flags a.features f,
        plain root r,
      )
      refl

pub args-flags :
    (a : CargoInstall) (root : Text)
    → AllSome IsPackage a.package_name
    → AllSome IsProfile a.profile
    → All IsListItem a.features
    → IsPlainSource a.source
    → IsNoFlag (resolved_crate_name a)
    → IsNoFlag root
    → flags (cargo_args a root) ≡ meant_flags a
unfolding cargo_args keep codes starts_with_dash
args-flags a root g p f s c r =
    rw
      (
        flags-append (source_args a.source) (positional a.package_name ++ rest_args a root),
        source_args-flags a.source s,
        flags-append (positional a.package_name) (rest_args a root),
        positional-flags a.package_name (package-plain a.package_name g),
        rest-flags a root p f c r,
      )
      refl
