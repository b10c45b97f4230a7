-- ===== src/Manifest/Actions/Laws.antt =====
-- What the checks of an action accept, without the order and the messages of the checks.
use repolith.Prelude.{
  ℕ, ◌≤◌, ◌≡◌, ◌≢◌, ◌↔◌, ◌⊎◌, refl, false, not, Option, none, some, [], ◌∷◌, All, ok, nat_eq,
  contains, arith,
}
use repolith.Prelude.Texts.{Text, codes, is_ascii_alphanumeric}
use repolith.Manifest.{NodeEntry, ActionEntry, git_clone, cargo_install, docker, repolith_stack}
use repolith.Manifest.Checks.{Check, check_contained_path}
use repolith.Manifest.Checks.Laws.{
  then_iff, iff_trans, All-iff, for_each_iff, reject_if_iff, reject_char_iff, reject_empty_iff,
  reject_dash_iff, check_no_leading_dash_iff, check_contained_path_iff, IsNoFlag, IsContained,
}
use repolith.Manifest.Actions.{
  is_tag_char, check_docker_tag, check_some, check_crate_name, check_package, is_profile_char,
  check_profile, check_feature, check_cargo_install, require_path, check_action,
}

-- ASCII letters and digits.
abbrev pub IsAlphanumeric : ℕ → Type 0
IsAlphanumeric c = ((b'0' ≤ c) × (c ≤ b'9')) ⊎ ((b'A' ≤ c) × (c ≤ b'Z')) ⊎ ((b'a' ≤ c) × (c ≤ b'z'))

abbrev pub IsTagChar : ℕ → Type 0
IsTagChar c = IsAlphanumeric c ⊎ (c ≡ b'.') ⊎ (c ≡ b'_') ⊎ (c ≡ b':') ⊎ (c ≡ b'/') ⊎ (c ≡ b'-')

abbrev pub IsProfileChar : ℕ → Type 0
IsProfileChar c = IsAlphanumeric c ⊎ (c ≡ b'_') ⊎ (c ≡ b'-')

IsTagChar-iff : (c : ℕ) → (not (is_tag_char c) ≡ false) ↔ IsTagChar c
unfolding is_tag_char is_ascii_alphanumeric
IsTagChar-iff c = (λ h. ground arith, λ h. ground arith)

IsProfileChar-iff : (c : ℕ) → (not (is_profile_char c) ≡ false) ↔ IsProfileChar c
unfolding is_profile_char is_ascii_alphanumeric
IsProfileChar-iff c = (λ h. ground arith, λ h. ground arith)

contains_iff : (s : Text) (c : ℕ) → (contains s c ≡ false) ↔ All (λ d. d ≢ c) s
unfolding contains
contains_iff [] c = (λ h. tt, λ h. refl)
contains_iff (d ∷ s) c = (
  λ h. ((λ eq. ground arith), (contains_iff s c).0 (ground arith)),
  λ h. ground (arith, (contains_iff s c).1 h.1),
)

abbrev pub AllSome : (Text → Type 0) → Option Text → Type 0
AllSome P none = Unit
AllSome P (some s) = P s

pub check_some_iff :
    {P : Text → Type 0} (body : Text → Check) (field : Option Text)
    → ((s : Text) → (body s ≡ ok tt) ↔ P s)
    → (check_some body field ≡ ok tt) ↔ AllSome P field
check_some_iff body none f = (λ h. tt, λ h. refl)
check_some_iff body (some s) f = f s

-- A crate name or a feature: no flag, and no comma in it.
abbrev pub IsListItem : Text → Type 0
IsListItem s = IsNoFlag s × All (λ c. c ≢ b',') s

abbrev pub IsPackage : Text → Type 0
IsPackage s = IsNoFlag s × ((s ≢ []) × All (λ c. c ≢ b'@') s)

abbrev pub IsProfile : Text → Type 0
IsProfile s = IsNoFlag s × ((s ≢ []) × All IsProfileChar s)

abbrev pub IsTag : Text → Type 0
IsTag s = (s ≢ []) × (IsNoFlag s × All IsTagChar s)

abbrev pub IsSome : Option Text → Type 0
IsSome path = path ≢ none

-- What a node's action needs.
abbrev pub IsSafeAction : NodeEntry → ActionEntry → Type 0
IsSafeAction node git_clone = Unit
IsSafeAction node (cargo_install crate_name package_name profile features install_to) =
    AllSome IsListItem crate_name
    × (AllSome IsPackage package_name × (AllSome IsProfile profile × All IsListItem features))
IsSafeAction node (docker tag dockerfile context) =
    IsTag tag × (AllSome IsContained dockerfile × (AllSome IsContained context × IsSome node.path))
IsSafeAction node (repolith_stack manifest) = AllSome IsContained manifest × IsSome node.path

IsTag-iff : (tag node : Text) → (check_docker_tag tag node ≡ ok tt) ↔ IsTag tag
unfolding check_docker_tag
IsTag-iff tag node = then_iff _ _ (reject_empty_iff tag _) (
    then_iff _ _ (reject_dash_iff tag _)
      (iff_trans (reject_char_iff (λ c. not (is_tag_char c)) _ tag) (All-iff tag IsTagChar-iff)))

crate_name_iff : (node s : Text) → (check_crate_name node s ≡ ok tt) ↔ IsListItem s
unfolding check_crate_name
crate_name_iff node s =
    then_iff _ _ (check_no_leading_dash_iff s node (codes "crate"))
      (iff_trans (reject_if_iff (contains s b',') _) (contains_iff s b','))

feature_iff : (node s : Text) → (check_feature node s ≡ ok tt) ↔ IsListItem s
unfolding check_feature
feature_iff node s =
    then_iff _ _ (check_no_leading_dash_iff s node (codes "features entry"))
      (iff_trans (reject_if_iff (contains s b',') _) (contains_iff s b','))

IsPackage-iff : (node s : Text) → (check_package node s ≡ ok tt) ↔ IsPackage s
unfolding check_package
IsPackage-iff node s = then_iff _ _ (check_no_leading_dash_iff s node (codes "package")) (
    then_iff _ _ (reject_empty_iff s _)
      (iff_trans (reject_if_iff (contains s b'@') _) (contains_iff s b'@')))

IsProfile-iff : (node s : Text) → (check_profile node s ≡ ok tt) ↔ IsProfile s
unfolding check_profile
IsProfile-iff node s = then_iff _ _ (check_no_leading_dash_iff s node (codes "profile")) (
    then_iff _ _ (reject_empty_iff s _) (
      iff_trans (reject_char_iff (λ c. not (is_profile_char c)) _ s) (All-iff s IsProfileChar-iff)))

require_path_iff :
    (node : NodeEntry) (reason : Text) → (require_path node reason ≡ ok tt) ↔ IsSome node.path
unfolding require_path
require_path_iff node reason = (λ h. λ eq. ground arith, λ h. ground arith)

IsContained-iff :
    (node : NodeEntry) (field : Text) (path : Option Text)
    → (check_some (λ p. check_contained_path p node.id field) path ≡ ok tt)
      ↔ AllSome IsContained path
IsContained-iff node field path =
    check_some_iff _ path λ p. check_contained_path_iff p node.id field

-- An action passes exactly when its fields are safe arguments and its node has the checkout it needs.
pub check_action_iff :
    (node : NodeEntry) (a : ActionEntry) → (check_action node a ≡ ok tt) ↔ IsSafeAction node a
unfolding check_action check_cargo_install
check_action_iff node git_clone = (λ h. tt, λ h. refl)
check_action_iff node (cargo_install crate_name package_name profile features install_to) =
    then_iff _ _ (check_some_iff _ crate_name (crate_name_iff node.id)) (
      then_iff _ _ (check_some_iff _ package_name (IsPackage-iff node.id)) (
        then_iff _ _ (check_some_iff _ profile (IsProfile-iff node.id))
          (for_each_iff _ features (feature_iff node.id))))
check_action_iff node (docker tag dockerfile context) = then_iff _ _ (IsTag-iff tag node.id) (
    then_iff _ _ (IsContained-iff node (codes "dockerfile") dockerfile) (
      then_iff _ _ (IsContained-iff node (codes "context") context) (
        require_path_iff node
          (codes "docker action requires `path` on the node (build context base)"))))
check_action_iff node (repolith_stack manifest) =
    then_iff _ _ (IsContained-iff node (codes "manifest") manifest) (
      require_path_iff node
        (codes "repolith action requires `path` on the node (child stack root)"))
