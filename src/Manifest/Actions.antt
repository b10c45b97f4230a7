-- ===== src/Manifest/Actions.antt =====
-- The checks of an action's fields (crates/repolith-core/src/manifest.rs).
pub mod Laws
use repolith.Prelude.{
  ℕ, Bool, true, false, not, ◌&&◌, ◌||◌, Option, none, some, List, [], ◌∷◌, ◌++◌, Result, ok, err,
  panic, ◌>>=◌, ◌>>◌, for_each, find, is_empty, ◌==◌, nat_eq, contains,
}
use repolith.Prelude.Texts.{Text, codes, starts_with_dash, is_ascii_alphanumeric}
use repolith.Manifest.{
  ManifestError, invalid_arg, NodeEntry, ActionEntry, git_clone, cargo_install, docker,
  repolith_stack,
}
use repolith.Manifest.Checks.{
  Check, reject_if, reject_char, quoted, check_no_leading_dash, check_contained_path,
}

unfoldable pub is_tag_char : ℕ → Bool
unfolding is_ascii_alphanumeric
is_tag_char c =
    is_ascii_alphanumeric c || (c == b'.' || (c == b'_' || (c == b':' || (c == b'/' || c == b'-'))))

charset_reason : (field value : Text) → ℕ → Text → Text
unfolding quoted codes
charset_reason field value c charset =
    quoted field
    ++ (codes " "
        ++ (quoted value
            ++ (codes " contains "
                ++ (quoted (c ∷ []) ++ (codes " — allowed charset is " ++ charset)))))

unfoldable pub check_docker_tag : (tag node : Text) → Check
unfolding reject_char starts_with_dash is_tag_char charset_reason codes quoted
check_docker_tag tag node = do
  reject_if (is_empty tag) (invalid_arg node (codes "`tag` is empty"))
  reject_if (starts_with_dash tag) (
      invalid_arg node
        (codes "`tag` " ++ (quoted tag ++ codes " starts with `-`, would be parsed as a CLI flag")))
  reject_char (λ c. not (is_tag_char c))
      (λ c. invalid_arg node (charset_reason (codes "tag") tag c (codes "[a-zA-Z0-9._:/-]"))) tag

-- `if let Some(value) = field { body }`.
abbrev pub check_some : (Text → Check) → Option Text → Check
check_some body none = ok tt
check_some body (some value) = body value

comma_reason : (field value : Text) → Text
unfolding quoted codes
comma_reason field value =
    field
    ++ (codes " "
        ++ (quoted value ++ codes " contains `,` which would split cargo's --features list"))

unfoldable pub check_crate_name : (node name : Text) → Check
unfolding check_no_leading_dash contains comma_reason codes
check_crate_name node name = do
  check_no_leading_dash name node (codes "crate")
  reject_if (contains name b',') (invalid_arg node (comma_reason (codes "`crate` name") name))

unfoldable pub check_package : (node name : Text) → Check
unfolding check_no_leading_dash contains quoted codes
check_package node name = do
  check_no_leading_dash name node (codes "package")
  reject_if (is_empty name) (invalid_arg node (codes "`package` is empty"))
  reject_if (contains name b'@') (
      invalid_arg node (
        codes "`package` "
        ++ (quoted name
            ++ codes " contains `@`, which cargo parses as a version spec (`CRATE@VER`)")))

unfoldable pub is_profile_char : ℕ → Bool
unfolding is_ascii_alphanumeric
is_profile_char c = is_ascii_alphanumeric c || (c == b'_' || c == b'-')

unfoldable pub check_profile : (node name : Text) → Check
unfolding check_no_leading_dash reject_char is_profile_char charset_reason codes
check_profile node name = do
  check_no_leading_dash name node (codes "profile")
  reject_if (is_empty name) (invalid_arg node (codes "`profile` is empty"))
  reject_char (λ c. not (is_profile_char c))
      (λ c. invalid_arg node (charset_reason (codes "profile") name c (codes "[a-zA-Z0-9_-]"))) name

unfoldable pub check_feature : (node feature : Text) → Check
unfolding check_no_leading_dash contains comma_reason codes
check_feature node feature = do
  check_no_leading_dash feature node (codes "features entry")
  reject_if (contains feature b',') (invalid_arg node (comma_reason (codes "feature") feature))

unfoldable pub check_cargo_install :
    (node : NodeEntry) (crate_name package_name profile : Option Text) (features : List Text)
    → Check
unfolding check_crate_name check_package check_profile check_feature for_each
check_cargo_install node crate_name package_name profile features = do
  check_some (check_crate_name node.id) crate_name
  check_some (check_package node.id) package_name
  check_some (check_profile node.id) profile
  for_each (check_feature node.id) features

-- `if node.path.is_none() { return Err(...); }`.
unfoldable pub require_path : (node : NodeEntry) (reason : Text) → Check
require_path node reason = elim node.path [
  | none ↦ err (invalid_arg node.id reason)
  | some path ↦ ok tt
]

unfoldable pub check_action : NodeEntry → ActionEntry → Check
unfolding check_cargo_install check_docker_tag check_contained_path require_path codes
check_action node (cargo_install crate_name package_name profile features install_to) =
    check_cargo_install node crate_name package_name profile features
check_action node (docker tag dockerfile context) = do
  check_docker_tag tag node.id
  check_some (λ df. check_contained_path df node.id (codes "dockerfile")) dockerfile
  check_some (λ ctx. check_contained_path ctx node.id (codes "context")) context
  require_path node (codes "docker action requires `path` on the node (build context base)")
check_action node (repolith_stack manifest) = do
  check_some (λ m. check_contained_path m node.id (codes "manifest")) manifest
  require_path node (codes "repolith action requires `path` on the node (child stack root)")
check_action node git_clone = ok tt
