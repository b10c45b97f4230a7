-- ===== src/Manifest/Validate.antt =====
-- `Manifest::from_toml` and `Manifest::validate` (crates/repolith-core/src/manifest.rs).
pub mod Laws
use repolith.Prelude.{
  ℕ, Bool, true, false, not, ◌&&◌, ◌||◌, Option, none, some, List, [], ◌∷◌, ◌++◌, Result, ok, err,
  panic, ◌>>=◌, ◌>>◌, for_each, map_err, ◌==◌, list_eq, nat_eq, contains,
}
use repolith.Prelude.Texts.{Text, codes}
use repolith.Manifest.{
  OrchestratorMeta, Manifest, ManifestError, toml, schema_mismatch, duplicate_node_id,
  node_missing_source, NodeEntry, Semver, UrlParser,
}
use repolith.Manifest.Checks.{Check, reject_if, check_node_id_safe, check_url}
use repolith.Manifest.Actions.{check_some, check_action}

-- `option.ok_or(e)?`, for a parse that fails with `e`.
abbrev or_err : {A : Type 0} → ManifestError → Option A → Result ManifestError A
or_err e none = err e
or_err e (some a) = ok a

abbrev or_panic : {A : Type 0} → Option A → Result ManifestError A
or_panic none = panic
or_panic (some a) = ok a

module _ {Version VersionReq : Type 0} (semver : Semver Version VersionReq) where
  unfoldable pub check_schema : OrchestratorMeta → Check
  unfolding codes
  check_schema orchestrator = do
    req ← or_panic (semver.parse_req (codes "~0.1"))
    v ←
        or_err (schema_mismatch orchestrator.schema_version)
          (semver.parse (orchestrator.schema_version ++ codes ".0"))
    reject_if (not (semver.is_match req v)) (schema_mismatch orchestrator.schema_version)

abbrev has_no_source : NodeEntry → Bool
has_no_source n = elim n.git [
  | some url ↦ false
  | none ↦ elim n.path [ some path ↦ false | none ↦ true ]
]

-- The body of the loop over nodes, after the node's id is inserted in `seen`.
unfoldable pub check_node : UrlParser → NodeEntry → Check
unfolding check_url for_each check_action
check_node parse_url n = do
  reject_if (has_no_source n) (node_missing_source n.id)
  check_some (λ url. check_url parse_url url n.id) n.git
  for_each (check_action n) n.actions

-- The loop over nodes, with the set `seen` of the ids before.
unfoldable pub validate_nodes : UrlParser → (seen : List Text) → List NodeEntry → Check
unfolding check_node_id_safe check_node contains
validate_nodes parse_url seen [] = ok tt
validate_nodes parse_url seen (n ∷ nodes) = do
  check_node_id_safe n.id
  reject_if (contains seen n.id) (duplicate_node_id n.id)
  check_node parse_url n
  validate_nodes parse_url (n.id ∷ seen) nodes

module _ {Version VersionReq : Type 0} (semver : Semver Version VersionReq)
    (parse_url : UrlParser) where
  unfoldable pub validate : Manifest → Check
  unfolding check_schema validate_nodes
  validate m = do check_schema semver m.orchestrator; validate_nodes parse_url [] m.nodes

  -- `toml::from_str` is the argument `parse_toml`.
  unfoldable pub from_toml :
      (parse_toml : Text → Result Text Manifest) → (src : Text) → Result ManifestError Manifest
  unfolding validate
  from_toml parse_toml src = do m ← map_err toml (parse_toml src); validate m; ok m
