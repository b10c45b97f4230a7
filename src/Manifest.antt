-- ===== src/Manifest.antt =====
-- The manifest: crates/repolith-core/src/manifest.rs. Paths are their texts, as on Unix; the `toml`,
-- `semver` and `url` crates are arguments of the functions that call them.
pub mod Checks
pub mod Actions
pub mod Validate
pub mod ActionIds
use repolith.Prelude.{Bool, Option, List, Result}
use repolith.Prelude.Texts.{Text}

pub record OrchestratorMeta : Type 0 where
  pub schema_version : Text
  pub name : Text

-- The variants of the tag `kind`; `Repolith` is `repolith_stack`, and `package` is `package_name`.
pub data ActionEntry : Type 0 where
  git_clone : ActionEntry
  cargo_install :
      (crate_name package_name profile : Option Text) (features : List Text)
      (install_to : Option Text)
      → ActionEntry
  docker : (tag : Text) (dockerfile context : Option Text) → ActionEntry
  repolith_stack : (manifest : Option Text) → ActionEntry

pub record NodeEntry : Type 0 where
  pub id : Text
  pub git : Option Text
  pub path : Option Text
  pub actions : List ActionEntry

pub record Manifest : Type 0 where
  pub orchestrator : OrchestratorMeta
  pub nodes : List NodeEntry

pub data ManifestError : Type 0 where
  toml : Text → ManifestError
  schema_mismatch : (got : Text) → ManifestError
  duplicate_node_id : Text → ManifestError
  node_missing_source : Text → ManifestError
  invalid_url : (node reason : Text) → ManifestError
  invalid_arg : (node reason : Text) → ManifestError

-- The parts of a parsed URL that the validator reads: `url::Url`.
pub record ParsedUrl : Type 0 where
  pub username : Text
  pub host_str : Option Text
  pub path_segments : Option (List Text)

-- `url::Url::parse`.
abbrev pub UrlParser : Type 0
UrlParser = Text → Result Text ParsedUrl

-- The `semver` crate: versions, requirements, and `VersionReq::matches`.
pub record Semver (Version VersionReq : Type 0) : Type 0 where
  pub parse_req : Text → Option VersionReq
  pub parse : Text → Option Version
  pub is_match : VersionReq → Version → Bool
