-- ===== src/Manifest/Checks.antt =====
-- The checks of single fields (crates/repolith-core/src/manifest.rs).
pub mod Laws
pub mod Urls
use repolith.Prelude.{
  ℕ, Bool, true, false, not, ◌&&◌, ◌||◌, Option, none, some, List, [], ◌∷◌, ◌++◌, Result, ok, err,
  panic, ◌>>=◌, ◌>>◌, for_each, find, any, is_empty, ◌==◌, nat_eq, list_eq, list_beq, contains,
  if◌then◌else◌,
}
use repolith.Prelude.Texts.{
  Text, codes, starts_with, starts_with_dash, strip_prefix, is_control, is_ascii_alphanumeric,
  split, split_once, unicode_escape,
}
use repolith.Manifest.{ManifestError, invalid_url, invalid_arg, ParsedUrl, UrlParser}

abbrev pub Check : Type 0
Check = Result ManifestError (Unit {0})

-- `if test { return Err(e); }`.
abbrev pub reject_if : Bool → ManifestError → Check
reject_if true e = err e
reject_if false e = ok tt

-- `if let Some(c) = s.chars().find(p) { return Err(e(c)); }`.
unfoldable pub reject_char : (ℕ → Bool) → (ℕ → ManifestError) → Text → Check
reject_char p e s = elim (find p s) [ none ↦ ok tt | some c ↦ err (e c) ]

-- A text in backquotes.
unfoldable pub quoted : Text → Text
quoted s = b'`' ∷ (s ++ b'`' ∷ [])

flag_reason : Text → Text
unfolding quoted codes
flag_reason field = quoted field ++ codes " starts with `-`, would be parsed as a CLI flag"

flag_value_reason : Text → Text → Text
unfolding quoted codes
flag_value_reason field s =
    quoted field
    ++ (codes " " ++ (quoted s ++ codes " starts with `-`, would be parsed as a CLI flag"))

unfoldable pub check_no_leading_dash : (value node field : Text) → Check
unfolding starts_with_dash flag_reason
check_no_leading_dash value node field =
    reject_if (starts_with_dash value) (invalid_arg node (flag_reason field))

unfoldable pub is_separator : ℕ → Bool
is_separator c = c == b'/' || (c == 92 || c == b':')

separator_reason : Text → ℕ → Text
unfolding quoted codes
separator_reason id c =
    codes "node id "
    ++ (quoted id
        ++ (codes " contains path separator "
            ++ (quoted (c ∷ [])
                ++ codes " — would create nested, escaping, or drive-relative directories")))

unfoldable pub is_dots : Text → Bool
is_dots s = s == b'.' ∷ [] || s == b'.' ∷ b'.' ∷ []

unfoldable pub check_node_id_safe : (id : Text) → Check
unfolding reject_char is_separator is_control is_dots separator_reason codes quoted unicode_escape
check_node_id_safe id = do
  reject_if (is_empty id) (invalid_arg id (codes "node id is empty"))
  reject_char is_separator (λ c. invalid_arg id (separator_reason id c)) id
  reject_char is_control
      (λ c. invalid_arg id (codes "node id contains control character " ++ unicode_escape c)) id
  reject_if (is_dots id)
      (invalid_arg id (codes "node id " ++ (quoted id ++ codes " is a path-traversal token")))

-- `ALLOWED_URL_SCHEMES`.
unfoldable pub allowed_url_schemes : List Text
unfolding codes
allowed_url_schemes =
    codes "https://" ∷ codes "http://" ∷ codes "ssh://" ∷ codes "git@" ∷ codes "file://" ∷ []

segment_reason : Text → Text
unfolding quoted codes
segment_reason s = codes "path segment " ++ (quoted s ++ codes " starts with `-`")

-- The loop over path segments, of both URL checks.
unfoldable pub check_segments : (node : Text) → List Text → Check
unfolding for_each starts_with_dash segment_reason
check_segments node segments =
    for_each (λ s. reject_if (starts_with_dash s) (invalid_url node (segment_reason s))) segments

abbrev pub host_dash : Option Text → Bool
host_dash none = false
host_dash (some host) = starts_with_dash host

abbrev host_text : Option Text → Text
host_text none = []
host_text (some host) = host

abbrev pub segments_or_none : Option (List Text) → List Text
segments_or_none none = []
segments_or_none (some segments) = segments

unfoldable pub check_parsed_url : (node : Text) → ParsedUrl → Check
unfolding starts_with_dash check_segments codes quoted
check_parsed_url node parsed = do
  reject_if (starts_with_dash parsed.username) (
      invalid_url node
        (codes "URL userinfo " ++ (quoted parsed.username ++ codes " starts with `-`")))
  reject_if (host_dash parsed.host_str) (
      invalid_url node
        (codes "host " ++ (quoted (host_text parsed.host_str) ++ codes " starts with `-`")))
  check_segments node (segments_or_none parsed.path_segments)

unfoldable pub check_rfc_url : UrlParser → (url node : Text) → Check
unfolding check_parsed_url codes
check_rfc_url parse_url url node = elim (parse_url url) [
  | ok parsed ↦ check_parsed_url node parsed
  | err e ↦ err (invalid_url node (codes "URL parse failed: " ++ e))
  | panic ↦ panic
]

abbrev pub or_whole : Text → Option (Text × Text) → Text × Text
or_whole s none = (s, [])
or_whole s (some parts) = parts

-- `&url["git@".len()..]`; the caller has tested the prefix.
abbrev pub after_prefix : Text → Text → Text
after_prefix p s = elim (strip_prefix p s) [ none ↦ [] | some rest ↦ rest ]

unfoldable pub check_scp_url : (url node : Text) → Check
unfolding split_once split check_segments codes quoted starts_with_dash strip_prefix
check_scp_url url node = do
  let after_at = after_prefix (codes "git@") url
  let parts = or_whole after_at (split_once b':' after_at)
  reject_if (is_empty parts.0 || starts_with_dash parts.0)
      (invalid_url node (codes "host " ++ (quoted parts.0 ++ codes " is empty or starts with `-`")))
  check_segments node (split b'/' parts.1)

scheme_reason : Text → Text
unfolding quoted codes
scheme_reason url =
    codes
      "scheme not in allowlist [\"https://\", \"http://\", \"ssh://\", \"git@\", \"file://\"] (got "
    ++ (quoted url ++ codes ")")

unfoldable pub check_scheme : UrlParser → (url node : Text) → Option Text → Check
unfolding check_scp_url check_rfc_url scheme_reason codes list_beq
check_scheme parse_url url node none = err (invalid_url node (scheme_reason url))
check_scheme parse_url url node (some scheme) =
    if scheme == codes "git@" then check_scp_url url node else check_rfc_url parse_url url node

unfoldable pub check_url : UrlParser → (url node : Text) → Check
unfolding reject_char is_control starts_with_dash check_scheme find starts_with allowed_url_schemes
    codes quoted unicode_escape
check_url parse_url url node = do
  reject_if (is_empty url) (invalid_url node (codes "URL is empty"))
  reject_char is_control
      (λ c. invalid_url node (codes "URL contains control character " ++ unicode_escape c)) url
  reject_if (starts_with_dash url)
      (invalid_url node (quoted url ++ codes " starts with `-`, would be parsed as a CLI flag"))
  check_scheme parse_url url node (find (λ s. starts_with s url) allowed_url_schemes)

-- `Component::ParentDir` among the components of a path: a part between slashes that is "..".
unfoldable pub has_parent_dir : Text → Bool
unfolding any split list_beq
has_parent_dir path = any (λ part. part == b'.' ∷ b'.' ∷ []) (split b'/' path)

-- `Path::is_absolute`.
unfoldable pub is_absolute : Text → Bool
is_absolute [] = false
is_absolute (c ∷ s) = c == b'/'

unfoldable pub check_contained_path : (path node field : Text) → Check
unfolding reject_char is_control starts_with_dash is_absolute has_parent_dir codes quoted
    unicode_escape flag_value_reason
check_contained_path path node field = do
  reject_if (is_empty path) (invalid_arg node (quoted field ++ codes " is empty"))
  reject_char is_control
      (λ c.
        invalid_arg node
          (quoted field ++ (codes " contains control character " ++ unicode_escape c)))
      path
  reject_if (starts_with_dash path) (invalid_arg node (flag_value_reason field path))
  reject_if (is_absolute path) (
      invalid_arg node (
        quoted field
        ++ (codes " "
            ++ (quoted path ++ codes " is absolute — must stay inside the node's checkout"))))
  reject_if (has_parent_dir path) (
      invalid_arg node (
        quoted field
        ++ (codes " "
            ++ (quoted path
                ++ codes " contains `..` — path traversal outside the node's checkout"))))
