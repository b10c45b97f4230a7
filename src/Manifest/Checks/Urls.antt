-- ===== src/Manifest/Checks/Urls.antt =====
-- What the URL checks accept, without the order and the messages of the checks.
use repolith.Prelude.{
  ◌≡◌, ◌≢◌, ◌↔◌, ◌⊎◌, inl, inr, false, ◌||◌, Option, none, some, List, [], All, find, is_empty, ok,
  list_eq, nat_eq, ==-cases, arith, Result-cases,
}
use repolith.Prelude.Texts.{Text, codes, starts_with, starts_with_dash, split, split_once}
use repolith.Manifest.{ParsedUrl, UrlParser}
use repolith.Manifest.Checks.{
  check_segments, host_dash, segments_or_none, check_parsed_url, check_rfc_url, or_whole,
  after_prefix, check_scp_url, allowed_url_schemes, check_scheme, check_url,
}
use repolith.Manifest.Checks.Laws.{
  then_iff, for_each_iff, reject_if_iff, reject_empty_iff, reject_dash_iff, reject_control_iff,
  IsNoFlag, IsPrintable,
}

check_segments_iff :
    (node : Text) (segments : List Text)
    → (check_segments node segments ≡ ok tt) ↔ All IsNoFlag segments
unfolding check_segments
check_segments_iff node segments = for_each_iff _ segments (λ s. reject_dash_iff s _)

-- No part of the parsed URL that `git` receives on its own is a flag.
abbrev pub IsNoFlagUrl : ParsedUrl → Type 0
IsNoFlagUrl parsed =
    IsNoFlag parsed.username
    × ((host_dash parsed.host_str ≡ false) × All IsNoFlag (segments_or_none parsed.path_segments))

check_parsed_url_iff :
    (node : Text) (parsed : ParsedUrl) → (check_parsed_url node parsed ≡ ok tt) ↔ IsNoFlagUrl parsed
unfolding check_parsed_url
check_parsed_url_iff node parsed = then_iff _ _ (reject_dash_iff parsed.username _) (
    then_iff _ _ (reject_if_iff (host_dash parsed.host_str) _)
      (check_segments_iff node (segments_or_none parsed.path_segments)))

-- The URL parses, and no part is a flag.
abbrev pub IsRfcUrl : UrlParser → Text → Type 0
IsRfcUrl parse_url url = (parsed : ParsedUrl) × (parse_url url ≡ ok parsed) × IsNoFlagUrl parsed

check_rfc_url_iff :
    (parse_url : UrlParser) (url node : Text)
    → (check_rfc_url parse_url url node ≡ ok tt) ↔ IsRfcUrl parse_url url
unfolding check_rfc_url
check_rfc_url_iff parse_url url node = (
  λ e. elim (Result-cases (parse_url url)) [
    | inl (parsed, p) ↦
        (parsed, p, (check_parsed_url_iff node parsed).0 (rw (check_rfc_url, p) at e))
    | inr (inl (x, p)) ↦ absurd (ground arith)
    | inr (inr p) ↦ absurd (ground arith)
  ],
  λ (parsed, p, safe). rw (check_rfc_url, p) ((check_parsed_url_iff node parsed).1 safe),
)

-- `host` and `path` of `git@host:path`; without a colon all is host.
abbrev pub scp_parts : Text → Text × Text
scp_parts url =
    or_whole (after_prefix (codes "git@") url) (split_once b':' (after_prefix (codes "git@") url))

abbrev pub IsScpUrl : Text → Type 0
IsScpUrl url =
    ((is_empty (scp_parts url).0 || starts_with_dash (scp_parts url).0) ≡ false)
    × All IsNoFlag (split b'/' (scp_parts url).1)

check_scp_url_iff : (url node : Text) → (check_scp_url url node ≡ ok tt) ↔ IsScpUrl url
unfolding check_scp_url
check_scp_url_iff url node =
    then_iff _ _
      (reject_if_iff (is_empty (scp_parts url).0 || starts_with_dash (scp_parts url).0) _)
      (check_segments_iff node (split b'/' (scp_parts url).1))

-- What the first allowed scheme that begins the URL asks of it; no scheme, no URL.
abbrev pub IsRemote : UrlParser → Text → Option Text → Type 0
IsRemote parse_url url none = ⊥
IsRemote parse_url url (some scheme) =
    ((scheme ≡ codes "git@") × IsScpUrl url) ⊎ ((scheme ≢ codes "git@") × IsRfcUrl parse_url url)

check_scheme_iff :
    (parse_url : UrlParser) (url node : Text) (scheme : Option Text)
    → (check_scheme parse_url url node scheme ≡ ok tt) ↔ IsRemote parse_url url scheme
unfolding check_scheme
check_scheme_iff parse_url url node none = (λ e. cc, λ h. absurd h)
check_scheme_iff parse_url url node (some scheme) = elim (==-cases scheme (codes "git@")) [
  | inl (t, same) ↦ (
    λ e. inl (same, (check_scp_url_iff url node).0 (rw (check_scheme, t) at e)),
    λ h. elim h [
      | inl (_, safe) ↦ rw (check_scheme, t) ((check_scp_url_iff url node).1 safe)
      | inr (other, _) ↦ absurd (other same)
    ],
  )
  | inr (f, other) ↦ (
    λ e. inr (other, (check_rfc_url_iff parse_url url node).0 (rw (check_scheme, f) at e)),
    λ h. elim h [
      | inl (same, _) ↦ absurd (other same)
      | inr (_, safe) ↦ rw (check_scheme, f) ((check_rfc_url_iff parse_url url node).1 safe)
    ],
  )
]

-- The URL is printable and no flag, and safe for the first allowed scheme that begins it.
abbrev pub IsSafeUrl : UrlParser → Text → Type 0
IsSafeUrl parse_url url =
    (url ≢ [])
    × (All IsPrintable url
        × (IsNoFlag url
            × IsRemote parse_url url (find (λ s. starts_with s url) allowed_url_schemes)))

-- A URL passes exactly when it is not empty, has no control character, does not begin with a dash,
-- begins with an allowed scheme, and is safe for the first scheme that it begins with. For `git@` that
-- means a host that is not empty and begins with no dash, and no segment of the path that begins with
-- one; for any other, that the URL parses, and that neither its user, its host where it has one, nor
-- a segment of its path begins with a dash.
pub check_url_iff :
    (parse_url : UrlParser) (url node : Text)
    → (check_url parse_url url node ≡ ok tt) ↔ IsSafeUrl parse_url url
unfolding check_url
check_url_iff parse_url url node = then_iff _ _ (reject_empty_iff url _) (
    then_iff _ _ (reject_control_iff _ url) (
      then_iff _ _ (reject_dash_iff url _)
        (check_scheme_iff parse_url url node (find (λ s. starts_with s url) allowed_url_schemes))))
