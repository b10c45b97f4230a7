-- ===== src/Manifest/Validate/Laws.antt =====
-- Exactly which manifests `validate` accepts.
use repolith.Prelude.{
  ◌≡◌, ◌↔◌, ◌⊎◌, refl, true, false, some, List, [], ◌∷◌, ◌++◌, All, ok, ==_iff, list_eq, nat_eq,
  contains, arith,
}
use repolith.Prelude.Maps.{IsNodup}
use repolith.Prelude.Texts.{Text, codes}
use repolith.Manifest.{OrchestratorMeta, Manifest, NodeEntry, Semver, UrlParser}
use repolith.Manifest.Checks.Laws.{
  then_iff, iff_trans, for_each_iff, reject_if_iff, IsSafeName, check_node_id_safe_iff,
}
use repolith.Manifest.Checks.Urls.{IsSafeUrl, check_url_iff}
use repolith.Manifest.Actions.Laws.{AllSome, IsSome, check_some_iff, IsSafeAction, check_action_iff}
use repolith.Manifest.Validate.{check_schema, check_node, validate_nodes, validate, has_no_source}

-- The node has a source, a safe URL if it has one, and safe actions.
abbrev pub IsSafeNode : UrlParser → NodeEntry → Type 0
IsSafeNode parse_url n =
    (IsSome n.git ⊎ IsSome n.path)
    × (AllSome (IsSafeUrl parse_url) n.git × All (IsSafeAction n) n.actions)

source_iff : (n : NodeEntry) → (has_no_source n ≡ false) ↔ (IsSome n.git ⊎ IsSome n.path)
source_iff n = (λ h. ground arith, λ h. ground arith)

node_iff :
    (parse_url : UrlParser) (n : NodeEntry)
    → (check_node parse_url n ≡ ok tt) ↔ IsSafeNode parse_url n
unfolding check_node
node_iff parse_url n = then_iff _ _ (iff_trans (reject_if_iff (has_no_source n) _) (source_iff n)) (
    then_iff _ _ (check_some_iff _ n.git λ url. check_url_iff parse_url url n.id)
      (for_each_iff _ n.actions (check_action_iff n)))

-- Every node is safe, and no id occurs in `seen` or twice.
abbrev pub IsFresh : UrlParser → List Text → List NodeEntry → Type 0
IsFresh parse_url seen [] = Unit
IsFresh parse_url seen (n ∷ nodes) =
    IsSafeName n.id
    × ((contains seen n.id ≡ false)
        × (IsSafeNode parse_url n × IsFresh parse_url (n.id ∷ seen) nodes))

IsFresh-iff :
    (parse_url : UrlParser) (seen : List Text) (nodes : List NodeEntry)
    → (validate_nodes parse_url seen nodes ≡ ok tt) ↔ IsFresh parse_url seen nodes
unfolding validate_nodes
IsFresh-iff parse_url seen [] = (λ h. tt, λ h. refl)
IsFresh-iff parse_url seen (n ∷ nodes) = then_iff _ _ (check_node_id_safe_iff n.id) (
    then_iff _ _ (reject_if_iff (contains seen n.id) _)
      (then_iff _ _ (node_iff parse_url n) (IsFresh-iff parse_url (n.id ∷ seen) nodes)))

abbrev pub ids : List NodeEntry → List Text
ids [] = []
ids (n ∷ nodes) = n.id ∷ ids nodes

-- What a list of nodes must satisfy, whatever the order.
abbrev pub IsSafeNodes : UrlParser → List NodeEntry → Type 0
IsSafeNodes parse_url nodes =
    IsNodup (ids nodes) × All (λ n. IsSafeName n.id × IsSafeNode parse_url n) nodes

unseen-contains :
    (a : Text) (seen : List Text) (xs : List Text)
    → All (λ x. contains (a ∷ seen) x ≡ false) xs
      ↔ ((contains xs a ≡ false) × All (λ x. contains seen x ≡ false) xs)
unfolding contains
unseen-contains a seen [] = (λ h. (refl, tt), λ h. tt)
unseen-contains a seen (x ∷ xs) =
    let rest = unseen-contains a seen xs in
    (
      λ h.
          let tail = rest.0 h.1 in
          (ground (arith, ==_iff x a, ==_iff a x, tail.0, h.0), (ground arith, tail.1)),
      λ h. (ground (arith, ==_iff x a, ==_iff a x), rest.1 (ground arith, h.1.1)),
    )

unfold_iff :
    (parse_url : UrlParser) (seen : List Text) (nodes : List NodeEntry)
    → IsFresh parse_url seen nodes
      ↔ (All (λ x. contains seen x ≡ false) (ids nodes) × IsSafeNodes parse_url nodes)
unfold_iff parse_url seen [] = (λ h. (tt, (tt, tt)), λ h. tt)
unfold_iff parse_url seen (n ∷ nodes) =
    let rest = unfold_iff parse_url (n.id ∷ seen) nodes in
    let apart = unseen-contains n.id seen (ids nodes) in
    (
      λ h.
          let (away, (nodup, safe)) = rest.0 h.1.1.1 in
          let (fresh, unseen) = apart.0 away in
          ((h.1.0, unseen), ((fresh, nodup), ((h.0, h.1.1.0), safe))),
      λ h.
          let ((unseen, away), ((fresh, nodup), ((named, node), safe))) = h in
          (named, (unseen, (node, rest.1 (apart.1 (fresh, away), (nodup, safe))))),
    )

unseen : (xs : List Text) → All (λ x. contains [] x ≡ false) xs
unfolding contains
unseen [] = tt
unseen (x ∷ xs) = (refl, unseen xs)

-- The schema version is one of the range `~0.1`.
module _ {Version VersionReq : Type 0} (semver : Semver Version VersionReq)
    (parse_url : UrlParser) where
  abbrev pub IsSupported : OrchestratorMeta → Type 0
  IsSupported orchestrator =
      (req : VersionReq) × (v : Version) × (semver.parse_req (codes "~0.1") ≡ some req)
      × (semver.parse (orchestrator.schema_version ++ codes ".0") ≡ some v)
      × (semver.is_match req v ≡ true)

  schema_iff : (m : OrchestratorMeta) → (check_schema semver m ≡ ok tt) ↔ IsSupported m
  unfolding check_schema
  schema_iff m = (λ h. ground arith, λ h. ground arith)

  -- `validate` accepts a manifest exactly when the schema version is supported, node ids are
  -- distinct, and every node is safe.
  pub validate_iff :
      (m : Manifest)
      → (validate semver parse_url m ≡ ok tt)
        ↔ (IsSupported m.orchestrator × IsSafeNodes parse_url m.nodes)
  unfolding validate
  validate_iff m = then_iff _ _ (schema_iff m.orchestrator) (
      iff_trans (IsFresh-iff parse_url [] m.nodes)
        (iff_trans (unfold_iff parse_url [] m.nodes) (λ h. h.1, λ h. (unseen (ids m.nodes), h))))
