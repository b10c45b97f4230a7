-- ===== src/Federation/Guards.antt =====
-- What the guards of federation admit, and how deep it goes.
use repolith.Prelude.{
  ◌≤◌, ◌<◌, ◌≡◌, ◌↔◌, refl, ap, subst, ◌∙◌, inl, inr, true, false, Option, List, [], ◌∷◌, ok,
  length, length-append, ==_iff, list_eq, nat_eq, leb, contains, arith, Bool-cases, Result-cases,
}
use repolith.Prelude.Maps.{IsNodup, append-IsNodup}
use repolith.Prelude.Texts.{Text}
use repolith.Federation.{
  Files, max_federation_depth, contain_within, default_manifest, resolved_manifest, Descent, here,
  down,
}

-- The path is the canonical form of one below the base, and stays below it.
abbrev pub IsWithin : Files → (base relative path : Text) → Type 0
IsWithin files base relative path =
    (root : Text) × (files.canonicalize base ≡ ok root)
    × (files.canonicalize (files.join root relative) ≡ ok path)
    × (files.starts_with path root ≡ true)

contain_within_iff :
    (files : Files) (base relative path : Text)
    → (contain_within files base relative ≡ ok path) ↔ IsWithin files base relative path
unfolding contain_within
contain_within_iff files base relative path = (
  λ e. elim (Result-cases (files.canonicalize base)) [
    | inl (root, b) ↦ elim (Result-cases (files.canonicalize (files.join root relative))) [
      | inl (canon, c) ↦ elim (Bool-cases (files.starts_with canon root)) [
        | inl t ↦ (root, b, ground arith, ground arith)
        | inr f ↦ absurd (ground arith)
      ]
      | inr (inl (x, c)) ↦ absurd (ground arith)
      | inr (inr c) ↦ absurd (ground arith)
    ]
    | inr (inl (x, b)) ↦ absurd (ground arith)
    | inr (inr b) ↦ absurd (ground arith)
  ],
  λ (root, b, c, t). ground (arith, b, c, t),
)

-- A child manifest is resolved to a path exactly when that is the canonical path of a file below
-- the node's checkout, no ancestor stack has it, and fewer than eight stacks are above it.
pub resolved_manifest_iff :
    (files : Files) (chain : List Text) (node_path : Text) (manifest_rel : Option Text)
    (manifest : Text)
    → (resolved_manifest files chain node_path manifest_rel ≡ ok manifest) ↔ (
        IsWithin files node_path (default_manifest manifest_rel) manifest
        × (contains chain manifest ≡ false)
        × (length chain < max_federation_depth))
unfolding resolved_manifest
resolved_manifest_iff files chain node_path manifest_rel manifest =
    let within = contain_within_iff files node_path (default_manifest manifest_rel) in
    (
      λ e. elim (Result-cases (contain_within files node_path (default_manifest manifest_rel))) [
        | inl (found, w) ↦ elim (Bool-cases (contains chain found)) [
          | inl t ↦ absurd (ground arith)
          | inr f ↦ elim (Bool-cases (leb max_federation_depth (length chain))) [
            | inl deep ↦ absurd (ground arith)
            | inr shallow ↦
                let same : found ≡ manifest = ground arith in
                (
                  (within manifest).0 (w ∙ ap ok same),
                  subst (λ m. contains chain m ≡ false) same f,
                  ground arith,
                )
          ]
        ]
        | inr (inl (x, w)) ↦ absurd (ground arith)
        | inr (inr w) ↦ absurd (ground arith)
      ],
      λ (w, f, shallow). ground (arith, (within manifest).1 w, f, shallow),
    )

-- However deep federation descends, no manifest stands twice in its chain, and the chain is at
-- most eight long: where it began with no manifest twice, and no longer than that.
pub Descent-IsNodup :
    (files : Files) (root chain : List Text)
    → IsNodup root
    → length root ≤ max_federation_depth
    → Descent files root chain
    → IsNodup chain × (length chain ≤ max_federation_depth)
unfolding contains
Descent-IsNodup files root chain distinct short here = (distinct, short)
Descent-IsNodup files root _ distinct short (down {chain} node_path manifest_rel manifest above e) =
    let (once, _) = Descent-IsNodup files root chain distinct short above in
    let (_, fresh, below) =
      (resolved_manifest_iff files chain node_path manifest_rel manifest).0 e in
    (
      append-IsNodup chain (manifest ∷ []) once (refl, tt)
          (λ a m.
            subst (λ x. contains chain x ≡ false) ((==_iff manifest a).0 (ground arith)) fresh),
      omega (arith, length-append chain (manifest ∷ []), below),
    )
