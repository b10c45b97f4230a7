-- ===== src/Examples/Federating.antt =====
-- A child stack below a root stack, in a file system without links.
use repolith.Prelude.{
  ◌≤◌, ◌<◌, ◌≡◌, ◌↔◌, refl, false, some, List, [], ◌∷◌, ◌++◌, ok, list_beq, contains, length, arith,
  list_eq, nat_eq,
}
use repolith.Prelude.Maps.{IsNodup}
use repolith.Prelude.Texts.{Text, starts_with}
use repolith.Federation.{
  Files, max_federation_depth, default_manifest, resolved_manifest, here, down,
}
use repolith.Federation.Guards.{IsWithin, resolved_manifest_iff, Descent-IsNodup}

abbrev plain : Files
plain = record {
  canonicalize = λ p. ok p;
  join = λ a b. a ++ b;
  starts_with = λ p base. starts_with base p;
}

abbrev root : List Text
root = (b'r' ∷ []) ∷ []

abbrev child : Text
child = b'n' ∷ b'm' ∷ []

child-resolved : resolved_manifest plain root (b'n' ∷ []) (some (b'm' ∷ [])) ≡ ok child
unfolding resolved_manifest starts_with list_beq
child-resolved = refl

resolved_manifest_iff_example :
    (resolved_manifest plain root (b'n' ∷ []) (some (b'm' ∷ [])) ≡ ok child) ↔ (
      IsWithin plain (b'n' ∷ []) (default_manifest (some (b'm' ∷ []))) child
      × (contains root child ≡ false)
      × (length root < max_federation_depth))
resolved_manifest_iff_example =
    resolved_manifest_iff plain root (b'n' ∷ []) (some (b'm' ∷ [])) child

root-IsNodup : IsNodup root
unfolding contains
root-IsNodup = (refl, tt)

Descent-IsNodup_example :
    IsNodup (root ++ child ∷ []) × (length (root ++ child ∷ []) ≤ max_federation_depth)
Descent-IsNodup_example =
    Descent-IsNodup plain root (root ++ child ∷ []) root-IsNodup (omega arith)
      (down (b'n' ∷ []) (some (b'm' ∷ [])) child here child-resolved)
