-- ===== src/Examples/Sourcing.antt =====
-- Two trees that depend on each other, as seen from the first; and digests of small file systems.
use repolith.Prelude.{
  list_beq, ℕ, ◌≡◌, ◌≤◌, ◌+◌, refl, true, Option, none, some, List, [], ◌∷◌, Result, ok, err,
  contains, list_eq, nat_eq, arith, sym, ==-cases, inl, inr, some_inj, sym, ap, ◌∙◌,
}
use repolith.Prelude.Texts.{Text}
use repolith.Prelude.Maps.{distinct, get, insert}
use repolith.Prelude.Sorting.{sort_by}
use repolith.Types.{Sha256, sha_beq, io}
use repolith.Sources.{Meta, Entry, Files}
use repolith.Sources.Closure.{Closure, local_closure}
use repolith.Sources.Closure.Edges.{IsCoherent, targets}
use repolith.Sources.Closure.Reach.{IsClosure, local_closure-IsClosure}
use repolith.Sources.Closure.Returns.{IsUniverse, pending, local_closure_returns}
use repolith.Sources.Digest.{
  content, closure_bytes, tree_digest, source_closure_digest, ingredients, collect_entries,
  contents,
}
use repolith.Sources.Digest.Stable.{source_closure_digest_stable}
use repolith.Sources.Digest.Injective.{IsAlike, closure_bytes-injective}
use repolith.Sources.Digest.Trees.{tree_digest_stable}
use repolith.Examples.{zeros, zeros-IsDigest}

abbrev left : Text
left = b'l' ∷ []

abbrev right : Text
right = b'r' ∷ []

-- Every path is canonical.
abbrev canonical : Text → Option Text
canonical p = some p

abbrev workspace : Meta
workspace = record { workspace_root = []; packages = (left, right ∷ []) ∷ (right, left ∷ []) ∷ [] }

abbrev metadata : Text → Option Meta
metadata p = some workspace

metadata-IsCoherent : IsCoherent canonical metadata
metadata-IsCoherent v u m deps e h = ap (λ w. get u w.packages) (some_inj e) ∙ h

looped :
    local_closure canonical metadata 8 left
    ≡ some (some (record { dep_trees = right ∷ []; workspace_roots = [] ∷ [] }))
unfolding local_closure contains get insert list_beq
looped = refl

local_closure-IsClosure_example :
    IsClosure canonical metadata left
      (some (record { dep_trees = right ∷ []; workspace_roots = [] ∷ [] }))
local_closure-IsClosure_example =
    local_closure-IsClosure canonical metadata 8 left
      (some (record { dep_trees = right ∷ []; workspace_roots = [] ∷ [] })) metadata-IsCoherent
      looped

abbrev two : List Text
two = left ∷ right ∷ []

two-IsUniverse : IsUniverse canonical metadata left two
unfolding contains targets get list_beq
two-IsUniverse = record {
  has_root = refl;
  is_closed = λ u c m n. elim (==-cases left u) [
    | inl (_, same) ↦ onward c (rw (sym same) at n)
    | inr (f, _) ↦ elim (==-cases right u) [
      | inl (_, same) ↦ back c (rw (sym same) at n)
      | inr (g, _) ↦ ground arith
    ]
  ];
}
  where
    onward :
        (c : Text) → contains (targets canonical metadata left) c ≡ true → contains two c ≡ true
    onward c n = ground arith

    back : (c : Text) → contains (targets canonical metadata right) c ≡ true → contains two c ≡ true
    back c n = ground arith

enough : pending canonical metadata [] two + 2 ≤ 8
unfolding pending targets contains get list_beq
enough = omega arith

local_closure_returns_example :
    (out : Option Closure) × (local_closure canonical metadata 8 left ≡ some out)
local_closure_returns_example =
    local_closure_returns canonical metadata left left two 8 metadata-IsCoherent refl two-IsUniverse
      enough

-- A tree with the two files, walked in an order.
abbrev files : List Text → Files
files order = record {
  canonicalize = canonical;
  parent = λ p. none;
  join = λ p q. q;
  exists = λ p. true;
  walk = λ keep p. entries order;
  relative = λ root p. p;
  read = λ p. ok p;
  path_le = λ p q. true;
  run = λ argv. err (io []);
}
  where
    entries : List Text → List (Result Text Entry)
    entries [] = []
    entries (p ∷ ps) = ok (record { is_file = true; path = p }) ∷ entries ps

abbrev one_way : List (Text × Text)
one_way = (left, left) ∷ (right, right) ∷ []

abbrev other_way : List (Text × Text)
other_way = (right, right) ∷ (left, left) ∷ []

abbrev sha : List ℕ → Sha256
sha bytes = record { bytes = bytes }

abbrev utf8 : Text → List ℕ
utf8 s = s

agree :
    (r : Text)
    → get r (contents (files two) utf8 one_way)
      ≡ get r (contents (files (right ∷ left ∷ [])) utf8 other_way)
unfolding content get list_beq
agree r = elim (==-cases left r) [ inl (_, same) ↦ rw⁻¹ same refl | inr (f, _) ↦ rw f refl ]

tree_digest_stable_example :
    tree_digest sha utf8 (files two) left ≡ tree_digest sha utf8 (files (right ∷ left ∷ [])) right
unfolding collect_entries contains get list_beq
tree_digest_stable_example =
    tree_digest_stable sha utf8 (files two) (files (right ∷ left ∷ [])) left right one_way other_way
      refl refl refl refl (refl, (refl, tt)) (refl, (refl, tt)) agree

-- The dependency trees in two orders, one of them twice.
abbrev closure_of : List Text → Closure
closure_of trees = record { dep_trees = trees; workspace_roots = [] }

source_closure_digest_stable_example :
    source_closure_digest sha utf8 (files two) (some (closure_of (left ∷ right ∷ []))) left
    ≡ source_closure_digest sha utf8 (files two) (some (closure_of (right ∷ left ∷ []))) left
unfolding ingredients contains
source_closure_digest_stable_example =
    source_closure_digest_stable sha utf8 (files two) (files two) (closure_of (left ∷ right ∷ []))
      (closure_of (right ∷ left ∷ [])) left left refl (λ d. ground arith)

twice : closure_bytes zeros (some (zeros ∷ [])) ≡ closure_bytes zeros (some (zeros ∷ zeros ∷ []))
unfolding closure_bytes distinct sort_by contains sha_beq list_beq
twice = refl

closure_bytes-injective_example :
    (zeros ≡ zeros) × IsAlike (some (zeros ∷ [])) (some (zeros ∷ zeros ∷ []))
closure_bytes-injective_example =
    closure_bytes-injective zeros zeros (some (zeros ∷ [])) (some (zeros ∷ zeros ∷ []))
      zeros-IsDigest zeros-IsDigest (zeros-IsDigest, tt) (zeros-IsDigest, (zeros-IsDigest, tt))
      twice
