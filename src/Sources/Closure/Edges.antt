-- ===== src/Sources/Closure/Edges.antt =====
-- The path dependencies of a source tree, and what one step of the closure's loop queues.
use repolith.Prelude.{
  ◌≡◌, refl, inl, inr, true, Option, none, some, List, [], ◌∷◌, ◌==◌, ==_iff, contains, list_eq,
  nat_eq, arith, Option-cases, ◌||◌, ◌&&◌, not,
}
use repolith.Prelude.Texts.{Text}
use repolith.Prelude.Maps.{get, insert, get-insert}
use repolith.Sources.{Meta, and_then}
use repolith.Sources.Closure.{Walk, add, push_dep, or_insert, follow}

pub contains-add : (x y : Text) (xs : List Text) → contains (add x xs) y ≡ (x == y || contains xs y)
unfolding add contains
contains-add x y xs = ground (arith, ==_iff x y)

-- What is in the graph stays; a new directory gets the first of its entries.
pub get-or_insert :
    (u : Text) (packages graph : List (Text × List Text))
    → get u (or_insert graph packages)
      ≡ elim (get u graph) [ none ↦ get u packages | some ds ↦ some ds ]
unfolding or_insert get
get-or_insert u [] graph = ground arith
get-or_insert u ((dir, deps) ∷ packages) graph = ground (
  arith,
  get-or_insert u packages graph,
  get-or_insert u packages (insert dir deps graph),
  get-insert dir u deps graph,
  ==_iff dir u,
)

module _ (canonicalize : Text → Option Text) (metadata : Text → Option Meta) where
  -- The dependencies that the metadata of a directory lists for its own package.
  abbrev pub deps_of : Text → Option (List Text)
  deps_of u = and_then (metadata u) (λ m. get u m.packages)

  unfoldable pub resolved : List Text → List Text
  resolved [] = []
  resolved (dep ∷ deps) = elim (canonicalize dep) [
    | none ↦ resolved deps
    | some c ↦ c ∷ resolved deps
  ]

  -- The trees one step along the path dependencies of a directory.
  unfoldable pub targets : Text → List Text
  unfolding resolved
  targets u = elim (deps_of u) [ none ↦ [] | some deps ↦ resolved deps ]

  -- A workspace lists a member as the member lists itself.
  abbrev pub IsCoherent : Type 0
  IsCoherent =
      (v u : Text) (m : Meta) (deps : List Text)
      → metadata v ≡ some m
      → get u m.packages ≡ some deps
      → deps_of u ≡ some deps

  pub data Reach (root : Text) : Text → Type 0 where
    here : Reach root root
    along : {u c : Text} → Reach root u → contains (targets u) c ≡ true → Reach root c

  module _ (root : Text) where
    pub contains-follow_queue :
        (deps : List Text) (s : Walk) (c : Text)
        → contains (follow canonicalize metadata root deps s).queue c
          ≡ (contains (resolved deps) c || contains s.queue c)
    unfolding follow push_dep resolved contains
    contains-follow_queue [] s c = refl
    contains-follow_queue (dep ∷ deps) s c = elim (Option-cases (canonicalize dep)) [
      | inl e ↦ rw (follow, e, resolved) (contains-follow_queue deps s c)
      | inr (t, e) ↦
          rw (follow, e, resolved)
            (ground (arith, contains-follow_queue deps (push_dep canonicalize metadata root t s) c))
    ]

    pub contains-follow_dep_trees :
        (deps : List Text) (s : Walk) (c : Text)
        → contains (follow canonicalize metadata root deps s).dep_trees c
          ≡ (not (c == root) && contains (resolved deps) c || contains s.dep_trees c)
    unfolding follow push_dep resolved contains
    contains-follow_dep_trees [] s c = ground arith
    contains-follow_dep_trees (dep ∷ deps) s c = elim (Option-cases (canonicalize dep)) [
      | inl e ↦ rw (follow, e, resolved) (contains-follow_dep_trees deps s c)
      | inr (t, e) ↦
          rw (follow, e, resolved)
            (ground (
              arith,
              contains-follow_dep_trees deps (push_dep canonicalize metadata root t s) c,
              contains-add t c s.dep_trees,
              ==_iff t c,
            ))
    ]

    pub follow-fields :
        (deps : List Text) (s : Walk)
        → ((follow canonicalize metadata root deps s).visited ≡ s.visited)
          × ((follow canonicalize metadata root deps s).graph ≡ s.graph)
    unfolding follow push_dep
    follow-fields [] s = (refl, refl)
    follow-fields (dep ∷ deps) s = elim (Option-cases (canonicalize dep)) [
      | inl e ↦ rw (follow, e) (follow-fields deps s)
      | inr (t, e) ↦ rw (follow, e) (follow-fields deps (push_dep canonicalize metadata root t s))
    ]
