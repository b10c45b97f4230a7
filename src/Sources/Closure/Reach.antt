-- ===== src/Sources/Closure/Reach.antt =====
-- The closure has exactly the trees that are reached over path dependencies.
use repolith.Prelude.{
  ◌≡◌, ◌≢◌, refl, sym, ap, ◌∙◌, inl, inr, ◌↔◌, ℕ, zero, suc, true, false, Option, none, some, [],
  ◌∷◌, ◌==◌, ==_iff, ==_refl, ==-cases, contains, subst, list_eq, nat_eq, arith, Option-cases,
  Bool-cases, some_inj, none≢some, List-cases,
}
use repolith.Prelude.Texts.{Text}
use repolith.Prelude.Maps.{get}
use repolith.Sources.{Meta}
use repolith.Sources.Closure.{Closure, Walk, load, visit, walk_from, begin, local_closure}
use repolith.Sources.Closure.Edges.{targets, IsCoherent, Reach, here, along}
use repolith.Sources.Closure.Keeps.{Keeps, visit-Keeps}

module _ (canonicalize : Text → Option Text) (metadata : Text → Option Meta) where
  module _ (root : Text) where
    -- A tree other than the root that a reached directory depends on.
    abbrev pub IsDep : Text → Type 0
    IsDep c =
        ((c == root) ≡ false)
        × ((u : Text) × Reach canonicalize metadata root u
            × (contains (targets canonicalize metadata u) c ≡ true))

    abbrev HasDeps : Closure → Type 0
    HasDeps cl = (c : Text) → (contains cl.dep_trees c ≡ true) ↔ IsDep c

    reached-visited :
        (s : Walk) (c : Text)
        → Keeps canonicalize metadata root s
        → s.queue ≡ []
        → Reach canonicalize metadata root c
        → contains s.visited c ≡ true
    unfolding contains
    reached-visited s c k empty here = let r = k.rooted in ground arith
    reached-visited s c k empty (along {u} r e) =
        let m = k.closed u c (reached-visited s u k empty r) e in ground arith

    empty-HasDeps :
        (s : Walk)
        → Keeps canonicalize metadata root s
        → s.queue ≡ []
        → HasDeps (record { dep_trees = s.dep_trees; workspace_roots = s.workspace_roots })
    empty-HasDeps s k empty c = (
      k.sound c,
      λ dep.
          let m = k.closed dep.1.0 c (reached-visited s dep.1.0 k empty dep.1.1) dep.1.2 in
          ground arith,
    )

    abbrev Outcome : Option Closure → Type 0
    Outcome none = metadata root ≡ none
    Outcome (some cl) = HasDeps cl

    load-none-metadata :
        (dir : Text) (s : Walk) → load canonicalize metadata root dir s ≡ none → metadata dir ≡ none
    unfolding load
    load-none-metadata dir s e = elim (Option-cases (get dir s.graph)) [
      | inr (deps, f) ↦ absurd (none≢some (sym (rw (load, f) at e)))
      | inl f ↦ elim (Option-cases (metadata dir)) [
        | inl g ↦ g
        | inr (m, g) ↦ absurd (none≢some (sym (rw (load, f, g) at e)))
      ]
    ]

    visit-none :
        (dir : Text) (s : Walk)
        → visit canonicalize metadata root dir s ≡ none
        → metadata root ≡ none
    unfolding visit
    visit-none dir s done =
        let entered : Walk = record s { visited = dir ∷ s.visited } in
        elim (Bool-cases (contains s.visited dir)) [
          | inl e ↦ absurd (none≢some (sym (rw (visit, e) at done)))
          | inr e ↦ elim (Option-cases (load canonicalize metadata root dir entered)) [
            | inr (loaded, f) ↦ absurd (none≢some (sym (rw (visit, e, f) at done)))
            | inl f ↦ elim (==-cases dir root) [
              | inl (_, same) ↦ ap metadata (sym same) ∙ load-none-metadata dir entered f
              | inr (g, _) ↦ absurd (none≢some (sym (rw (visit, e, f, g) at done)))
            ]
          ]
        ]

    walk_from-Outcome :
        (fuel : ℕ) (s : Walk) (out : Option Closure)
        → IsCoherent canonicalize metadata
        → Keeps canonicalize metadata root s
        → walk_from canonicalize metadata root fuel s ≡ some out
        → Outcome out
    unfolding walk_from
    walk_from-Outcome zero s out coherent k done = absurd (none≢some done)
    walk_from-Outcome (suc fuel) s out coherent k done = elim (List-cases s.queue) [
      | inl e ↦ subst Outcome (some_inj (rw (walk_from, e) at done)) (empty-HasDeps s k e)
      | inr (dir, rest, e) ↦
          let popped : Walk = record s { queue = rest } in
          elim (Option-cases (visit canonicalize metadata root dir popped)) [
            | inl f ↦
                subst Outcome (some_inj (rw (walk_from, e, f) at done)) (visit-none dir popped f)
            | inr (t, f) ↦
                walk_from-Outcome fuel t out coherent
                  (visit-Keeps canonicalize metadata root dir popped t coherent (rw⁻¹ e k) f)
                  (rw (walk_from, e, f) at done)
          ]
    ]

    pub begin-Keeps : Keeps canonicalize metadata root (begin canonicalize metadata root)
    unfolding contains get
    begin-Keeps = record {
      known = λ u deps h. absurd (none≢some h);
      reached =
          λ c m. subst (Reach canonicalize metadata root) ((==_iff root c).0 (ground arith)) here;
      sound = λ c m. cc;
      closed = λ u c m n. cc;
      rooted = ground (arith, ==_iff root root);
    }

    walk_from-unresolved :
        (fuel : ℕ)
        → metadata root ≡ none
        → walk_from canonicalize metadata root (suc fuel) (begin canonicalize metadata root)
          ≡ some none
    unfolding walk_from visit load contains get
    walk_from-unresolved fuel e = rw (e, ==_refl root) refl

    walk_from-resolved :
        (fuel : ℕ) (cl : Closure)
        → walk_from canonicalize metadata root fuel (begin canonicalize metadata root)
          ≡ some (some cl)
        → metadata root ≢ none
    unfolding walk_from
    walk_from-resolved zero cl done e = none≢some done
    walk_from-resolved (suc fuel) cl done e =
        none≢some (some_inj (sym (walk_from-unresolved fuel e) ∙ done))

  -- What a closure of a path is: none where the path or its own metadata does not resolve, and else
  -- the trees that are reached.
  abbrev pub IsClosure : (path : Text) → Option Closure → Type 0
  IsClosure path none = (root : Text) → canonicalize path ≡ some root → metadata root ≡ none
  IsClosure path (some cl) =
      (root : Text) × (canonicalize path ≡ some root)
      × (metadata root ≢ none)
      × ((c : Text) → (contains cl.dep_trees c ≡ true) ↔ IsDep root c)

  -- With metadata that agrees on each package, a closure that is computed has as its dependency trees
  -- exactly the canonical paths, other than the root's, that are reached from the root over the path
  -- dependencies of the packages; none is computed only where the root does not resolve.
  pub local_closure-IsClosure :
      (fuel : ℕ) (path : Text) (out : Option Closure)
      → IsCoherent canonicalize metadata
      → local_closure canonicalize metadata fuel path ≡ some out
      → IsClosure path out
  unfolding local_closure
  local_closure-IsClosure fuel path out coherent done = elim (Option-cases (canonicalize path)) [
    | inl e ↦
        subst (IsClosure path) (some_inj (rw (local_closure, e) at done))
          (λ root f. absurd (none≢some (sym e ∙ f)))
    | inr (root, e) ↦ of_outcome root out e (rw (local_closure, e) at done) (
        walk_from-Outcome root fuel (begin canonicalize metadata root) out coherent
          (begin-Keeps root) (rw (local_closure, e) at done))
  ]
    where
      of_outcome :
          (root : Text) (out : Option Closure)
          → canonicalize path ≡ some root
          → walk_from canonicalize metadata root fuel (begin canonicalize metadata root) ≡ some out
          → Outcome root out
          → IsClosure path out
      of_outcome root none e done o = λ r f. subst (λ x. metadata x ≡ none) (some_inj (sym e ∙ f)) o
      of_outcome root (some cl) e done o = (root, e, walk_from-resolved root fuel cl done, o)
