-- ===== src/Sources/Closure/Keeps.antt =====
-- What the loop keeps: all that it knows is reached, and all that a visited directory leads to is
-- known.
use repolith.Prelude.{
  ◌≡◌, refl, sym, ◌∙◌, inl, inr, true, false, Option, none, some, List, [], ◌∷◌, ◌==◌, ==_iff,
  ==-cases, contains, contains-head, subst, list_eq, nat_eq, arith, Option-cases, Bool-cases,
  some_inj, none≢some, ◌||◌, ◌&&◌, not,
}
use repolith.Prelude.Texts.{Text}
use repolith.Prelude.Maps.{get}
use repolith.Sources.{Meta}
use repolith.Sources.Closure.{Walk, or_insert, follow, load, follow_deps, visit}
use repolith.Sources.Closure.Edges.{
  deps_of, resolved, targets, IsCoherent, Reach, along, get-or_insert, contains-follow_queue,
  contains-follow_dep_trees, follow-fields,
}

module _ (canonicalize : Text → Option Text) (metadata : Text → Option Meta) (root : Text) where
  pub record Keeps (s : Walk) : Type 0 where
    pub known :
        (u : Text) (deps : List Text)
        → get u s.graph ≡ some deps
        → deps_of canonicalize metadata u ≡ some deps
    pub reached : (c : Text) → contains s.queue c ≡ true → Reach canonicalize metadata root c
    pub sound :
        (c : Text)
        → contains s.dep_trees c ≡ true
        → ((c == root) ≡ false)
          × ((u : Text) × Reach canonicalize metadata root u
              × (contains (targets canonicalize metadata u) c ≡ true))
    pub closed :
        (u c : Text)
        → contains s.visited u ≡ true
        → contains (targets canonicalize metadata u) c ≡ true
        → ((contains s.visited c || contains s.queue c) ≡ true)
          × ((c == root || contains s.dep_trees c) ≡ true)
    pub rooted : (contains s.visited root || contains s.queue root) ≡ true

  -- A directory that is settled: what it leads to is queued.
  Keeps-settled :
      (dir : Text) (s t : Walk)
      → Keeps (record s { queue = dir ∷ s.queue })
      → t.visited ≡ dir ∷ s.visited
      → ((c : Text)
          → contains t.queue c
            ≡ (contains (targets canonicalize metadata dir) c || contains s.queue c))
      → ((c : Text)
          → contains t.dep_trees c ≡ (
              not (c == root) && contains (targets canonicalize metadata dir) c
              || contains s.dep_trees c))
      → ((u : Text) (deps : List Text)
          → get u t.graph ≡ some deps
          → deps_of canonicalize metadata u ≡ some deps)
      → Keeps t
  unfolding contains
  Keeps-settled dir s t k visited queue dep_trees known =
      let at : Reach canonicalize metadata root dir = k.reached dir (contains-head dir s.queue) in
      record {
        known = known;
        reached = λ c m. elim (Bool-cases (contains (targets canonicalize metadata dir) c)) [
          | inl e ↦ along at e
          | inr e ↦ k.reached c (ground (arith, queue c))
        ];
        sound = λ c m. elim (Bool-cases (contains s.dep_trees c)) [
          | inl e ↦ k.sound c e
          | inr e ↦ (ground (arith, dep_trees c), (dir, at, ground (arith, dep_trees c)))
        ];
        closed = λ u c m n. elim (==-cases dir u) [
          | inl (_, same) ↦ ground (arith, queue c, dep_trees c)
          | inr (e, _) ↦
              let old = k.closed u c (ground arith) n in ground (arith, queue c, dep_trees c)
        ];
        rooted = ground (arith, k.rooted, queue root);
      }

  abbrev pub IsKnown : List (Text × List Text) → Type 0
  IsKnown graph =
      (u : Text) (deps : List Text)
      → get u graph ≡ some deps
      → deps_of canonicalize metadata u ≡ some deps

  abbrev pub IsLoaded : (dir : Text) → Walk → Walk → Type 0
  IsLoaded dir s t =
      (t.visited ≡ s.visited)
      × (t.queue ≡ s.queue)
      × (t.dep_trees ≡ s.dep_trees)
      × (get dir t.graph ≡ deps_of canonicalize metadata dir)
      × IsKnown t.graph

  or_insert-IsKnown :
      (dir : Text) (m : Meta) (graph : List (Text × List Text))
      → IsCoherent canonicalize metadata
      → metadata dir ≡ some m
      → IsKnown graph
      → IsKnown (or_insert graph m.packages)
  or_insert-IsKnown dir m graph coherent f known u deps h = elim (Option-cases (get u graph)) [
    | inl e ↦ coherent dir u m deps f (sym (rw e at (get-or_insert u m.packages graph)) ∙ h)
    | inr (old, e) ↦ known u deps (e ∙ sym (rw e at (get-or_insert u m.packages graph)) ∙ h)
  ]

  -- What a directory leads to is known once it is loaded.
  pub load-IsLoaded :
      (dir : Text) (s t : Walk)
      → IsCoherent canonicalize metadata
      → IsKnown s.graph
      → load canonicalize metadata root dir s ≡ some t
      → IsLoaded dir s t
  unfolding load
  load-IsLoaded dir s t coherent known done = elim (Option-cases (get dir s.graph)) [
    | inr (deps, e) ↦
        subst (IsLoaded dir s) (some_inj (rw (load, e) at done))
          (refl, refl, refl, e ∙ sym (known dir deps e), known)
    | inl e ↦ elim (Option-cases (metadata dir)) [
      | inl f ↦ absurd (none≢some (rw (load, e, f) at done))
      | inr (m, f) ↦ subst (IsLoaded dir s) (some_inj (rw (load, e, f) at done)) (
        refl,
        refl,
        refl,
        rw f (rw e at (get-or_insert dir m.packages s.graph)),
        or_insert-IsKnown dir m s.graph coherent f known,
      )
    ]
  ]

  pub load-none :
      (dir : Text) (s : Walk)
      → load canonicalize metadata root dir s ≡ none
      → targets canonicalize metadata dir ≡ []
  unfolding load targets
  load-none dir s e = elim (Option-cases (get dir s.graph)) [
    | inr (deps, f) ↦ absurd (none≢some (sym (rw (load, f) at e)))
    | inl f ↦ elim (Option-cases (metadata dir)) [
      | inl g ↦ rw (targets, g) refl
      | inr (m, g) ↦ absurd (none≢some (sym (rw (load, f, g) at e)))
    ]
  ]

  follow_deps-Keeps :
      (dir : Text) (s t : Walk)
      → Keeps (record s { queue = dir ∷ s.queue })
      → IsLoaded dir (record s { visited = dir ∷ s.visited }) t
      → Keeps (follow_deps canonicalize metadata root dir t)
  unfolding follow_deps targets contains
  follow_deps-Keeps dir s t k (visited, queue, dep_trees, listed, known) =
      elim (Option-cases (get dir t.graph)) [
        | inl e ↦
            let leads : targets canonicalize metadata dir ≡ [] =
              rw (targets, sym listed ∙ e) refl in
            rw (follow_deps, e)
              (Keeps-settled dir s t k visited (λ c. rw (leads, queue) refl)
                (λ c. rw (leads, dep_trees) (ground arith)) known)
        | inr (deps, e) ↦
            let t' = follow canonicalize metadata root deps t in
            let (v, g) = follow-fields canonicalize metadata root deps t in
            let leads : targets canonicalize metadata dir ≡ resolved canonicalize metadata deps =
              rw (targets, sym listed ∙ e) refl in
            rw (follow_deps, e)
              (Keeps-settled dir s t' k (v ∙ visited)
                (λ c.
                  contains-follow_queue canonicalize metadata root deps t c
                  ∙ rw (leads, queue) refl)
                (λ c.
                  contains-follow_dep_trees canonicalize metadata root deps t c
                  ∙ rw (leads, dep_trees) refl)
                (rw g known))
      ]

  -- The body of the loop keeps it all.
  pub visit-Keeps :
      (dir : Text) (s t : Walk)
      → IsCoherent canonicalize metadata
      → Keeps (record s { queue = dir ∷ s.queue })
      → visit canonicalize metadata root dir s ≡ some t
      → Keeps t
  unfolding visit contains
  visit-Keeps dir s t coherent k done =
      let entered : Walk = record s { visited = dir ∷ s.visited } in
      elim (Bool-cases (contains s.visited dir)) [
        | inl e ↦ subst Keeps (some_inj (rw (visit, e) at done)) (revisited dir s e k)
        | inr e ↦ elim (Option-cases (load canonicalize metadata root dir entered)) [
          | inr (loaded, f) ↦ subst Keeps (some_inj (rw (visit, e, f) at done)) (
              follow_deps-Keeps dir s loaded k
                (load-IsLoaded dir entered loaded coherent k.known f))
          | inl f ↦ elim (Bool-cases (dir == root)) [
            | inl g ↦ absurd (none≢some (rw (visit, e, f, g) at done))
            | inr g ↦
                let leads = load-none dir entered f in
                subst Keeps (some_inj (rw (visit, e, f, g) at done)) (
                  Keeps-settled dir s entered k refl (λ c. rw leads refl)
                    (λ c. rw leads (ground arith)) k.known)
          ]
        ]
      ]
    where
      revisited :
          (dir : Text) (s : Walk)
          → contains s.visited dir ≡ true
          → Keeps (record s { queue = dir ∷ s.queue })
          → Keeps s
      revisited dir s e k = record {
        known = k.known;
        reached = λ c m. k.reached c (ground arith);
        sound = k.sound;
        closed = λ u c m n. let old = k.closed u c m n in ground (arith, ==_iff dir c);
        rooted = ground (arith, k.rooted, ==_iff dir root);
      }
