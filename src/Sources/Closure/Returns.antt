-- ===== src/Sources/Closure/Returns.antt =====
-- The loop of the closure ends: a directory is visited once, also in a cycle of dependencies.
use repolith.Prelude.{
  ◌≡◌, refl, sym, ap, ◌∙◌, inl, inr, ℕ, zero, suc, true, false, Option, none, some, List, [], ◌∷◌,
  ◌==◌, ==_iff, ==-cases, contains, contains-head, subst, list_eq, nat_eq, if◌then◌else◌, arith,
  Option-cases, Bool-cases, some_inj, none≢some, List-cases,
}
use repolith.Prelude.Texts.{Text}
use repolith.Prelude.Maps.{get}
use repolith.Sources.{Meta}
use repolith.Sources.Closure.{
  Closure, Walk, push_dep, follow, load, follow_deps, visit, walk_from, begin, local_closure,
}
use repolith.Prelude.{length, ◌+◌, ◌≤◌}
use repolith.Sources.Closure.Edges.{
  deps_of, resolved, targets, IsCoherent, Reach, here, along, follow-fields,
}
use repolith.Sources.Closure.Keeps.{Keeps, visit-Keeps, load-IsLoaded}
use repolith.Sources.Closure.Reach.{begin-Keeps}

module _ (canonicalize : Text → Option Text) (metadata : Text → Option Meta) where
  -- The dependencies of the directories of a list that are not visited.
  unfoldable pub pending : (visited : List Text) → List Text → ℕ
  pending visited [] = 0
  pending visited (u ∷ us) =
      let rest = pending visited us in
      if contains visited u then rest else length (targets canonicalize metadata u) + rest

  pending-cons-le :
      (dir : Text) (visited us : List Text) → pending (dir ∷ visited) us ≤ pending visited us
  unfolding pending contains
  pending-cons-le dir visited [] = omega arith
  pending-cons-le dir visited (u ∷ us) = ground (arith, pending-cons-le dir visited us)

  pending-cons :
      (dir : Text) (visited us : List Text)
      → contains us dir ≡ true
      → contains visited dir ≡ false
      → pending (dir ∷ visited) us + length (targets canonicalize metadata dir) ≤ pending visited us
  unfolding pending contains
  pending-cons dir visited [] m h = cc
  pending-cons dir visited (u ∷ us) m h = elim (==-cases u dir) [
    | inl (e, same) ↦ rw same (ground (arith, pending-cons-le dir visited us, ==_iff dir dir, h))
    | inr (e, _) ↦ ground (arith, pending-cons dir visited us, ==_iff dir u, ==_iff u dir)
  ]

  length-follow_queue :
      (root : Text) (deps : List Text) (s : Walk)
      → length (follow canonicalize metadata root deps s).queue
        ≡ length (resolved canonicalize metadata deps) + length s.queue
  unfolding follow push_dep resolved
  length-follow_queue root [] s = omega arith
  length-follow_queue root (dep ∷ deps) s = elim (Option-cases (canonicalize dep)) [
    | inl e ↦ rw (follow, e, resolved) (length-follow_queue root deps s)
    | inr (t, e) ↦
        rw (follow, e, resolved)
          (omega (arith, length-follow_queue root deps (push_dep canonicalize metadata root t s)))
  ]

  -- A finite list that holds the root and all that its directories lead to.
  pub record IsUniverse (root : Text) (us : List Text) : Type 0 where
    pub has_root : contains us root ≡ true
    pub is_closed :
        (u c : Text)
        → contains us u ≡ true
        → contains (targets canonicalize metadata u) c ≡ true
        → contains us c ≡ true

  contains-reached :
      (root : Text) (us : List Text) (c : Text)
      → IsUniverse root us
      → Reach canonicalize metadata root c
      → contains us c ≡ true
  contains-reached root us c all here = all.has_root
  contains-reached root us c all (along {u} r e) =
      all.is_closed u c (contains-reached root us u all r) e

  follow_deps-fields :
      (root dir : Text) (t : Walk)
      → get dir t.graph ≡ deps_of canonicalize metadata dir
      → (length (follow_deps canonicalize metadata root dir t).queue
          ≡ length (targets canonicalize metadata dir) + length t.queue)
        × ((follow_deps canonicalize metadata root dir t).visited ≡ t.visited)
  unfolding follow_deps targets
  follow_deps-fields root dir t listed = elim (Option-cases (get dir t.graph)) [
    | inl e ↦ rw (follow_deps, e, targets, sym listed ∙ e) (omega arith, refl)
    | inr (deps, e) ↦
        rw (follow_deps, e, targets, sym listed ∙ e)
          (length-follow_queue root deps t, (follow-fields canonicalize metadata root deps t).0)
  ]

  abbrev cost : List Text → Walk → ℕ
  cost us s = length s.queue + pending s.visited us

  -- The body of the loop adds no work to what is left besides the directory that was popped.
  visit-cost :
      (root dir : Text) (us : List Text) (s t : Walk)
      → IsCoherent canonicalize metadata
      → contains us dir ≡ true
      → Keeps canonicalize metadata root (record s { queue = dir ∷ s.queue })
      → visit canonicalize metadata root dir s ≡ some t
      → cost us t ≤ cost us s
  unfolding visit
  visit-cost root dir us s t coherent member k done =
      let entered : Walk = record s { visited = dir ∷ s.visited } in
      elim (Bool-cases (contains s.visited dir)) [
        | inl e ↦
            subst (λ t. cost us t ≤ cost us s) (some_inj (rw (visit, e) at done)) (omega arith)
        | inr e ↦
            let less = pending-cons dir s.visited us member e in
            elim (Option-cases (load canonicalize metadata root dir entered)) [
              | inr (loaded, f) ↦
                  let (visited, queue, _, listed, _) =
                    load-IsLoaded canonicalize metadata root dir entered loaded coherent k.known
                      f in
                  let (long, same) = follow_deps-fields root dir loaded listed in
                  subst (λ t. cost us t ≤ cost us s) (some_inj (rw (visit, e, f) at done))
                    (rw (same ∙ visited) (omega (arith, long, ap length queue)))
              | inl f ↦ elim (Bool-cases (dir == root)) [
                | inl g ↦ absurd (none≢some (rw (visit, e, f, g) at done))
                | inr g ↦
                    subst (λ t. cost us t ≤ cost us s) (some_inj (rw (visit, e, f, g) at done))
                      (omega (arith, less))
              ]
            ]
      ]

  walk_from_ends :
      (root : Text) (us : List Text) (fuel : ℕ) (s : Walk)
      → IsCoherent canonicalize metadata
      → IsUniverse root us
      → Keeps canonicalize metadata root s
      → cost us s ≤ fuel
      → (out : Option Closure) × (walk_from canonicalize metadata root (suc fuel) s ≡ some out)
  unfolding walk_from
  walk_from_ends root us zero s coherent all k enough = elim (List-cases s.queue) [
    | inl e ↦ (
      some (record { dep_trees = s.dep_trees; workspace_roots = s.workspace_roots }),
      rw (walk_from, e) refl,
    )
    | inr (dir, rest, e) ↦ absurd (omega (arith, ap length e))
  ]
  walk_from_ends root us (suc fuel) s coherent all k enough = elim (List-cases s.queue) [
    | inl e ↦ (
      some (record { dep_trees = s.dep_trees; workspace_roots = s.workspace_roots }),
      rw (walk_from, e) refl,
    )
    | inr (dir, rest, e) ↦
        let popped : Walk = record s { queue = rest } in
        let k' : Keeps canonicalize metadata root (record popped { queue = dir ∷ rest }) =
          rw⁻¹ e k in
        elim (Option-cases (visit canonicalize metadata root dir popped)) [
          | inl f ↦ (none, rw (walk_from, e, f) refl)
          | inr (t, f) ↦
              let member =
                contains-reached root us dir all (k'.reached dir (contains-head dir rest)) in
              let less = visit-cost root dir us popped t coherent member k' f in
              let (out, ends) =
                walk_from_ends root us fuel t coherent all
                  (visit-Keeps canonicalize metadata root dir popped t coherent k' f)
                  (omega (arith, ap length e, less)) in
              (out, rw (walk_from, e, f) ends)
        ]
  ]

  -- Where the metadata agrees on each package and the trees that the root leads to are finitely many,
  -- in a cycle or not, the loop ends: one turn for each of their dependencies, one for the root and
  -- one to see that nothing is left are enough.
  pub local_closure_returns :
      (path root : Text) (us : List Text) (fuel : ℕ)
      → IsCoherent canonicalize metadata
      → canonicalize path ≡ some root
      → IsUniverse root us
      → pending [] us + 2 ≤ fuel
      → (out : Option Closure) × (local_closure canonicalize metadata fuel path ≡ some out)
  unfolding local_closure
  local_closure_returns path root us zero coherent e all enough = absurd (omega arith)
  local_closure_returns path root us (suc fuel) coherent e all enough =
      let (out, ends) =
        walk_from_ends root us fuel (begin canonicalize metadata root) coherent all
          (begin-Keeps canonicalize metadata root) (omega arith) in
      (out, rw (local_closure, e) ends)
