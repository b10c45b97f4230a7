-- ===== src/Cli/Sync/Forced.antt =====
-- Which actions `--force` forces.
use repolith.Prelude.{
  ◌≡◌, ◌≢◌, refl, ap, ◌∙◌, inl, inr, Bool, true, false, Option, none, some, List, [], ◌∷◌, All,
  All-of_contains, Result, ok, err, panic, keep, is_empty, not, ◌&&◌, contains, arith, Bool-cases,
  ==-cases, nat_eq,
}
use repolith.Prelude.Maps.{distinct, contains-distinct}
use repolith.Prelude.Texts.{Text}
use repolith.Types.{ActionId, action_id_eq}
use repolith.Action.{Action}
use repolith.Cli.Sync.{SyncError, no_match, has_text, ids_of, resolve_forced}

abbrev pub is_wanted : Option Text → ActionId → Bool
is_wanted none i = false
is_wanted (some filter) i = has_text filter i.name

abbrev pub asks_for_some : Option Text → Bool
asks_for_some none = false
asks_for_some (some filter) = not (is_empty filter)

-- What a filter resolves to.
abbrev pub Resolves : List Action → Option Text → Result SyncError (List ActionId) → Type 0
Resolves actions filter (ok forced) =
    ((i : ActionId) → contains forced i ≡ (contains (ids_of actions) i && is_wanted filter i))
    × ((is_empty forced && asks_for_some filter) ≡ false)
Resolves actions filter (err e) =
    (f : Text) × (filter ≡ some f)
    × (e ≡ no_match f)
    × (f ≢ [])
    × All (λ i. has_text f i.name ≡ false) (ids_of actions)
Resolves actions filter panic = ⊥

contains-keep :
    (p : ActionId → Bool) (xs : List ActionId) (i : ActionId)
    → contains (keep p xs) i ≡ (contains xs i && p i)
unfolding keep contains
contains-keep p [] i = refl
contains-keep p (x ∷ xs) i = elim (==-cases x i) [
  | inl (t, same) ↦ elim (Bool-cases (p x)) [
    | inl y ↦ ground (arith, contains-keep p xs i, ap p same)
    | inr n ↦ ground (arith, contains-keep p xs i, ap p same)
  ]
  | inr (f, other) ↦ ground (arith, contains-keep p xs i)
]

contains_of_empty : (xs : List ActionId) (i : ActionId) → is_empty xs ≡ true → contains xs i ≡ false
unfolding contains
contains_of_empty [] i h = refl
contains_of_empty (x ∷ xs) i h = cc

-- The forced actions are the registered ones whose id has the filter in it, all of them for an empty
-- filter and none without one; with a filter that is not empty there is at least one, and when no id
-- has the filter it is an error, never an empty answer.
pub resolve_forced-Resolves :
    (actions : List Action) (filter : Option Text)
    → Resolves actions filter (resolve_forced actions filter)
unfolding resolve_forced contains
resolve_forced-Resolves actions none = (λ i. ground arith, refl)
resolve_forced-Resolves actions (some f) =
    let wanted = keep (λ i. has_text f i.name) (ids_of actions) in
    let found : (i : ActionId)
        → contains (distinct wanted) i ≡ (contains (ids_of actions) i && has_text f i.name) =
      λ i. contains-distinct wanted i ∙ contains-keep (λ i. has_text f i.name) (ids_of actions) i in
    elim (Bool-cases (is_empty (distinct wanted) && not (is_empty f))) [
      | inl t ↦
          rw (resolve_forced, t)
            (
              f,
              refl,
              refl,
              (λ e. ground (arith, ap is_empty e)),
              All-of_contains (λ i. has_text f i.name ≡ false) (ids_of actions)
                  λ i m. ground (arith, found i, contains_of_empty (distinct wanted) i),
            )
      | inr n ↦ rw (resolve_forced, n) (found, n)
    ]
