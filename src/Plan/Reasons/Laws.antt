-- ===== src/Plan/Reasons/Laws.antt =====
-- When an action is stale, and what the reason for it says.
use repolith.Prelude.{
  ℕ, ◌≤◌, ◌≡◌, ◌≢◌, ◌↔◌, inl, inr, refl, Bool, true, false, Option, none, some, List, [], ◌∷◌, ◌++◌,
  All, length, length-append, take, find, All-of_find, find_of_All, find_congr, length-take-le,
  ==_iff, nat_eq, contains, ltb, if◌then◌else◌, arith, none≢some, ==-cases, zero, suc, subst,
  some_inj, All-append, Option-cases, Bool-cases,
}
use repolith.Prelude.Texts.{Text, codes}
use repolith.Types.{
  ActionId, action_id_eq, Sha256, sha256_eq, BuildEvent, success, failed, BuildError,
  error_to_string,
}
use repolith.Action.{Action}
use repolith.Plan.Reasons.{
  ChangeReason, no_cached_build, input_hash_changed, upstream_moved, output_missing,
  previous_failure, forced, first_line, failure_cell, reason_to_string, moved, classify_event,
  classify,
}

fresh_iff :
    (stale deps : List ActionId)
    → (moved (find (contains stale) deps) ≡ none) ↔ All (λ d. contains stale d ≡ false) deps
unfolding moved
fresh_iff stale deps = (
  λ e. All-of_find (contains stale) deps (ground arith),
  λ h. rw (find_of_All (contains stale) deps h),
)

-- The cache holds a success for the inputs at hand.
abbrev pub IsBuilt : Sha256 → Option BuildEvent → Type 0
IsBuilt now none = ⊥
IsBuilt now (some (failed id input error ms)) = ⊥
IsBuilt now (some (success id input output ms)) = input ≡ now

-- An action is up to date exactly when it is not forced, the cache holds a success for the inputs
-- at hand, the artifact is there, and no dependency is stale.
pub classify-eq-none_iff :
    (action : Action) (now : Sha256) (last : Option BuildEvent) (stale : List ActionId)
    (present force : Bool)
    → (classify action now last stale present force ≡ none) ↔ (
        (force ≡ false)
        × IsBuilt now last
        × (present ≡ true)
        × All (λ d. contains stale d ≡ false) action.deps)
unfolding classify
classify-eq-none_iff action now last stale present true = ground arith
classify-eq-none_iff action now none stale present false = ground arith
classify-eq-none_iff action now (some (failed id input error ms)) stale present false = ground arith
classify-eq-none_iff action now (some (success id input output ms)) stale present false =
    ground (arith, ==_iff input now, fresh_iff stale action.deps)

-- What each reason says of the action that it is given for.
abbrev pub Says :
    Action
    → Sha256
    → Option BuildEvent
    → List ActionId
    → (present force : Bool) → ChangeReason
    → Type 0
Says action now last stale present force forced = force ≡ true
Says action now last stale present force no_cached_build = (force ≡ false) × (last ≡ none)
Says action now last stale present force (previous_failure text) =
    (force ≡ false)
    × ((id : ActionId) × (input : Sha256) × (error : BuildError) × (ms : ℕ) × (last
          ≡ some (failed id input error ms))
        × (text ≡ error_to_string error))
Says action now last stale present force (input_hash_changed before after) =
    (force ≡ false)
    × (after ≡ now)
    × (before ≢ after)
    × ((id : ActionId) × (output : Sha256) × (ms : ℕ) × (last ≡ some (success id before output ms)))
Says action now last stale present force output_missing =
    (force ≡ false) × IsBuilt now last × (present ≡ false)
Says action now last stale present force (upstream_moved dep) =
    (force ≡ false)
    × IsBuilt now last
    × (present ≡ true)
    × (contains action.deps dep ≡ true)
    × (contains stale dep ≡ true)

find_member :
    (stale deps : List ActionId) (d : ActionId)
    → find (contains stale) deps ≡ some d
    → (contains deps d ≡ true) × (contains stale d ≡ true)
unfolding find contains
find_member stale [] d e = cc
find_member stale (x ∷ deps) d e = elim (Bool-cases (contains stale x)) [
  | inl here ↦
      let same : x ≡ d = some_inj (rw here at e) in (ground (arith, ==_iff x d), rw (← same) here)
  | inr later ↦
      let (m, is_stale) = find_member stale deps d (rw later at e) in (ground arith, is_stale)
]

moved_says :
    (stale deps : List ActionId) (r : ChangeReason)
    → moved (find (contains stale) deps) ≡ some r
    → (d : ActionId) × (upstream_moved d ≡ r) × (contains deps d ≡ true) × (contains stale d ≡ true)
unfolding moved
moved_says stale deps r e = elim (Option-cases (find (contains stale) deps)) [
  | inl q ↦ absurd (none≢some (rw (q, moved) at e))
  | inr (d, q) ↦
      let (m, is_stale) = find_member stale deps d q in
      (d, some_inj (rw (q, moved) at e), m, is_stale)
]

success-Says :
    (action : Action) (now : Sha256) (id : ActionId) (input output : Sha256) (ms : ℕ)
    (stale : List ActionId) (present : Bool) (r : ChangeReason)
    → classify_event action now stale present (success id input output ms) ≡ some r
    → Says action now (some (success id input output ms)) stale present false r
unfolding classify_event
success-Says action now id input output ms stale true r e = elim (==-cases input now) [
  | inl (test, same) ↦
      let (d, is_r, m, is_stale) = moved_says stale action.deps r (rw test at e) in
      subst (Says action now (some (success id input output ms)) stale true false) is_r
        (refl, same, refl, m, is_stale)
  | inr (test, other) ↦
      subst (Says action now (some (success id input output ms)) stale true false)
        (some_inj (rw test at e)) (refl, refl, other, (id, output, ms, refl))
]
success-Says action now id input output ms stale false r e = elim (==-cases input now) [
  | inl (test, same) ↦
      subst (Says action now (some (success id input output ms)) stale false false)
        (some_inj (rw test at e)) (refl, same, refl)
  | inr (test, other) ↦
      subst (Says action now (some (success id input output ms)) stale false false)
        (some_inj (rw test at e)) (refl, refl, other, (id, output, ms, refl))
]

-- The reason that an action is given is true of it.
pub classify-Says :
    (action : Action) (now : Sha256) (last : Option BuildEvent) (stale : List ActionId)
    (present force : Bool) (r : ChangeReason)
    → classify action now last stale present force ≡ some r
    → Says action now last stale present force r
unfolding classify
classify-Says action now last stale present true r e =
    subst (Says action now last stale present true) (some_inj e) refl
classify-Says action now none stale present false r e =
    subst (Says action now none stale present false) (some_inj e) (refl, refl)
classify-Says action now (some (failed id input error ms)) stale present false r e =
    subst (Says action now (some (failed id input error ms)) stale present false) (some_inj e)
      (refl, (id, input, error, ms, refl, refl))
classify-Says action now (some (success id input output ms)) stale present false r e =
    success-Says action now id input output ms stale present r e

-- A text on one line.
abbrev pub IsOneLine : Text → Type 0
IsOneLine s = All (λ c. c ≢ 10) s

pub first_line-IsOneLine : (s : Text) → IsOneLine (first_line s)
unfolding first_line
first_line-IsOneLine [] = tt
first_line-IsOneLine (c ∷ s) = ground (arith, first_line-IsOneLine s)

pub take-IsOneLine : (n : ℕ) (s : Text) → IsOneLine s → IsOneLine (take n s)
take-IsOneLine zero s h = tt
take-IsOneLine (suc n) [] h = tt
take-IsOneLine (suc n) (c ∷ s) h = (h.0, take-IsOneLine n s h.1)

abbrev prefix : Text
prefix = codes "previous run failed: "

prefix-IsOneLine : IsOneLine prefix
unfolding codes
prefix-IsOneLine = omega arith

length-prefix : length prefix ≡ 21
unfolding codes
length-prefix = refl

dots-IsOneLine : IsOneLine (codes "...")
unfolding codes
dots-IsOneLine = omega arith

length-dots : length (codes "...") ≡ 3
unfolding codes
length-dots = refl

failure_cell-IsOneLine : (first : Text) → IsOneLine first → IsOneLine (failure_cell first)
unfolding failure_cell
failure_cell-IsOneLine first h =
    let trimmed = take 72 first in
    let cell =
      All-append (λ c. c ≢ 10) prefix trimmed prefix-IsOneLine (take-IsOneLine 72 first h) in
    elim (Bool-cases (ltb (length trimmed) (length first))) [
      | inl cut ↦
          rw cut (All-append (λ c. c ≢ 10) (prefix ++ trimmed) (codes "...") cell dots-IsOneLine)
      | inr whole ↦ rw whole cell
    ]

length_cell_le :
    (trimmed first : Text)
    → length trimmed ≤ 72
    → length (
        if ltb (length trimmed) (length first)
        then (prefix ++ trimmed) ++ codes "..."
        else prefix ++ trimmed)
      ≤ 96
length_cell_le trimmed first h =
    let whole = length-append prefix trimmed in
    let cut = length-append (prefix ++ trimmed) (codes "...") in
    elim (Bool-cases (ltb (length trimmed) (length first))) [
      | inl is_cut ↦ rw is_cut (omega (arith, whole, cut, length-prefix, length-dots))
      | inr is_whole ↦ rw is_whole (omega (arith, whole, length-prefix))
    ]

length-failure_cell-le : (first : Text) → length (failure_cell first) ≤ 96
unfolding failure_cell
length-failure_cell-le first = length_cell_le (take 72 first) first (length-take-le 72 first)

-- The cell for a recorded failure is one line of at most 96 characters, whatever the error text.
pub previous_failure_cell :
    (encode : List ℕ → Text) (error : Text)
    → IsOneLine (reason_to_string encode (previous_failure error))
      × (length (reason_to_string encode (previous_failure error)) ≤ 96)
unfolding reason_to_string
previous_failure_cell encode error = (
  failure_cell-IsOneLine (first_line error) (first_line-IsOneLine error),
  length-failure_cell-le (first_line error),
)

-- Only the staleness of the action's own dependencies counts.
pub classify_congr :
    (action : Action) (now : Sha256) (last : Option BuildEvent) (stale stale' : List ActionId)
    (present force : Bool)
    → All (λ d. contains stale d ≡ contains stale' d) action.deps
    → classify action now last stale present force ≡ classify action now last stale' present force
unfolding classify
classify_congr action now last stale stale' present true h = refl
classify_congr action now none stale stale' present false h = refl
classify_congr action now (some (failed id input error ms)) stale stale' present false h = refl
classify_congr action now (some (success id input output ms)) stale stale' present false h =
    ground (arith, find_congr (contains stale) (contains stale') action.deps h)
