-- ===== src/Cli/Progress/Brief.antt =====
-- An error on one short line.
use repolith.Prelude.{
  ◌≡◌, refl, ◌≢◌, ◌≤◌, All-append, inl, inr, arith, length, take, ltb, Bool-cases, length-append,
  length-take-le,
}
use repolith.Prelude.Texts.{Text, codes}
use repolith.Types.{BuildError, error_to_string}
use repolith.Plan.Reasons.{first_line}
use repolith.Plan.Reasons.Laws.{IsOneLine, first_line-IsOneLine, take-IsOneLine}
use repolith.Cli.Progress.{cut, brief}

ellipsis-IsOneLine : IsOneLine (codes "…")
unfolding codes
ellipsis-IsOneLine = omega arith

length-ellipsis : length (codes "…") ≡ 1
unfolding codes
length-ellipsis = refl

cut-IsShort : (s : Text) → IsOneLine s → IsOneLine (cut s) × (length (cut s) ≤ 73)
unfolding cut
cut-IsShort s h =
    let kept = take-IsOneLine 72 s h in
    let short = length-take-le 72 s in
    elim (Bool-cases (ltb (length (take 72 s)) (length s))) [
      | inl is_cut ↦
          rw (cut, is_cut)
            (
              All-append (λ c. c ≢ 10) (take 72 s) (codes "…") kept ellipsis-IsOneLine,
              omega (arith, length-append (take 72 s) (codes "…"), length-ellipsis, short),
            )
      | inr is_whole ↦ rw (cut, is_whole) (kept, omega (arith, short))
    ]

-- Whatever the error says, it is shown on one line of at most 73 characters.
pub brief-IsShort : (e : BuildError) → IsOneLine (brief e) × (length (brief e) ≤ 73)
unfolding brief
brief-IsShort e =
    cut-IsShort (first_line (error_to_string e)) (first_line-IsOneLine (error_to_string e))
