-- ===== src/Cli/Dates/Rounding.antt =====
-- An age is rounded to its unit.
use repolith.Prelude.{ℕ, ◌+◌, ◌*◌, ◌≤◌, arith, leb, inl, inr, Bool-cases}
use repolith.Cli.Dates.{Age, seconds, minutes, hours, days, age_of}

abbrev pub seconds_in : Age → ℕ
seconds_in seconds = 1
seconds_in minutes = 60
seconds_in hours = 3600
seconds_in days = 86400

-- The numbers that are shown with a unit.
abbrev pub IsShown : ℕ → Age → Type 0
IsShown n seconds = (1 ≤ n) × (n ≤ 89)
IsShown n minutes = (2 ≤ n) × (n ≤ 90)
IsShown n hours = (2 ≤ n) × (n ≤ 36)
IsShown n days = 2 ≤ n

-- An age is the nearest number of its unit, off by at most half of one, and never a single minute,
-- hour or day, nor more than 90 minutes or 36 hours.
pub age_of-IsRounded :
    (secs : ℕ)
    → 1 ≤ secs
    → (2 * ((age_of secs).0 * seconds_in (age_of secs).1) ≤ 2 * secs + seconds_in (age_of secs).1)
      × (2 * secs ≤ 2 * ((age_of secs).0 * seconds_in (age_of secs).1) + seconds_in (age_of secs).1)
      × IsShown (age_of secs).0 (age_of secs).1
unfolding age_of
age_of-IsRounded secs h = elim (Bool-cases (leb secs 89)) [
  | inl a ↦ rw (age_of, a) (omega arith, omega arith, (h, ground arith))
  | inr a ↦ elim (Bool-cases (leb secs 5399)) [
    | inl b ↦ rw (age_of, a, b) (omega arith, omega arith, (ground arith, ground arith))
    | inr b ↦ elim (Bool-cases (leb secs 129599)) [
      | inl c ↦ rw (age_of, a, b, c) (omega arith, omega arith, (ground arith, ground arith))
      | inr c ↦ rw (age_of, a, b, c) (omega arith, omega arith, ground arith)
    ]
  ]
]
