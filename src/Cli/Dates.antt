-- ===== src/Cli/Dates.antt =====
-- How long ago an action ran (crates/repolith-cli/src/main.rs).
pub mod Rounding
use repolith.Prelude.{
  ℕ, ◌+◌, ◌-◌, ◌/◌, Option, none, some, List, [], ◌∷◌, ◌++◌, ◌==◌, nat_eq, ltb, leb, if◌then◌else◌,
}
use repolith.Prelude.Texts.{Text, codes, decimal}

-- `now_ms`, from the milliseconds since the epoch where the clock can be read.
unfoldable pub now_ms : Option ℕ → ℕ
now_ms none = 0
now_ms (some ms) = if leb ms 18446744073709551615 then ms else 18446744073709551615

pub data Age : Type 0 where
  seconds minutes hours days : Age

-- The number and the unit of a number of seconds other than 0.
unfoldable pub age_of : (secs : ℕ) → ℕ × Age
age_of secs =
    if leb secs 89
    then (secs, seconds)
    else if leb secs 5399
    then ((secs + 30) / 60, minutes)
    else if leb secs 129599
    then ((secs + 1800) / 3600, hours)
    else ((secs + 43200) / 86400, days)

unfoldable pub unit_name : Age → Text
unfolding codes
unit_name seconds = codes "second"
unit_name minutes = codes "minute"
unit_name hours = codes "hour"
unit_name days = codes "day"

unfoldable pub ago : (secs : ℕ) → Text
unfolding age_of unit_name decimal codes
ago secs =
    if secs == 0
    then codes "just now"
    else let (n, unit) = age_of secs in
      decimal n
      ++ (codes " " ++ (unit_name unit ++ ((if n == 1 then [] else codes "s") ++ codes " ago")))

unfoldable pub human_ago : (now : ℕ) → (recorded_ms : ℕ) → Text
unfolding ago
human_ago now recorded_ms = ago ((now - recorded_ms) / 1000)
