-- ===== src/Examples/Syncing.antt =====
-- A filter that neither of two actions has, and an age.
use repolith.Prelude.{◌+◌, ◌*◌, ◌≤◌, some, [], ◌∷◌, arith}
use repolith.Cli.Sync.{resolve_forced}
use repolith.Cli.Sync.Forced.{Resolves, resolve_forced-Resolves}
use repolith.Cli.Dates.{age_of}
use repolith.Cli.Dates.Rounding.{seconds_in, IsShown, age_of-IsRounded}
use repolith.Examples.{both}

resolve_forced-Resolves_example :
    Resolves both (some (b'z' ∷ [])) (resolve_forced both (some (b'z' ∷ [])))
resolve_forced-Resolves_example = resolve_forced-Resolves both (some (b'z' ∷ []))

-- 5,380 seconds are shown as 90 minutes.
age_of-IsRounded_example :
    (2 * ((age_of 5380).0 * seconds_in (age_of 5380).1) ≤ 2 * 5380 + seconds_in (age_of 5380).1)
    × (2 * 5380 ≤ 2 * ((age_of 5380).0 * seconds_in (age_of 5380).1) + seconds_in (age_of 5380).1)
    × IsShown (age_of 5380).0 (age_of 5380).1
age_of-IsRounded_example = age_of-IsRounded 5380 (omega arith)
