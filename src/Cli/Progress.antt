-- ===== src/Cli/Progress.antt =====
-- What a sync prints while it works: crates/repolith-cli/src/progress.rs. A poisoned mutex is a flag;
-- `written` has the lines in order, each without its final newline; an instant is a number of
-- milliseconds.
pub mod Brief
pub mod Flight
pub mod Layers
use repolith.Prelude.{
  ℕ, suc, ◌+◌, ◌-◌, ◌/◌, ◌%◌, Bool, true, false, Option, none, some, List, [], ◌∷◌, ◌++◌, ◌==◌,
  nat_eq, ltb, leb, length, take, if◌then◌else◌,
}
use repolith.Prelude.Texts.{Text, codes, decimal}
use repolith.Prelude.Maps.{insert, remove, keys}
use repolith.Prelude.Sorting.{sort_by}
use repolith.Types.{
  ActionId, action_id_eq, BuildError, error_to_string, BuildEvent, success, failed,
}
use repolith.Plan.Reasons.{first_line}
use repolith.Engine.Layer.{
  Call, on_layer_start, on_layer_end, on_action_start, on_action_ok, on_action_failed,
  on_action_cancelled,
}

pub record CliProgress : Type 0 where
  pub written : List Text
  pub out_poisoned : Bool
  pub in_flight : List (ActionId × ℕ)
  pub map_poisoned : Bool

abbrev pub new : CliProgress
new = record { written = []; out_poisoned = false; in_flight = []; map_poisoned = false }

-- On a poisoned lock a newline comes first.
unfoldable pub line : Text → CliProgress → CliProgress
line s p = record p { written = p.written ++ (if p.out_poisoned then 10 ∷ s else s) ∷ [] }

unfoldable pub human_ms : ℕ → Text
unfolding decimal codes
human_ms ms =
    if ltb ms 1000
    then decimal ms ++ codes " ms"
    else if ltb ms 60000
    then decimal (ms / 1000) ++ (codes "." ++ (decimal (ms % 1000 / 100) ++ codes " s"))
    else decimal (ms / 60000) ++ (codes " min " ++ (decimal (ms % 60000 / 1000) ++ codes " s"))

-- A first line, cut after 72 characters.
unfoldable pub cut : Text → Text
unfolding codes
cut first =
    if ltb (length (take 72 first)) (length first)
    then take 72 first ++ codes "…"
    else take 72 first

unfoldable pub brief : BuildError → Text
unfolding first_line cut error_to_string
brief e = cut (first_line (error_to_string e))

-- `sort_by_key` with `Reverse`.
abbrev longest_first : ActionId × ℕ → ActionId × ℕ → Bool
longest_first a b = leb b.1 a.1

abbrev elapsed_all : (now : ℕ) → List (ActionId × ℕ) → List (ActionId × ℕ)
elapsed_all now [] = []
elapsed_all now ((i, start) ∷ m) = (i, now - start) ∷ elapsed_all now m

-- What is running, the longest first.
unfoldable pub snapshot : (now : ℕ) → CliProgress → Option (List (ActionId × ℕ))
unfolding sort_by
snapshot now p =
    if p.map_poisoned then none else some (sort_by longest_first (elapsed_all now p.in_flight))

unfoldable pub running_line : ActionId → (elapsed : ℕ) → Text
unfolding human_ms codes
running_line i elapsed =
    codes "  … still running: " ++ (i.name ++ (codes " (" ++ (human_ms elapsed ++ codes ")")))

unfoldable pub running_lines : List (ActionId × ℕ) → CliProgress → CliProgress
unfolding line running_line
running_lines [] p = p
running_lines ((i, elapsed) ∷ running) p = running_lines running (line (running_line i elapsed) p)

unfoldable pub tick : (now : ℕ) → CliProgress → CliProgress
unfolding snapshot running_lines
tick now p = elim (snapshot now p) [ none ↦ p | some running ↦ running_lines running p ]

unfoldable pub count_events : List BuildEvent → ℕ × ℕ
count_events [] = (0, 0)
count_events (success i input output ms ∷ events) =
    let (oks, failures) = count_events events in (suc oks, failures)
count_events (failed i input error ms ∷ events) =
    let (oks, failures) = count_events events in (oks, suc failures)

unfoldable pub failure_lines : List BuildEvent → CliProgress → CliProgress
unfolding line brief codes
failure_lines [] p = p
failure_lines (success i input output ms ∷ events) p = failure_lines events p
failure_lines (failed i input error ms ∷ events) p =
    failure_lines events (line (codes "  ✗ " ++ (i.name ++ (codes ": " ++ brief error))) p)

unfoldable pub summary : List BuildEvent → CliProgress → CliProgress
unfolding count_events failure_lines line decimal codes
summary events p =
    let (oks, failures) = count_events events in
    if oks + failures == 0
    then p
    else failure_lines events
        (line (decimal oks ++ (codes " ok, " ++ (decimal failures ++ codes " failed"))) p)

unfoldable pub forget : ActionId → CliProgress → CliProgress
unfolding remove
forget i p = if p.map_poisoned then p else record p { in_flight = remove i p.in_flight }

-- The first half of `on_action_start`.
unfoldable pub remember : (now : ℕ) → ActionId → CliProgress → CliProgress
unfolding insert
remember now i p = if p.map_poisoned then p else record p { in_flight = insert i now p.in_flight }

unfoldable pub vanished_lines : List ActionId → CliProgress → CliProgress
unfolding line codes
vanished_lines [] p = p
vanished_lines (i ∷ ids) p =
    vanished_lines ids (line (codes "  ⚠ " ++ (i.name ++ codes " — vanished without reporting")) p)

-- The line of a call, `on_layer_end` apart.
unfoldable pub call_line : Call → List Text
unfolding decimal human_ms brief codes
call_line (on_layer_start index total ids) =
    let n = length ids in
    (codes "layer "
      ++ (decimal index
          ++ (codes "/"
              ++ (decimal total
                  ++ (codes " — "
                      ++ (decimal n ++ (codes " action" ++ (if n == 1 then [] else codes "s"))))))))
    ∷ []
call_line (on_layer_end index) = []
call_line (on_action_start i) = (codes "  → " ++ i.name) ∷ []
call_line (on_action_ok i ms) = (codes "  ✓ " ++ (i.name ++ (codes "   " ++ human_ms ms))) ∷ []
call_line (on_action_failed i error ms) =
    (codes "  ✗ " ++ (i.name ++ (codes "   " ++ (human_ms ms ++ (codes " — " ++ brief error)))))
    ∷ []
call_line (on_action_cancelled i ms) =
    (codes "  ⊘ " ++ (i.name ++ (codes "   " ++ (human_ms ms ++ codes " — cancelled")))) ∷ []

abbrev pub lines_on : List Text → CliProgress → CliProgress
lines_on [] p = p
lines_on (s ∷ ss) p = lines_on ss (line s p)

-- The bookkeeping of a call, which comes before its line.
unfoldable pub settle_call : (now : ℕ) → Call → CliProgress → CliProgress
unfolding remember forget
settle_call now (on_layer_start index total ids) p = p
settle_call now (on_layer_end index) p = record p { in_flight = [] }
settle_call now (on_action_start i) p = remember now i p
settle_call now (on_action_ok i ms) p = forget i p
settle_call now (on_action_failed i error ms) p = forget i p
settle_call now (on_action_cancelled i ms) p = forget i p

abbrev pub vanished : Call → CliProgress → List ActionId
vanished (on_layer_end index) p = keys p.in_flight
vanished _ p = []

-- `impl ProgressSink for CliProgress`.
unfoldable pub show : (now : ℕ) → Call → CliProgress → CliProgress
unfolding settle_call call_line line vanished_lines
show now c p = vanished_lines (vanished c p) (lines_on (call_line c) (settle_call now c p))

-- The calls of a run, with the clock at each of them.
unfoldable pub replay : (now : ℕ → ℕ) → List Call → CliProgress → CliProgress
unfolding show
replay now [] p = p
replay now (c ∷ calls) p = replay (λ k. now (suc k)) calls (show (now 0) c p)
