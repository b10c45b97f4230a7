-- ===== src/Engine/Layer/Progress.antt =====
-- The permits bound what runs.
use repolith.Prelude.{ℕ, ◌≤◌, ◌≡◌, false, some, List, arith}
use repolith.Types.{action_id_eq, Ctx, ExecMode}
use repolith.Engine.Layer.{Pending, Turn, LayerRun, drain, initial}
use repolith.Engine.Layer.Accounts.{weigh, charge, drain-Balances}

-- However a layer is driven, the actions that run at once and are no coordinators are at most as
-- many as the permits it began with, unless it has panicked.
pub drain-IsBounded :
    (mode : ExecMode) (ctx : Ctx) (pending : List Pending) (permits : ℕ) (schedule : List Turn)
    (r : LayerRun)
    → drain mode ctx schedule (initial pending permits) ≡ some r
    → r.panicked ≡ false
    → weigh charge r.running ≤ permits
drain-IsBounded mode ctx pending permits schedule r e fine =
    omega (arith, (drain-Balances mode ctx schedule (initial pending permits) r e fine).2)
