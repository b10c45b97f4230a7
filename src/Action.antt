-- ===== src/Action.antt =====
-- The action trait: crates/repolith-core/src/action.rs. An action is the answers that its methods
-- give in the run at hand; what they do outside the process is part of those answers.
use repolith.Prelude.{Bool, List, Result}
use repolith.Types.{ActionId, Sha256, Ctx, BuildError, BuildOutput}

pub record Action : Type 0 where
  pub id : ActionId
  pub deps : List ActionId
  pub input_hash : Ctx → Result BuildError Sha256
  pub execute : Ctx → Result BuildError BuildOutput
  pub is_coordinator : Bool
  pub output_present : Ctx → Bool
