-- ===== src/Actions.antt =====
-- The actions that call subprocesses: crates/repolith-actions. `W` is the state of the machine.
pub mod Cargo
pub mod Git
pub mod Docker
use repolith.Prelude.{
  ℕ, suc, Bool, true, false, Option, none, some, List, [], ◌∷◌, Result, ok, err, panic,
}
use repolith.Prelude.Texts.{Text}
use repolith.Prelude.Int.{ℤ, negsuc}
use repolith.Types.{BuildError, command_failed}
use repolith.Sources.{Output}

-- What runs outside of the process. `run` is `run_with_cancel` on an argument vector; `trimmed` is
-- `String::from_utf8_lossy(..).trim()`.
pub record Machine (W : Type 0) : Type 0 where
  pub run : List Text → W → Result BuildError Output × W
  pub read : W → Text → Result Text (List ℕ)
  pub exists : W → Text → Bool
  pub is_dir : W → Text → Bool
  pub is_file : W → Text → Bool
  pub create_dir_all : Text → W → Result Text (Unit {0}) × W
  pub join : Text → Text → Text
  pub parent : Text → Option Text
  pub trimmed : List ℕ → Text

-- A fallible step that may change the machine.
abbrev pub Step : Type 0 → Type 0 → Type 0
Step W A = W → Result BuildError A × W

unfoldable pub then_step : {W A B : Type 0} → Step W A → (A → Step W B) → Step W B
then_step m f w =
    let (r, w') = m w in elim r [ ok a ↦ f a w' | err e ↦ (err e, w') | panic ↦ (panic, w') ]

unfoldable pub done : {W A : Type 0} → Result BuildError A → Step W A
done r w = (r, w)

abbrev code_or : Option ℤ → ℤ
code_or none = negsuc 0
code_or (some code) = code

-- `check_status` of util.rs.
unfoldable pub check_status : (trimmed : List ℕ → Text) → Output → Result BuildError (Unit {0})
check_status trimmed out = elim out.success [
  | true ↦ ok tt
  | false ↦ err (command_failed (code_or out.code) (trimmed out.stderr))
]

-- `check_status(&run_with_cancel(cmd, &ctx.cancel).await?)?`.
unfoldable pub run_checked : {W : Type 0} → Machine W → List Text → Step W (Unit {0})
unfolding then_step done check_status
run_checked m argv = then_step (m.run argv) (λ out. done (check_status m.trimmed out))
