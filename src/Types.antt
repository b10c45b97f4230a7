-- ===== src/Types.antt =====
-- The data that the crates share: crates/repolith-core/src/types.rs.
-- Texts are lists of code points, a path is its text, and an `i32` is an integer.
use repolith.Prelude.{
  ℕ, ◌≡◌, ◌↔◌, Bool, true, false, Option, List, ◌++◌, Eq, list_beq, list_beq_iff, nat_eq, arith,
  take,
}
use repolith.Prelude.Texts.{Text, codes}
use repolith.Prelude.Int.{ℤ, decimal_int}

pub record ActionId : Type 0 where
  pub name : Text

unfoldable pub id_beq : ActionId → ActionId → Bool
id_beq a b = list_beq a.name b.name

pub id_beq_iff : (a b : ActionId) → (id_beq a b ≡ true) ↔ (a ≡ b)
unfolding id_beq
id_beq_iff a b = ground (arith, list_beq_iff a.name b.name)

instance abbrev pub action_id_eq : Eq ActionId
action_id_eq = record { beq = id_beq; beq_iff = id_beq_iff }

-- A digest, as its bytes.
pub record Sha256 : Type 0 where
  pub bytes : List ℕ

unfoldable pub sha_beq : Sha256 → Sha256 → Bool
sha_beq a b = list_beq a.bytes b.bytes

pub sha_beq_iff : (a b : Sha256) → (sha_beq a b ≡ true) ↔ (a ≡ b)
unfolding sha_beq
sha_beq_iff a b = ground (arith, list_beq_iff a.bytes b.bytes)

instance abbrev pub sha256_eq : Eq Sha256
sha256_eq = record { beq = sha_beq; beq_iff = sha_beq_iff }

-- `Sha256::short`; `encode` is `hex::encode`.
unfoldable pub short : (encode : List ℕ → Text) → Sha256 → Text
short encode h = encode (take 4 h.bytes)

-- The token as the code observes it: the answer to its n-th poll, and whether it wins the race
-- against the pending probe or subprocess of an action.
pub record CancellationToken : Type 0 where
  pub is_cancelled : ℕ → Bool
  pub wins_race : ActionId → Bool

pub record Ctx : Type 0 where
  pub cancel : CancellationToken
  pub workdir : Text
  pub env : List (Text × Text)

pub data ExecMode : Type 0 where
  fail_fast keep_going : ExecMode

pub data BuildError : Type 0 where
  upstream_unreachable : Text → BuildError
  command_failed : (exit_code : ℤ) (stderr : Text) → BuildError
  io : Text → BuildError
  cancelled : BuildError

-- `BuildError`'s `Display`.
unfoldable pub error_to_string : BuildError → Text
unfolding codes decimal_int
error_to_string (upstream_unreachable s) = codes "upstream unreachable: " ++ s
error_to_string (command_failed code stderr) =
    codes "command failed (exit " ++ (decimal_int code ++ (codes "): " ++ stderr))
error_to_string (io s) = codes "io: " ++ s
error_to_string cancelled = codes "build cancelled"

pub record BuildOutput : Type 0 where
  pub output_hash : Sha256
  pub stdout : Text

pub data BuildEvent : Type 0 where
  success : (id : ActionId) (input output : Sha256) (ms : ℕ) → BuildEvent
  failed : (id : ActionId) (input : Sha256) (error : BuildError) (ms : ℕ) → BuildEvent

abbrev pub event_id : BuildEvent → ActionId
event_id (success id input output ms) = id
event_id (failed id input error ms) = id

-- `matches!(e, BuildEvent::Failed { .. })`.
abbrev pub is_failed : BuildEvent → Bool
is_failed (success id input output ms) = false
is_failed (failed id input error ms) = true

pub record BuildRecord : Type 0 where
  pub event : BuildEvent
  pub recorded_at : Option ℕ
