-- ===== src/Cache/Sqlite/Contract.antt =====
-- What the code relies on of `rusqlite`, `hex` and `serde_json`.
use repolith.Prelude.{
  ℕ, ◌≡◌, ◌<◌, Option, some, List, ok, err, panic, ◌==◌, All, if◌then◌else◌, nat_eq, list_eq,
}
use repolith.Prelude.Texts.{Text}
use repolith.Types.{BuildError}
use repolith.Cache.Sqlite.{Row, Driver}

-- `saved` is what a transaction goes back to.
pub record IsDriver {W T : Type 0} (d : Driver W T) (saved : T → Text → Option Row) : Type 0 where
  -- The key is unique: a row replaces the one of its key. A statement that fails changes nothing.
  pub inserted :
      (key : Text) (row : Row) (w : W) (k : Text)
      → (d.insert_or_replace key row w).0 ≡ ok tt
      → d.query_row (d.insert_or_replace key row w).1 k
        ≡ (if key == k then some row else d.query_row w k)
  pub refused :
      (key : Text) (row : Row) (w : W) (e k : Text)
      → (d.insert_or_replace key row w).0 ≡ err e
      → d.query_row (d.insert_or_replace key row w).1 k ≡ d.query_row w k
  -- A transaction goes back to the rows at its beginning.
  pub began : (w : W) (tx : T) → (d.transaction w).0 ≡ ok tx → saved tx ≡ d.query_row w
  pub begun : (w : W) → d.query_row (d.transaction w).1 ≡ d.query_row w
  pub committed :
      (tx : T) (w : W) → (d.commit tx w).0 ≡ ok tt → d.query_row (d.commit tx w).1 ≡ d.query_row w
  pub rolled_back : (tx : T) (w : W) → d.query_row (d.rollback tx w) ≡ saved tx
  -- The statements return, so they leave the mutex as it is.
  pub insert_panics :
      (key : Text) (row : Row) (w : W) → (d.insert_or_replace key row w).0 ≡ panic → ⊥
  pub transaction_panics : (w : W) → (d.transaction w).0 ≡ panic → ⊥
  pub commit_panics : (tx : T) (w : W) → (d.commit tx w).0 ≡ panic → ⊥
  pub to_string_panics : (error : BuildError) → d.to_string error ≡ panic → ⊥
  pub insert_poisons :
      (key : Text) (row : Row) (w : W)
      → d.is_poisoned (d.insert_or_replace key row w).1 ≡ d.is_poisoned w
  pub transaction_poisons : (w : W) → d.is_poisoned (d.transaction w).1 ≡ d.is_poisoned w
  pub commit_poisons : (tx : T) (w : W) → d.is_poisoned (d.commit tx w).1 ≡ d.is_poisoned w
  pub rollback_poisons : (tx : T) (w : W) → d.is_poisoned (d.rollback tx w) ≡ d.is_poisoned w
  -- What is encoded is decoded.
  pub decodes : (bytes : List ℕ) → All (λ b. b < 256) bytes → d.decode (d.encode bytes) ≡ some bytes
  pub parses :
      (error : BuildError) (s : Text) → d.to_string error ≡ ok s → d.from_str s ≡ some error
