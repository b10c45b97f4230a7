-- ===== src/Examples/Reasons.antt =====
-- Reasons for single actions.
use repolith.Prelude.{
  ℕ, ◌≤◌, ◌≡◌, ◌↔◌, refl, true, false, Option, none, some, List, [], ◌∷◌, All, length, contains,
  list_beq,
}
use repolith.Prelude.Texts.{Text}
use repolith.Types.{action_id_eq, sha_beq, BuildEvent, success}
use repolith.Plan.Reasons.{previous_failure, output_missing, classify, reason_to_string}
use repolith.Plan.Reasons.Laws.{
  IsBuilt, Says, IsOneLine, classify-eq-none_iff, classify-Says, previous_failure_cell,
}
use repolith.Examples.{clone_id, install_id, digest, install}

abbrev built : Option BuildEvent
built = some (success install_id digest digest 7)

classify-eq-none_iff_example : (classify install digest built (clone_id ∷ []) true false ≡ none) ↔ (
    (false ≡ false)
    × IsBuilt digest built
    × (true ≡ true)
    × All (λ d. contains (clone_id ∷ []) d ≡ false) install.deps)
classify-eq-none_iff_example = classify-eq-none_iff install digest built (clone_id ∷ []) true false

classify-missing : classify install digest built [] false false ≡ some output_missing
unfolding classify list_beq sha_beq
classify-missing = refl

classify-Says_example : Says install digest built [] false false output_missing
classify-Says_example =
    classify-Says install digest built [] false false output_missing classify-missing

abbrev nothing : List ℕ → Text
nothing bytes = []

previous_failure_cell_example :
    IsOneLine (reason_to_string nothing (previous_failure (b'a' ∷ 10 ∷ b'b' ∷ [])))
    × (length (reason_to_string nothing (previous_failure (b'a' ∷ 10 ∷ b'b' ∷ []))) ≤ 96)
previous_failure_cell_example = previous_failure_cell nothing (b'a' ∷ 10 ∷ b'b' ∷ [])
