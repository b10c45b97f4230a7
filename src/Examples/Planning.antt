-- ===== src/Examples/Planning.antt =====
-- Two actions put into layers and planned.
use repolith.Prelude.{
  ℕ, ◌<◌, ◌≡◌, ◌↔◌, refl, true, false, none, some, List, [], ◌∷◌, All, ok, contains, list_beq,
  ==_iff, ◌==◌, arith, inl, inr, Bool-cases, subst,
}
use repolith.Prelude.Maps.{adjust, insert, remove, get, IsNodup}
use repolith.Types.{ActionId, id_beq, action_id_eq, Sha256}
use repolith.Action.{Action}
use repolith.Plan.Layers.{ids_of, layers_of}
use repolith.Plan.Layers.Graph.{depends_on}
use repolith.Plan.Layers.Extract.{flat_topo}
use repolith.Plan.Layers.Order.{IsOrdered, layers_of-IsOrdered, layers_of-IsNodup}
use repolith.Plan.Layers.Errors.{IsAcyclic, Means, layers_of_of_IsAcyclic, layers_of-Means}
use repolith.Plan.Reasons.Laws.{IsBuilt}
use repolith.Plan.Compute.{Plan, by_id_of, compute_with_forced}
use repolith.Plan.Compute.Stale.{
  IsJustified, compute_with_forced-IsJustified, compute_with_forced-up_to_date_iff,
}
use repolith.Plan.Compute.Returns.{compute_with_forced_returns}
use repolith.Examples.{clone_id, install_id, digest, both, quiet, memory, fresh_plan}

abbrev layers : List (List ActionId)
layers = (clone_id ∷ []) ∷ (install_id ∷ []) ∷ []

layers_of-both : layers_of both ≡ ok layers
unfolding layers_of contains id_beq list_beq adjust get insert remove
layers_of-both = refl

pub compute-both : compute_with_forced memory [] both quiet [] ≡ ok fresh_plan
unfolding compute_with_forced contains id_beq list_beq adjust get insert remove
compute-both = refl

install-planned : contains (flat_topo fresh_plan.layers) install_id ≡ true
unfolding contains id_beq list_beq
install-planned = refl

abbrev rank : ActionId → ℕ
rank x = elim (x == install_id) [ true ↦ 1 | false ↦ 0 ]

both-IsAcyclic : IsAcyclic rank both
unfolding depends_on contains id_beq list_beq
both-IsAcyclic x d h = elim (Bool-cases (install_id == x)) [
  | inl t ↦
      subst (λ y. (contains (ids_of both) d ≡ true) × (rank d < rank y)) ((==_iff install_id x).0 t)
        (subst (λ e. (contains (ids_of both) e ≡ true) × (rank e < 1))
          ((==_iff clone_id d).0 (ground arith)) (refl, omega arith))
  | inr f ↦ absurd (ground arith)
]

layers_of-IsOrdered_example : IsOrdered both [] layers
layers_of-IsOrdered_example = layers_of-IsOrdered both layers layers_of-both

layers_of-IsNodup_example :
    IsNodup (flat_topo layers)
    × ((x : ActionId) → contains (flat_topo layers) x ≡ contains (ids_of both) x)
layers_of-IsNodup_example = layers_of-IsNodup both layers layers_of-both

layers_of-Means_example : Means both (layers_of both)
layers_of-Means_example = layers_of-Means both

layers_of_of_IsAcyclic_example : (ls : List (List ActionId)) × (layers_of both ≡ ok ls)
layers_of_of_IsAcyclic_example = layers_of_of_IsAcyclic rank both both-IsAcyclic

compute_with_forced-IsJustified_example : IsJustified memory [] quiet [] both fresh_plan install_id
compute_with_forced-IsJustified_example =
    compute_with_forced-IsJustified memory [] quiet [] both fresh_plan install_id compute-both
      install-planned

compute_with_forced-up_to_date_iff_example :
    (a : Action) × (now : Sha256) × (get install_id (by_id_of both) ≡ some a)
    × (a.input_hash quiet ≡ ok now)
    × (get install_id fresh_plan.input_hashes ≡ some now)
    × ((get install_id fresh_plan.reasons ≡ none) ↔ (
        (contains [] install_id ≡ false)
        × IsBuilt now (memory.last_build [] install_id)
        × (a.output_present quiet ≡ true)
        × All (λ d. get d fresh_plan.reasons ≡ none) a.deps))
compute_with_forced-up_to_date_iff_example =
    compute_with_forced-up_to_date_iff memory [] quiet [] both fresh_plan install_id compute-both
      install-planned

compute_with_forced_returns_example :
    (p : Plan) × (compute_with_forced memory [] both quiet [] ≡ ok p)
compute_with_forced_returns_example =
    compute_with_forced_returns memory [] quiet [] both rank both-IsAcyclic (λ n. refl) (λ i. refl)
      ((digest, refl), ((digest, refl), tt))
