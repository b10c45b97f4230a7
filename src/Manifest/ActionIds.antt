-- ===== src/Manifest/ActionIds.antt =====
-- `Manifest::action_ids` and `action_kind` (crates/repolith-core/src/manifest.rs).
pub mod Unique
use repolith.Prelude.{ℕ, suc, List, [], ◌∷◌, ◌++◌}
use repolith.Prelude.Texts.{Text, codes, decimal}
use repolith.Types.{ActionId}
use repolith.Manifest.{
  Manifest, NodeEntry, ActionEntry, git_clone, cargo_install, docker, repolith_stack,
}

unfoldable pub action_kind : ActionEntry → Text
unfolding codes
action_kind git_clone = codes "git-clone"
action_kind (cargo_install crate_name package_name profile features install_to) =
    codes "cargo-install"
action_kind (docker tag dockerfile context) = codes "docker"
action_kind (repolith_stack manifest) = codes "repolith"

-- `format!("{}::{}::{}", n.id, action_kind(a), i)`.
unfoldable pub action_id : (node : Text) → ActionEntry → ℕ → Text
unfolding action_kind decimal codes
action_id node a i = node ++ (codes "::" ++ (action_kind a ++ (codes "::" ++ decimal i)))

-- The id of a node's action.
abbrev pub id_of : Text → ActionEntry → ℕ → ActionId
id_of node a i = record { name = action_id node a i }

-- `actions.iter().enumerate().map(...)`, from the index `i` on.
unfoldable pub ids_from : (node : Text) → ℕ → List ActionEntry → List ActionId
unfolding action_id
ids_from node i [] = []
ids_from node i (a ∷ actions) = id_of node a i ∷ ids_from node (suc i) actions

unfoldable pub node_ids : List NodeEntry → List ActionId
unfolding ids_from
node_ids [] = []
node_ids (n ∷ nodes) = ids_from n.id 0 n.actions ++ node_ids nodes

unfoldable pub action_ids : Manifest → List ActionId
unfolding node_ids
action_ids m = node_ids m.nodes
