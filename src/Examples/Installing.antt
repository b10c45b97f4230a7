-- ===== src/Examples/Installing.antt =====
-- A crate that is installed from a node's checkout.
use repolith.Prelude.{◌≡◌, refl, none, some, [], ◌∷◌, arith, find}
use repolith.Manifest.{NodeEntry, cargo_install}
use repolith.Manifest.Actions.{check_action}
use repolith.Factory.{path, task_for_entry}
use repolith.Actions.Cargo.{CargoInstall, cargo_args}
use repolith.Actions.Cargo.Flags.{flags, meant_flags}
use repolith.Actions.Cargo.Checked.{cargo_args-flags}
use repolith.Examples.{install_id}
use repolith.Examples.Manifests.{flat_paths, here}

abbrev tool : NodeEntry
tool = record {
  id = b't' ∷ [];
  git = none;
  path = some (b'p' ∷ []);
  actions =
      cargo_install none (some (b'k' ∷ [])) (some (b'd' ∷ [])) ((b'f' ∷ []) ∷ []) (some (b'r' ∷ []))
      ∷ [];
}

abbrev tool_install : CargoInstall
tool_install = record {
  id = install_id;
  source = path (b'p' ∷ []);
  crate_name = some (b't' ∷ []);
  package_name = some (b'k' ∷ []);
  profile = some (b'd' ∷ []);
  features = (b'f' ∷ []) ∷ [];
  install_to = b'r' ∷ [];
}

cargo_args-flags_example : flags (cargo_args tool_install (b'r' ∷ [])) ≡ meant_flags tool_install
unfolding check_action task_for_entry find
cargo_args-flags_example =
    cargo_args-flags flat_paths tool here none (some (b'k' ∷ [])) (some (b'd' ∷ []))
      ((b'f' ∷ []) ∷ []) (some (b'r' ∷ [])) tool_install (b'r' ∷ []) refl refl
      (λ rest eq. ground arith) (λ rest eq. ground arith) (λ rest eq. ground arith)
