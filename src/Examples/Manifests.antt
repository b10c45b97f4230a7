-- ===== src/Examples/Manifests.antt =====
-- A manifest of one node with two actions.
use repolith.Prelude.{◌≡◌, ◌↔◌, refl, true, none, some, List, [], ◌∷◌, ◌++◌, ok, list_beq, contains}
use repolith.Prelude.Maps.{IsNodup}
use repolith.Prelude.Texts.{Text, codes}
use repolith.Types.{ActionId, action_id_eq, fail_fast}
use repolith.Plan.Layers.{ids_of, layers_of}
use repolith.Manifest.{Manifest, NodeEntry, cargo_install, docker, UrlParser, Semver}
use repolith.Manifest.Checks.{check_url}
use repolith.Manifest.Checks.Urls.{IsSafeUrl, check_url_iff}
use repolith.Manifest.Validate.{validate}
use repolith.Manifest.Validate.Laws.{IsSupported, IsSafeNodes, validate_iff}
use repolith.Manifest.ActionIds.{action_ids}
use repolith.Manifest.ActionIds.Unique.{action_ids-IsNodup}
use repolith.Factory.{
  Paths, FactoryCtx, Made, Behaviour, path, docker_build, cargo_install_task,
  build_actions_from_manifest, boxed_all,
}
use repolith.Factory.Acyclic.{build_actions-ids, build_actions_layers}
use repolith.Examples.{digest}

-- A version crate that knows one version.
abbrev versions : Semver Text Text
versions = record { parse_req = λ s. some s; parse = λ s. some s; is_match = λ req v. true }

abbrev urls : UrlParser
urls s = ok (record { username = []; host_str = none; path_segments = none })

abbrev api : NodeEntry
api = record {
  id = b'a' ∷ [];
  git = none;
  path = some (b'p' ∷ []);
  actions = cargo_install none none none [] none ∷ docker (b't' ∷ []) none none ∷ [];
}

abbrev stack : Manifest
stack = record {
  orchestrator = record { schema_version = b'0' ∷ []; name = b's' ∷ [] };
  nodes = api ∷ [];
}

stack-accepted : validate versions urls stack ≡ ok tt
unfolding validate contains
stack-accepted = refl

validate_iff_example :
    (validate versions urls stack ≡ ok tt)
    ↔ (IsSupported versions urls stack.orchestrator × IsSafeNodes urls stack.nodes)
validate_iff_example = validate_iff versions urls stack

check_url_iff_example :
    (check_url urls (codes "git@h:o/r") (b'a' ∷ []) ≡ ok tt) ↔ IsSafeUrl urls (codes "git@h:o/r")
check_url_iff_example = check_url_iff urls (codes "git@h:o/r") (b'a' ∷ [])

action_ids-IsNodup_example : IsNodup (action_ids stack)
action_ids-IsNodup_example = action_ids-IsNodup versions urls stack stack-accepted

abbrev pub flat_paths : Paths
flat_paths = record { join = λ a b. a ++ b; home_dir = none }

abbrev still : Behaviour
still = record {
  input_hash = λ task ctx. ok digest;
  execute = λ task ctx. ok (record { output_hash = digest; stdout = [] });
  output_present = λ task ctx. true;
}

abbrev pub here : FactoryCtx
here = record { base_dir = []; chain = []; mode = fail_fast }

abbrev made : List Made
made =
    record {
      id = record { name = codes "a::cargo-install::0" };
      deps = [];
      task =
          cargo_install_task (path (b'p' ∷ [])) (some (b'a' ∷ [])) none none []
            (codes "..repolith");
    }
    ∷ record {
      id = record { name = codes "a::docker::1" };
      deps = record { name = codes "a::cargo-install::0" } ∷ [];
      task = docker_build (b't' ∷ []) none none (b'p' ∷ []);
    }
    ∷ []

stack-built : build_actions_from_manifest flat_paths stack here ≡ ok made
unfolding build_actions_from_manifest codes list_beq
stack-built = refl

build_actions-ids_example : ids_of (boxed_all still made) ≡ action_ids stack
build_actions-ids_example = build_actions-ids flat_paths still here stack made stack-built

build_actions_layers_example :
    (layers : List (List ActionId)) × (layers_of (boxed_all still made) ≡ ok layers)
build_actions_layers_example =
    build_actions_layers flat_paths still here versions urls stack made stack-accepted stack-built
