-- ===== src/Actions/Cargo/Checked.antt =====
-- An accepted manifest, through the factory, to the arguments of `cargo install`.
use repolith.Prelude.{
  ◌≡◌, refl, Option, none, some, List, ok, ok-injective, Result-cases, inl, inr, arith,
}
use repolith.Prelude.Texts.{Text}
use repolith.Factory.{Task, cargo_install_task, Paths, FactoryCtx, cargo_source, task_for_entry}
use repolith.Manifest.{NodeEntry, ActionEntry, cargo_install}
use repolith.Manifest.Actions.{check_action}
use repolith.Manifest.Checks.Laws.{IsNoFlag}
use repolith.Manifest.Actions.Laws.{AllSome, IsListItem, check_action_iff}
use repolith.Actions.Cargo.{CargoInstall, cargo_args, resolved_crate_name}
use repolith.Actions.Cargo.Flags.{flags, meant_flags, IsPlainSource, args-flags}

abbrev given : Option Text → (id : Text) → Text
given none id = id
given (some s) id = s

given-plain :
    (crate_name : Option Text) (id : Text)
    → AllSome IsListItem crate_name
    → IsNoFlag id
    → IsNoFlag (given crate_name id)
given-plain none id h n = n
given-plain (some s) id h n = h.0

-- Only the source and the root are the factory's own.
IsFrom : CargoInstall → NodeEntry → ActionEntry → Type 0
IsFrom a node (cargo_install crate_name package_name profile features install_to) =
    (a.crate_name ≡ some (given crate_name node.id))
    × (a.package_name ≡ package_name)
    × (a.profile ≡ profile)
    × (a.features ≡ features)
IsFrom a node entry = Unit

abbrev pub task_of : CargoInstall → Task
task_of a =
    cargo_install_task a.source a.crate_name a.package_name a.profile a.features a.install_to

task_for_entry-IsFrom :
    (paths : Paths) (node : NodeEntry) (fctx : FactoryCtx)
    (crate_name package_name profile : Option Text) (features : List Text)
    (install_to : Option Text) (a : CargoInstall)
    → task_for_entry paths node
        (cargo_install crate_name package_name profile features install_to)
        fctx
      ≡ ok (task_of a)
    → IsFrom a node (cargo_install crate_name package_name profile features install_to)
unfolding task_for_entry IsFrom
task_for_entry-IsFrom paths node fctx none package_name profile features install_to a made =
    elim (Result-cases (cargo_source paths node fctx)) [
      | inl (source, e) ↦ let q = ok-injective (rw (task_for_entry, e) at made) in (cc, cc, cc, cc)
      | inr (inl (error, e)) ↦ absurd (ground arith)
      | inr (inr e) ↦ absurd (ground arith)
    ]
task_for_entry-IsFrom paths node fctx (some s) package_name profile features install_to a made =
    elim (Result-cases (cargo_source paths node fctx)) [
      | inl (source, e) ↦ let q = ok-injective (rw (task_for_entry, e) at made) in (cc, cc, cc, cc)
      | inr (inl (error, e)) ↦ absurd (ground arith)
      | inr (inr e) ↦ absurd (ground arith)
    ]

resolved-given :
    (a : CargoInstall) (name : Text) → a.crate_name ≡ some name → resolved_crate_name a ≡ name
unfolding resolved_crate_name
resolved-given a name e = rw e refl

-- When the validator accepts an entry of kind `cargo-install` and the factory makes the action `a`
-- of it, then the arguments of `cargo install` that begin with a dash are the flags that the action
-- means, in their order: none of the manifest's texts is read as a flag. The node's id, the texts
-- of the resolved source and the resolved root are taken to begin with no dash.
pub cargo_args-flags :
    (paths : Paths) (node : NodeEntry) (fctx : FactoryCtx)
    (crate_name package_name profile : Option Text) (features : List Text)
    (install_to : Option Text) (a : CargoInstall) (root : Text)
    → check_action node (cargo_install crate_name package_name profile features install_to) ≡ ok tt
    → task_for_entry paths node
        (cargo_install crate_name package_name profile features install_to)
        fctx
      ≡ ok (task_of a)
    → IsNoFlag node.id
    → IsPlainSource a.source
    → IsNoFlag root
    → flags (cargo_args a root) ≡ meant_flags a
unfolding IsFrom
cargo_args-flags paths node fctx crate_name package_name profile features install_to a root checked
      made id s r =
    let safe =
      (check_action_iff node (cargo_install crate_name package_name profile features install_to)).0
        checked in
    let (c, g, p, f) =
      task_for_entry-IsFrom paths node fctx crate_name package_name profile features install_to a
        made in
    args-flags a root (rw g safe.1.0) (rw p safe.1.1.0) (rw f safe.1.1.1) s
      (rw (resolved-given a (given crate_name node.id) c)
        (given-plain crate_name node.id safe.0 id))
      r
