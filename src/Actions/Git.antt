-- ===== src/Actions/Git.antt =====
-- `GitClone` (crates/repolith-actions/src/git_clone.rs). `first_word` is the first of
-- `split_whitespace`, and `sha` hashes the bytes of a text.
use repolith.Prelude.{
  ℕ, Bool, true, false, Option, none, some, List, [], ◌∷◌, ◌++◌, Result, ok, err, is_empty,
  if◌then◌else◌, map_err,
}
use repolith.Prelude.Texts.{Text, codes}
use repolith.Prelude.Int.{ℤ, negsuc}
use repolith.Types.{Sha256, BuildError, BuildOutput, io, upstream_unreachable, command_failed}
use repolith.Sources.{Output}
use repolith.Actions.{Machine, Step, then_step, done, run_checked}

pub record GitClone : Type 0 where
  pub repo_url : Text
  pub path : Text

unfoldable pub ls_remote_args : (url : Text) → List Text
unfolding codes
ls_remote_args url = codes "ls-remote" ∷ codes "--" ∷ url ∷ codes "HEAD" ∷ []

unfoldable pub clone_args : (url path : Text) → List Text
unfolding codes
clone_args url path = codes "clone" ∷ codes "--quiet" ∷ codes "--" ∷ url ∷ path ∷ []

unfoldable pub hash_url_and_sha : (sha : Text → Sha256) → (url sha1 : Text) → Sha256
unfolding codes
hash_url_and_sha sha url sha1 = sha (url ++ (codes ":" ++ sha1))

module _ {W : Type 0} (m : Machine W) (sha : Text → Sha256) where
  unfoldable pub head_of :
      (first_word : List ℕ → Text) → (url : Text) → Output → Result BuildError Sha256
  unfolding hash_url_and_sha codes
  head_of first_word url out = elim out.success [
    | false ↦ err (
        upstream_unreachable
          (codes "git ls-remote " ++ (url ++ (codes ": " ++ m.trimmed out.stderr))))
    | true ↦
        let sha1 = first_word out.stdout in
        if is_empty sha1
        then err
            (upstream_unreachable (codes "git ls-remote " ++ (url ++ codes " returned no HEAD")))
        else ok (hash_url_and_sha sha url sha1)
  ]

  unfoldable pub input_hash : (first_word : List ℕ → Text) → GitClone → Step W Sha256
  unfolding ls_remote_args head_of then_step done codes
  input_hash first_word a =
      then_step (m.run (codes "git" ∷ ls_remote_args a.repo_url))
        (λ out. done (head_of first_word a.repo_url out))

  unfoldable pub refresh : GitClone → Step W (Unit {0})
  unfolding run_checked then_step codes
  refresh a =
      then_step
        (run_checked m (
          codes "git"
          ∷ codes "-C"
          ∷ a.path
          ∷ codes "fetch"
          ∷ codes "origin"
          ∷ codes "--quiet"
          ∷ []))
        λ u. run_checked m (
          codes "git"
          ∷ codes "-C"
          ∷ a.path
          ∷ codes "reset"
          ∷ codes "--hard"
          ∷ codes "FETCH_HEAD"
          ∷ codes "--quiet"
          ∷ [])

  abbrev create_parent : Option Text → Step W (Unit {0})
  create_parent none = done (ok tt)
  create_parent (some parent) = if is_empty parent then done (ok tt) else λ w.
      let (r, w') = m.create_dir_all parent w in
      (map_err (λ e. io (codes "create_dir_all: " ++ e)) r, w')

  unfoldable pub first_clone : GitClone → Step W (Unit {0})
  unfolding clone_args run_checked then_step codes
  first_clone a =
      then_step (create_parent (m.parent a.path))
        λ u. run_checked m (codes "git" ∷ clone_args a.repo_url a.path)

  abbrev git_dir : GitClone → Text
  git_dir a = m.join a.path (codes ".git")

  abbrev code_of : Output → ℤ
  code_of out = elim out.code [ none ↦ negsuc 0 | some code ↦ code ]

  -- The commit that is checked out.
  unfoldable pub resolved_head : Output → Result BuildError BuildOutput
  unfolding codes
  resolved_head out = elim out.success [
    | false ↦ err (command_failed (code_of out) (m.trimmed out.stderr))
    | true ↦
        let sha1 = m.trimmed out.stdout in
        ok (record { output_hash = sha sha1; stdout = codes "HEAD " ++ sha1 })
  ]

  unfoldable pub execute : GitClone → Step W BuildOutput
  unfolding refresh first_clone resolved_head then_step done codes
  execute a =
      then_step (λ w. (if m.is_dir w (git_dir a) then refresh a else first_clone a) w)
        λ u.
          then_step
            (m.run (codes "git" ∷ codes "-C" ∷ a.path ∷ codes "rev-parse" ∷ codes "HEAD" ∷ []))
            λ out. done (resolved_head out)

  unfoldable pub output_present : GitClone → W → Bool
  unfolding codes
  output_present a w = m.exists w (git_dir a)
