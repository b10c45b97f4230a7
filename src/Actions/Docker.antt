-- ===== src/Actions/Docker.antt =====
-- `DockerBuild` (crates/repolith-actions/src/docker.rs). `contain` is `contain_within`, of which
-- Federation has the body, and `tree` is `tree_digest`.
use repolith.Prelude.{
  ℕ, Bool, true, false, not, Option, none, some, List, [], ◌∷◌, ◌++◌, Result, ok, err, panic,
  is_empty, if◌then◌else◌, map_err,
}
use repolith.Prelude.Texts.{Text, codes}
use repolith.Types.{Sha256, BuildError, BuildOutput, io, upstream_unreachable}
use repolith.Sources.{Output}
use repolith.Sources.Digest.{platform_tag}
use repolith.Actions.{Machine, Step, then_step, done, run_checked}

pub record DockerBuild : Type 0 where
  pub tag : Text
  pub dockerfile : Option Text
  pub context : Option Text
  pub node_path : Text

abbrev or_text : Option Text → Text → Text
or_text none d = d
or_text (some s) d = s

unfoldable pub build_args : (dockerfile tag context : Text) → List Text
unfolding codes
build_args dockerfile tag context =
    codes "build" ∷ codes "-f" ∷ dockerfile ∷ codes "-t" ∷ tag ∷ codes "--" ∷ context ∷ []

unfoldable pub inspect_args : (tag : Text) → List Text
unfolding codes
inspect_args tag =
    codes "image" ∷ codes "inspect" ∷ codes "--format" ∷ codes "{{.Id}}" ∷ codes "--" ∷ tag ∷ []

module _ {W : Type 0} (m : Machine W) (contain : W → Text → Text → Result BuildError Text)
    (sha : List ℕ → Sha256) (utf8 : Text → List ℕ) where
  -- The context and the Dockerfile, both inside the checkout.
  unfoldable pub resolved_paths : DockerBuild → Step W (Text × Text)
  unfolding then_step done codes
  resolved_paths a =
      let context_rel = or_text a.context (codes ".") in
      then_step (λ w. (contain w a.node_path context_rel, w))
        λ context.
          then_step
            (λ w. (
              contain w a.node_path
                  (m.join context_rel (or_text a.dockerfile (codes "Dockerfile"))),
              w,
            ))
            λ dockerfile. done (ok (context, dockerfile))

  abbrev read_dockerfile : Text → W → Result BuildError (List ℕ)
  read_dockerfile dockerfile w =
      map_err (λ e. io (codes "read dockerfile " ++ (dockerfile ++ (codes ": " ++ e))))
        (m.read w dockerfile)

  abbrev head_bytes : Output → List ℕ
  head_bytes head = if head.success then head.stdout else []

  -- The hash of a checkout that is there.
  unfoldable pub checkout_hash :
      (tree : Text → Step W Sha256) → (arch os : Text) → DockerBuild → Step W Sha256
  unfolding resolved_paths platform_tag then_step done codes
  checkout_hash tree arch os a = then_step (resolved_paths a) λ resolved.
      then_step (λ w. (read_dockerfile resolved.1 w, w))
        λ df_bytes.
          then_step
            (m.run (codes "git" ∷ codes "-C" ∷ resolved.0 ∷ codes "rev-parse" ∷ codes "HEAD" ∷ []))
            λ head. then_step (tree resolved.0) λ digest.
              then_step (m.run (codes "docker" ∷ codes "--version" ∷ [])) λ v. done (
                if v.success
                then ok (
                    sha (
                      codes "docker:tag:"
                      ++ (utf8 a.tag
                          ++ (codes ":dockerfile:"
                              ++ (df_bytes
                                  ++ (codes ":checkout:"
                                      ++ (head_bytes head
                                          ++ (codes ":tree:"
                                              ++ (digest.bytes
                                                  ++ (platform_tag arch os
                                                      ++ (codes ":docker:" ++ v.stdout)))))))))))
                else err (
                    upstream_unreachable
                      (codes "docker --version failed — is the docker CLI installed and on PATH?")))

  unfoldable pub input_hash :
      (tree : Text → Step W Sha256) → (arch os : Text) → DockerBuild → Step W Sha256
  unfolding checkout_hash codes
  input_hash tree arch os a = λ w.
      if not (m.exists w a.node_path)
      then (ok (sha (codes "docker:tag:" ++ (utf8 a.tag ++ codes ":pre-clone"))), w)
      else checkout_hash tree arch os a w

  -- The image that was built.
  unfoldable pub image_output : DockerBuild → Output → Result BuildError BuildOutput
  unfolding codes
  image_output a out = elim out.success [
    | false ↦ err (
        io (
          codes "docker image inspect "
          ++ (a.tag ++ (codes " failed after build: " ++ m.trimmed out.stderr))))
    | true ↦
        let image_id = m.trimmed out.stdout in
        if is_empty image_id
        then err (io (codes "docker image inspect " ++ (a.tag ++ codes " returned an empty id")))
        else ok (record {
          output_hash = sha (utf8 image_id);
          stdout = codes "built " ++ (a.tag ++ (codes " -> " ++ image_id));
        })
  ]

  unfoldable pub execute : DockerBuild → Step W BuildOutput
  unfolding resolved_paths build_args inspect_args image_output run_checked then_step done codes
  execute a = then_step (resolved_paths a) λ resolved.
      then_step (run_checked m (codes "docker" ∷ build_args resolved.1 a.tag resolved.0)) λ u.
        then_step (m.run (codes "docker" ∷ inspect_args a.tag)) λ out. done (image_output a out)

  -- An error says that the image is there.
  unfoldable pub output_present : DockerBuild → W → Bool
  unfolding inspect_args codes
  output_present a w = elim (m.run (codes "docker" ∷ inspect_args a.tag) w).0 [
    | ok out ↦ out.success
    | err e ↦ true
    | panic ↦ true
  ]
