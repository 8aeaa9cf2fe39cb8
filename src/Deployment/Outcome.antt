-- ===== src/Deployment/Outcome.antt =====
-- How a deployment ends.
use sitey.Prelude.{
  ◌≡◌, refl, sym, ap, ◌∙◌, Bool, true, false, Option, none, some, List, [], ◌∷◌, ◌++◌, ok, err,
  Result-cases, Bool-cases, inl, inr, ◌⊎◌, arith, is_empty, subst,
}
use sitey.Text.{Text}
use sitey.Deployment.{
  Service, World, Paths, DeployDeps, Status, success, running, Call, reload_caddy,
}
use sitey.Deployment.Run.{
  mark_server, mark_success, reload_after, start_build, after_build, check_and_hint, check_output,
  deploy_static, deploy, fetch, try_reload, output_path, build_command_of,
}
use sitey.Deployment.Server.{
  image_tag, container_name, DockerBuildSource, relative_dockerfile, resolve_docker_build_source,
  deploy_server, build_step, build_and_run, replace_step, clean_up, run_step, inspect_step,
  prune_step, verify_step, get_keep_tags,
}
use sitey.Deployment.Steps.{continue, continue-ok, ◌>>=◌, next_answer, later, asked}

-- The rows and the last call of a deployment that has ended.
pub record Ended (deployed : Status) (served : Status) (container : Option (Text × Text))
    (w : World) : Type 0 where
  pub status : w.deployment.status ≡ deployed
  pub finished : w.deployment.is_finished ≡ true
  pub service_status : w.service.status ≡ served
  pub of_container : w.service.container ≡ container
  pub reloaded : (before : List Call) × (w.calls ≡ before ++ reload_caddy ∷ [])

module _ (deps : DeployDeps) (paths : Paths) (service : Service) where
  -- What a server's deployment has done: its image is built from the commit's tag, and the container of that
  -- image runs.
  abbrev pub IsServer : Text → Text → Type 0
  IsServer sha id =
      (source : DockerBuildSource) × (state : Text) × (deps.build source.context_path
          (image_tag service sha) (relative_dockerfile deps paths service source)
        ≡ ok tt)
      × (deps.run (image_tag service sha) (container_name service) ≡ ok id)
      × (deps.inspect_container id ≡ ok (true, state))

  -- What a static deployment has done: its build command has ended well, and the output directory is there.
  abbrev pub IsStatic : Type 0
  IsStatic =
      ((deps.run_build (build_command_of service) ≡ ok tt)
        ⊎ (deps.spawn (build_command_of service) ≡ ok tt))
      × (is_empty service.output_dir ≡ false → deps.exists (output_path deps paths service) ≡ true)

  -- A deployment that has succeeded, of the commit that the clone has answered.
  pub data Deployed (w : World) : Type 0 where
    static :
        (token : Option Text) (commit : Text × Text)
        → service.is_static ≡ true
        → deps.clone token ≡ ok commit
        → IsStatic
        → Ended success running none w
        → Deployed w
    server :
        (token : Option Text) (commit : Text × Text) (id : Text)
        → service.is_static ≡ false
        → deps.clone token ≡ ok commit
        → IsServer commit.0 id
        → Ended success running (some (id, container_name service)) w
        → Deployed w

  inspect_step-ok :
      (id : Text) (w : World)
      → (inspect_step deps paths service id w).1 ≡ ok tt
      → (state : Text) × (deps.inspect_container id ≡ ok (true, state))
  unfolding inspect_step
  inspect_step-ok id w h = elim (Result-cases (deps.inspect_container id)) [
    | inl ((true, state), e) ↦ (state, e)
    | inl ((false, state), e) ↦ let h' = rw e at h in absurd (ground arith)
    | inr (m, e) ↦ let h' : err m ≡ ok tt = rw e at h in absurd (ground arith)
  ]

  prune_step-ok :
      (tag id : Text) (w : World) (id' : Text)
      → (prune_step deps paths service tag id w).1 ≡ ok id'
      → id ≡ id'
  unfolding prune_step
  prune_step-ok tag id w id' h =
      elim (Result-cases (deps.prune (get_keep_tags deps paths service tag))) [
        | inl (u, e) ↦ let h' : ok id ≡ ok id' = rw e at h in ground arith
        | inr (m, e) ↦ let h' : err m ≡ ok id' = rw e at h in absurd (ground arith)
      ]

  deploy_server-ok :
      (sha : Text) (w : World) (id : Text)
      → (deploy_server deps paths service sha w).1 ≡ ok id
      → IsServer sha id
  unfolding deploy_server build_step run_step
  deploy_server-ok sha w id h =
      let tag = image_tag service sha in
      let (source, e, at_source, h1) =
        continue-ok (build_and_run deps paths service tag)
          (resolve_docker_build_source deps paths service w) id h in
      let w1 = (resolve_docker_build_source deps paths service w).0 in
      let (u, built, at_built, h2) =
        continue-ok (λ a. replace_step deps paths service tag)
          (build_step deps paths service tag source w1) id h1 in
      let w2 = (build_step deps paths service tag source w1).0 in
      let (u', e', at_clean, h3) =
        continue-ok (λ a. run_step deps paths service tag >>= verify_step deps paths service tag)
          (clean_up deps paths service w2) id h2 in
      let w3 = (clean_up deps paths service w2).0 in
      let (id1, ran, at_run, h4) =
        continue-ok (verify_step deps paths service tag) (run_step deps paths service tag w3) id
          h3 in
      let w4 = (run_step deps paths service tag w3).0 in
      let (u'', inspected, at_inspect, h5) =
        continue-ok (λ a. prune_step deps paths service tag id1)
          (inspect_step deps paths service id1 w4) id h4 in
      let same = prune_step-ok tag id1 (inspect_step deps paths service id1 w4).0 id h5 in
      let (state, is_running) = inspect_step-ok id1 w4 inspected in
      (
        source,
        state,
        built,
        ran ∙ ap ok same,
        subst (λ i. deps.inspect_container i ≡ ok (true, state)) same is_running,
      )

  pub try_reload-Ended :
      (done warning : Text) (deployed served : Status) (container : Option (Text × Text))
      (w : World)
      → w.deployment.status ≡ deployed
      → w.deployment.is_finished ≡ true
      → w.service.status ≡ served
      → w.service.container ≡ container
      → ((try_reload deps paths service done warning w).1 ≡ ok tt)
        × Ended deployed served container (try_reload deps paths service done warning w).0
  unfolding try_reload
  try_reload-Ended done warning deployed served container w a b c d =
      elim (Result-cases deps.reload) [
        | inl (u, e) ↦ rw e (
          refl,
          record {
            status = a;
            finished = b;
            service_status = c;
            of_container = d;
            reloaded = (w.calls, refl);
          },
        )
        | inr (m, e) ↦ rw e (
          refl,
          record {
            status = a;
            finished = b;
            service_status = c;
            of_container = d;
            reloaded = (w.calls, refl);
          },
        )
      ]

  start_build-ok :
      (w : World)
      → (start_build deps paths service w).1 ≡ ok tt
      → (deps.run_build (build_command_of service) ≡ ok tt)
        ⊎ (deps.spawn (build_command_of service) ≡ ok tt)
  unfolding start_build
  start_build-ok w h = elim (Bool-cases (is_empty service.build_image)) [
    | inl e ↦ inr (rw e at h)
    | inr e ↦ inl (rw e at h)
  ]

  check_output-ok :
      (none_set exists : Bool) (w : World)
      → (check_output deps paths service none_set exists w).1 ≡ ok tt
      → none_set ≡ false
      → exists ≡ true
  check_output-ok true exists w h e = absurd (ground arith)
  check_output-ok false true w h e = refl
  check_output-ok false false w h e = absurd (ground arith)

  deploy_static-ok : (w : World) → (deploy_static deps paths service w).1 ≡ ok tt → IsStatic
  unfolding deploy_static
  deploy_static-ok w h =
      let (u, built, at_built, h1) =
        continue-ok (λ a. check_and_hint deps paths service) (start_build deps paths service w) tt
          h in
      let w1 = (start_build deps paths service w).0 in
      let (u', checked, at_checked, h2) =
        continue-ok (λ a. after_build deps paths service)
          (check_output deps paths service (is_empty service.output_dir)
            (deps.exists (output_path deps paths service)) w1)
          tt h1 in
      (start_build-ok w built, check_output-ok _ _ w1 checked)

  pub fetch-ok :
      (token : Option Text) (w : World) (sha : Text)
      → (fetch deps paths service token w).1 ≡ ok sha
      → (commit : Text × Text) × (deps.clone token ≡ ok commit) × (commit.0 ≡ sha)
  unfolding fetch
  fetch-ok token w sha h = elim (Result-cases (deps.clone token)) [
    | inl (commit, e) ↦ elim (Result-cases (next_answer w.update_answers)) [
      | inl (u, k) ↦ let h' : ok commit.0 ≡ ok sha = rw (e, k) at h in (commit, e, ground arith)
      | inr (m, k) ↦ let h' : err m ≡ ok sha = rw (e, k) at h in absurd (ground arith)
    ]
    | inr (m, e) ↦ let h' : err m ≡ ok sha = rw e at h in absurd (ground arith)
  ]

  -- the rows of a deployment that has succeeded
  abbrev pub marked : Option (Text × Text) → World → World
  marked container w = record (asked (asked w)) {
    deployment = record w.deployment { status = success; is_finished = true };
    service = record w.service { status = running; container = container };
  }

  -- what the two updates leave if neither throws, and then the reload
  mark_success-Ended :
      (container : Option (Text × Text)) (w : World)
      → (mark_success deps paths service container w).1 ≡ ok tt
      → Ended success running container
          (reload_after deps paths service (mark_success deps paths service container w).0).0
  mark_success-Ended container w h = elim (Result-cases (next_answer w.update_answers)) [
    | inr (m, e) ↦ let h' : err m ≡ ok tt = rw e at h in absurd (ground arith)
    | inl (u, e) ↦ elim (Result-cases (next_answer (later w.update_answers))) [
      | inr (m, k) ↦ let h' : err m ≡ ok tt = rw (e, k) at h in absurd (ground arith)
      | inl (u', k) ↦
          rw (e, k)
            (try_reload-Ended _ _ success running container (marked container w) refl refl refl
              refl).1
    ]
  ]

  pub deploy_commit-Deployed :
      (token : Option Text) (commit : Text × Text) (static : Bool) (w : World)
      → service.is_static ≡ static
      → deps.clone token ≡ ok commit
      → (continue
          (λ a. reload_after deps paths service)
          (deploy deps paths service static commit.0 w)).1
        ≡ ok tt
      → Deployed
          (continue
            (λ a. reload_after deps paths service)
            (deploy deps paths service static commit.0 w)).0
  unfolding deploy
  deploy_commit-Deployed token commit true w mode cloned h =
      let (u, done, at_done, h1) =
        continue-ok (λ a. reload_after deps paths service)
          (deploy deps paths service true commit.0 w) tt h in
      let (u', served, at_served, h2) =
        continue-ok (λ a. mark_success deps paths service none) (deploy_static deps paths service w)
          tt done in
      let w1 = (deploy_static deps paths service w).0 in
      subst (λ p. Deployed p.0) (sym at_done)
        (subst (λ p. Deployed (reload_after deps paths service p.0).0) (sym at_served)
          (static token commit mode cloned (deploy_static-ok w served)
            (mark_success-Ended none w1 h2)))
  deploy_commit-Deployed token commit false w mode cloned h =
      let (u, done, at_done, h1) =
        continue-ok (λ a. reload_after deps paths service)
          (deploy deps paths service false commit.0 w) tt h in
      let (id, served, at_served, h2) =
        continue-ok (mark_server deps paths service) (deploy_server deps paths service commit.0 w)
          tt done in
      let w1 = (deploy_server deps paths service commit.0 w).0 in
      subst (λ p. Deployed p.0) (sym at_done)
        (subst (λ p. Deployed (reload_after deps paths service p.0).0) (sym at_served)
          (server token commit id mode cloned (deploy_server-ok commit.0 w id served)
            (mark_success-Ended (some (id, container_name service)) w1 h2)))
