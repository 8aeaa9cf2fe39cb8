-- ===== src/Deployment/Final.antt =====
-- How every deployment ends.
use sitey.Prelude.{
  ◌≡◌, refl, sym, ap, none, true, [], ◌∷◌, ◌++◌, Result-cases, ◌∙◌, Result, ok, err, inl, inr, ◌⊎◌,
  subst,
}
use sitey.Text.{Text, codes}
use sitey.Deployment.{Service, World, Paths, DeployDeps, failed}
use sitey.Deployment.Outcome.{Ended, Deployed, try_reload-Ended, fetch-ok, deploy_commit-Deployed}
use sitey.Deployment.Run.{
  try_reload, deploy_commit, fetch_and_deploy, prepare, fetch, attempt, handle_failure,
  run_deployment, after_open, or_handle,
}
use sitey.Deployment.Steps.{
  continue-ok, ◌>>◌, update_service, continue, applied-ok, applied-refused, next_answer, later,
  asked,
}

-- The failure handling of `u` has thrown, since the database refused the first of its updates or the second.
pub data Refused (u : World) (p : World × Result Text Unit) : Type 0 where
  deployment_refused :
      (e : Text)
      → next_answer u.update_answers ≡ err e
      → p.1 ≡ err e
      → p.0.deployment ≡ u.deployment
      → p.0.service ≡ u.service
      → Refused u p
  service_refused :
      (e : Text)
      → next_answer (later u.update_answers) ≡ err e
      → p.1 ≡ err e
      → p.0.deployment.status ≡ failed
      → p.0.deployment.is_finished ≡ true
      → p.0.service ≡ u.service
      → Refused u p

module _ (deps : DeployDeps) (paths : Paths) (service : Service) where
  attempt-Deployed :
      (w : World)
      → (attempt deps paths service w).1 ≡ ok tt
      → Deployed deps paths service (attempt deps paths service w).0
  unfolding attempt
  attempt-Deployed w h =
      let (token, e, at_token, h1) =
        continue-ok (fetch_and_deploy deps paths service) (prepare deps paths service w) tt h in
      let w1 = (prepare deps paths service w).0 in
      let (sha, fetched, at_fetched, h2) =
        continue-ok (deploy_commit deps paths service) (fetch deps paths service token w1) tt h1 in
      let w2 = (fetch deps paths service token w1).0 in
      let (commit, cloned, at_sha) = fetch-ok deps paths service token w1 sha fetched in
      let h3 = subst (λ s. (deploy_commit deps paths service s w2).1 ≡ ok tt) (sym at_sha) h2 in
      let deployed =
        deploy_commit-Deployed deps paths service token commit service.is_static w2 refl cloned
          h3 in
      subst (λ p. Deployed deps paths service p.0) (sym at_token)
        (subst (λ p. Deployed deps paths service p.0) (sym at_fetched)
          (subst (λ s. Deployed deps paths service (deploy_commit deps paths service s w2).0) at_sha
            deployed))

  -- the rows of a deployment that has failed
  abbrev pub failed_rows : Text → World → World
  failed_rows reason w = record (asked (asked w)) {
    log = w.log ++ (codes "[deploy] FAILED: " ++ reason) ∷ [];
    deployment = record w.deployment { status = failed; is_finished = true };
    service = record w.service { status = failed; container = none };
  }

  -- the rows after the first update of the failure handling
  abbrev pub noted : Text → World → World
  noted reason w = record (asked w) {
    log = w.log ++ (codes "[deploy] FAILED: " ++ reason) ∷ [];
    deployment = record w.deployment { status = failed; is_finished = true };
  }

  -- what follows it
  abbrev fail_service : World → World × Result Text Unit
  fail_service = do
    update_service λ s. record s { status = failed; container = none }
    try_reload deps paths service (codes "[deploy] Caddy config reloaded after failure")
        (codes "[deploy] Warning: Caddy reload failed after failure: ")

  handle_failure-Ended :
      (reason : Text) (w : World)
      → (((handle_failure deps paths service reason w).1 ≡ ok tt)
          × Ended failed failed none (handle_failure deps paths service reason w).0)
        ⊎ Refused w (handle_failure deps paths service reason w)
  unfolding handle_failure
  handle_failure-Ended reason w = elim (Result-cases (next_answer w.update_answers)) [
    | inr (m, e) ↦
        let at : handle_failure deps paths service reason w ≡ (
          record (asked w) { log = w.log ++ (codes "[deploy] FAILED: " ++ reason) ∷ [] },
          err m,
        ) =
          ap (continue (λ a. fail_service)) (applied-refused _ _ _ m e) in
        inr (
          deployment_refused m e (ap (λ p. p.1) at) (ap (λ p. p.0.deployment) at)
            (ap (λ p. p.0.service) at))
    | inl (u, e) ↦ elim (Result-cases (next_answer (later w.update_answers))) [
      | inr (m, k) ↦
          let at : handle_failure deps paths service reason w ≡ (asked (noted reason w), err m) =
            ap (continue (λ a. fail_service)) (applied-ok _ _ _ u e)
            ∙ ap
                (continue (λ a.
                  try_reload deps paths service
                    (codes "[deploy] Caddy config reloaded after failure")
                    (codes "[deploy] Warning: Caddy reload failed after failure: ")))
                (applied-refused _ _ _ m k) in
          inr (
            service_refused m k (ap (λ p. p.1) at) (ap (λ p. p.0.deployment.status) at)
              (ap (λ p. p.0.deployment.is_finished) at) (ap (λ p. p.0.service) at))
      | inl (u', k) ↦
          let at : handle_failure deps paths service reason w ≡ fail_service (noted reason w) =
            ap (continue (λ a. fail_service)) (applied-ok _ _ _ u e) in
          let next : fail_service (noted reason w)
              ≡ try_reload deps paths service (codes "[deploy] Caddy config reloaded after failure")
                  (codes "[deploy] Warning: Caddy reload failed after failure: ")
                  (failed_rows reason w) =
            ap
              (continue (λ a.
                try_reload deps paths service (codes "[deploy] Caddy config reloaded after failure")
                  (codes "[deploy] Warning: Caddy reload failed after failure: ")))
              (applied-ok _ _ _ u' k) in
          inl (
            subst (λ (p : World × Result Text Unit). (p.1 ≡ ok tt) × Ended failed failed none p.0)
              (sym (at ∙ next))
              (try_reload-Ended deps paths service _ _ failed failed none (failed_rows reason w)
                refl refl refl refl))
    ]
  ]

  -- How the deployment of `w` may end, once its log is open.
  abbrev pub RunEnded : World → World × Result Text Unit → Type 0
  RunEnded w p =
      ((p.1 ≡ ok tt) × (Deployed deps paths service p.0 ⊎ Ended failed failed none p.0))
      ⊎ ((u : World) × (reason : Text) × (attempt deps paths service w ≡ (u, err reason))
          × Refused u p)

  -- Once its log is open, a deployment ends in one of three ways, whatever the calls and the updates of rows
  -- that it makes answer. It has succeeded: then the repository was cloned, and for a static service the build
  -- command ended well and the output directory is there, for a server the image of the commit was built and the
  -- service's container of that image was running when it was looked at, and the rows say so and name that
  -- container. Or the rows of the deployment and the service say that it failed and name no container. In both
  -- cases the deployment is finished, and the last call was that of reloadCaddy. Or it had failed and the database
  -- refused an update of the failure handling, whose error the deployment then throws: if that was the update of the
  -- deployment, both rows are as the failure left them; if it was that of the service, the row of the
  -- deployment says that it failed.
  pub run_deployment-Deployed :
      (w : World) → deps.open_log ≡ ok tt → RunEnded w (run_deployment deps paths service w)
  unfolding run_deployment
  run_deployment-Deployed w opened =
      subst (λ o. RunEnded w (after_open deps paths service o w)) (sym opened)
        (handled (attempt deps paths service w) refl (attempt-Deployed w))
    where
      handled :
          (p : World × Result Text Unit)
          → attempt deps paths service w ≡ p
          → (p.1 ≡ ok tt → Deployed deps paths service p.0)
          → RunEnded w (or_handle deps paths service p)
      handled (v, ok u) at deployed = inl (refl, inl (deployed refl))
      handled (v, err e) at deployed = elim (handle_failure-Ended e v) [
        | inl (quiet, ended) ↦ inl (quiet, inr ended)
        | inr refused ↦ inr (v, e, at, refused)
      ]
