-- ===== src/Deployment/Run.antt =====
-- deployStatic, handleFailure and runDeployment of server/src/services/deployment.ts. The rows of the deployment
-- and the service exist while it runs, and their updates do not fail.
use sitey.Prelude.{
  Bool, true, false, Option, none, some, List, [], ◌∷◌, ◌++◌, map, is_empty, if◌then◌else◌, Result,
  ok, err,
}
use sitey.Text.{Text, codes, trim}
use sitey.Deployment.{
  Service, World, Paths, DeployDeps, building, success, running, failed, create_network, get_token,
  clone_or_pull, run_build_container, spawn_build, reload_caddy,
}
use sitey.Deployment.Server.{deploy_server, container_name}
use sitey.Deployment.Steps.{
  Step, pure, throw, ◌>>=◌, ◌>>◌, on_log, perform, update_deployment, update_service,
}
use sitey.EnvFile.{parse_env_string}
use sitey.SiteBlocks.Bodies.{decimal}

-- `onLog` for each line
abbrev pub log_all : List Text → Step (Unit {0})
log_all [] = pure tt
log_all (line ∷ lines) = on_log (codes "[deploy] " ++ line) >> log_all lines

abbrev pub build_command_of : Service → Text
build_command_of service =
    let command = trim service.build_command in
    if is_empty command then codes "echo \"No build step\"" else command

module _ (deps : DeployDeps) (paths : Paths) (service : Service) where
  abbrev pub output_path : Text
  output_path = deps.join_path paths.repo service.output_dir

  abbrev pub run_build_step : Bool → Step (Unit {0})
  run_build_step true =
      perform (spawn_build (build_command_of service) (parse_env_string service.env_vars))
        (deps.spawn (build_command_of service))
  run_build_step false =
      perform (run_build_container (build_command_of service) (parse_env_string service.env_vars))
        (deps.run_build (build_command_of service))

  -- whether there is an output directory, and whether it exists
  abbrev pub check_output : Bool → Bool → Step (Unit {0})
  check_output true exists = pure tt
  check_output false true = pure tt
  check_output false false = throw (
      codes "Build finished but output directory \""
      ++ (service.output_dir
          ++ codes "\" was not found. Check your build command and output directory setting."))

  abbrev pub hint_lines : List Text → List Text
  hint_lines [] = []
  hint_lines (signal ∷ signals) =
      codes
          "Warning: this output looks like a multi-page static site, but the service uses SPA routing."
        ∷ codes "Found:"
        ∷ map (λ s. codes "  " ++ s) (signal ∷ signals)
      ++ codes "SPA routing returns /index.html for every path that isn't an exact file."
        ∷ (codes "To change it: siteyctl service set "
            ++ (service.name ++ codes " --static-routing multi-page"))
        ∷ []

  abbrev pub spa_hint : Bool → Step (Unit {0})
  spa_hint false = pure tt
  spa_hint true = log_all (hint_lines (deps.multi_page_signals output_path))

  unfoldable pub start_build : Step (Unit {0})
  start_build = do
    on_log (codes "[deploy] Running build: " ++ build_command_of service)
    run_build_step (is_empty service.build_image)

  unfoldable pub after_build : Step (Unit {0})
  after_build = do
    on_log (
        codes "[deploy] Static deployment successful! Serving from "
        ++ (paths.repo ++ b'/' ∷ service.output_dir))
    spa_hint service.is_spa

  abbrev pub check_and_hint : Step (Unit {0})
  check_and_hint =
      check_output (is_empty service.output_dir) (deps.exists output_path) >> after_build

  -- deployStatic
  unfoldable pub deploy_static : Step (Unit {0})
  deploy_static = start_build >> check_and_hint

  -- the two updates after a deployment that has succeeded
  abbrev pub mark_success : Option (Text × Text) → Step (Unit {0})
  mark_success container = do
    update_deployment λ d. record d { status = success; is_finished = true }
    update_service λ s. record s { status = running; container = container }

  abbrev pub mark_server : Text → Step (Unit {0})
  mark_server id = mark_success (some (id, container_name service))

  -- what is deployed, by the mode: static or not
  unfoldable pub deploy : Bool → Text → Step (Unit {0})
  deploy true sha = deploy_static >> mark_success none
  deploy false sha = deploy_server deps paths service sha >>= mark_server

  abbrev pub log_token : Option Text → Step (Option Text)
  log_token none = do
    on_log (
        codes
          "[deploy] Warning: GitHub App mode but could not acquire token — falling back to unauthenticated clone")
    pure none
  log_token (some token) = do
    on_log (codes "[deploy] Acquired GitHub App installation token for clone")
    pure (some token)

  -- the token for the clone, if the repository is one of the GitHub App
  abbrev pub token_for : Bool → Step (Option Text)
  token_for false = pure none
  token_for true = do token ← perform get_token deps.get_installation_token; log_token token

  unfoldable pub prepare : Step (Option Text)
  prepare = do
    update_deployment λ d. record d { status = building; is_started = true }
    update_service λ s. record s { status = building }
    perform create_network deps.create_network_if_missing
    on_log (
        codes "[deploy] Starting deployment for service "
        ++ (service.name ++ (codes " (" ++ (decimal service.id ++ codes ")"))))
    token_for service.is_app

  -- the clone, whose commit is noted
  unfoldable pub fetch : Option Text → Step Text
  fetch token = do
    commit ← perform (clone_or_pull token) (deps.clone token)
    update_deployment λ d. record d { commit = some commit }
    pure commit.0

  -- a call of reloadCaddy whose failure is only logged
  abbrev pub log_reload : Text → Text → Result Text Unit → Step (Unit {0})
  log_reload done warning (ok u) = on_log done
  log_reload done warning (err e) = on_log (warning ++ e)

  unfoldable pub try_reload : Text → Text → Step (Unit {0})
  try_reload done warning w =
      let (after, answer) = perform reload_caddy deps.reload w in
      log_reload done warning answer after

  abbrev pub reload_after : Step (Unit {0})
  reload_after =
      try_reload (codes "[deploy] Caddy config reloaded")
        (codes "[deploy] Warning: Caddy reload failed: ")

  abbrev pub deploy_commit : Text → Step (Unit {0})
  deploy_commit sha = deploy service.is_static sha >> reload_after

  abbrev pub fetch_and_deploy : Option Text → Step (Unit {0})
  fetch_and_deploy token = fetch token >>= deploy_commit

  -- the `try` of runDeployment
  unfoldable pub attempt : Step (Unit {0})
  attempt = prepare >>= fetch_and_deploy

  -- handleFailure
  unfoldable pub handle_failure : Text → Step (Unit {0})
  handle_failure reason = do
    on_log (codes "[deploy] FAILED: " ++ reason)
    update_deployment λ d. record d { status = failed; is_finished = true }
    update_service λ s. record s { status = failed; container = none }
    try_reload (codes "[deploy] Caddy config reloaded after failure")
        (codes "[deploy] Warning: Caddy reload failed after failure: ")

  abbrev pub or_handle : World × Result Text Unit → World × Result Text Unit
  or_handle (w, ok u) = (w, ok u)
  or_handle (w, err e) = handle_failure e w

  abbrev pub after_open : Result Text Unit → Step (Unit {0})
  after_open (ok u) w = or_handle (attempt w)
  after_open (err e) w = (w, err e)

  -- runDeployment; the directory and the stream of the log are opened before the `try`
  unfoldable pub run_deployment : Step (Unit {0})
  run_deployment w = after_open deps.open_log w
