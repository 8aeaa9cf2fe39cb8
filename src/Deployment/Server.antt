-- ===== src/Deployment/Server.antt =====
-- resolveDockerBuildSource, getKeepTags and deployServer of server/src/services/deployment.ts.
use sitey.Prelude.{
  ok, ℕ, ◌==◌, Bool, true, false, not, Option, none, some, List, [], ◌∷◌, ◌++◌, map, keep, take,
  is_empty, if◌then◌else◌,
}
use sitey.Text.{Text, codes, text_eq}
use sitey.Deployment.{
  Service, Paths, DeployDeps, write_dockerfile, build_image, stop_and_remove, run_or_replace, sleep,
  inspect, prune_images,
}
use sitey.Deployment.Steps.{Step, pure, throw, ◌>>=◌, ◌>>◌, on_log, perform, update_service}
use sitey.EnvFile.{parse_env_string, put}
use sitey.SiteBlocks.Bodies.{decimal}

abbrev pub container_name : Service → Text
container_name service = codes "sitey-service-" ++ decimal service.id

abbrev pub image_tag : Service → Text → Text
image_tag service sha = codes "sitey/" ++ (decimal service.id ++ b':' ∷ take 12 sha)

-- buildKeepTags
unfoldable pub build_keep_tags : Text → List Text → ℕ → List Text
build_keep_tags current previous n =
    if n == 0 then current ∷ [] else current ∷ keep (λ t. not (text_eq t current)) previous

-- where an image is built
pub record DockerBuildSource : Type 0 where
  pub context_path : Text
  pub dockerfile_path : Text

abbrev pub dockerfile_rel_path : Service → Text
dockerfile_rel_path service =
    if is_empty service.dockerfile_path then codes "Dockerfile" else service.dockerfile_path

module _ (deps : DeployDeps) (paths : Paths) (service : Service) where
  -- getKeepTags
  unfoldable pub get_keep_tags : Text → List Text
  get_keep_tags tag =
      build_keep_tags tag
        (map (λ sha. image_tag service sha) (deps.previous_commits deps.rollback_count))
        deps.rollback_count

  abbrev pub is_tracked : Bool → Step Bool
  is_tracked false = pure false
  is_tracked true = λ w. (w, deps.is_tracked_file (dockerfile_rel_path service))

  abbrev pub repo_dockerfile : Text
  repo_dockerfile = deps.join_path paths.repo (dockerfile_rel_path service)

  abbrev pub use_tracked : Step DockerBuildSource
  use_tracked = do
    on_log (codes "[deploy] Using tracked Dockerfile: " ++ dockerfile_rel_path service)
    pure (record { context_path = paths.repo; dockerfile_path = repo_dockerfile })

  abbrev pub use_managed : Step DockerBuildSource
  use_managed = do
    perform (write_dockerfile paths.managed_dockerfile) (deps.write_file paths.managed_dockerfile)
    on_log (codes "[deploy] Wrote managed Dockerfile: " ++ paths.managed_dockerfile)
    pure (record { context_path = paths.root; dockerfile_path = paths.managed_dockerfile })

  abbrev pub choose_source : Bool → Bool → Step DockerBuildSource
  choose_source dockerfile_mode true = use_tracked
  choose_source true false = throw (
      codes "Build mode is dockerfile, but repository has no tracked Dockerfile at: "
      ++ dockerfile_rel_path service)
  choose_source false false = use_managed

  unfoldable pub resolve_docker_build_source : Step DockerBuildSource
  resolve_docker_build_source = do
    tracked ← is_tracked (deps.exists repo_dockerfile)
    choose_source service.is_dockerfile_mode tracked

  -- the variables of the container; the service's own PORT and DATA_DIR are replaced
  unfoldable pub container_env : List (Text × Text)
  container_env =
      put (codes "DATA_DIR") (codes "/data")
        (put (codes "PORT") (decimal service.container_port) (parse_env_string service.env_vars))

  abbrev pub clear_host_port : Option ℕ → Step (Unit {0})
  clear_host_port none = pure tt
  clear_host_port (some port) = update_service λ s. record s { host_port = none }

  abbrev pub remove_legacy : Text → Step (Unit {0})
  remove_legacy legacy =
      if text_eq legacy (container_name service)
      then pure tt
      else perform (stop_and_remove legacy) (deps.stop legacy)

  abbrev pub check_running : Text → Bool × Text → Step (Unit {0})
  check_running id (true, state) = pure tt
  check_running id (false, state) = throw (
      codes "Container exited right after start (state: "
      ++ (state ++ codes "). Check container logs."))

  abbrev pub relative_dockerfile : DockerBuildSource → Text
  relative_dockerfile source = deps.relative_path source.context_path source.dockerfile_path

  unfoldable pub build_step : Text → DockerBuildSource → Step (Unit {0})
  build_step tag source =
      perform (build_image source.context_path tag (relative_dockerfile source))
        (deps.build source.context_path tag (relative_dockerfile source))

  -- what is put aside before the container is replaced
  unfoldable pub clean_up : Step (Unit {0})
  clean_up = do
    clear_host_port service.host_port
    remove_legacy (codes "sitey-project-" ++ decimal service.id)
    remove_legacy (codes "sitey-" ++ decimal service.id)

  unfoldable pub run_step : Text → Step Text
  run_step tag =
      perform (run_or_replace tag (container_name service) container_env)
        (deps.run tag (container_name service))

  -- a brief window to crash, then a look whether the container still runs
  unfoldable pub inspect_step : Text → Step (Unit {0})
  inspect_step id = do
    perform (sleep 3000) (ok tt)
    state ← perform (inspect id) (deps.inspect_container id)
    check_running id state

  unfoldable pub prune_step : Text → Text → Step Text
  prune_step tag id = do
    perform (prune_images (get_keep_tags tag)) (deps.prune (get_keep_tags tag))
    on_log (
        codes "[deploy] Deployment successful! Container: "
        ++ (container_name service ++ (codes " (" ++ (take 12 id ++ codes ")"))))
    pure id

  abbrev pub verify_step : Text → Text → Step Text
  verify_step tag id = inspect_step id >> prune_step tag id

  abbrev pub replace_step : Text → Step Text
  replace_step tag = clean_up >> (run_step tag >>= verify_step tag)

  abbrev pub build_and_run : Text → DockerBuildSource → Step Text
  build_and_run tag source = build_step tag source >> replace_step tag

  -- deployServer, which answers the id of the container
  unfoldable pub deploy_server : Text → Step Text
  deploy_server sha = resolve_docker_build_source >>= build_and_run (image_tag service sha)
