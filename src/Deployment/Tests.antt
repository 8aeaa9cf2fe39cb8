-- ===== src/Deployment/Tests.antt =====
-- A server that is deployed, and one whose container exits at once.
use sitey.Prelude.{refl, ◌≡◌, ok, err, true, false, Bool, [], none, some, ◌++◌, ◌∷◌}
use sitey.Text.{Text, codes}
use sitey.Deployment.{Service, World, Paths, DeployDeps, queued, running, failed}
use sitey.Deployment.Final.{RunEnded, run_deployment-Deployed}
use sitey.Deployment.Run.{
  run_deployment, attempt, deploy, prepare, fetch, try_reload, handle_failure,
}
use sitey.Deployment.Server.{
  deploy_server, resolve_docker_build_source, build_step, clean_up, run_step, inspect_step,
  prune_step, container_env, get_keep_tags, build_keep_tags,
}
use sitey.EnvFile.{parse_env_string, put}
use sitey.SiteBlocks.Bodies.{decimal}

runs : Unit {0}
unfolding run_deployment attempt prepare fetch deploy deploy_server resolve_docker_build_source
    build_step clean_up run_step inspect_step prune_step try_reload handle_failure container_env
    decimal parse_env_string put get_keep_tags build_keep_tags
runs = tt

abbrev shop : Service
shop = record {
  id = 3;
  name = codes "shop";
  is_app = false;
  branch = codes "main";
  is_static = false;
  build_command = [];
  build_image = [];
  output_dir = [];
  is_spa = false;
  is_dockerfile_mode = false;
  dockerfile_path = [];
  env_vars = [];
  container_port = 80;
  host_port = none;
}

abbrev paths : Paths
paths = record {
  root = codes "/data/3";
  repo = codes "/data/3/repo";
  managed_dockerfile = codes "/data/3/Dockerfile";
}

-- everything goes well, and the container is in the given state
abbrev deps_with : Bool × Text → DeployDeps
deps_with state = record {
  open_log = ok tt;
  create_network_if_missing = ok tt;
  get_installation_token = ok none;
  clone = λ token. ok (codes "abc", codes "first");
  run_build = λ command. ok tt;
  spawn = λ command. ok tt;
  exists = λ path. false;
  is_tracked_file = λ path. ok false;
  write_file = λ path. ok tt;
  build = λ context tag dockerfile. ok tt;
  stop = λ name. ok tt;
  run = λ tag name. ok (codes "c1");
  inspect_container = λ id. ok state;
  rollback_count = 0;
  previous_commits = λ n. [];
  prune = λ tags. ok tt;
  reload = ok tt;
  multi_page_signals = λ path. [];
  join_path = λ a b. a ++ b'/' ∷ b;
  relative_path = λ a b. codes "Dockerfile";
}

abbrev before : World
before = record {
  update_answers = [];
  deployment = record { status = queued; is_started = false; is_finished = false; commit = none };
  service = record {
    status = running;
    container = some (codes "c0", codes "sitey-service-3");
    host_port = none;
  };
  log = [];
  calls = [];
}

up_and_running :
    (run_deployment (deps_with (true, codes "running")) paths shop before).0.service ≡ record {
      status = running;
      container = some (codes "c1", codes "sitey-service-3");
      host_port = none;
    }
unfolding runs
up_and_running = refl

exited :
    (run_deployment (deps_with (false, codes "exited")) paths shop before).0.service
    ≡ record { status = failed; container = none; host_port = none }
unfolding runs
exited = refl

-- The rows are deleted while the image is built: the deployment throws, and its row stays as it was.
abbrev deleted : World
deleted = record before {
  update_answers =
      ok tt ∷ ok tt ∷ ok tt ∷ err (codes "No record was found") ∷ err (codes "No record") ∷ [];
}

deleted_throws :
    (run_deployment (deps_with (true, codes "running")) paths shop deleted).1
    ≡ err (codes "No record")
unfolding runs
deleted_throws = refl

run_deployment-Deployed_example :
    RunEnded
      (deps_with (true, codes "running"))
      paths
      shop
      deleted
      (run_deployment (deps_with (true, codes "running")) paths shop deleted)
run_deployment-Deployed_example =
    run_deployment-Deployed (deps_with (true, codes "running")) paths shop deleted refl
