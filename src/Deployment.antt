-- ===== src/Deployment.antt =====
-- server/src/services/deployment.ts: what a deployment reads, the rows that it changes, and the functions that it
-- is given (DeployDeps). A call of one of those answers a value or the message of what it throws.
pub mod Steps
pub mod Server
pub mod Run
pub mod Outcome
pub mod Final
mod Tests
use sitey.Prelude.{ℕ, Bool, Option, List, Result}
use sitey.Text.{Text}

-- What is read of a service and its repository.
pub record Service : Type 0 where
  pub id : ℕ
  pub name : Text
  pub is_app : Bool
  pub branch : Text
  pub is_static : Bool
  pub build_command : Text
  pub build_image : Text
  pub output_dir : Text
  pub is_spa : Bool
  pub is_dockerfile_mode : Bool
  pub dockerfile_path : Text
  pub env_vars : Text
  pub container_port : ℕ
  pub host_port : Option ℕ

-- The status of a row of Deployment or Service.
pub data Status : Type 0 where
  queued building success running failed : Status

pub record DeploymentRow : Type 0 where
  pub status : Status
  pub is_started : Bool
  pub is_finished : Bool
  pub commit : Option (Text × Text)

pub record ServiceState : Type 0 where
  pub status : Status
  pub container : Option (Text × Text)
  pub host_port : Option ℕ

-- A call of one of the functions that are given, with what tells it from others.
pub data Call : Type 0 where
  create_network : Call
  get_token : Call
  clone_or_pull : Option Text → Call
  run_build_container spawn_build : Text → List (Text × Text) → Call
  write_dockerfile : Text → Call
  build_image : Text → Text → Text → Call
  stop_and_remove : Text → Call
  run_or_replace : Text → Text → List (Text × Text) → Call
  sleep : ℕ → Call
  inspect : Text → Call
  prune_images : List Text → Call
  reload_caddy : Call

-- The rows, the lines of the log and the calls so far. `update_answers` is what the database will answer the
-- updates of a row that are still to come: an update throws, for instance, when the row has been deleted by then.
-- After the end of that list the updates succeed.
pub record World : Type 0 where
  pub update_answers : List (Result Text Unit)
  pub deployment : DeploymentRow
  pub service : ServiceState
  pub log : List Text
  pub calls : List Call

-- Where the service's files are.
pub record Paths : Type 0 where
  pub root : Text
  pub repo : Text
  pub managed_dockerfile : Text

-- DeployDeps, as what a call answers in this deployment, with the platform's functions on paths and numbers.
pub record DeployDeps : Type 0 where
  pub open_log : Result Text Unit
  pub create_network_if_missing : Result Text Unit
  pub get_installation_token : Result Text (Option Text)
  pub clone : Option Text → Result Text (Text × Text)
  pub run_build : Text → Result Text Unit
  pub spawn : Text → Result Text Unit
  pub exists : Text → Bool
  pub is_tracked_file : Text → Result Text Bool
  pub write_file : Text → Result Text Unit
  pub build : Text → Text → Text → Result Text Unit
  pub stop : Text → Result Text Unit
  pub run : Text → Text → Result Text Text
  pub inspect_container : Text → Result Text (Bool × Text)
  pub rollback_count : ℕ
  pub previous_commits : ℕ → List Text
  pub prune : List Text → Result Text Unit
  pub reload : Result Text Unit
  pub multi_page_signals : Text → List Text
  pub join_path : Text → Text → Text
  pub relative_path : Text → Text → Text
