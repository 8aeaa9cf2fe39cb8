-- ===== src/Args/Spec.antt =====
-- The table of commands in siteyctl/src/spec.ts, as far as the parser reads it: names, arguments and options.
-- The texts that only the help shows are left out.
use sitey.Prelude.{Bool, true, false, Option, none, some, List, [], ◌∷◌, ◌++◌}
use sitey.Text.{Text, codes}

pub data OptionType : Type 0 where
  text boolean optional_text : OptionType

pub record OptionSpec : Type 0 where
  pub type : OptionType
  pub multiple : Bool
  pub short : Option Text
  pub default_value : Option Text

abbrev pub Options : Type 0
Options = List (Text × OptionSpec)

pub record CommandSpec : Type 0 where
  pub name : Text
  pub args : List Text
  pub options : Options

abbrev pub text_option : OptionSpec
text_option = record { type = text; multiple = false; short = none; default_value = none }

abbrev pub flag_option : OptionSpec
flag_option = record { type = boolean; multiple = false; short = none; default_value = none }

abbrev pub global_options : Options
global_options =
    (codes "server", text_option)
    ∷ (codes "json", flag_option)
    ∷ (codes "help", record flag_option { short = some (codes "h") })
    ∷ []

abbrev pub wait_options : Options
wait_options = (codes "wait", flag_option) ∷ (codes "timeout", text_option) ∷ []

abbrev pub build_options : Options
build_options =
    (codes "branch", text_option)
    ∷ (codes "build-image", text_option)
    ∷ (codes "build-command", text_option)
    ∷ (codes "output-dir", text_option)
    ∷ (codes "run-command", text_option)
    ∷ (codes "port", text_option)
    ∷ (
      codes "dockerfile",
      record text_option { type = optional_text; default_value = some (codes "Dockerfile") },
    )
    ∷ []

abbrev pub routing_options : Options
routing_options =
    (codes "static-routing", text_option) ∷ (codes "static-caddy-file", text_option) ∷ []

abbrev pub profile_commands : List CommandSpec
profile_commands =
    record { name = codes "login"; args = codes "server-name" ∷ codes "url" ∷ []; options = [] }
    ∷ record { name = codes "servers"; args = []; options = [] }
    ∷ []

abbrev pub create_options : Options
create_options =
    (codes "repo", text_option)
    ∷ (codes "mode", text_option)
    ∷ (build_options
        ++ (routing_options
            ++ (codes "route", record text_option { multiple = true })
              ∷ (codes "github-mode", text_option)
              ∷ []))

abbrev pub set_options : Options
set_options =
    (codes "mode", text_option)
    ∷ (build_options ++ (routing_options ++ (codes "no-dockerfile", flag_option) ∷ []))

abbrev pub one_service : List Text
one_service = codes "service" ∷ []

abbrev pub service_commands : List CommandSpec
service_commands =
    record { name = codes "services"; args = []; options = [] }
    ∷ record { name = codes "service get"; args = one_service; options = [] }
    ∷ record { name = codes "service create"; args = codes "name" ∷ []; options = create_options }
    ∷ record { name = codes "service set"; args = one_service; options = set_options }
    ∷ record {
      name = codes "service rename";
      args = codes "service" ∷ codes "new-name" ∷ [];
      options = [];
    }
    ∷ record { name = codes "service deactivate"; args = one_service; options = [] }
    ∷ record { name = codes "service activate"; args = one_service; options = [] }
    ∷ record {
      name = codes "service delete";
      args = one_service;
      options = (codes "confirm", text_option) ∷ [];
    }
    ∷ []

abbrev pub route_commands : List CommandSpec
route_commands =
    record { name = codes "route add"; args = codes "service" ∷ codes "route" ∷ []; options = [] }
    ∷ record {
      name = codes "route remove";
      args = codes "service" ∷ codes "route" ∷ [];
      options = [];
    }
    ∷ []

abbrev pub service_and_variable : List Text
service_and_variable = codes "service" ∷ codes "VAR" ∷ []

abbrev pub env_commands : List CommandSpec
env_commands =
    record {
      name = codes "env list";
      args = one_service;
      options = (codes "values", flag_option) ∷ [];
    }
    ∷ record { name = codes "env get"; args = service_and_variable; options = [] }
    ∷ record { name = codes "env set"; args = service_and_variable; options = [] }
    ∷ record { name = codes "env unset"; args = service_and_variable; options = [] }
    ∷ []

abbrev pub deploy_commands : List CommandSpec
deploy_commands =
    record { name = codes "deploy"; args = one_service; options = wait_options }
    ∷ record { name = codes "status"; args = codes "service?" ∷ []; options = wait_options }
    ∷ record {
      name = codes "logs";
      args = one_service;
      options =
          (codes "deployment", text_option)
          ∷ (codes "tail", text_option)
          ∷ (codes "runtime", flag_option)
          ∷ [];
    }
    ∷ []

abbrev pub domain_commands : List CommandSpec
domain_commands =
    record { name = codes "domains"; args = []; options = [] }
    ∷ record {
      name = codes "domain add";
      args = codes "hostname" ∷ [];
      options = (codes "email", text_option) ∷ [];
    }
    ∷ record {
      name = codes "export";
      args = [];
      options = (codes "output", record text_option { short = some (codes "o") }) ∷ [];
    }
    ∷ []

-- COMMANDS
unfoldable pub commands : List CommandSpec
commands =
    profile_commands
    ++ (service_commands
        ++ (route_commands ++ (env_commands ++ (deploy_commands ++ domain_commands))))
