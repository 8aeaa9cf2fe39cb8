-- ===== src/Args/Tests.antt =====
-- A command line with an option's default value, and one that lacks an argument.
use sitey.Prelude.{refl, ◌≡◌, In, List, ◌∷◌, [], Result, some, none, false}
use sitey.Text.{codes, Text}
use sitey.Args.{
  Run, expand_optional_values, parse_invocation, run_command, find_command, err, ok, word_indexes,
  Parsed, missing_arguments, needs_subcommand, run, word_loop, is_option, find_from, command_named,
  without_indexes, expand_loop, invoke, run_of, bind_args, unknown,
}
use sitey.Args.Required.{BindsRequired, parse_invocation-BindsRequired}
use sitey.Args.Spec.{Options, build_options, commands, one_service, wait_options}

runs : Unit {0}
unfolding parse_invocation run_command find_command word_indexes word_loop is_option find_from
    command_named commands without_indexes expand_optional_values expand_loop invoke run_of
    bind_args unknown
runs = tt

-- a parser that takes every token for an argument
abbrev all_positional : Options → List Text → Result Text Parsed
all_positional options tokens = ok (record { values = []; positionals = tokens })

abbrev deploy_shop : Run
deploy_shop = record {
  command = record { name = codes "deploy"; args = one_service; options = wait_options };
  args = (codes "service", some (codes "shop")) ∷ [];
  options = [];
  server = none;
  json = false;
}

deploy_runs :
    parse_invocation all_positional (codes "deploy" ∷ codes "shop" ∷ []) ≡ ok (run deploy_shop)
unfolding runs
deploy_runs = refl

parse_invocation-BindsRequired_example :
    In deploy_shop.command commands × BindsRequired deploy_shop.command.args deploy_shop.args
parse_invocation-BindsRequired_example =
    parse_invocation-BindsRequired all_positional (codes "deploy" ∷ codes "shop" ∷ []) deploy_shop
      deploy_runs

service_missing :
    parse_invocation all_positional (codes "deploy" ∷ [])
    ≡ err (missing_arguments (codes "service" ∷ []) deploy_shop.command)
unfolding runs
service_missing = refl

dockerfile_expanded :
    expand_optional_values build_options
      (codes "--dockerfile" ∷ codes "--port" ∷ codes "80" ∷ codes "--dockerfile" ∷ codes "Dev" ∷ [])
    ≡ codes "--dockerfile=Dockerfile" ∷ codes "--port" ∷ codes "80" ∷ codes "--dockerfile=Dev" ∷ []
unfolding runs
dockerfile_expanded = refl

service_needs_more :
    parse_invocation all_positional (codes "route" ∷ [])
    ≡ err (needs_subcommand (codes "route") (codes "route add" ∷ codes "route remove" ∷ []))
unfolding runs
service_needs_more = refl
