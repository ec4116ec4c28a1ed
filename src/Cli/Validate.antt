-- ===== src/Cli/Validate.antt =====
-- src/sudo/cli/mod.rs: `SudoOptions::validate`, with the `TryFrom` of each action and `reject_all`.
use sudo_rs.Prelude.{Bool, true, false, not, ◌&&◌, ◌||◌, Option, none, some, List, [], ◌∷◌}
use sudo_rs.Prelude.Tests.{if◌then◌else◌}
use sudo_rs.Prelude.Text.{Text, codes}
use sudo_rs.Cli.{
  SudoOptions, SudoAction, edit_action, help_action, list_action, remove_timestamp_action,
  reset_timestamp_action, run_action, validate_action, version_action, cannot_be_used_together,
  must_specify_file, user_without_command, expected_run, expected_action, CliResult, ok, err, panic,
  and_then,
}

-- `IsAbsent`, negated
abbrev pub present : {A : Type 0} → Option A → Bool
present none = false
present (some a) = true

abbrev pub nonempty : {A : Type 0} → List A → Bool
nonempty [] = false
nonempty (x ∷ xs) = true

-- The fields in the order of `check_options!`, with their names. The environment is cleared before.
abbrev pub checked_fields : SudoOptions → List (Bool × Text)
checked_fields opts =
    (opts.askpass, codes "--askpass")
    ∷ (opts.bell, codes "--bell")
    ∷ (opts.background, codes "--background")
    ∷ (present opts.chdir, codes "--chdir")
    ∷ (opts.edit, codes "--edit")
    ∷ (present opts.group, codes "--group")
    ∷ (opts.help, codes "--help")
    ∷ (present opts.list, codes "--list")
    ∷ (opts.login, codes "--login")
    ∷ (opts.non_interactive, codes "--non-interactive")
    ∷ (present opts.other_user, codes "--other-user")
    ∷ (opts.remove_timestamp, codes "--remove-timestamp")
    ∷ (opts.reset_timestamp, codes "--reset-timestamp")
    ∷ (opts.shell, codes "--shell")
    ∷ (opts.stdin, codes "--stdin")
    ∷ (present opts.prompt, codes "--prompt")
    ∷ (present opts.user, codes "--user")
    ∷ (opts.validate, codes "--validate")
    ∷ (opts.version, codes "--version")
    ∷ (nonempty opts.positional_args, codes "command")
    ∷ (nonempty opts.env_var_list, codes "environment variable")
    ∷ []

-- `ensure_is_absent` of each field
unfoldable pub ensure_absent : Text → List (Bool × Text) → CliResult (Unit {0})
ensure_absent context [] = ok tt
ensure_absent context ((thing, name) ∷ fields) =
    let rest = ensure_absent context fields in
    if thing then err (cannot_be_used_together context name) else rest

unfoldable pub reject_all : Text → SudoOptions → CliResult (Unit {0})
reject_all context opts = ensure_absent context (checked_fields (record opts { env_var_list = [] }))

abbrev pub bell_and_stdin : {A : Type 0} → SudoOptions → CliResult A → CliResult A
bell_and_stdin opts rest =
    if opts.bell && opts.stdin
    then err (cannot_be_used_together (codes "--bell") (codes "--stdin"))
    else rest

unfoldable pub to_remove_timestamp : SudoOptions → CliResult SudoAction
to_remove_timestamp opts =
    and_then (reject_all (codes "--remove-timestamp") (record opts { remove_timestamp = false }))
      (λ _. ok remove_timestamp_action)

unfoldable pub to_reset_timestamp : SudoOptions → CliResult SudoAction
to_reset_timestamp opts =
    and_then (reject_all (codes "--reset-timestamp") (record opts { reset_timestamp = false }))
      (λ _. ok reset_timestamp_action)

unfoldable pub to_validate : SudoOptions → CliResult SudoAction
to_validate opts = bell_and_stdin opts (
    and_then
      (reject_all (codes "--validate") (record opts {
        validate = false;
        askpass = false;
        bell = false;
        reset_timestamp = false;
        non_interactive = false;
        stdin = false;
        prompt = none;
        group = none;
        user = none;
      }))
      (λ _. ok (
        validate_action (record {
          askpass = opts.askpass;
          bell = opts.bell;
          reset_timestamp = opts.reset_timestamp;
          non_interactive = opts.non_interactive;
          stdin = opts.stdin;
          prompt = opts.prompt;
          group = opts.group;
          user = opts.user;
        }))))

unfoldable pub to_edit : SudoOptions → CliResult SudoAction
to_edit opts = bell_and_stdin opts (
    and_then
      (reject_all (codes "--edit") (record opts {
        edit = false;
        askpass = false;
        bell = false;
        reset_timestamp = false;
        non_interactive = false;
        stdin = false;
        prompt = none;
        chdir = none;
        group = none;
        user = none;
        positional_args = [];
      }))
      (λ _.
        if nonempty opts.positional_args
        then ok (
            edit_action (record {
              askpass = opts.askpass;
              bell = opts.bell;
              reset_timestamp = opts.reset_timestamp;
              non_interactive = opts.non_interactive;
              stdin = opts.stdin;
              prompt = opts.prompt;
              chdir = opts.chdir;
              group = opts.group;
              user = opts.user;
              positional_args = opts.positional_args;
            }))
        else err must_specify_file))

abbrev pub user_needs_command : {A : Type 0} → SudoOptions → CliResult A → CliResult A
user_needs_command opts rest =
    if present opts.user && not (nonempty opts.positional_args)
    then err user_without_command
    else rest

unfoldable pub to_list : SudoOptions → CliResult SudoAction
to_list opts = elim opts.list [
  | none ↦ panic
  | some list ↦ bell_and_stdin opts (
      user_needs_command opts (
        and_then
          (reject_all (codes "--list") (record opts {
            askpass = false;
            bell = false;
            list = none;
            reset_timestamp = false;
            non_interactive = false;
            stdin = false;
            prompt = none;
            group = none;
            other_user = none;
            user = none;
            positional_args = [];
          }))
          (λ _. ok (
            list_action (record {
              askpass = opts.askpass;
              bell = opts.bell;
              list = list;
              reset_timestamp = opts.reset_timestamp;
              non_interactive = opts.non_interactive;
              stdin = opts.stdin;
              prompt = opts.prompt;
              group = opts.group;
              other_user = opts.other_user;
              user = opts.user;
              positional_args = opts.positional_args;
            })))))
]

-- The context of the error messages, by --login, --shell and whether there is a command. The last
-- error is that of a release build.
abbrev pub run_context : Bool → Bool → Bool → CliResult Text
run_context true false command = ok (codes "--login")
run_context false true command = ok (codes "--shell")
run_context false false true = ok (codes "command (positional argument)")
run_context true true command = err (cannot_be_used_together (codes "--login") (codes "--shell"))
run_context false false false = err expected_run

unfoldable pub to_run : SudoOptions → CliResult SudoAction
to_run opts = bell_and_stdin opts (
    and_then (run_context opts.login opts.shell (nonempty opts.positional_args)) (λ context.
      and_then
        (reject_all context (record opts {
          askpass = false;
          bell = false;
          background = false;
          reset_timestamp = false;
          non_interactive = false;
          stdin = false;
          prompt = none;
          chdir = none;
          group = none;
          user = none;
          env_var_list = [];
          login = false;
          shell = false;
          positional_args = [];
        }))
        (λ _. ok (
          run_action (record {
            askpass = opts.askpass;
            bell = opts.bell;
            background = opts.background;
            reset_timestamp = opts.reset_timestamp;
            non_interactive = opts.non_interactive;
            stdin = opts.stdin;
            prompt = opts.prompt;
            chdir = opts.chdir;
            group = opts.group;
            user = opts.user;
            env_var_list = opts.env_var_list;
            login = opts.login;
            shell = opts.shell;
            positional_args = opts.positional_args;
          })))))

unfoldable pub validate : SudoOptions → CliResult SudoAction
validate opts =
    if opts.help
    then ok help_action
    else if opts.version
    then ok version_action
    else if opts.remove_timestamp
    then to_remove_timestamp opts
    else if opts.validate
    then to_validate opts
    else if present opts.list
    then to_list opts
    else if opts.edit
    then to_edit opts
    else if opts.login || opts.shell || nonempty opts.positional_args
    then to_run opts
    else if opts.reset_timestamp
    then to_reset_timestamp opts
    else err expected_action
