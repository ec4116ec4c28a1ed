-- ===== src/Cli/Parse.antt =====
-- src/sudo/cli/mod.rs: `SudoOptions::try_parse_from` and `is_sudoedit`.
use sudo_rs.Prelude.{Bool, true, false, not, ◌&&◌, ◌||◌, Option, none, some, List, [], ◌∷◌, ◌++◌}
use sudo_rs.Prelude.Tests.{if◌then◌else◌, ◌==◌}
use sudo_rs.Prelude.Text.{Text, codes, text_eq, starts_with}
use sudo_rs.Cli.{
  Listing, once, verbose, SudoOptions, default_options, SudoAction, invalid_option, CliResult, ok,
  err, and_then, Std,
}
use sudo_rs.Cli.Validate.{validate}
use sudo_rs.Cli.Arguments.{SudoArg, flag, argument, environment, rest_of, normalize_arguments}

-- The two spellings of an option.
abbrev pub is_option : Text → Text → Text → Bool
is_option short long s = text_eq s short || text_eq s long

abbrev pub more_listing : Option Listing → Option Listing
more_listing none = some once
more_listing (some once) = some verbose
more_listing (some verbose) = some verbose

unfoldable pub apply_flag : Bool → Text → SudoOptions → CliResult SudoOptions
apply_flag invoked_as_sudoedit s options =
    if is_option (codes "-A") (codes "--askpass") s
    then ok (record options { askpass = true })
    else if is_option (codes "-B") (codes "--bell") s
    then ok (record options { bell = true })
    else if is_option (codes "-b") (codes "--background") s
    then ok (record options { background = true })
    else if is_option (codes "-E") (codes "--preserve-env") s
    then ok options
    else if is_option (codes "-e") (codes "--edit") s && not invoked_as_sudoedit
    then ok (record options { edit = true })
    else if is_option (codes "-H") (codes "--set-home") s
    then ok options
    else if is_option (codes "-h") (codes "--help") s
    then ok (record options { help = true })
    else if is_option (codes "-i") (codes "--login") s
    then ok (record options { login = true })
    else if is_option (codes "-K") (codes "--remove-timestamp") s
    then ok (record options { remove_timestamp = true })
    else if is_option (codes "-k") (codes "--reset-timestamp") s
    then ok (record options { reset_timestamp = true })
    else if is_option (codes "-l") (codes "--list") s
    then ok (record options { list = more_listing options.list })
    else if is_option (codes "-n") (codes "--non-interactive") s
    then ok (record options { non_interactive = true })
    else if is_option (codes "-S") (codes "--stdin") s
    then ok (record options { stdin = true })
    else if is_option (codes "-s") (codes "--shell") s
    then ok (record options { shell = true })
    else if is_option (codes "-V") (codes "--version") s
    then ok (record options { version = true })
    else if is_option (codes "-v") (codes "--validate") s
    then ok (record options { validate = true })
    else err invalid_option

-- `split(',')`, with the text before the next comma first.
unfoldable pub split_commas : Text → List Text
split_commas [] = [] ∷ []
split_commas (c ∷ s) =
    let later = split_commas s in
    if c == b','
    then [] ∷ later
    else elim later [ [] ↦ (c ∷ []) ∷ [] | part ∷ parts ↦ (c ∷ part) ∷ parts ]

module _ (std : Std) where
  -- The variables that are set, with their values.
  unfoldable pub preserved : List Text → List (Text × Text)
  preserved [] = []
  preserved (var ∷ vars) =
      let later = preserved vars in
      elim (std.env_var var) [ none ↦ later | some value ↦ (var, value) ∷ later ]

  unfoldable pub apply_argument : Text → Text → SudoOptions → CliResult SudoOptions
  apply_argument option value options =
      if is_option (codes "-D") (codes "--chdir") option
      then ok (record options { chdir = some value })
      else if is_option (codes "-E") (codes "--preserve-env") option
      then ok
          (record options { env_var_list = options.env_var_list ++ preserved (split_commas value) })
      else if is_option (codes "-g") (codes "--group") option
      then ok (record options { group = some value })
      else if is_option (codes "-p") (codes "--prompt") option
      then ok (record options { prompt = some value })
      else if is_option (codes "-U") (codes "--other-user") option
      then ok (record options { other_user = some value })
      else if is_option (codes "-u") (codes "--user") option
      then ok (record options { user = some value })
      else err invalid_option

  unfoldable pub ends_with_slash : Text → Bool
  ends_with_slash [] = false
  ends_with_slash (c ∷ []) = c == b'/'
  ends_with_slash (c ∷ d ∷ s) = ends_with_slash (d ∷ s)

  abbrev pub names_sudoedit : Text → Bool
  names_sudoedit cmd =
      not (ends_with_slash cmd)
      && (std.path_ends_with cmd (codes "sudoedit") || std.path_ends_with cmd (codes "sudoedit-rs"))

  unfoldable pub apply_rest : List Text → SudoOptions → SudoOptions
  apply_rest [] options = record options { positional_args = [] }
  apply_rest (cmd ∷ rest) options =
      if not options.edit && names_sudoedit cmd
      then record options { edit = true; positional_args = rest }
      else record options { positional_args = cmd ∷ rest }

  unfoldable pub apply_arg : Bool → SudoArg → SudoOptions → CliResult SudoOptions
  apply_arg invoked_as_sudoedit (flag s) options = apply_flag invoked_as_sudoedit s options
  apply_arg invoked_as_sudoedit (argument option value) options =
      apply_argument option value options
  apply_arg invoked_as_sudoedit (environment key value) options =
      ok (record options { env_var_list = options.env_var_list ++ ((key, value) ∷ []) })
  apply_arg invoked_as_sudoedit (rest_of rest) options = ok (apply_rest rest options)

  unfoldable pub apply_args : Bool → List SudoArg → SudoOptions → CliResult SudoOptions
  apply_args invoked_as_sudoedit [] options = ok options
  apply_args invoked_as_sudoedit (arg ∷ args) options =
      and_then (apply_arg invoked_as_sudoedit arg options) (apply_args invoked_as_sudoedit args)

  unfoldable pub is_sudoedit : Option Text → Bool
  is_sudoedit command_path =
      elim (std.file_name (elim command_path [ none ↦ [] | some path ↦ path ])) [
        | none ↦ false
        | some name ↦ starts_with name (codes "sudoedit")
      ]

  abbrev pub parse_with : Bool → List Text → CliResult SudoOptions
  parse_with invoked_as_sudoedit args = and_then (normalize_arguments std args) (λ normal.
      apply_args invoked_as_sudoedit normal (record default_options { edit = invoked_as_sudoedit }))

  -- `SudoOptions::try_parse_from`, and `SudoAction::try_parse_from`
  unfoldable pub parse_options : List Text → CliResult SudoOptions
  parse_options [] = parse_with (is_sudoedit none) []
  parse_options (command ∷ args) = parse_with (is_sudoedit (some command)) args

  unfoldable pub try_parse_from : List Text → CliResult SudoAction
  try_parse_from args = and_then (parse_options args) validate
