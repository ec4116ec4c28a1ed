-- ===== src/Cli/Tests.antt =====
-- src/sudo/cli/mod.rs: the command line at concrete inputs.
use sudo_rs.Prelude.{true, false, ◌&&◌, none, some, List, [], ◌∷◌}
use sudo_rs.Prelude.{◌≡◌, refl}
use sudo_rs.Prelude.Tests.{leb}
use sudo_rs.Prelude.Text.{Text, codes, text_eq, starts_with}
use sudo_rs.Env.Keep.{split_once}
use sudo_rs.Cli.{SudoOptions, SudoRunOptions, default_options, run_action, ok, Std}
use sudo_rs.Cli.Validate.{ensure_absent, reject_all, to_run, validate}
use sudo_rs.Cli.Kept.{options_of}
use sudo_rs.Cli.Kept.Actions.{validate-Kept}
use sudo_rs.Cli.Arguments.{
  demand_utf8, try_to_env_var, long_option, short_argument, short_options, normalize_one,
  normalize_arguments,
}
use sudo_rs.Cli.Parse.{
  apply_flag, apply_argument, apply_rest, apply_arg, apply_args, ends_with_slash, is_sudoedit,
  parse_options,
}
use sudo_rs.Cli.Delivered.{Delivered, parse_options-Delivered}

abbrev std : Std
std = record {
  from_utf8 = some;
  is_alphanumeric = λ c. leb b'A' c && leb c b'z';
  file_name = some;
  path_ends_with = text_eq;
  env_var = λ v. none;
}

abbrev words : List Text
words =
    codes "-nu"
    ∷ codes "ferris"
    ∷ codes "--chdir=/tmp"
    ∷ codes "LANG=C"
    ∷ codes "ls"
    ∷ codes "-l"
    ∷ []

abbrev parsed : SudoOptions
parsed = record default_options {
  non_interactive = true;
  user = some (codes "ferris");
  chdir = some (codes "/tmp");
  env_var_list = (codes "LANG", codes "C") ∷ [];
  positional_args = codes "ls" ∷ codes "-l" ∷ [];
}

abbrev run_ls : SudoRunOptions
run_ls = record {
  askpass = false;
  bell = false;
  background = false;
  reset_timestamp = false;
  non_interactive = true;
  stdin = false;
  prompt = none;
  chdir = some (codes "/tmp");
  group = none;
  user = some (codes "ferris");
  env_var_list = (codes "LANG", codes "C") ∷ [];
  login = false;
  shell = false;
  positional_args = codes "ls" ∷ codes "-l" ∷ [];
}

words-parsed : parse_options std (codes "sudo" ∷ words) ≡ ok parsed
unfolding parse_options normalize_arguments normalize_one demand_utf8 short_options short_argument
    long_option split_once try_to_env_var apply_args apply_arg apply_flag apply_argument apply_rest
    ends_with_slash is_sudoedit text_eq starts_with
words-parsed = refl

parsed_valid : validate parsed ≡ ok (run_action run_ls)
unfolding validate to_run reject_all ensure_absent
parsed_valid = refl

validate-Kept_example :
    (options_of (run_action run_ls) ≡ record parsed { env_var_list = [] })
    × (run_ls.env_var_list ≡ parsed.env_var_list)
validate-Kept_example = validate-Kept parsed (run_action run_ls) parsed_valid

parse_options-Delivered_example : Delivered std (is_sudoedit std (some (codes "sudo"))) words parsed
parse_options-Delivered_example =
    parse_options-Delivered std (codes "sudo") words parsed words-parsed
