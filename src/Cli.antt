-- ===== src/Cli.antt =====
-- src/sudo/cli/mod.rs: the options of the command line and the actions that they ask for.
pub mod Validate
pub mod Kept
pub mod Arguments
pub mod Parse
pub mod Delivered
mod Tests
use sudo_rs.Prelude.{ℕ, Bool, true, false, not, ◌&&◌, ◌||◌, Option, none, some, List, [], ◌∷◌}
use sudo_rs.Prelude.{◌≡◌, refl}
use sudo_rs.Prelude.Text.{Text}

-- `List`: the option -l, once or more often
pub data Listing : Type 0 where
  once verbose : Listing

pub record SudoOptions : Type 0 where
  pub askpass : Bool
  pub bell : Bool
  pub background : Bool
  pub chdir : Option Text
  pub group : Option Text
  pub login : Bool
  pub non_interactive : Bool
  pub other_user : Option Text
  pub shell : Bool
  pub stdin : Bool
  pub prompt : Option Text
  pub user : Option Text
  pub env_var_list : List (Text × Text)
  pub edit : Bool
  pub help : Bool
  pub list : Option Listing
  pub remove_timestamp : Bool
  pub reset_timestamp : Bool
  pub validate : Bool
  pub version : Bool
  pub positional_args : List Text

abbrev pub default_options : SudoOptions
default_options = record {
  askpass = false;
  bell = false;
  background = false;
  chdir = none;
  group = none;
  login = false;
  non_interactive = false;
  other_user = none;
  shell = false;
  stdin = false;
  prompt = none;
  user = none;
  env_var_list = [];
  edit = false;
  help = false;
  list = none;
  remove_timestamp = false;
  reset_timestamp = false;
  validate = false;
  version = false;
  positional_args = [];
}

pub record SudoValidateOptions : Type 0 where
  pub askpass : Bool
  pub bell : Bool
  pub reset_timestamp : Bool
  pub non_interactive : Bool
  pub stdin : Bool
  pub prompt : Option Text
  pub group : Option Text
  pub user : Option Text

pub record SudoEditOptions : Type 0 where
  pub askpass : Bool
  pub bell : Bool
  pub reset_timestamp : Bool
  pub non_interactive : Bool
  pub stdin : Bool
  pub prompt : Option Text
  pub chdir : Option Text
  pub group : Option Text
  pub user : Option Text
  pub positional_args : List Text

pub record SudoListOptions : Type 0 where
  pub askpass : Bool
  pub bell : Bool
  pub list : Listing
  pub reset_timestamp : Bool
  pub non_interactive : Bool
  pub stdin : Bool
  pub prompt : Option Text
  pub group : Option Text
  pub other_user : Option Text
  pub user : Option Text
  pub positional_args : List Text

pub record SudoRunOptions : Type 0 where
  pub askpass : Bool
  pub bell : Bool
  pub background : Bool
  pub reset_timestamp : Bool
  pub non_interactive : Bool
  pub stdin : Bool
  pub prompt : Option Text
  pub chdir : Option Text
  pub group : Option Text
  pub user : Option Text
  pub env_var_list : List (Text × Text)
  pub login : Bool
  pub shell : Bool
  pub positional_args : List Text

pub data SudoAction : Type 0 where
  edit_action : SudoEditOptions → SudoAction
  help_action : SudoAction
  list_action : SudoListOptions → SudoAction
  remove_timestamp_action : SudoAction
  reset_timestamp_action : SudoAction
  run_action : SudoRunOptions → SudoAction
  validate_action : SudoValidateOptions → SudoAction
  version_action : SudoAction

-- The messages of the errors.
pub data CliError : Type 0 where
  cannot_be_used_together : Text → Text → CliError
  must_specify_file : CliError
  user_without_command : CliError
  expected_run : CliError
  expected_action : CliError
  not_utf8 : Text → CliError
  takes_no_argument : Text → CliError
  expects_argument : Text → CliError
  invalid_equals : CliError
  invalid_option : CliError

-- `Option::unwrap` of `none` is a panic.
pub data CliResult (A : Type 0) : Type 0 where
  ok : A → CliResult A
  err : CliError → CliResult A
  panic : CliResult A

abbrev pub and_then : {A B : Type 0} → CliResult A → (A → CliResult B) → CliResult B
and_then (ok a) f = f a
and_then (err e) f = err e
and_then panic f = panic

-- What the parser asks of the standard library and the environment: the characters of bytes that
-- are valid UTF-8, letters and digits, paths, and the variables of the process.
pub record Std : Type 0 where
  pub from_utf8 : Text → Option Text
  pub is_alphanumeric : ℕ → Bool
  pub file_name : Text → Option Text
  pub path_ends_with : Text → Text → Bool
  pub env_var : Text → Option Text

pub and_then-inv :
    {A B : Type 0} (x : CliResult A) (f : A → CliResult B) (b : B)
    → and_then x f ≡ ok b
    → (a : A) × (x ≡ ok a) × (f a ≡ ok b)
and_then-inv (ok a) f b h = (a, refl, h)
and_then-inv (err e) f b h = absurd (cc)
and_then-inv panic f b h = absurd (cc)
