-- ===== src/Cli/Kept.antt =====
-- src/sudo/cli/mod.rs: the options that an action carries.
pub mod Actions
use sudo_rs.Prelude.{ℕ, Bool, true, false, not, ◌&&◌, ◌||◌, Option, none, some, List, [], ◌∷◌}
use sudo_rs.Prelude.{◌≡◌, refl, sym, ap, ◌∙◌, ◌⊎◌, inl, inr}
use mathlib.Core.Path.{subst}
use sudo_rs.Prelude.Tests.{if◌then◌else◌, Bool-cases, Option-cases}
use sudo_rs.Prelude.Lists.{All}
use sudo_rs.Prelude.Text.{Text, codes}
use sudo_rs.Cli.{
  Listing, SudoOptions, default_options, SudoValidateOptions, SudoEditOptions, SudoListOptions,
  SudoRunOptions, SudoAction, edit_action, help_action, list_action, remove_timestamp_action,
  reset_timestamp_action, run_action, validate_action, version_action, CliError, CliResult, ok, err,
  panic, and_then, and_then-inv,
}
use sudo_rs.Cli.Validate.{
  present, nonempty, checked_fields, ensure_absent, reject_all, bell_and_stdin, user_needs_command,
  to_remove_timestamp, to_reset_timestamp, to_validate, to_edit, to_list, run_context, to_run,
  validate,
}

-- The options that would ask for an action, without the environment.
unfoldable pub options_of : SudoAction → SudoOptions
options_of help_action = record default_options { help = true }
options_of version_action = record default_options { version = true }
options_of remove_timestamp_action = record default_options { remove_timestamp = true }
options_of reset_timestamp_action = record default_options { reset_timestamp = true }
options_of (validate_action v) = record default_options {
  validate = true;
  askpass = v.askpass;
  bell = v.bell;
  reset_timestamp = v.reset_timestamp;
  non_interactive = v.non_interactive;
  stdin = v.stdin;
  prompt = v.prompt;
  group = v.group;
  user = v.user;
}
options_of (edit_action v) = record default_options {
  edit = true;
  askpass = v.askpass;
  bell = v.bell;
  reset_timestamp = v.reset_timestamp;
  non_interactive = v.non_interactive;
  stdin = v.stdin;
  prompt = v.prompt;
  chdir = v.chdir;
  group = v.group;
  user = v.user;
  positional_args = v.positional_args;
}
options_of (list_action v) = record default_options {
  list = some v.list;
  askpass = v.askpass;
  bell = v.bell;
  reset_timestamp = v.reset_timestamp;
  non_interactive = v.non_interactive;
  stdin = v.stdin;
  prompt = v.prompt;
  group = v.group;
  other_user = v.other_user;
  user = v.user;
  positional_args = v.positional_args;
}
options_of (run_action v) = record default_options {
  askpass = v.askpass;
  bell = v.bell;
  background = v.background;
  reset_timestamp = v.reset_timestamp;
  non_interactive = v.non_interactive;
  stdin = v.stdin;
  prompt = v.prompt;
  chdir = v.chdir;
  group = v.group;
  user = v.user;
  login = v.login;
  shell = v.shell;
  positional_args = v.positional_args;
}

present-none : {A : Type 0} (o : Option A) → present o ≡ false → o ≡ none
present-none none h = refl
present-none (some a) h = absurd (cc)

nonempty_none : {A : Type 0} (xs : List A) → nonempty xs ≡ false → xs ≡ []
nonempty_none [] h = refl
nonempty_none (x ∷ xs) h = absurd (cc)

ensure_absent-inv :
    (context : Text) (fields : List (Bool × Text))
    → ensure_absent context fields ≡ ok tt
    → All (λ p. p.0 ≡ false) fields
unfolding ensure_absent
ensure_absent-inv context [] h = tt
ensure_absent-inv context ((thing, name) ∷ fields) h = elim (Bool-cases thing) [
  | inl y ↦ absurd (cc (rw (y, ensure_absent) at h))
  | inr n ↦ (n, ensure_absent-inv context fields (rw (n, ensure_absent) at h))
]

-- The options that pass are the default ones, but for the environment.
pub reject_all-inv :
    (context : Text) (opts : SudoOptions)
    → reject_all context opts ≡ ok tt
    → record opts { env_var_list = [] } ≡ default_options
unfolding reject_all
reject_all-inv context opts h =
    let (
      a,
      (
        b,
        (c, (d, (e, (g, (i, (j, (k, (l, (m, (n, (o, (p, (q, (r, (s, (t, (u, (v, _)))))))))))))))))),
      ),
    ) =
      ensure_absent-inv context (checked_fields (record opts { env_var_list = [] })) h in
    let d' = present-none opts.chdir d in
    let g' = present-none opts.group g in
    let j' = present-none opts.list j in
    let m' = present-none opts.other_user m in
    let r' = present-none opts.prompt r in
    let s' = present-none opts.user s in
    let v' = nonempty_none opts.positional_args v in
    rw (a, b, c, d', e, g', i, j', k, l, m', n, o, p, q, r', s', t, u, v') refl

pub guard-inv :
    {A : Type 0} (test : Bool) (e : CliError) (rest : CliResult A) (a : A)
    → (if test then err e else rest) ≡ ok a
    → rest ≡ ok a
guard-inv true e rest a h = absurd (cc)
guard-inv false e rest a h = h

pub if_inv :
    {A : Type 0} (test : Bool) {x y z : A}
    → (if test then x else y) ≡ z
    → ((test ≡ true) × (x ≡ z)) ⊎ ((test ≡ false) × (y ≡ z))
if_inv true h = inl (refl, h)
if_inv false h = inr (refl, h)

pub ok-inv : {A : Type 0} (x y : A) → ok x ≡ ok y → x ≡ y
ok-inv x y h = cc

-- That the action was asked for, and, but for `--help` and `--version`, that no option is lost.
abbrev pub Kept : SudoOptions → SudoAction → Type 0
Kept opts help_action = opts.help ≡ true
Kept opts version_action = (opts.help ≡ false) × (opts.version ≡ true)
Kept opts (run_action v) =
    (options_of (run_action v) ≡ record opts { env_var_list = [] })
    × (v.env_var_list ≡ opts.env_var_list)
Kept opts remove_timestamp_action =
    options_of remove_timestamp_action ≡ record opts { env_var_list = [] }
Kept opts reset_timestamp_action =
    options_of reset_timestamp_action ≡ record opts { env_var_list = [] }
Kept opts (validate_action v) = options_of (validate_action v) ≡ record opts { env_var_list = [] }
Kept opts (edit_action v) = options_of (edit_action v) ≡ record opts { env_var_list = [] }
Kept opts (list_action v) = options_of (list_action v) ≡ record opts { env_var_list = [] }
