-- ===== src/Cli/Kept/Actions.antt =====
-- src/sudo/cli/mod.rs: the options that `validate` lets through, action by action.
use sudo_rs.Prelude.{true, false, not, ◌&&◌, ◌||◌, none, some, []}
use sudo_rs.Prelude.{◌≡◌, refl, sym, ap, ◌∙◌, inl, inr}
use mathlib.Core.Path.{subst}
use sudo_rs.Prelude.Tests.{Bool-cases, Option-cases}
use sudo_rs.Prelude.Text.{Text, codes}
use sudo_rs.Cli.{
  SudoOptions, SudoRunOptions, SudoAction, run_action, version_action, CliResult, ok, and_then,
  and_then-inv,
}
use sudo_rs.Cli.Validate.{
  present, nonempty, reject_all, to_remove_timestamp, to_reset_timestamp, to_validate, to_edit,
  to_list, run_context, to_run, validate,
}
use sudo_rs.Cli.Kept.{options_of, reject_all-inv, guard-inv, if_inv, ok-inv, Kept}

module _ (opts : SudoOptions) (action : SudoAction) where
  to_remove_timestamp-Kept :
      to_remove_timestamp opts ≡ ok action → opts.remove_timestamp ≡ true → Kept opts action
  unfolding to_remove_timestamp options_of
  to_remove_timestamp-Kept h asked =
      let (u, r, a) =
        and_then-inv
          (reject_all (codes "--remove-timestamp") (record opts { remove_timestamp = false })) _
          action h in
      let d = reject_all-inv _ _ r in
      let back : SudoOptions → SudoOptions = λ o. record o { remove_timestamp = true } in
      subst (Kept opts) (ok-inv _ _ a) (
        sym (ap back d)
        ∙ ap (λ b. record opts { env_var_list = []; remove_timestamp = b }) (sym asked))

  to_reset_timestamp-Kept :
      to_reset_timestamp opts ≡ ok action → opts.reset_timestamp ≡ true → Kept opts action
  unfolding to_reset_timestamp options_of
  to_reset_timestamp-Kept h asked =
      let (u, r, a) =
        and_then-inv
          (reject_all (codes "--reset-timestamp") (record opts { reset_timestamp = false })) _
          action h in
      let d = reject_all-inv _ _ r in
      let back : SudoOptions → SudoOptions = λ o. record o { reset_timestamp = true } in
      subst (Kept opts) (ok-inv _ _ a) (
        sym (ap back d)
        ∙ ap (λ b. record opts { env_var_list = []; reset_timestamp = b }) (sym asked))

  to_validate-Kept : to_validate opts ≡ ok action → opts.validate ≡ true → Kept opts action
  unfolding to_validate options_of
  to_validate-Kept h asked =
      let (u, r, a) = and_then-inv _ _ action (guard-inv (opts.bell && opts.stdin) _ _ action h) in
      let d = reject_all-inv _ _ r in
      let back : SudoOptions → SudoOptions = λ o. record o {
        validate = true;
        askpass = opts.askpass;
        bell = opts.bell;
        reset_timestamp = opts.reset_timestamp;
        non_interactive = opts.non_interactive;
        stdin = opts.stdin;
        prompt = opts.prompt;
        group = opts.group;
        user = opts.user;
      } in
      subst (Kept opts) (ok-inv _ _ a)
        (sym (ap back d) ∙ ap (λ b. record opts { env_var_list = []; validate = b }) (sym asked))

  to_edit-Kept : to_edit opts ≡ ok action → opts.edit ≡ true → Kept opts action
  unfolding to_edit options_of
  to_edit-Kept h asked =
      let (u, r, a) = and_then-inv _ _ action (guard-inv (opts.bell && opts.stdin) _ _ action h) in
      let d = reject_all-inv _ _ r in
      let back : SudoOptions → SudoOptions = λ o. record o {
        edit = true;
        askpass = opts.askpass;
        bell = opts.bell;
        reset_timestamp = opts.reset_timestamp;
        non_interactive = opts.non_interactive;
        stdin = opts.stdin;
        prompt = opts.prompt;
        chdir = opts.chdir;
        group = opts.group;
        user = opts.user;
        positional_args = opts.positional_args;
      } in
      elim (Bool-cases (nonempty opts.positional_args)) [
        | inr no_file ↦ absurd (cc (rw no_file at a))
        | inl file ↦
            subst (Kept opts) (ok-inv _ _ (rw file at a))
              (sym (ap back d) ∙ ap (λ b. record opts { env_var_list = []; edit = b }) (sym asked))
      ]

  to_list-Kept : to_list opts ≡ ok action → present opts.list ≡ true → Kept opts action
  unfolding to_list options_of
  to_list-Kept h asked = elim (Option-cases opts.list) [
    | inl none_asked ↦ absurd (cc)
    | inr (list, asked_list) ↦
        let h₁ = rw (asked_list, to_list) at h in
        let h₂ = guard-inv (opts.bell && opts.stdin) _ _ action h₁ in
        let h₃ =
          guard-inv (present opts.user && not (nonempty opts.positional_args)) _ _ action h₂ in
        let (u, r, a) = and_then-inv _ _ action h₃ in
        let d = reject_all-inv _ _ r in
        let back : SudoOptions → SudoOptions = λ o. record o {
          list = some list;
          askpass = opts.askpass;
          bell = opts.bell;
          reset_timestamp = opts.reset_timestamp;
          non_interactive = opts.non_interactive;
          stdin = opts.stdin;
          prompt = opts.prompt;
          group = opts.group;
          other_user = opts.other_user;
          user = opts.user;
          positional_args = opts.positional_args;
        } in
        subst (Kept opts) (ok-inv _ _ a)
          (sym (ap back d) ∙ ap (λ b. record opts { env_var_list = []; list = b }) (sym asked_list))
  ]

  abbrev run_options : SudoRunOptions
  run_options = record {
    askpass = opts.askpass;
    bell = opts.bell;
    background = opts.background;
    reset_timestamp = opts.reset_timestamp;
    non_interactive = opts.non_interactive;
    stdin = opts.stdin;
    prompt = opts.prompt;
    chdir = opts.chdir;
    group = opts.group;
    user = opts.user;
    env_var_list = opts.env_var_list;
    login = opts.login;
    shell = opts.shell;
    positional_args = opts.positional_args;
  }

  abbrev run_rest : SudoOptions
  run_rest = record opts {
    askpass = false;
    bell = false;
    background = false;
    reset_timestamp = false;
    non_interactive = false;
    stdin = false;
    prompt = none;
    chdir = none;
    group = none;
    user = none;
    env_var_list = [];
    login = false;
    shell = false;
    positional_args = [];
  }

  to_run-Kept : to_run opts ≡ ok action → Kept opts action
  unfolding to_run options_of
  to_run-Kept h =
      let run : Text → CliResult SudoAction =
        λ c. and_then (reject_all c run_rest) (λ _. ok (run_action run_options)) in
      let (context, _, h') =
        and_then-inv (run_context opts.login opts.shell (nonempty opts.positional_args)) run action
          (guard-inv (opts.bell && opts.stdin) _ _ action h) in
      let (u, r, a) =
        and_then-inv (reject_all context run_rest) (λ _. ok (run_action run_options)) action h' in
      let d = reject_all-inv context run_rest r in
      let back : SudoOptions → SudoOptions = λ o. record o {
        askpass = opts.askpass;
        bell = opts.bell;
        background = opts.background;
        reset_timestamp = opts.reset_timestamp;
        non_interactive = opts.non_interactive;
        stdin = opts.stdin;
        prompt = opts.prompt;
        chdir = opts.chdir;
        group = opts.group;
        user = opts.user;
        login = opts.login;
        shell = opts.shell;
        positional_args = opts.positional_args;
      } in
      subst (Kept opts) {x = run_action run_options} (ok-inv _ _ a) (sym (ap back d), refl)

  -- What `validate` accepts it keeps: the action was asked for; unless it is that of `--help` or of
  -- `--version`, the options that the action carries are all that were given, but for the
  -- environment; and a command to run carries the environment too.
  pub validate-Kept : validate opts ≡ ok action → Kept opts action
  unfolding validate
  validate-Kept h = elim (if_inv opts.help h) [
    | inl (asked, a) ↦ subst (Kept opts) (ok-inv _ _ a) asked
    | inr (no_help, h₁) ↦ elim (if_inv opts.version h₁) [
      | inl (asked, a) ↦ subst (Kept opts) {x = version_action} (ok-inv _ _ a) (no_help, asked)
      | inr (_, h₂) ↦ elim (if_inv opts.remove_timestamp h₂) [
        | inl (asked, a) ↦ to_remove_timestamp-Kept a asked
        | inr (_, h₃) ↦ elim (if_inv opts.validate h₃) [
          | inl (asked, a) ↦ to_validate-Kept a asked
          | inr (_, h₄) ↦ elim (if_inv (present opts.list) h₄) [
            | inl (asked, a) ↦ to_list-Kept a asked
            | inr (_, h₅) ↦ elim (if_inv opts.edit h₅) [
              | inl (asked, a) ↦ to_edit-Kept a asked
              | inr (_, h₆) ↦
                  elim (if_inv (opts.login || opts.shell || nonempty opts.positional_args) h₆) [
                    | inl (_, a) ↦ to_run-Kept a
                    | inr (_, h₇) ↦ elim (if_inv opts.reset_timestamp h₇) [
                      | inl (asked, a) ↦ to_reset_timestamp-Kept a asked
                      | inr (_, no_action) ↦ absurd (cc)
                    ]
                  ]
            ]
          ]
        ]
      ]
    ]
  ]
