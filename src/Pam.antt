-- ===== src/Pam.antt =====
-- src/pam/mod.rs and src/pam/error.rs: authentication and account validation by the PAM library. The
-- calls of the library are a parameter, with the state behind its handle; so is the error that the
-- conversation function left behind. A panic of that function, which `authenticate` passes on and which
-- ends the program, is left out, and so is what a masked signal would do.
use sudo_rs.Prelude.{ℕ, Option, none, some}
use sudo_rs.Prelude.Tests.{if◌then◌else◌}
use sudo_rs.Prelude.Text.{Text, text_eq}
use sudo_rs.Prelude.Int.{ℤ}

pub data PamErrorType : Type 0 where
  success open_error symbol_error service_error system_error buffer_error : PamErrorType
  conversation_error permission_denied max_tries auth_error : PamErrorType
  new_auth_token_required credentials_insufficient auth_info_unavailable : PamErrorType
  user_unknown credentials_unavailable credentials_expired credentials_error : PamErrorType
  account_expired auth_token_expired session_error auth_token_error : PamErrorType
  auth_token_recovery_error auth_token_lock_busy auth_token_disable_aging : PamErrorType
  no_module_data ignore abort try_again module_unknown bad_item : PamErrorType
  unknown_error_type : ℤ → PamErrorType

-- The errors of the standard library are numbered.
pub data PamError : Type 0 where
  unexpected_nul_byte : ℕ → PamError
  utf8_error : ℕ → PamError
  pam : PamErrorType → PamError
  io_error : ℕ → PamError
  tty_required env_list_failure interaction_required : PamError
  no_password_provided incorrect_password_attempt timed_out : PamError
  invalid_user : Text → Text → PamError
  no_askpass_program : PamError
  invalid_askpass_program : Text → PamError

pub data PamResult (A : Type 0) : Type 0 where
  pam_ok : A → PamResult A
  pam_failed : PamError → PamResult A

-- The library, over the states of its handle. A call gives the type of its error, if any.
pub record Library (S : Type 0) : Type 0 where
  pub pam_authenticate : S → Option PamErrorType × S
  -- the error of restoring the signal mask, where there is one to restore
  pub set_mask : S → Option ℕ
  pub pam_acct_mgmt : S → Option PamErrorType × S
  pub pam_chauthtok : S → Option PamErrorType × S
  -- the error of the conversation function, which is taken
  pub take_error : S → Option PamError × S
  -- `PamContext::get_user`
  pub get_user : S → PamResult Text

module _ {S : Type 0} (lib : Library S) where
  -- The user after a successful authentication has to be the one asked for.
  unfoldable pub same_user : Text → S → PamResult (Unit {0})
  same_user for_user s = elim (lib.get_user s) [
    | pam_failed e ↦ pam_failed e
    | pam_ok pam_user ↦
        if text_eq pam_user for_user then pam_ok tt else pam_failed (invalid_user pam_user for_user)
  ]

  unfoldable pub authenticate : Text → S → PamResult (Unit {0}) × S
  authenticate for_user s =
      let (auth_res, s₁) = lib.pam_authenticate s in
      elim (lib.set_mask s₁) [
        | some e ↦ (pam_failed (io_error e), s₁)
        | none ↦
            let (error, s₂) = lib.take_error s₁ in
            elim error [
              | some e ↦ (pam_failed e, s₂)
              | none ↦ elim auth_res [
                | some t ↦ (pam_failed (pam t), s₂)
                | none ↦ (same_user for_user s₂, s₂)
              ]
            ]
      ]

  abbrev pub to_result : Option PamErrorType × S → PamResult (Unit {0}) × S
  to_result (none, s) = (pam_ok tt, s)
  to_result (some t, s) = (pam_failed (pam t), s)

  unfoldable pub validate_account : S → PamResult (Unit {0}) × S
  validate_account s = to_result (lib.pam_acct_mgmt s)

  unfoldable pub change_auth_token : S → PamResult (Unit {0}) × S
  change_auth_token s = to_result (lib.pam_chauthtok s)

  abbrev pub or_change_auth_token : PamResult (Unit {0}) × S → PamResult (Unit {0}) × S
  or_change_auth_token (pam_failed (pam new_auth_token_required), s) = change_auth_token s
  or_change_auth_token (check_val, s) = (check_val, s)

  unfoldable pub validate_account_or_change_auth_token : S → PamResult (Unit {0}) × S
  validate_account_or_change_auth_token s = or_change_auth_token (validate_account s)
