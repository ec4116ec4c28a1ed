-- ===== src/Pipeline/Attempts.antt =====
-- src/sudo/pam.rs: the attempts to authenticate, and the prompt.
pub mod Bounded
use sudo_rs.Prelude.{
  ℕ, zero, suc, ◌+◌, ◌-◌, ◌<◌, ◌≤◌, Bool, true, false, Option, none, some, List, [], ◌∷◌, ◌++◌,
  arith,
}
use sudo_rs.Prelude.{◌≡◌, refl, ap, ◌∙◌, inl, inr}
use sudo_rs.Prelude.Tests.{if◌then◌else◌, ◌==◌, leb, Bool-cases}
use sudo_rs.Prelude.Text.{Text}
use sudo_rs.Pam.{
  PamErrorType, max_tries, auth_error, conversation_error, PamError, pam, PamResult, pam_ok,
  pam_failed, Library, authenticate,
}
use sudo_rs.Resolve.{Error}

-- `common::Error`, as far as it occurs here: `resolve` is an error of src/common/resolve.rs.
pub data AuthError : Type 0 where
  max_auth_attempts : ℕ → AuthError
  interaction_required : AuthError
  pam_error : PamError → AuthError
  resolve : Error → AuthError
  -- No error of the program: the fuel of the model is used up.
  out_of_fuel : AuthError

pub data AuthResult : Type 0 where
  success : AuthResult
  failure : AuthError → AuthResult

-- What the loop does after an attempt.
pub data Step : Type 0 where
  stop : AuthResult → Step
  again : Step

-- An authentication error, after which one can retry.
abbrev pub after_error : Bool → ℕ → ℕ → Step
after_error non_interactive limit current_try =
    if leb limit current_try
    then stop (failure (max_auth_attempts current_try))
    else if non_interactive
    then stop (failure interaction_required)
    else again

abbrev pub after_attempt : Bool → ℕ → ℕ → PamResult (Unit {0}) → Step
after_attempt non_interactive limit current_try (pam_ok u) = stop success
after_attempt non_interactive limit current_try (pam_failed (pam max_tries)) =
    stop (failure (max_auth_attempts current_try))
after_attempt non_interactive limit current_try (pam_failed (pam auth_error)) =
    after_error non_interactive limit current_try
after_attempt non_interactive limit current_try (pam_failed (pam conversation_error)) =
    after_error non_interactive limit current_try
after_attempt non_interactive limit current_try (pam_failed e) = stop (failure (pam_error e))

module _ {S : Type 0} (lib : Library S) (auth_user : Text) (non_interactive : Bool)
    (limit : ℕ) where
  -- The loop on fuel; `tries` is the number of attempts before this round.
  unfoldable pub attempt_from : ℕ → ℕ → S → AuthResult × S
  attempt_from zero tries s = (failure out_of_fuel, s)
  attempt_from (suc fuel) tries s =
      let (result, s') = authenticate lib auth_user s in
      let rest = attempt_from fuel (tries + 1) s' in
      elim (after_attempt non_interactive limit (tries + 1) result) [
        | stop r ↦ (r, s')
        | again ↦ rest
      ]

  unfoldable pub attempt_authenticate : S → AuthResult × S
  attempt_authenticate s =
      if limit == 0 then (failure (max_auth_attempts 0), s) else attempt_from limit 0 s

  -- So many attempts failed in a way after which one may retry.
  pub data Retried (start : S) : ℕ → S → Type 0 where
    not_tried : Retried start 0 start
    retried :
        {n : ℕ} {s : S}
        → Retried start n s
        → after_attempt non_interactive limit (n + 1) (authenticate lib auth_user s).0 ≡ again
        → Retried start (n + 1) (authenticate lib auth_user s).1
