-- ===== src/Pipeline/Auth.antt =====
-- src/sudo/pipeline.rs: `determine_auth_status` and `auth_and_update_record_file`. The settings of
-- the PAM handle that `init_pam` makes before any authentication are outside; its result is a
-- parameter. The disk is the file of the user's session records, `none` if it cannot be opened.
pub mod Granted
pub mod Remembered
pub mod Again
mod Tests
use sudo_rs.Prelude.{ℕ, Bool, true, false, ◌&&◌, not, Option, none, some}
use sudo_rs.Prelude.Tests.{if◌then◌else◌}
use sudo_rs.Accounts.{User, root_id}
use sudo_rs.Sudoers.Policy.{
  Authentication, AuthenticatingUser, invoking_user, root_user, target_user, AuthenticationScope,
  tty_scope, ppid_scope,
}
use sudo_rs.Prelude.Text.{codes}
use sudo_rs.Prelude.Int.{ℤ}
use sudo_rs.Resolve.{Result, ok, err, and_then, user_not_found, Database}
use sudo_rs.Session.Time.{SystemTime, Duration}
use sudo_rs.Session.Record.{RecordScope}
use sudo_rs.Session.Store.{File, Outcome, returned, failed, panicked, out_of_fuel, seek, open_file}
use sudo_rs.Session.Operations.{TouchResult, updated, outdated, not_found, touch, create}
use sudo_rs.Session.Current.{Process, for_tty, for_ppid}
use sudo_rs.Pam.{
  PamResult, pam_ok, pam_failed, Library, authenticate, validate_account_or_change_auth_token,
}
use sudo_rs.Pipeline.Attempts.{
  AuthError, interaction_required, pam_error, resolve, AuthResult, success, failure,
  attempt_authenticate,
}

-- What the program asks of the system during an authentication.
pub record Machine (S : Type 0) : Type 0 where
  pub big_endian : Bool
  pub library : Library S
  pub init_pam : PamResult S
  pub database : Database
  pub process : Process
  pub tty_device_id : Option (Option ℕ)
  pub starting_time : ℤ → Option SystemTime
  -- the readings of the clock in `touch` and in `create`
  pub touch_now : SystemTime
  pub touch_time : SystemTime
  pub create_time : SystemTime

-- `Context`, as far as it is used here.
pub record AuthContext : Type 0 where
  pub use_session_records : Bool
  pub non_interactive : Bool
  pub current_user : User
  pub target_user : User

pub record AuthStatus : Type 0 where
  pub must_authenticate : Bool
  pub record_file : Option File

-- `crash` is a panic, and `spent` the end of the model's fuel.
pub data StatusResult : Type 0 where
  status : AuthStatus → StatusResult
  crash spent : StatusResult

pub data AuthReply (S : Type 0) : Type 0 where
  granted : S → AuthReply S
  refused : AuthError → AuthReply S
  crashed no_fuel : AuthReply S

abbrev pub validity_of : Authentication → Duration
validity_of auth = record { secs = auth.prior_validity; subsec_nanos = 0 }

-- What the outcome of `touch` means for the authentication.
unfoldable pub status_of : File × Outcome TouchResult → StatusResult × Option File
status_of (f, returned (updated old_time new_time)) =
    (status (record { must_authenticate = false; record_file = some f }), some f)
status_of (f, returned not_found) =
    (status (record { must_authenticate = true; record_file = some f }), some f)
status_of (f, returned (outdated time)) =
    (status (record { must_authenticate = true; record_file = some f }), some f)
status_of (f, failed) = (status (record { must_authenticate = true; record_file = none }), some f)
status_of (f, panicked) = (crash, some f)
status_of (f, out_of_fuel) = (spent, some f)

-- `AuthUser`
unfoldable pub auth_user_of : Database → AuthContext → AuthenticatingUser → Result User
auth_user_of db context invoking_user = ok context.current_user
auth_user_of db context root_user =
    and_then (db.user_from_uid root_id)
      (λ found. elim found [ none ↦ err (user_not_found (codes "root")) | some user ↦ ok user ])
auth_user_of db context target_user = ok context.target_user

module _ {S : Type 0} (m : Machine S) where
  unfoldable pub scope_of : AuthenticationScope → Option RecordScope
  scope_of tty_scope = for_tty m.starting_time m.process m.tty_device_id
  scope_of ppid_scope = for_ppid m.starting_time m.process

  unfoldable pub determine_auth_status :
      Bool → Bool → Option RecordScope → ℕ → Duration → Option File → StatusResult × Option File
  determine_auth_status must_policy_authenticate use_session_records record_for auth_user
        prior_validity disk =
      let without = status (record { must_authenticate = true; record_file = none }) in
      if not must_policy_authenticate
      then (status (record { must_authenticate = false; record_file = none }), disk)
      else if use_session_records
      then elim record_for [
        | none ↦ (without, disk)
        | some scope ↦ elim disk [
          | none ↦ (without, none)
          | some f ↦ status_of (
              touch m.big_endian m.touch_now m.touch_time prior_validity scope auth_user
                (open_file (seek 0 f)))
        ]
      ]
      else (without, disk)

  -- A record of the authentication; an error in writing it is only reported.
  unfoldable pub remember : Option RecordScope → ℕ → AuthStatus → Option File → Option File
  remember scope auth_user st disk = elim st.record_file [
    | none ↦ disk
    | some f ↦ elim scope [
      | none ↦ disk
      | some sc ↦ some (create m.big_endian m.create_time sc auth_user f).0
    ]
  ]

  abbrev pub account_checked : PamResult (Unit {0}) × S → Option File → AuthReply S × Option File
  account_checked (pam_ok u, s) disk = (granted s, disk)
  account_checked (pam_failed e, s) disk = (refused (pam_error e), disk)

  abbrev pub finish : S → Option File → AuthReply S × Option File
  finish s disk = account_checked (validate_account_or_change_auth_token m.library s) disk

  -- The branch in which the user has to authenticate.
  unfoldable pub log_in :
      AuthContext
      → Authentication
      → User
      → Option RecordScope
      → AuthStatus
      → Option File
      → S
      → AuthReply S × Option File
  log_in context auth user scope st disk s =
      if context.non_interactive && not auth.noninteractive_auth
      then (refused interaction_required, disk)
      else (let (r, s') =
            attempt_authenticate m.library user.name context.non_interactive auth.allowed_attempts
              s in
          elim r [
            | failure e ↦ (refused e, disk)
            | success ↦ finish s' (remember scope user.uid st disk)
          ])

  unfoldable pub with_status :
      AuthContext
      → Authentication
      → User
      → Option RecordScope
      → StatusResult × Option File
      → AuthReply S × Option File
  with_status context auth user scope (crash, disk) = (crashed, disk)
  with_status context auth user scope (spent, disk) = (no_fuel, disk)
  with_status context auth user scope (status st, disk) = elim m.init_pam [
    | pam_failed e ↦ (refused (pam_error e), disk)
    | pam_ok s ↦
        if st.must_authenticate then log_in context auth user scope st disk s else finish s disk
  ]

  abbrev pub status_for :
      AuthContext → Authentication → User → Option File → StatusResult × Option File
  status_for context auth user disk =
      determine_auth_status auth.must_authenticate context.use_session_records (scope_of auth.scope)
        user.uid (validity_of auth) disk

  unfoldable pub auth_and_update_record_file :
      AuthContext → Authentication → Option File → AuthReply S × Option File
  auth_and_update_record_file context auth disk =
      elim (auth_user_of m.database context auth.credential) [
        | err e ↦ (refused (resolve e), disk)
        | ok user ↦
            with_status context auth user (scope_of auth.scope) (status_for context auth user disk)
      ]
