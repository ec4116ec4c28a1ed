-- ===== src/Pipeline/Auth/Granted.antt =====
-- src/sudo/pipeline.rs: what precedes the end of `auth_and_update_record_file` without an error.
use sudo_rs.Prelude.{◌<◌, Bool, true, false, ◌&&◌, not, Option, some, arith}
use sudo_rs.Prelude.{◌≡◌, refl, ap, ◌∙◌, ◌⊎◌, inl, inr}
use mathlib.Core.Path.{subst}
use sudo_rs.Prelude.Tests.{if◌then◌else◌, ◌==◌, Bool-cases, Option-cases}
use sudo_rs.Accounts.{User}
use sudo_rs.Sudoers.Policy.{Authentication}
use sudo_rs.Resolve.{Error, Result, ok, err}
use sudo_rs.Session.Time.{SystemTime}
use sudo_rs.Session.Record.{RecordScope}
use sudo_rs.Session.Store.{File, Outcome, returned, failed, panicked, out_of_fuel, seek, open_file}
use sudo_rs.Session.Operations.{TouchResult, updated, outdated, not_found, touch}
use sudo_rs.Pam.{
  PamError, PamResult, pam_ok, pam_failed, authenticate, validate_account_or_change_auth_token,
}
use sudo_rs.Pipeline.Attempts.{AuthResult, success, failure, stop, attempt_authenticate}
use sudo_rs.Pipeline.Attempts.Bounded.{after_attempt-success, attempt_authenticate-Decided}
use sudo_rs.Pipeline.Auth.{
  Machine, AuthContext, AuthStatus, StatusResult, status, crash, spent, AuthReply, granted, refused,
  validity_of, status_of, auth_user_of, scope_of, determine_auth_status, remember, account_checked,
  finish, log_in, with_status, status_for, auth_and_update_record_file,
}

Result-cases : {A : Type 0} (r : Result A) → ((a : A) × (r ≡ ok a)) ⊎ ((e : Error) × (r ≡ err e))
Result-cases (ok a) = inl (a, refl)
Result-cases (err e) = inr (e, refl)

pub PamResult-cases :
    {A : Type 0} (r : PamResult A)
    → ((a : A) × (r ≡ pam_ok a)) ⊎ ((e : PamError) × (r ≡ pam_failed e))
PamResult-cases (pam_ok a) = inl (a, refl)
PamResult-cases (pam_failed e) = inr (e, refl)

module _ {S : Type 0} (m : Machine S) (context : AuthContext) (auth : Authentication)
    (disk : Option File) where
  -- Why a user may go on.
  pub data Reason : Type 0 where
    exempt : auth.must_authenticate ≡ false → Reason
    by_password :
        (user : User) (s s' : S)
        → auth_user_of m.database context auth.credential ≡ ok user
        → authenticate m.library user.name s ≡ (pam_ok tt, s')
        → Reason
    by_record :
        (user : User) (scope : RecordScope) (f : File) (old_time new_time : SystemTime)
        → auth_user_of m.database context auth.credential ≡ ok user
        → context.use_session_records ≡ true
        → scope_of m auth.scope ≡ some scope
        → disk ≡ some f
        → (touch m.big_endian m.touch_now m.touch_time
            (validity_of auth)
            scope
            user.uid
            (open_file (seek 0 f))).1
          ≡ returned (updated old_time new_time)
        → Reason

  -- The account was checked, and that gave no error.
  pub record Checked (s' : S) : Type 0 where
    pub before : S
    pub checked : validate_account_or_change_auth_token m.library before ≡ (pam_ok tt, s')

  account_checked-Checked :
      (s s' : S) (x : PamResult (Unit {0}) × S) (d : Option File)
      → validate_account_or_change_auth_token m.library s ≡ x
      → (account_checked m x d).0 ≡ granted s'
      → Checked s'
  account_checked-Checked s s' (pam_ok u, t) d v h = record { before = s; checked = cc }
  account_checked-Checked s s' (pam_failed e, t) d v h = absurd (cc)

  finish-Checked : (s s' : S) (d : Option File) → (finish m s d).0 ≡ granted s' → Checked s'
  finish-Checked s s' d h =
      account_checked-Checked s s' (validate_account_or_change_auth_token m.library s) d refl h

  status_of-updated :
      (x : File × Outcome TouchResult) (st : AuthStatus)
      → (status_of x).0 ≡ status st
      → st.must_authenticate ≡ false
      → (t : SystemTime) × (t' : SystemTime) × (x.1 ≡ returned (updated t t'))
  unfolding status_of
  status_of-updated (f, returned (updated t t')) st h n = (t, t', refl)
  status_of-updated (f, returned not_found) st h n = absurd (cc)
  status_of-updated (f, returned (outdated t)) st h n = absurd (cc)
  status_of-updated (f, failed) st h n = absurd (cc)
  status_of-updated (f, panicked) st h n = absurd (cc)
  status_of-updated (f, out_of_fuel) st h n = absurd (cc)

  -- A status without authentication is an exemption or a record within its time.
  status-Reason :
      (user : User) (st : AuthStatus)
      → auth_user_of m.database context auth.credential ≡ ok user
      → (status_for m context auth user disk).0 ≡ status st
      → st.must_authenticate ≡ false
      → Reason
  unfolding determine_auth_status
  status-Reason user st u h n = elim (Bool-cases auth.must_authenticate) [
    | inr not_required ↦ exempt not_required
    | inl required ↦ elim (Bool-cases context.use_session_records) [
      | inr unused ↦ absurd (cc (rw (required, unused, determine_auth_status) at h))
      | inl used ↦ elim (Option-cases (scope_of m auth.scope)) [
        | inl no_scope ↦ absurd (cc (rw (required, used, no_scope, determine_auth_status) at h))
        | inr (scope, sc) ↦ elim (Option-cases disk) [
          | inl no_file ↦ absurd (cc (rw (required, used, sc, no_file, determine_auth_status) at h))
          | inr (f, file) ↦
              let x =
                touch m.big_endian m.touch_now m.touch_time (validity_of auth) scope user.uid
                  (open_file (seek 0 f)) in
              let h' : (status_of x).0 ≡ status st =
                rw (required, used, sc, file, determine_auth_status) at h in
              let (t, t', e) = status_of-updated x st h' n in
              by_record user scope f t t' u used sc file e
        ]
      ]
    ]
  ]

  attempt-success :
      (user : User) (s s' : S)
      → auth_user_of m.database context auth.credential ≡ ok user
      → attempt_authenticate m.library user.name context.non_interactive auth.allowed_attempts s
        ≡ (success, s')
      → Reason
  unfolding attempt_authenticate
  attempt-success user s s' u h = elim (Bool-cases (auth.allowed_attempts == 0)) [
    | inl z ↦ absurd (cc (rw (z, attempt_authenticate) at h))
    | inr nz ↦
        let p : 0 < auth.allowed_attempts = ground arith in
        let d =
          attempt_authenticate-Decided m.library user.name context.non_interactive
            auth.allowed_attempts s p in
        let e = d.result ∙ ap (λ x. stop x.0) h in
        let o = after_attempt-success context.non_interactive auth.allowed_attempts _ _ e in
        by_password user d.last (authenticate m.library user.name d.last).1 u
          (ap (λ r. (r, (authenticate m.library user.name d.last).1)) o)
  ]

  after_attempts :
      User
      → Option RecordScope
      → AuthStatus
      → Option File
      → AuthResult × S
      → AuthReply S × Option File
  after_attempts user scope st d x = elim x.0 [
    | failure e ↦ (refused e, d)
    | success ↦ finish m x.1 (remember m scope user.uid st d)
  ]

  after_attempts-Reason :
      (user : User) (scope : Option RecordScope) (st : AuthStatus) (d : Option File) (s s' : S)
      (x : AuthResult × S)
      → auth_user_of m.database context auth.credential ≡ ok user
      → attempt_authenticate m.library user.name context.non_interactive auth.allowed_attempts s ≡ x
      → (after_attempts user scope st d x).0 ≡ granted s'
      → Reason × Checked s'
  unfolding after_attempts
  after_attempts-Reason user scope st d s s' (failure e, t) u a h = absurd (cc)
  after_attempts-Reason user scope st d s s' (success, t) u a h =
      (attempt-success user s t u a, finish-Checked t s' (remember m scope user.uid st d) h)

  log_in-Reason :
      (user : User) (scope : Option RecordScope) (st : AuthStatus) (d : Option File) (s s' : S)
      → auth_user_of m.database context auth.credential ≡ ok user
      → (log_in m context auth user scope st d s).0 ≡ granted s'
      → Reason × Checked s'
  unfolding log_in after_attempts
  log_in-Reason user scope st d s s' u h =
      elim (Bool-cases (context.non_interactive && not auth.noninteractive_auth)) [
        | inl quiet ↦ absurd (cc (rw (quiet, log_in) at h))
        | inr may_ask ↦
            let h' : (after_attempts user scope st d (
                  attempt_authenticate m.library user.name context.non_interactive
                    auth.allowed_attempts s)).0
                ≡ granted s' =
              rw (may_ask, log_in) at h in
            after_attempts-Reason user scope st d s s' _ u refl h'
      ]

  with_status-Reason :
      (user : User) (x : StatusResult × Option File) (s' : S)
      → auth_user_of m.database context auth.credential ≡ ok user
      → status_for m context auth user disk ≡ x
      → (with_status m context auth user (scope_of m auth.scope) x).0 ≡ granted s'
      → Reason × Checked s'
  unfolding with_status
  with_status-Reason user (crash, d) s' u e h = absurd (cc)
  with_status-Reason user (spent, d) s' u e h = absurd (cc)
  with_status-Reason user (status st, d) s' u e h = elim (PamResult-cases m.init_pam) [
    | inr (e', no_pam) ↦ absurd (cc (rw (no_pam, with_status) at h))
    | inl (s, some_pam) ↦
        let go : Bool → AuthReply S × Option File = λ b.
          if b then log_in m context auth user (scope_of m auth.scope) st d s else finish m s d in
        let h₀ : (go st.must_authenticate).0 ≡ granted s' = rw (some_pam, with_status) at h in
        elim (Bool-cases st.must_authenticate) [
          | inl must ↦
              let h' : (log_in m context auth user (scope_of m auth.scope) st d s).0 ≡ granted s' =
                subst (λ b. (go b).0 ≡ granted s') must h₀ in
              log_in-Reason user (scope_of m auth.scope) st d s s' u h'
          | inr need_not ↦
              let h' : (finish m s d).0 ≡ granted s' =
                subst (λ b. (go b).0 ≡ granted s') need_not h₀ in
              (status-Reason user st u (ap (λ k. k.0) e) need_not, finish-Checked s s' d h')
        ]
  ]

  -- If the function ends without an error, then the policy asks for no authentication, or an attempt
  -- of the authenticating user was a success, or `touch` renewed a record of the user for the scope
  -- in the file on the disk; and the check of the account was a success.
  pub auth_and_update_record_file-Reason :
      (s' : S)
      → (auth_and_update_record_file m context auth disk).0 ≡ granted s'
      → Reason × Checked s'
  unfolding auth_and_update_record_file
  auth_and_update_record_file-Reason s' h =
      elim (Result-cases (auth_user_of m.database context auth.credential)) [
        | inr (e, unknown) ↦ absurd (cc (rw (unknown, auth_and_update_record_file) at h))
        | inl (user, u) ↦
            let h' : (with_status m context auth user (scope_of m auth.scope)
                  (status_for m context auth user disk)).0
                ≡ granted s' =
              rw (u, auth_and_update_record_file) at h in
            with_status-Reason user (status_for m context auth user disk) s' u refl h'
      ]
