-- ===== src/Pipeline/Auth/Remembered.antt =====
-- src/sudo/pipeline.rs: a second authentication in the same session.
use sudo_rs.Prelude.{Bool, true, false, ◌&&◌, not, Option, some, List}
use sudo_rs.Prelude.{◌≡◌, refl, sym, ap, ◌∙◌, inl, inr}
use sudo_rs.Prelude.Tests.{Bool-cases}
use sudo_rs.Accounts.{User}
use sudo_rs.Sudoers.Policy.{Authentication}
use sudo_rs.Resolve.{ok}
use sudo_rs.Session.Time.{SystemTime}
use sudo_rs.Session.Record.{RecordScope, SessionRecord}
use sudo_rs.Session.Store.{File, Outcome, returned, seek, open_file}
use sudo_rs.Session.Store.Layout.{file_bytes, frames}
use sudo_rs.Session.Store.Header.{open_file_kept}
use sudo_rs.Session.Operations.{TouchResult, updated, not_found, touch, create}
use sudo_rs.Pam.{PamResult, pam_ok, pam_failed, validate_account_or_change_auth_token}
use sudo_rs.Pipeline.Attempts.{AuthResult, success, failure, attempt_authenticate}
use sudo_rs.Pipeline.Auth.Granted.{PamResult-cases}
use sudo_rs.Pipeline.Auth.{
  Machine, AuthContext, AuthStatus, StatusResult, status, AuthReply, granted, refused, validity_of,
  status_of, auth_user_of, scope_of, account_checked, determine_auth_status, remember, finish,
  log_in, with_status, status_for, auth_and_update_record_file,
}

pub open_file_bytes :
    (e : Bool) (rs : List SessionRecord) (f : File)
    → f.bytes ≡ file_bytes e rs
    → (open_file (seek 0 f)).bytes ≡ file_bytes e rs
unfolding file_bytes
open_file_bytes e rs f b =
    ap (λ k. (open_file (record { bytes = k; position = 0 })).bytes) b
    ∙ ap (λ k. k.bytes) (open_file_kept (frames e rs))

module _ {S : Type 0} (m : Machine S) (context : AuthContext) (auth : Authentication) (user : User)
    (scope : RecordScope) where
  abbrev pub touch_result : File → File × Outcome TouchResult
  touch_result f =
      touch m.big_endian m.touch_now m.touch_time (validity_of auth) scope user.uid
        (open_file (seek 0 f))

  -- The status of a user who has to authenticate and may have a record.
  pub status_with_file :
      (f : File)
      → auth.must_authenticate ≡ true
      → context.use_session_records ≡ true
      → scope_of m auth.scope ≡ some scope
      → status_for m context auth user (some f) ≡ status_of (touch_result f)
  unfolding determine_auth_status
  status_with_file f must used sc = rw (must, used, sc, determine_auth_status) refl

  pub reply_with_status :
      (disk : Option File) (x : StatusResult × Option File)
      → auth_user_of m.database context auth.credential ≡ ok user
      → status_for m context auth user disk ≡ x
      → auth_and_update_record_file m context auth disk
        ≡ with_status m context auth user (scope_of m auth.scope) x
  unfolding auth_and_update_record_file
  reply_with_status disk x u h =
      rw (u, auth_and_update_record_file)
        (ap (with_status m context auth user (scope_of m auth.scope)) h)

  status_of-not_found :
      (x : File × Outcome TouchResult)
      → x.1 ≡ returned not_found
      → status_of x
        ≡ (status (record { must_authenticate = true; record_file = some x.0 }), some x.0)
  unfolding status_of
  status_of-not_found x h = ap (λ r. status_of (x.0, r)) h

  pub status_of-updated :
      (t t' : SystemTime) (x : File × Outcome TouchResult)
      → x.1 ≡ returned (updated t t')
      → status_of x
        ≡ (status (record { must_authenticate = false; record_file = some x.0 }), some x.0)
  unfolding status_of
  status_of-updated t t' x h = ap (λ r. status_of (x.0, r)) h

  account_checked_disk :
      (s' : S) (x : PamResult (Unit {0}) × S) (d : Option File)
      → (account_checked m x d).0 ≡ granted s'
      → (account_checked m x d).1 ≡ d
  account_checked_disk s' (pam_ok u, t) d h = refl
  account_checked_disk s' (pam_failed e, t) d h = refl

  after_attempts :
      Option RecordScope → AuthStatus → Option File → AuthResult × S → AuthReply S × Option File
  after_attempts sc st d x = elim x.0 [
    | failure e ↦ (refused e, d)
    | success ↦ finish m x.1 (remember m sc user.uid st d)
  ]

  after_attempts_disk :
      (sc : Option RecordScope) (st : AuthStatus) (d : Option File) (s' : S) (x : AuthResult × S)
      → (after_attempts sc st d x).0 ≡ granted s'
      → (after_attempts sc st d x).1 ≡ remember m sc user.uid st d
  unfolding after_attempts
  after_attempts_disk sc st d s' (failure e, t) h = absurd (cc)
  after_attempts_disk sc st d s' (success, t) h =
      account_checked_disk s' (validate_account_or_change_auth_token m.library t)
        (remember m sc user.uid st d) h

  -- Who logs in is remembered.
  log_in_disk :
      (sc : Option RecordScope) (st : AuthStatus) (d : Option File) (s s' : S)
      → (log_in m context auth user sc st d s).0 ≡ granted s'
      → (log_in m context auth user sc st d s).1 ≡ remember m sc user.uid st d
  unfolding log_in after_attempts
  log_in_disk sc st d s s' h =
      elim (Bool-cases (context.non_interactive && not auth.noninteractive_auth)) [
        | inl quiet ↦ absurd (cc (rw (quiet, log_in) at h))
        | inr may_ask ↦
            let x =
              attempt_authenticate m.library user.name context.non_interactive auth.allowed_attempts
                s in
            let h' : (after_attempts sc st d x).0 ≡ granted s' = rw (may_ask, log_in) at h in
            rw (may_ask, log_in) (after_attempts_disk sc st d s' x h')
      ]

  with_status_disk :
      (sc : Option RecordScope) (file : Option File) (d : Option File) (s' : S)
      → (with_status m context auth user sc
          (status (record { must_authenticate = true; record_file = file }), d)).0
        ≡ granted s'
      → (with_status m context auth user sc
          (status (record { must_authenticate = true; record_file = file }), d)).1
        ≡ remember m sc user.uid (record { must_authenticate = true; record_file = file }) d
  unfolding with_status remember
  with_status_disk sc file d s' h = elim (PamResult-cases m.init_pam) [
    | inr (e, no_pam) ↦ absurd (cc (rw (no_pam, with_status) at h))
    | inl (s, some_pam) ↦
        let st : AuthStatus = record { must_authenticate = true; record_file = file } in
        let h' : (log_in m context auth user sc st d s).0 ≡ granted s' =
          rw (some_pam, with_status) at h in
        rw (some_pam, with_status) (log_in_disk sc st d s s' h')
  ]

  -- The disk after a first authentication, for which no record was found.
  pub first_disk :
      (f : File) (s' : S)
      → auth_user_of m.database context auth.credential ≡ ok user
      → auth.must_authenticate ≡ true
      → context.use_session_records ≡ true
      → scope_of m auth.scope ≡ some scope
      → (touch_result f).1 ≡ returned not_found
      → (auth_and_update_record_file m context auth (some f)).0 ≡ granted s'
      → (auth_and_update_record_file m context auth (some f)).1
        ≡ some (create m.big_endian m.create_time scope user.uid (touch_result f).0).0
  unfolding remember
  first_disk f s' u must used sc n h =
      let f₁ = (touch_result f).0 in
      let st : AuthStatus = record { must_authenticate = true; record_file = some f₁ } in
      let r =
        reply_with_status (some f) (status st, some f₁) u
          (status_with_file f must used sc ∙ status_of-not_found (touch_result f) n) in
      let h' = ap (λ k. k.0) (sym r) ∙ h in
      ap (λ k. k.1) r
      ∙ with_status_disk (scope_of m auth.scope) (some f₁) (some f₁) s' h'
      ∙ ap (λ k. remember m k user.uid st (some f₁)) sc
