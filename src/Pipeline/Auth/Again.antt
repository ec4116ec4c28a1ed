-- ===== src/Pipeline/Auth/Again.antt =====
-- src/sudo/pipeline.rs: a second authentication in the same session, by the record of the first.
use sudo_rs.Prelude.{true, false, Option, some, List}
use sudo_rs.Prelude.{◌≡◌, ap, ◌∙◌}
use sudo_rs.Prelude.Lists.{All}
use sudo_rs.Accounts.{User}
use sudo_rs.Sudoers.Policy.{Authentication}
use sudo_rs.Resolve.{ok}
use sudo_rs.Session.Time.{SystemTime, checked_sub, time_le}
use sudo_rs.Session.Time.Codec.{IsNormal}
use sudo_rs.Session.Record.{RecordScope, SessionRecord}
use sudo_rs.Session.Record.Codec.{IsRecord}
use sudo_rs.Session.Store.{File, returned, seek, open_file}
use sudo_rs.Session.Store.Layout.{file_bytes}
use sudo_rs.Session.Operations.{updated, not_found, touch, create}
use sudo_rs.Session.Refinement.Touch.{touch-Implements}
use sudo_rs.Session.Refinement.Create.{create-Implements}
use sudo_rs.Session.Run.{touching, creating, performed, IsOperation}
use sudo_rs.Session.Run.Valid.{performed-IsRecord}
use sudo_rs.Session.Safety.Found.{touched-created_in}
use sudo_rs.Pam.{pam_ok, pam_failed}
use sudo_rs.Pipeline.Attempts.{pam_error}
use sudo_rs.Pipeline.Auth.{
  Machine, AuthContext, status, granted, refused, validity_of, auth_user_of, scope_of, finish,
  with_status, auth_and_update_record_file,
}
use sudo_rs.Pipeline.Auth.Remembered.{
  open_file_bytes, touch_result, status_with_file, reply_with_status, status_of-updated, first_disk,
}

module _ {S : Type 0} (m m' : Machine S) (context : AuthContext) (auth : Authentication)
    (user : User) (scope : RecordScope) where
  -- The second search finds the record that the first authentication left.
  found_again :
      (rs : List SessionRecord) (f : File) (early : SystemTime)
      → f.bytes ≡ file_bytes m.big_endian rs
      → All IsRecord rs
      → m'.big_endian ≡ m.big_endian
      → IsNormal m.touch_time
      → IsOperation (creating m.create_time scope user.uid)
      → checked_sub m'.touch_now (validity_of auth) ≡ some early
      → time_le early m.create_time ≡ true
      → time_le m.create_time m'.touch_now ≡ true
      → (touch_result m' context auth user scope
          (create m.big_endian m.create_time scope user.uid
            (touch_result m context auth user scope f).0).0).1
        ≡ returned (updated m.create_time m'.touch_time)
  unfolding performed
  found_again rs f early b v e n o s lo hi =
      let E = m.big_endian in
      let first = touching m.touch_now m.touch_time (validity_of auth) scope user.uid in
      let second = creating m.create_time scope user.uid in
      let (p₁, _) =
        touch-Implements E m.touch_now m.touch_time (validity_of auth) scope user.uid rs
          (open_file (seek 0 f)) (open_file_bytes E rs f b) v in
      let v₁ = performed-IsRecord first rs n v in
      let rs₁ = (performed first rs).0 in
      let f₁ = (touch_result m context auth user scope f).0 in
      let (p₂, _) = create-Implements E m.create_time scope user.uid rs₁ f₁ p₁ v₁ in
      let v₂ = performed-IsRecord second rs₁ o v₁ in
      let f₂ = (create E m.create_time scope user.uid f₁).0 in
      let rs₂ = (performed second rs₁).0 in
      let (_, q) =
        touch-Implements E m'.touch_now m'.touch_time (validity_of auth) scope user.uid rs₂
          (open_file (seek 0 f₂)) (open_file_bytes E rs₂ f₂ p₂) v₂ in
      ap
        (λ k.
          (touch k m'.touch_now m'.touch_time (validity_of auth) scope user.uid
            (open_file (seek 0 f₂))).1)
        e
      ∙ q
      ∙ touched-created_in m'.touch_now m.create_time m'.touch_time (validity_of auth) scope
          user.uid early rs₁ s lo hi

  with_status-finish :
      (start : S) (file disk : Option File)
      → m'.init_pam ≡ pam_ok start
      → with_status m' context auth user
          (scope_of m' auth.scope)
          (status (record { must_authenticate = false; record_file = file }), disk)
        ≡ finish m' start disk
  unfolding with_status
  with_status-finish start file disk h =
      ap
        (λ k. elim k [ pam_failed e ↦ (refused (pam_error e), disk) | pam_ok s ↦ finish m' s disk ])
        h

  -- If a first call finds no record, lets the user authenticate and ends without an error, then a
  -- second call on the disk that it leaves, for the same user and scope and at a time within the
  -- validity of the new record, goes on to the check of the account without an attempt to
  -- authenticate. The disk holds a list of records before the first call.
  pub auth_and_update_record_file_again :
      (rs : List SessionRecord) (f : File) (early : SystemTime) (s' start : S)
      → f.bytes ≡ file_bytes m.big_endian rs
      → All IsRecord rs
      → m'.big_endian ≡ m.big_endian
      → IsNormal m.touch_time
      → IsOperation (creating m.create_time scope user.uid)
      → checked_sub m'.touch_now (validity_of auth) ≡ some early
      → time_le early m.create_time ≡ true
      → time_le m.create_time m'.touch_now ≡ true
      → auth.must_authenticate ≡ true
      → context.use_session_records ≡ true
      → auth_user_of m.database context auth.credential ≡ ok user
      → auth_user_of m'.database context auth.credential ≡ ok user
      → scope_of m auth.scope ≡ some scope
      → scope_of m' auth.scope ≡ some scope
      → m'.init_pam ≡ pam_ok start
      → (touch_result m context auth user scope f).1 ≡ returned not_found
      → (auth_and_update_record_file m context auth (some f)).0 ≡ granted s'
      → (disk : Option File) × (auth_and_update_record_file m' context auth
            (auth_and_update_record_file m context auth (some f)).1
          ≡ finish m' start disk)
  auth_and_update_record_file_again rs f early s' start b v e n o s lo hi must used u u' sc sc' pam
        nf g =
      let f₂ =
        (create m.big_endian m.create_time scope user.uid
          (touch_result m context auth user scope f).0).0 in
      let d = first_disk m context auth user scope f s' u must used sc nf g in
      let again = found_again rs f early b v e n o s lo hi in
      let x = touch_result m' context auth user scope f₂ in
      let st =
        status_with_file m' context auth user scope f₂ must used sc'
        ∙ status_of-updated m' context auth user scope m.create_time m'.touch_time x again in
      let r = reply_with_status m' context auth user scope (some f₂) _ u' st in
      (
        some x.0,
        ap (auth_and_update_record_file m' context auth) d
            ∙ r
            ∙ with_status-finish start (some x.0) (some x.0) pam,
      )
