-- ===== src/Session/Safety/Found.antt =====
-- src/system/timestamp.rs: `touch` after `create`.
use sudo_rs.Prelude.{ℕ, Bool, true, false, some, List, [], ◌∷◌, ◌++◌, arith}
use sudo_rs.Prelude.{◌≡◌, refl, ap, ◌∙◌}
use sudo_rs.Prelude.Lists.{All}
use sudo_rs.Session.Time.{SystemTime, Duration, checked_sub, time_le}
use sudo_rs.Session.Time.Order.{time_le_trans}
use sudo_rs.Session.Record.{RecordScope, SessionRecord, matches, written_between}
use sudo_rs.Session.Record.Codec.{IsRecord}
use sudo_rs.Session.Record.Scope.{matches_self}
use sudo_rs.Session.Store.{File, returned}
use sudo_rs.Session.Store.Layout.{file_bytes}
use sudo_rs.Session.Operations.{updated, touch, create}
use sudo_rs.Session.Records.{
  divide, absent, present, Divide-cases, Rejected, chosen_by_touch, touched, created_in,
}
use sudo_rs.Session.Refinement.Touch.{touch-Implements}
use sudo_rs.Session.Refinement.Create.{create-Implements}
use sudo_rs.Session.Run.{creating, performed, IsOperation}
use sudo_rs.Session.Run.Valid.{performed-IsRecord}
use sudo_rs.Session.Safety.{Rejected-map}

divide-present :
    (choose : SessionRecord → Bool) (before : List SessionRecord) (r : SessionRecord)
    (after : List SessionRecord)
    → Rejected choose before
    → choose r ≡ true
    → divide choose (before ++ (r ∷ after)) ≡ some (before, r, after)
unfolding divide
divide-present choose [] r after n y = rw (y, divide) refl
divide-present choose (s ∷ before) r after n y =
    rw (n.0, divide-present choose before r after n.1 y, divide) refl

module _ (now t new_time : SystemTime) (timeout : Duration) (scope : RecordScope) (auth_user : ℕ)
    (early : SystemTime) where
  touched_present :
      (before : List SessionRecord) (r : SessionRecord) (after : List SessionRecord)
      → Rejected (chosen_by_touch scope auth_user) before
      → chosen_by_touch scope auth_user r ≡ true
      → r.timestamp ≡ t
      → checked_sub now timeout ≡ some early
      → time_le early t ≡ true
      → time_le t now ≡ true
      → (touched now new_time timeout scope auth_user (before ++ (r ∷ after))).1
        ≡ returned (updated t new_time)
  unfolding touched written_between
  touched_present before r after n y q s lo hi =
      let between : written_between r early now ≡ true =
        rw (q, lo, hi, time_le_trans early t now lo hi) refl in
      rw (divide-present (chosen_by_touch scope auth_user) before r after n y, s, between, touched)
        (ap (λ k. returned (updated k new_time)) q)

  pub touched-created_in :
      (rs : List SessionRecord)
      → checked_sub now timeout ≡ some early
      → time_le early t ≡ true
      → time_le t now ≡ true
      → (touched now new_time timeout scope auth_user (created_in t scope auth_user rs).0).1
        ≡ returned (updated t new_time)
  unfolding created_in matches
  touched-created_in rs s lo hi =
      let weaken : (r : SessionRecord)
          → matches r scope auth_user ≡ false
          → chosen_by_touch scope auth_user r ≡ false =
        λ r h. ground arith in
      elim (Divide-cases (λ r. matches r scope auth_user) rs) [
        | absent a n ↦
            rw (a, created_in)
              (touched_present rs _ [] (Rejected-map _ _ weaken rs n)
                (matches_self scope auth_user t true) refl s lo hi)
        | present before r after p q n y ↦
            rw (p, created_in)
              (touched_present before _ after (Rejected-map _ _ weaken before n) y refl s lo hi)
      ]

  -- On a file that holds a list of records, `touch` after `create` for the same scope and user
  -- finds the record and renews it if the time of the creation is within the timeout at the time of
  -- `touch`.
  pub touch-create :
      (e : Bool) (rs : List SessionRecord) (f : File)
      → f.bytes ≡ file_bytes e rs
      → All IsRecord rs
      → IsOperation (creating t scope auth_user)
      → checked_sub now timeout ≡ some early
      → time_le early t ≡ true
      → time_le t now ≡ true
      → (touch e now new_time timeout scope auth_user (create e t scope auth_user f).0).1
        ≡ returned (updated t new_time)
  unfolding performed
  touch-create e rs f b v o s lo hi =
      let (p, _) = create-Implements e t scope auth_user rs f b v in
      let w = performed-IsRecord (creating t scope auth_user) rs o v in
      let (_, q) =
        touch-Implements e now new_time timeout scope auth_user (created_in t scope auth_user rs).0
          (create e t scope auth_user f).0 p w in
      q ∙ touched-created_in rs s lo hi
