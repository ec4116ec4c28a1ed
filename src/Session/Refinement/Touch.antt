-- ===== src/Session/Refinement/Touch.antt =====
-- src/system/timestamp.rs: `SessionRecordFile::touch`.
use sudo_rs.Prelude.{ℕ, ◌+◌, Bool, Option, none, some, List, ◌∷◌, ◌++◌, arith}
use sudo_rs.Prelude.{◌≡◌, refl, sym, ap, ◌∙◌, inl, inr}
use sudo_rs.Prelude.Tests.{if◌then◌else◌, Bool-cases, Option-cases}
use mathlib.Core.Path.{subst}
use sudo_rs.Prelude.Lists.{length, All, length-append}
use sudo_rs.Session.Time.{SystemTime, Duration, checked_sub}
use sudo_rs.Session.Record.{RecordScope, SessionRecord, written_between}
use sudo_rs.Session.Record.Codec.{IsRecord}
use sudo_rs.Session.Store.{File, Outcome, returned, failed, panicked, out_of_fuel, seek, scan_file}
use sudo_rs.Session.Store.Layout.{header, frame, frames, file_bytes, file_around}
use sudo_rs.Session.Store.Scan.{scan_file-none, scan_file_found}
use sudo_rs.Session.Store.Rewrite.{overwrite_time_lem}
use sudo_rs.Session.Operations.{TouchResult, updated, outdated, not_found, touch_found, touch}
use sudo_rs.Session.Records.{absent, present, Divide-cases, chosen_by_touch, with_time, touched}
use sudo_rs.Session.Refinement.{Implements}

module _ (e : Bool) where
  module _ (now new_time : SystemTime) (timeout : Duration) (scope : RecordScope)
      (auth_user : ℕ) where
    abbrev pub after_scan : File × Outcome (Option SessionRecord) → File × Outcome TouchResult
    after_scan x = elim x.1 [
      | returned none ↦ (x.0, returned not_found)
      | returned (some r) ↦ touch_found e now new_time timeout x.0 r
      | failed ↦ (x.0, failed)
      | panicked ↦ (x.0, panicked)
      | out_of_fuel ↦ (x.0, out_of_fuel)
    ]

    pub touch_step :
        (f : File) (x : File × Outcome (Option SessionRecord))
        → scan_file e (chosen_by_touch scope auth_user) f ≡ x
        → touch e now new_time timeout scope auth_user f ≡ after_scan x
    unfolding touch
    touch_step f x h = ap after_scan h

    -- The branch for the record that is found, which the position is the end of.
    touch_found_lem :
        (rs before : List SessionRecord) (r : SessionRecord) (after : List SessionRecord) (f : File)
        → f.bytes ≡ file_bytes e rs
        → rs ≡ before ++ (r ∷ after)
        → f.position ≡ length header + length (frames e before) + length (frame e r)
        → Implements e (touch_found e now new_time timeout f r) (elim (checked_sub now timeout) [
          | none ↦ (rs, panicked)
          | some early ↦
              if written_between r early now
              then (
                before ++ (with_time new_time r ∷ after),
                returned (updated r.timestamp new_time),
              )
              else (rs, returned (outdated r.timestamp))
        ])
    unfolding touch_found
    touch_found_lem rs before r after f b q p = elim (Option-cases (checked_sub now timeout)) [
      | inl n ↦ rw (n, touch_found) (b, refl)
      | inr (early, s) ↦ elim (Bool-cases (written_between r early now)) [
        | inr old ↦ rw (s, old, touch_found) (b, refl)
        | inl recent ↦
            let A = header ++ frames e before in
            let p' : f.position ≡ length A + length (frame e r) =
              omega (arith, length-append header (frames e before)) in
            let o =
              overwrite_time_lem e A (frames e after) r new_time f
                (b ∙ ap (file_bytes e) q ∙ file_around e before r after) p' in
            rw (s, recent, touch_found)
              (ap (λ g. g.bytes) o ∙ sym (file_around e before (with_time new_time r) after), refl)
      ]
    ]

    pub touch-Implements :
        (rs : List SessionRecord) (f : File)
        → f.bytes ≡ file_bytes e rs
        → All IsRecord rs
        → Implements e
            (touch e now new_time timeout scope auth_user f)
            (touched now new_time timeout scope auth_user rs)
    unfolding touched
    touch-Implements rs f b v = elim (Divide-cases (chosen_by_touch scope auth_user) rs) [
      | absent s n ↦
          rw
            (
              touch_step f _ (scan_file-none e (chosen_by_touch scope auth_user) rs f b v n),
              s,
              touched,
            )
            (b, refl)
      | present before r after s q n y ↦
          let b' = b ∙ ap (file_bytes e) q in
          let found_it =
            scan_file_found e (chosen_by_touch scope auth_user) before r after f b'
              (subst (All IsRecord) q v) n y in
          let f' = seek (length header + length (frames e before) + length (frame e r)) f in
          rw (touch_step f _ found_it, s, touched) (touch_found_lem rs before r after f' b q refl)
    ]
