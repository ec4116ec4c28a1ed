-- ===== src/Session/Refinement/Create.antt =====
-- src/system/timestamp.rs: `SessionRecordFile::create`.
use sudo_rs.Prelude.{
  ℕ, ◌+◌, ◌-◌, ◌^◌, Bool, true, false, Option, none, some, List, [], ◌∷◌, ◌++◌, arith,
}
use sudo_rs.Prelude.{◌≡◌, refl, sym, ap, ◌∙◌, append_assoc, append-nil}
use mathlib.Core.Path.{subst}
use sudo_rs.Prelude.Tests.{ltb}
use sudo_rs.Prelude.Lists.{length, All, length-append}
use sudo_rs.Prelude.Bytes.{to_le_bytes}
use sudo_rs.Session.Time.{SystemTime}
use sudo_rs.Session.Record.{RecordScope, SessionRecord, matches, write_bool, encode_record}
use sudo_rs.Session.Record.Codec.{IsRecord}
use sudo_rs.Session.Store.{
  File, Outcome, returned, failed, panicked, out_of_fuel, seek, write_all, scan_file,
}
use sudo_rs.Session.Store.Layout.{
  header, frame, frames, file_bytes, frames-append, file_around, write_all-end,
  length-encode_record,
}
use sudo_rs.Session.Store.Scan.{scan_file-none, scan_file_found}
use sudo_rs.Session.Store.Rewrite.{
  overwrite_time_lem, write_flag_lem, length-frame_with, length-frame_pos,
}
use sudo_rs.Session.Operations.{
  CreateResult, refreshed, created, overwrite_time, write_record, create_new, create,
}
use sudo_rs.Session.Records.{absent, present, Divide-cases, with_time, created_in}
use sudo_rs.Session.Refinement.{Implements}

module _ (e : Bool) where
  -- A record that is written at the end of a file of records is the last one.
  write_record_end :
      (rs : List SessionRecord) (r : SessionRecord) (f : File)
      → f.bytes ≡ file_bytes e rs
      → f.position ≡ length f.bytes
      → Implements e (write_record e r f) (rs ++ (r ∷ []), returned tt)
  unfolding write_record file_bytes frame frames
  write_record_end rs r f b p =
      let X = encode_record e r in
      let L = to_le_bytes 2 (length X) in
      let small : ltb (2 ^ 16 - 1) (length X) ≡ false =
        let (lo, hi) = length-encode_record e r in ground arith in
      let one = write_all-end L f p in
      let f₁ : File = record { bytes = f.bytes ++ L; position = f.position + length L } in
      let q : f₁.position ≡ length f₁.bytes = omega (arith, length-append f.bytes L) in
      let two = write_all-end X f₁ q in
      let all =
        append_assoc f.bytes L X
        ∙ ap (λ k. k ++ (L ++ X)) b
        ∙ append_assoc header (frames e rs) (L ++ X)
        ∙ ap (λ k. header ++ (frames e rs ++ k)) (sym (append-nil (L ++ X)))
        ∙ ap (λ k. header ++ k) (sym (frames-append e rs (r ∷ []))) in
      rw (small, write_record)
        (ap (λ k. (write_all X k).bytes) one ∙ ap (λ k. k.bytes) two ∙ all, refl)

  module _ (new_time : SystemTime) (scope : RecordScope) (auth_user : ℕ) where
    abbrev new_record : SessionRecord
    new_record = record {
      scope = scope;
      auth_user = auth_user;
      timestamp = new_time;
      enabled = true;
    }

    abbrev pub after_scan : File × Outcome (Option SessionRecord) → File × Outcome CreateResult
    after_scan x = elim x.1 [
      | returned none ↦ create_new e new_time scope auth_user x.0
      | returned (some r) ↦ (
        write_all (write_bool true) (overwrite_time e new_time x.0),
        returned (refreshed r.timestamp new_time),
      )
      | failed ↦ (x.0, failed)
      | panicked ↦ (x.0, panicked)
      | out_of_fuel ↦ (x.0, out_of_fuel)
    ]

    pub create_step :
        (f : File) (x : File × Outcome (Option SessionRecord))
        → scan_file e (λ r. matches r scope auth_user) f ≡ x
        → create e new_time scope auth_user f ≡ after_scan x
    unfolding create
    create_step f x h = ap after_scan h

    abbrev after_write : File × Outcome (Unit {0}) → File × Outcome CreateResult
    after_write x = elim x.1 [
      | returned _ ↦ (x.0, returned (created new_time))
      | failed ↦ (x.0, failed)
      | panicked ↦ (x.0, panicked)
      | out_of_fuel ↦ (x.0, out_of_fuel)
    ]

    create_new_lem :
        (rs : List SessionRecord) (f : File)
        → f.bytes ≡ file_bytes e rs
        → Implements e
            (create_new e new_time scope auth_user f)
            (rs ++ (new_record ∷ []), returned (created new_time))
    unfolding create_new
    create_new_lem rs f b =
        let w = write_record_end rs new_record (seek (length f.bytes) f) b refl in
        let written = (write_record e new_record (seek (length f.bytes) f)).0 in
        let c : create_new e new_time scope auth_user f ≡ after_write (written, returned tt) =
          ap (λ o. after_write (written, o)) w.1 in
        (ap (λ k. k.0.bytes) c ∙ w.0, ap (λ k. k.1) c)

    -- The record that is found, which the position is the end of, is enabled with the new time.
    refresh_lem :
        (before : List SessionRecord) (r : SessionRecord) (after : List SessionRecord) (f : File)
        → f.bytes ≡ file_bytes e (before ++ (r ∷ after))
        → f.position ≡ length header + length (frames e before) + length (frame e r)
        → (write_all (write_bool true) (overwrite_time e new_time f)).bytes
          ≡ file_bytes e (before ++ (record r { timestamp = new_time; enabled = true } ∷ after))
    refresh_lem before r after f b p =
        let A = header ++ frames e before in
        let r' = with_time new_time r in
        let p' : f.position ≡ length A + length (frame e r) =
          omega (arith, length-append header (frames e before)) in
        let one =
          overwrite_time_lem e A (frames e after) r new_time f (b ∙ file_around e before r after)
            p' in
        let f₁ : File = record {
          bytes = A ++ (frame e r' ++ frames e after);
          position = f.position - 1;
        } in
        let q : f₁.position + 1 ≡ length A + length (frame e r') =
          omega (arith, length-frame_with e r new_time r.enabled, length-frame_pos e r) in
        let two = write_flag_lem e A (frames e after) r' true f₁ refl q in
        ap (λ k. (write_all (write_bool true) k).bytes) one
        ∙ ap (λ k. k.bytes) two
        ∙ sym (file_around e before (record r { timestamp = new_time; enabled = true }) after)

    pub create-Implements :
        (rs : List SessionRecord) (f : File)
        → f.bytes ≡ file_bytes e rs
        → All IsRecord rs
        → Implements e
            (create e new_time scope auth_user f)
            (created_in new_time scope auth_user rs)
    unfolding created_in
    create-Implements rs f b v =
        let choose : SessionRecord → Bool = λ r. matches r scope auth_user in
        elim (Divide-cases choose rs) [
          | absent s n ↦
              rw (create_step f _ (scan_file-none e choose rs f b v n), s, created_in)
                (create_new_lem rs (seek (length f.bytes) f) b)
          | present before r after s q n y ↦
              let b' = b ∙ ap (file_bytes e) q in
              let found_it =
                scan_file_found e choose before r after f b' (subst (All IsRecord) q v) n y in
              let f' = seek (length header + length (frames e before) + length (frame e r)) f in
              rw (create_step f _ found_it, s, created_in)
                (refresh_lem before r after f' b' refl, refl)
        ]
