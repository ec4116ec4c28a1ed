-- ===== src/Session/Store/Scan.antt =====
-- src/system/timestamp.rs: the search for a record in a file that holds a list of records.
use sudo_rs.Prelude.{
  ℕ, zero, suc, ◌+◌, ◌<◌, ◌≤◌, Bool, true, Option, none, some, List, [], ◌∷◌, ◌++◌, arith,
}
use sudo_rs.Prelude.{◌≡◌, sym, ap, ◌∙◌, append_assoc, append-nil}
use sudo_rs.Prelude.Tests.{if◌then◌else◌}
use sudo_rs.Prelude.Lists.{length, All, length-append, All-append}
use sudo_rs.Prelude.Bytes.{to_le_bytes, length-to_le_bytes}
use sudo_rs.Prelude.Text.{Text}
use sudo_rs.Session.Record.{SessionRecord}
use sudo_rs.Session.Record.Codec.{IsRecord}
use sudo_rs.Session.Store.{
  File, Outcome, returned, failed, Next, empty_record, seek, found, no_more, first_record_offset,
  magic_num, file_version, next_record, scan, scan_file,
}
use sudo_rs.Session.Store.Layout.{
  header, frame, frames, file_bytes, next_record-found, next_record_end, frames-append,
  length-frame,
}
use sudo_rs.Session.Records.{Rejected}

module _ (e : Bool) (choose : SessionRecord → Bool) where
  -- One record further: where it starts, and where the rest does.
  pub next_start :
      (A : Text) (r : SessionRecord) (f : File)
      → f.position ≡ length A
      → f.position + length (frame e r) ≡ length (A ++ frame e r)
  next_start A r f p = omega (arith, length-append A (frame e r))

  -- What the loop does with the outcome of `next_record`.
  abbrev pub after_next : ℕ → File × Next → File × Outcome (Option SessionRecord)
  after_next fuel x = elim x.1 [
    | empty_record ↦ (x.0, failed)
    | no_more ↦ (x.0, returned none)
    | found r ↦ if choose r then (x.0, returned (some r)) else scan e fuel choose x.0
  ]

  pub scan_step :
      (fuel : ℕ) (f : File) (x : File × Next)
      → next_record e f ≡ x
      → scan e (suc fuel) choose f ≡ after_next fuel x
  unfolding scan
  scan_step fuel f x h = ap (after_next fuel) h

  scan-none :
      (fuel : ℕ) (A : Text) (rs : List SessionRecord) (f : File)
      → f.bytes ≡ A ++ frames e rs
      → f.position ≡ length A
      → All IsRecord rs
      → length rs < fuel
      → Rejected choose rs
      → scan e fuel choose f ≡ (seek (length f.bytes) f, returned none)
  unfolding scan frames
  scan-none zero A rs f b p v l n = absurd (omega arith)
  scan-none (suc fuel) A [] f b p v l n =
      let q : f.position ≡ length f.bytes = p ∙ ap length (sym (b ∙ append-nil A)) in
      scan_step fuel f (f, no_more) (next_record_end e f q) ∙ ap (λ k. (seek k f, returned none)) q
  scan-none (suc fuel) A (r ∷ rs) f b p v l n =
      let f' = seek (f.position + length (frame e r)) f in
      let b' : f.bytes ≡ A ++ (frame e r ++ frames e rs) = b in
      let rest =
        scan-none fuel (A ++ frame e r) rs f' (b' ∙ sym (append_assoc A (frame e r) (frames e rs)))
          (next_start A r f p) v.1 (omega arith) n.1 in
      scan_step fuel f (f', found r) (next_record-found e A (frames e rs) r f b' p v.0)
      ∙ rw n.0 rest

  scan_found :
      (fuel : ℕ) (A : Text) (before : List SessionRecord) (r : SessionRecord) (B : Text) (f : File)
      → f.bytes ≡ A ++ (frames e before ++ (frame e r ++ B))
      → f.position ≡ length A
      → All IsRecord before
      → IsRecord r
      → length before < fuel
      → Rejected choose before
      → choose r ≡ true
      → scan e fuel choose f
        ≡ (seek (length A + length (frames e before) + length (frame e r)) f, returned (some r))
  unfolding scan frames
  scan_found zero A before r B f b p v w l n y = absurd (omega arith)
  scan_found (suc fuel) A [] r B f b p v w l n y =
      let q : f.position + length (frame e r) ≡ length A + 0 + length (frame e r) = omega arith in
      scan_step fuel f (seek (f.position + length (frame e r)) f, found r)
        (next_record-found e A B r f b p w)
      ∙ rw y (ap (λ k. (seek k f, returned (some r))) q)
  scan_found (suc fuel) A (s ∷ before) r B f b p v w l n y =
      let f' = seek (f.position + length (frame e s)) f in
      let C = frame e r ++ B in
      let b₁ = b ∙ ap (λ k. A ++ k) (append_assoc (frame e s) (frames e before) C) in
      let b₂ = b₁ ∙ sym (append_assoc A (frame e s) (frames e before ++ C)) in
      let rest =
        scan_found fuel (A ++ frame e s) before r B f' b₂ (next_start A s f p) v.1 w (omega arith)
          n.1 y in
      let q : length (A ++ frame e s) + length (frames e before) + length (frame e r)
          ≡ length A + length (frame e s ++ frames e before) + length (frame e r) =
        omega (arith, length-append A (frame e s), length-append (frame e s) (frames e before)) in
      scan_step fuel f (f', found s) (next_record-found e A (frames e before ++ C) s f b₁ p v.0)
      ∙ rw n.0 (rest ∙ ap (λ k. (seek k f, returned (some r))) q)

  pub header-length : first_record_offset ≡ length header
  header-length = omega (
    arith,
    length-append (to_le_bytes 2 magic_num) (to_le_bytes 2 file_version),
    length-to_le_bytes 2 magic_num,
    length-to_le_bytes 2 file_version,
  )

  -- A record has a byte at least: the fuel is enough.
  pub length-frames : (rs : List SessionRecord) → length rs ≤ length (frames e rs)
  unfolding frames
  length-frames [] = omega arith
  length-frames (r ∷ rs) =
      omega (arith, length-frames rs, length-append (frame e r) (frames e rs), length-frame e r)

  pub records_fit :
      (rs : List SessionRecord) (f : File)
      → f.bytes ≡ file_bytes e rs
      → length rs < length f.bytes + 1
  unfolding file_bytes
  records_fit rs f b =
      omega (arith, length-frames rs, ap length b, length-append header (frames e rs))

  pub scan_file-none :
      (rs : List SessionRecord) (f : File)
      → f.bytes ≡ file_bytes e rs
      → All IsRecord rs
      → Rejected choose rs
      → scan_file e choose f ≡ (seek (length f.bytes) f, returned none)
  unfolding file_bytes
  scan_file-none rs f b v n =
      scan-none (length f.bytes + 1) header rs (seek first_record_offset f) b header-length v
        (records_fit rs f b) n

  pub scan_file_found :
      (before : List SessionRecord) (r : SessionRecord) (after : List SessionRecord) (f : File)
      → f.bytes ≡ file_bytes e (before ++ (r ∷ after))
      → All IsRecord (before ++ (r ∷ after))
      → Rejected choose before
      → choose r ≡ true
      → scan_file e choose f ≡ (
        seek (length header + length (frames e before) + length (frame e r)) f,
        returned (some r),
      )
  unfolding file_bytes frames
  scan_file_found before r after f b v n y =
      let b' = b ∙ ap (λ k. header ++ k) (frames-append e before (r ∷ after)) in
      let (v₀, v₁) = All-append IsRecord before (r ∷ after) v in
      let l = length-append before (r ∷ after) in
      let fuel : length before < length f.bytes + 1 =
        omega (arith, records_fit (before ++ (r ∷ after)) f b) in
      scan_found (length f.bytes + 1) header before r (frames e after) (seek first_record_offset f)
        b' header-length v₀ v₁.0 fuel n y
