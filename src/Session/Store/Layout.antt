-- ===== src/Session/Store/Layout.antt =====
-- src/system/timestamp.rs: the bytes of a file that holds a list of records, and how the operations
-- on a file move along them.
use sudo_rs.Prelude.{ℕ, zero, suc, ◌+◌, ◌-◌, ◌≤◌, Bool, false, some, List, [], ◌∷◌, ◌++◌, arith}
use sudo_rs.Prelude.{◌≡◌, refl, sym, ap, ◌∙◌, append_assoc, append-nil}
use sudo_rs.Prelude.Tests.{◌==◌}
use sudo_rs.Prelude.Lists.{length, take, drop, length-append, take-append_self, drop-append_self}
use sudo_rs.Prelude.Text.{Text}
use sudo_rs.Prelude.Bytes.{
  to_le_bytes, from_le_bytes, read_exact, capacity_of, length-to_le_bytes,
  from_le_bytes-to_le_bytes, read_exact-all,
}
use sudo_rs.Session.Time.{encode_time}
use sudo_rs.Session.Time.Codec.{length-encode_time}
use sudo_rs.Session.Record.{SessionRecord, write_bool, encode_scope, encode_record}
use sudo_rs.Session.Record.Codec.{IsRecord, from_bytes-encode_record, length-encode_scope}
use sudo_rs.Session.Store.{
  File, seek, write_all, read_file, magic_num, file_version, found, no_more, read_record,
  next_record,
}

abbrev pub header : Text
header = to_le_bytes 2 magic_num ++ to_le_bytes 2 file_version

drop_past : (n : ℕ) (xs ys : Text) → drop (length xs + n) (xs ++ ys) ≡ drop n ys
drop_past n [] ys = let e : 0 + n ≡ n = omega arith in ap (λ k. drop k ys) e
drop_past n (x ∷ xs) ys =
    let e : length (x ∷ xs) + n ≡ suc (length xs + n) = omega arith in
    ap (λ k. drop k (x ∷ (xs ++ ys))) e ∙ drop_past n xs ys

pub read_file-at :
    (A X B : Text) (n : ℕ) (f : File)
    → f.bytes ≡ A ++ (X ++ B)
    → f.position ≡ length A
    → length X ≡ n
    → read_file n f ≡ some (X, seek (f.position + n) f)
unfolding read_file
read_file-at A X B n f b p l =
    let d : drop f.position f.bytes ≡ X ++ B =
      ap (λ k. drop k f.bytes) p ∙ ap (drop (length A)) b ∙ drop-append_self A (X ++ B) in
    rw (d, read_exact-all n X B l) refl

pub write_all-at :
    (A X B bs : Text) (f : File)
    → f.bytes ≡ A ++ (X ++ B)
    → f.position ≡ length A
    → length X ≡ length bs
    → write_all bs f ≡ record { bytes = A ++ (bs ++ B); position = f.position + length bs }
unfolding write_all
write_all-at A X B bs f b p l =
    let t : take f.position f.bytes ≡ A =
      ap (λ k. take k f.bytes) p ∙ ap (take (length A)) b ∙ take-append_self A (X ++ B) in
    let z : f.position - length f.bytes ≡ 0 =
      omega (arith, ap length b, length-append A (X ++ B)) in
    let d : drop (f.position + length bs) f.bytes ≡ B =
      ap (λ k. drop (k + length bs) f.bytes) p
      ∙ ap (drop (length A + length bs)) b
      ∙ drop_past (length bs) A (X ++ B)
      ∙ ap (λ k. drop k (X ++ B)) (sym l)
      ∙ drop-append_self X B in
    ap (λ k. record { bytes = k; position = f.position + length bs }) (rw (t, z, d) refl)

drop_nil : (n : ℕ) → drop {A = ℕ} n [] ≡ []
drop_nil zero = refl
drop_nil (suc n) = refl

pub write_all-end :
    (bs : Text) (f : File)
    → f.position ≡ length f.bytes
    → write_all bs f ≡ record { bytes = f.bytes ++ bs; position = f.position + length bs }
unfolding write_all
write_all-end bs f p =
    let whole = sym (append-nil f.bytes) in
    let t : take f.position f.bytes ≡ f.bytes =
      ap (λ k. take k f.bytes) p ∙ ap (take (length f.bytes)) whole ∙ take-append_self f.bytes [] in
    let z : f.position - length f.bytes ≡ 0 = omega arith in
    let d : drop (f.position + length bs) f.bytes ≡ [] =
      ap (λ k. drop (k + length bs) f.bytes) p
      ∙ ap (drop (length f.bytes + length bs)) whole
      ∙ drop_past (length bs) f.bytes []
      ∙ drop_nil (length bs) in
    ap (λ k. record { bytes = k; position = f.position + length bs })
      (rw (t, z, d, append-nil bs) refl)

two_bytes : capacity_of 2 ≡ 65536
unfolding capacity_of
two_bytes = refl

module _ (e : Bool) where
  -- A record as the file holds it, after its length.
  unfoldable pub frame : SessionRecord → Text
  frame r = to_le_bytes 2 (length (encode_record e r)) ++ encode_record e r

  unfoldable pub frames : List SessionRecord → Text
  frames [] = []
  frames (r ∷ rs) = frame r ++ frames rs

  unfoldable pub file_bytes : List SessionRecord → Text
  file_bytes rs = header ++ frames rs

  pub length-encode_record :
      (r : SessionRecord) → (46 ≤ length (encode_record e r)) × (length (encode_record e r) ≤ 50)
  unfolding encode_record
  length-encode_record r =
      let s = encode_scope e r.scope in
      let u = to_le_bytes 4 r.auth_user in
      let t = encode_time e r.timestamp in
      let (lo, hi) = length-encode_scope e r.scope in
      let a = length-append s (u ++ (t ++ write_bool r.enabled)) in
      let b = length-append u (t ++ write_bool r.enabled) in
      let c = length-append t (write_bool r.enabled) in
      let p = length-to_le_bytes 4 r.auth_user in
      let q = length-encode_time e r.timestamp in
      let o : length (write_bool r.enabled) ≡ 1 = ground arith in (omega arith, omega arith)

  pub length-frame : (r : SessionRecord) → length (frame r) ≡ 2 + length (encode_record e r)
  unfolding frame
  length-frame r = omega (
    arith,
    length-append (to_le_bytes 2 (length (encode_record e r))) (encode_record e r),
    length-to_le_bytes 2 (length (encode_record e r)),
  )

  pub next_record-found :
      (A B : Text) (r : SessionRecord) (f : File)
      → f.bytes ≡ A ++ (frame r ++ B)
      → f.position ≡ length A
      → IsRecord r
      → next_record e f ≡ (seek (f.position + length (frame r)) f, found r)
  unfolding next_record read_record frame
  next_record-found A B r f b p v =
      let X = encode_record e r in
      let n = length X in
      let (lo, hi) = length-encode_record r in
      let L = to_le_bytes 2 n in
      let b₁ : f.bytes ≡ A ++ (L ++ (X ++ B)) = b ∙ ap (λ k. A ++ k) (append_assoc L X B) in
      let b₂ : f.bytes ≡ (A ++ L) ++ (X ++ B) = b₁ ∙ sym (append_assoc A L (X ++ B)) in
      let one = read_file-at A L (X ++ B) 2 f b₁ p (length-to_le_bytes 2 n) in
      let f₁ = seek (f.position + 2) f in
      let q : f₁.position ≡ length (A ++ L) =
        omega (arith, length-append A L, length-to_le_bytes 2 n) in
      let two = read_file-at (A ++ L) X B n f₁ b₂ q refl in
      let m : from_le_bytes L ≡ n = from_le_bytes-to_le_bytes 2 n (omega (arith, two_bytes)) in
      let z : (n == 0) ≡ false = ground arith in
      let w : f.position + 2 + n ≡ f.position + length (frame r) = omega (arith, length-frame r) in
      rw (one, m, z, two, from_bytes-encode_record e r v, read_record, next_record)
        (ap (λ k. (seek k f, found r)) w)

  pub next_record_end : (f : File) → f.position ≡ length f.bytes → next_record e f ≡ (f, no_more)
  unfolding next_record read_file read_exact
  next_record_end f p =
      let d : drop f.position f.bytes ≡ [] =
        ap (λ k. drop k f.bytes) p
        ∙ ap (drop (length f.bytes)) (sym (append-nil f.bytes))
        ∙ drop-append_self f.bytes [] in
      rw (d, read_exact, read_file, next_record) refl

  pub frames-append : (rs rs' : List SessionRecord) → frames (rs ++ rs') ≡ frames rs ++ frames rs'
  unfolding frames
  frames-append [] rs' = refl
  frames-append (r ∷ rs) rs' =
      ap (λ k. frame r ++ k) (frames-append rs rs')
      ∙ sym (append_assoc (frame r) (frames rs) (frames rs'))

  -- The bytes of a file around one of its records.
  pub file_around :
      (before : List SessionRecord) (r : SessionRecord) (after : List SessionRecord)
      → file_bytes (before ++ (r ∷ after)) ≡ (header ++ frames before) ++ (frame r ++ frames after)
  unfolding file_bytes frames
  file_around before r after =
      ap (λ k. header ++ k) (frames-append before (r ∷ after))
      ∙ sym (append_assoc header (frames before) (frame r ++ frames after))
