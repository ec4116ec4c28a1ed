-- ===== src/Session/Store/Header.antt =====
-- src/system/timestamp.rs: `SessionRecordFile::new` and `reset`, by the first bytes of the file.
use sudo_rs.Prelude.{ℕ, ◌+◌, ◌-◌, ◌*◌, ◌<◌, true, false, ◌&&◌, none, some, [], ◌∷◌, ◌++◌, arith}
use sudo_rs.Prelude.{◌≡◌, refl, ap, ◌∙◌, inl, inr}
use sudo_rs.Prelude.Tests.{if◌then◌else◌, ◌==◌, Bool-cases}
use sudo_rs.Prelude.Lists.{length, take, All}
use sudo_rs.Prelude.Text.{Text, text_eq}
use sudo_rs.Prelude.Bytes.{to_le_bytes, from_le_bytes, read_exact}
use sudo_rs.Session.Store.{
  File, write_all, read_file, magic_num, file_version, version_offset, first_record_offset, init,
  expect, open_file,
}
use sudo_rs.Session.Store.Layout.{header}

-- A file with nothing but the header, at a position.
abbrev pub blank : ℕ → File
blank offset = record { bytes = header; position = offset }

pub init-blank : (offset : ℕ) (f : File) → init offset f ≡ blank offset
unfolding init write_all to_le_bytes
init-blank offset f = let z : 0 - length f.bytes ≡ 0 = omega arith in rw (z, init) refl

-- The file itself, at a position.
abbrev at_position : Text → ℕ → File
at_position bs n = record { bytes = bs; position = n }

-- A process that opens the file keeps it if it starts with the header, and resets it if not.
abbrev pub opened : Text → File
opened bs =
    if text_eq (take first_record_offset bs) header
    then record { bytes = bs; position = first_record_offset }
    else blank first_record_offset

-- What follows after a reset for the magic number.
expect-blank :
    expect file_version first_record_offset (blank version_offset) ≡ blank first_record_offset
unfolding expect read_file read_exact from_le_bytes to_le_bytes
expect-blank = refl

expect-none :
    (number offset : ℕ) (f : File) → read_file 2 f ≡ none → expect number offset f ≡ blank offset
unfolding expect
expect-none number offset f h = rw (h, expect) (init-blank offset f)

expect-some :
    (number offset n : ℕ) (buf : Text) (f f' : File)
    → read_file 2 f ≡ some (buf, f')
    → from_le_bytes buf ≡ n
    → expect number offset f ≡ (if n == number then f' else blank offset)
unfolding expect
expect-some number offset n buf f f' h v =
    rw (h, expect, v) (ap (λ k. if n == number then f' else k) (init-blank offset f'))

le_pair : (a b : ℕ) → from_le_bytes (a ∷ b ∷ []) ≡ a + 256 * b
unfolding from_le_bytes
le_pair a b = omega arith

open_file_step :
    (f : File) {f' : File}
    → expect magic_num version_offset f ≡ f'
    → open_file f ≡ expect file_version first_record_offset f'
unfolding open_file
open_file_step f h = ap (expect file_version first_record_offset) h

reset_twice :
    (f : File)
    → expect magic_num version_offset f ≡ blank version_offset
    → open_file f ≡ blank first_record_offset
reset_twice f h = open_file_step f h ∙ expect-blank

-- The bytes after a right magic number.
version_part :
    (a b : ℕ) (bs : Text)
    → All (λ k. k < 256) bs
    → expect file_version first_record_offset (at_position (a ∷ b ∷ bs) 2) ≡ (
        if text_eq (take 2 bs) (2 ∷ 0 ∷ [])
        then at_position (a ∷ b ∷ bs) 4
        else blank first_record_offset)
unfolding read_file read_exact text_eq
version_part a b [] v =
    expect-none file_version first_record_offset (at_position (a ∷ b ∷ []) 2) refl
version_part a b (c ∷ []) v =
    let t : text_eq (c ∷ []) (2 ∷ 0 ∷ []) ≡ false = ground arith in
    rw t (expect-none file_version first_record_offset (at_position (a ∷ b ∷ c ∷ []) 2) refl)
version_part a b (c ∷ d ∷ bs) v =
    let e =
      expect-some file_version first_record_offset (c + 256 * d) (c ∷ d ∷ [])
        (at_position (a ∷ b ∷ c ∷ d ∷ bs) 2) (at_position (a ∷ b ∷ c ∷ d ∷ bs) 4) refl
        (le_pair c d) in
    let t : (c + 256 * d == 2) ≡ text_eq (c ∷ d ∷ []) (2 ∷ 0 ∷ []) = ground arith in
    e ∙ ap (λ k. if k then at_position (a ∷ b ∷ c ∷ d ∷ bs) 4 else blank first_record_offset) t

-- The file is kept exactly if it starts with the magic number and the version.
pub open_file-opened :
    (bs : Text) → All (λ k. k < 256) bs → open_file (at_position bs 0) ≡ opened bs
unfolding read_file read_exact text_eq to_le_bytes
open_file-opened [] v =
    reset_twice (at_position [] 0) (expect-none magic_num version_offset (at_position [] 0) refl)
open_file-opened (a ∷ []) v =
    let t : text_eq (a ∷ []) (208 ∷ 80 ∷ 2 ∷ 0 ∷ []) ≡ false = ground arith in
    rw t (
      reset_twice (at_position (a ∷ []) 0)
        (expect-none magic_num version_offset (at_position (a ∷ []) 0) refl))
open_file-opened (a ∷ b ∷ bs) v =
    let f = at_position (a ∷ b ∷ bs) 0 in
    let e =
      expect-some magic_num version_offset (a + 256 * b) (a ∷ b ∷ []) f (at_position (a ∷ b ∷ bs) 2)
        refl (le_pair a b) in
    elim (Bool-cases (a + 256 * b == magic_num)) [
      | inl y ↦
          let t₁ : (a == 208) ≡ true = ground arith in
          let t₂ : (b == 80) ≡ true = ground arith in
          let kept : expect magic_num version_offset f ≡ at_position (a ∷ b ∷ bs) 2 =
            e ∙ rw y refl in
          rw (t₁, t₂) (open_file_step f kept ∙ version_part a b bs v.1.1)
      | inr n ↦
          let t : ((a == 208) && ((b == 80) && text_eq (take 2 bs) (2 ∷ 0 ∷ []))) ≡ false =
            ground arith in
          rw t (reset_twice f (e ∙ rw n refl))
    ]

pub open_file_kept :
    (rest : Text)
    → open_file (record { bytes = header ++ rest; position = 0 })
      ≡ record { bytes = header ++ rest; position = 4 }
unfolding open_file expect read_file read_exact to_le_bytes from_le_bytes
open_file_kept rest = refl
