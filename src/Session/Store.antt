-- ===== src/Session/Store.antt =====
-- src/system/timestamp.rs: the file of session records. A file is its bytes with a position; its
-- operations are those of the operating system, supposed to give no error but the end of the file.
-- The exclusive lock, which is held from the start to the end of each operation, keeps other
-- processes out, so that an operation is one step. The clock's readings are arguments.
-- The loops run on fuel, one unit for each byte of the file: a record has at least one byte.
pub mod Layout
pub mod Scan
pub mod Rewrite
pub mod Header
pub mod Advance
use sudo_rs.Prelude.{
  ℕ, zero, suc, ◌+◌, ◌-◌, ◌<◌, Bool, true, false, not, ◌&&◌, Option, none, some, List, [], ◌∷◌,
  ◌++◌,
}
use sudo_rs.Prelude.Tests.{if◌then◌else◌, ◌==◌, leb, ltb, ◌>>=◌}
use sudo_rs.Prelude.Lists.{length, take, drop, replicate}
use sudo_rs.Prelude.Text.{Text}
use sudo_rs.Prelude.Bytes.{to_le_bytes, from_le_bytes, read_exact}
use sudo_rs.Session.Time.{SystemTime, Duration, checked_sub, encode_time}
use sudo_rs.Session.Record.{
  RecordScope, SessionRecord, scope_eq, matches, written_between, write_bool, encode_record,
  from_bytes,
}

pub record File : Type 0 where
  pub bytes : Text
  pub position : ℕ

-- The outcome of an operation: `failed` is an `io::Error`, `panicked` the overflow of a time.
pub data Outcome (A : Type 0) : Type 0 where
  returned : A → Outcome A
  failed : Outcome A
  panicked : Outcome A
  out_of_fuel : Outcome A

abbrev pub seek : ℕ → File → File
seek position f = record f { position = position }

abbrev pub set_len : ℕ → File → File
set_len n f = record f { bytes = take n f.bytes ++ replicate (n - length f.bytes) 0 }

unfoldable pub write_all : Text → File → File
write_all bs f = record {
  bytes =
      take f.position f.bytes
      ++ (replicate (f.position - length f.bytes) 0
          ++ (bs ++ drop (f.position + length bs) f.bytes));
  position = f.position + length bs;
}

-- `none` at the end of the file.
unfoldable pub read_file : ℕ → File → Option (Text × File)
read_file n f = read_exact n (drop f.position f.bytes) >>= λ r. some (r.0, seek (f.position + n) f)

abbrev pub magic_num : ℕ
magic_num = 0x50d0

abbrev pub file_version : ℕ
file_version = 2

abbrev pub version_offset : ℕ
version_offset = 2

abbrev pub first_record_offset : ℕ
first_record_offset = 4

abbrev pub size_of_ts : ℕ
size_of_ts = 16

abbrev pub size_of_bool : ℕ
size_of_bool = 1

abbrev pub mod_offset : ℕ
mod_offset = size_of_ts + size_of_bool

-- `SessionRecordFile::init` and `reset`
unfoldable pub init : ℕ → File → File
init offset f =
    let f₁ = seek 0 (set_len 0 f) in
    let f₂ = write_all (to_le_bytes 2 magic_num) f₁ in
    let f₃ = write_all (to_le_bytes 2 file_version) f₂ in seek offset f₃

abbrev pub reset : File → File
reset = init 0

-- `read_magic` and `read_version`, with the file after them.
abbrev pub read_u16 : File → Option (ℕ × File)
read_u16 f = read_file 2 f >>= λ r. some (from_le_bytes r.0, r.1)

-- The two steps of `SessionRecordFile::new`: the number is read, or the file reset.
unfoldable pub expect : ℕ → ℕ → File → File
expect number offset f = elim (read_u16 f) [
  | some (n, f') ↦ if n == number then f' else init offset f'
  | none ↦ init offset f
]

unfoldable pub open_file : File → File
open_file f = expect file_version first_record_offset (expect magic_num version_offset f)

pub data Next : Type 0 where
  found : SessionRecord → Next
  no_more : Next
  empty_record : Next

module _ (big_endian : Bool) where
  -- After the length: the record itself. `start` is where it starts.
  unfoldable pub read_record : ℕ → ℕ → File → File × Next
  read_record start record_length f = elim (read_file record_length f) [
    | none ↦ (set_len start f, no_more)
    | some (buf, f') ↦ elim (from_bytes big_endian buf) [
      | none ↦ (set_len start f', no_more)
      | some r ↦ (f', found r)
    ]
  ]

  unfoldable pub next_record : File → File × Next
  next_record f = elim (read_u16 f) [
    | none ↦ (f, no_more)
    | some (record_length, f') ↦
        if record_length == 0 then (f', empty_record) else read_record f.position record_length f'
  ]

  -- `while let Some(record) = self.next_record()?` up to the first record that is chosen.
  unfoldable pub scan : ℕ → (SessionRecord → Bool) → File → File × Outcome (Option SessionRecord)
  scan zero choose f = (f, out_of_fuel)
  scan (suc fuel) choose f =
      let (f', next) = next_record f in
      let rest = scan fuel choose f' in
      elim next [
        | empty_record ↦ (f', failed)
        | no_more ↦ (f', returned none)
        | found r ↦ if choose r then (f', returned (some r)) else rest
      ]

  abbrev pub scan_file : (SessionRecord → Bool) → File → File × Outcome (Option SessionRecord)
  scan_file choose f = scan (length f.bytes + 1) choose (seek first_record_offset f)
