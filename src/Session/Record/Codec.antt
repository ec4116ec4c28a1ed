-- ===== src/Session/Record/Codec.antt =====
-- src/system/timestamp.rs: what the bytes of a record are read back as.
use sudo_rs.Prelude.{ℕ, ◌^◌, ◌<◌, ◌≤◌, Bool, true, false, some, [], ◌++◌, arith}
use sudo_rs.Prelude.{◌≡◌, refl, append_assoc}
use sudo_rs.Prelude.Lists.{length, length-append}
use sudo_rs.Prelude.Text.{Text}
use sudo_rs.Prelude.Int.{ℤ, fits, to_bits, from_bits-to_bits, to_bits-lt}
use sudo_rs.Prelude.Bytes.{
  to_le_bytes, capacity_of, length-to_le_bytes, from_le_bytes-to_le_bytes, read_exact-all,
}
use sudo_rs.Session.Time.{encode_time}
use sudo_rs.Session.Time.Codec.{IsNormal, decode_time-encode_time, length-encode_time}
use sudo_rs.Session.Record.{
  RecordScope, tty, ppid, SessionRecord, i32_half, pid_bytes, write_bool, read_pid, read_number,
  encode_scope, decode_tty, decode_ppid, decode_scope, encode_record, decode_enabled, decode_record,
  from_bytes,
}

-- Numbers that fit their types.
abbrev pub IsScope : RecordScope → Type 0
IsScope (tty d s t) = (d < 2 ^ 64) × (fits i32_half s ≡ true) × IsNormal t
IsScope (ppid g s t) = (fits i32_half g ≡ true) × (fits i32_half s ≡ true) × IsNormal t

pub record IsRecord (r : SessionRecord) : Type 0 where
  pub scope : IsScope r.scope
  pub auth_user : r.auth_user < 2 ^ 32
  pub timestamp : IsNormal r.timestamp

capacity_of-four : capacity_of 4 ≡ 2 ^ 32
unfolding capacity_of
capacity_of-four = refl

capacity_of-eight : capacity_of 8 ≡ 2 ^ 64
unfolding capacity_of
capacity_of-eight = refl

read_number-append :
    (k n : ℕ) (rest : Text)
    → n < capacity_of k
    → read_number k (to_le_bytes k n ++ rest) ≡ some (n, rest)
unfolding read_number
read_number-append k n rest h =
    rw
      (
        read_exact-all k (to_le_bytes k n) rest (length-to_le_bytes k n),
        from_le_bytes-to_le_bytes k n h,
      )
      refl

read_pid-append :
    (p : ℤ) (rest : Text) → fits i32_half p ≡ true → read_pid (pid_bytes p ++ rest) ≡ some (p, rest)
unfolding read_pid
read_pid-append p rest f =
    let h : to_bits i32_half p < capacity_of 4 = rw capacity_of-four (to_bits-lt i32_half p f) in
    rw
      (
        read_exact-all 4 (pid_bytes p) rest (length-to_le_bytes 4 (to_bits i32_half p)),
        from_le_bytes-to_le_bytes 4 (to_bits i32_half p) h,
        from_bits-to_bits i32_half p f,
      )
      refl

module _ (e : Bool) where
  decode_scope-encode_scope :
      (s : RecordScope) (rest : Text)
      → IsScope s
      → decode_scope e (encode_scope e s ++ rest) ≡ some (s, rest)
  unfolding decode_scope encode_scope decode_tty decode_ppid
  decode_scope-encode_scope (tty d s t) rest (v, w, x) =
      let a =
        read_number-append 8 d (pid_bytes s ++ (encode_time e t ++ rest))
          (rw capacity_of-eight v) in
      let b = read_pid-append s (encode_time e t ++ rest) w in
      let c = decode_time-encode_time e t rest x in
      rw
        (
          append_assoc (to_le_bytes 8 d) (pid_bytes s ++ encode_time e t) rest,
          append_assoc (pid_bytes s) (encode_time e t) rest,
          a,
          b,
          c,
          decode_tty,
        )
        refl
  decode_scope-encode_scope (ppid g s t) rest (v, w, x) =
      let a = read_pid-append g (pid_bytes s ++ (encode_time e t ++ rest)) v in
      let b = read_pid-append s (encode_time e t ++ rest) w in
      let c = decode_time-encode_time e t rest x in
      rw
        (
          append_assoc (pid_bytes g) (pid_bytes s ++ encode_time e t) rest,
          append_assoc (pid_bytes s) (encode_time e t) rest,
          a,
          b,
          c,
          decode_ppid,
        )
        refl

  decode_enabled-append : (b : Bool) → decode_enabled e (write_bool b) ≡ some (b, [])
  unfolding decode_enabled
  decode_enabled-append true = refl
  decode_enabled-append false = refl

  -- A record is read back from its bytes, of which none is left.
  pub from_bytes-encode_record :
      (r : SessionRecord) → IsRecord r → from_bytes e (encode_record e r) ≡ some r
  unfolding from_bytes decode_record encode_record
  from_bytes-encode_record r v =
      let end = encode_time e r.timestamp ++ write_bool r.enabled in
      let a = decode_scope-encode_scope r.scope (to_le_bytes 4 r.auth_user ++ end) v.scope in
      let b = read_number-append 4 r.auth_user end (rw capacity_of-four v.auth_user) in
      let c = decode_time-encode_time e r.timestamp (write_bool r.enabled) v.timestamp in
      rw (a, b, c, decode_enabled-append r.enabled) refl

  pub length-encode_scope :
      (s : RecordScope) → (25 ≤ length (encode_scope e s)) × (length (encode_scope e s) ≤ 29)
  unfolding encode_scope
  length-encode_scope (tty d s t) =
      let a = length-append (to_le_bytes 8 d) (pid_bytes s ++ encode_time e t) in
      let b = length-append (pid_bytes s) (encode_time e t) in
      let c = length-to_le_bytes 8 d in
      let p = length-to_le_bytes 4 (to_bits i32_half s) in
      let q = length-encode_time e t in (omega arith, omega arith)
  length-encode_scope (ppid g s t) =
      let a = length-append (pid_bytes g) (pid_bytes s ++ encode_time e t) in
      let b = length-append (pid_bytes s) (encode_time e t) in
      let c = length-to_le_bytes 4 (to_bits i32_half g) in
      let p = length-to_le_bytes 4 (to_bits i32_half s) in
      let q = length-encode_time e t in (omega arith, omega arith)
