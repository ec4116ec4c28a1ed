-- ===== src/Session/Time/Codec.antt =====
-- src/system/time.rs: what the bytes of a time are read back as.
use sudo_rs.Prelude.{ℕ, ◌+◌, ◌/◌, ◌%◌, ◌<◌, Bool, true, some, ◌++◌, arith}
use sudo_rs.Prelude.{◌≡◌, refl, sym, ap, ◌∙◌, append_assoc}
use sudo_rs.Prelude.Tests.{lt→ltb}
use sudo_rs.Prelude.Lists.{length, length-append}
use sudo_rs.Prelude.Text.{Text}
use sudo_rs.Prelude.Int.{
  ℤ, pos, fits, to_bits, from_bits, from_bits-to_bits, to_bits-lt, wrap-fits, +ℤ-zero,
}
use sudo_rs.Prelude.Bytes.{
  to_ne_bytes, from_ne_bytes, capacity_of, length-to_ne_bytes, from_ne_bytes-to_ne_bytes,
  read_exact-all,
}
use sudo_rs.Session.Time.{SystemTime, i64_half, nanos_per_sec, new_time, encode_time, decode_time}

-- The times that `new` makes: the nanoseconds are less than a second.
pub record IsNormal (t : SystemTime) : Type 0 where
  pub nanos : ℕ
  pub secs : fits i64_half t.secs ≡ true
  pub nsecs : t.nsecs ≡ pos nanos
  pub below : nanos < nanos_per_sec

new_time-normal :
    (s : ℤ) (n : ℕ)
    → fits i64_half s ≡ true
    → n < nanos_per_sec
    → new_time s (pos n) ≡ record { secs = s; nsecs = pos n }
unfolding new_time
new_time-normal s n f h =
    let d : n / nanos_per_sec ≡ 0 = omega arith in
    let m : n % nanos_per_sec ≡ n = omega arith in rw (d, m, +ℤ-zero s, wrap-fits i64_half s f) refl

capacity_of-eight : capacity_of 8 ≡ i64_half + i64_half
unfolding capacity_of
capacity_of-eight = refl

pub length-encode_time : (e : Bool) (t : SystemTime) → length (encode_time e t) ≡ 16
unfolding encode_time
length-encode_time e t = omega (
  arith,
  length-append (to_ne_bytes e 8 (to_bits i64_half t.secs))
      (to_ne_bytes e 8 (to_bits i64_half t.nsecs)),
  length-to_ne_bytes e 8 (to_bits i64_half t.secs),
  length-to_ne_bytes e 8 (to_bits i64_half t.nsecs),
)

read_i64 :
    (e : Bool) (x : ℤ)
    → fits i64_half x ≡ true
    → from_bits i64_half (from_ne_bytes e (to_ne_bytes e 8 (to_bits i64_half x))) ≡ x
read_i64 e x f =
    ap (from_bits i64_half) (
      from_ne_bytes-to_ne_bytes e 8 (to_bits i64_half x)
        (rw capacity_of-eight (to_bits-lt i64_half x f)))
    ∙ from_bits-to_bits i64_half x f

-- A normal time is read back from its bytes, whatever follows them.
pub decode_time-encode_time :
    (e : Bool) (t : SystemTime) (rest : Text)
    → IsNormal t
    → decode_time e (encode_time e t ++ rest) ≡ some (t, rest)
unfolding decode_time encode_time
decode_time-encode_time e t rest v =
    let a = to_ne_bytes e 8 (to_bits i64_half t.secs) in
    let b = to_ne_bytes e 8 (to_bits i64_half t.nsecs) in
    let nano : from_bits i64_half (from_ne_bytes e b) ≡ pos v.nanos =
      read_i64 e t.nsecs (rw v.nsecs (lt→ltb v.nanos i64_half (omega (arith, v.below))))
      ∙ v.nsecs in
    let p = read_exact-all 8 a (b ++ rest) (length-to_ne_bytes e 8 (to_bits i64_half t.secs)) in
    let q = read_exact-all 8 b rest (length-to_ne_bytes e 8 (to_bits i64_half t.nsecs)) in
    rw (append_assoc a b rest, p, q, decode_time)
      (rw (read_i64 e t.secs v.secs, nano, new_time-normal t.secs v.nanos v.secs v.below)
        (ap (λ n. some (record { secs = t.secs; nsecs = n }, rest)) (sym v.nsecs)))
