-- ===== src/Session/Time.antt =====
-- src/system/time.rs. Seconds and nanoseconds are 64-bit integers with a sign; `SystemTime::new`
-- wraps around as a release build does. The clock is outside of the program. The order of bytes of
-- the machine is a parameter.
pub mod Codec
pub mod Order
use sudo_rs.Prelude.{ℕ, ◌^◌, Bool, true, false, ◌&&◌, ◌||◌, not, Option, none, some, List, ◌++◌}
use sudo_rs.Prelude.Tests.{if◌then◌else◌, ◌>>=◌}
use sudo_rs.Prelude.Text.{Text}
use sudo_rs.Prelude.Int.{
  ℤ, pos, fits, to_bits, from_bits, wrap, div_euclid, rem_euclid, ◌+ℤ◌, ◌-ℤ◌, ltb_ℤ, eqb_ℤ,
}
use sudo_rs.Prelude.Bytes.{to_ne_bytes, from_ne_bytes, read_exact}

-- `SystemTime` and `ProcessCreateTime`, which have the same fields and encoding.
pub record SystemTime : Type 0 where
  pub secs : ℤ
  pub nsecs : ℤ

-- `Duration` of the standard library
pub record Duration : Type 0 where
  pub secs : ℕ
  pub subsec_nanos : ℕ

abbrev pub i64_half : ℕ
i64_half = 2 ^ 63

abbrev pub nanos_per_sec : ℕ
nanos_per_sec = 1_000_000_000

unfoldable pub new_time : ℤ → ℤ → SystemTime
new_time secs nsecs = record {
  secs = wrap i64_half (secs +ℤ div_euclid nsecs nanos_per_sec);
  nsecs = pos (rem_euclid nsecs nanos_per_sec);
}

-- `i64::checked_add` and the like, of the exact result
abbrev pub checked : ℤ → Option ℤ
checked x = if fits i64_half x then some x else none

unfoldable pub checked_add : SystemTime → Duration → Option SystemTime
checked_add t d = do
  rhs_secs ← checked (pos d.secs)
  secs ← checked (t.secs +ℤ rhs_secs)
  nsecs ← checked (t.nsecs +ℤ pos d.subsec_nanos)
  some (new_time secs nsecs)

unfoldable pub checked_sub : SystemTime → Duration → Option SystemTime
checked_sub t d = do
  rhs_secs ← checked (pos d.secs)
  secs ← checked (t.secs -ℤ rhs_secs)
  nsecs ← checked (t.nsecs -ℤ pos d.subsec_nanos)
  some (new_time secs nsecs)

-- The derived orders compare the seconds first.
unfoldable pub time_le : SystemTime → SystemTime → Bool
time_le a b = ltb_ℤ a.secs b.secs || (eqb_ℤ a.secs b.secs && not (ltb_ℤ b.nsecs a.nsecs))

unfoldable pub time_eq : SystemTime → SystemTime → Bool
time_eq a b = eqb_ℤ a.secs b.secs && eqb_ℤ a.nsecs b.nsecs

module _ (big_endian : Bool) where
  unfoldable pub encode_time : SystemTime → Text
  encode_time t =
      to_ne_bytes big_endian 8 (to_bits i64_half t.secs)
      ++ to_ne_bytes big_endian 8 (to_bits i64_half t.nsecs)

  unfoldable pub decode_time : Text → Option (SystemTime × Text)
  decode_time from = do
    (sec_bytes, from₁) ← read_exact 8 from
    (nsec_bytes, from₂) ← read_exact 8 from₁
    some (
      new_time (from_bits i64_half (from_ne_bytes big_endian sec_bytes))
          (from_bits i64_half (from_ne_bytes big_endian nsec_bytes)),
      from₂,
    )
