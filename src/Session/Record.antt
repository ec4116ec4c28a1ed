-- ===== src/Session/Record.antt =====
-- src/system/timestamp.rs: `RecordScope`, `SessionRecord` and their bytes. A reader is the list of
-- the bytes that are left; `none` is an I/O error, which for these readers is an end of the data or
-- a value that stands for nothing.
pub mod Codec
pub mod Scope
use sudo_rs.Prelude.{ℕ, ◌^◌, Bool, true, false, ◌&&◌, Option, none, some, List, [], ◌∷◌, ◌++◌}
use sudo_rs.Prelude.Tests.{if◌then◌else◌, ◌==◌, ◌>>=◌}
use sudo_rs.Prelude.Text.{Text}
use sudo_rs.Prelude.Int.{ℤ, to_bits, from_bits, eqb_ℤ}
use sudo_rs.Prelude.Bytes.{to_le_bytes, from_le_bytes, read_exact}
use sudo_rs.Session.Time.{SystemTime, time_le, time_eq, encode_time, decode_time}

pub data RecordScope : Type 0 where
  -- the device, the session leader and its starting time
  tty : ℕ → ℤ → SystemTime → RecordScope
  -- the parent, the session leader and the starting time
  ppid : ℤ → ℤ → SystemTime → RecordScope

pub record SessionRecord : Type 0 where
  pub scope : RecordScope
  pub auth_user : ℕ
  pub timestamp : SystemTime
  pub enabled : Bool

-- `pid_t` is a 32-bit integer with a sign.
abbrev pub i32_half : ℕ
i32_half = 2 ^ 31

unfoldable pub scope_eq : RecordScope → RecordScope → Bool
scope_eq (tty d s t) (tty d' s' t') = (d == d') && (eqb_ℤ s s' && time_eq t t')
scope_eq (tty d s t) (ppid g' s' t') = false
scope_eq (ppid g s t) (tty d' s' t') = false
scope_eq (ppid g s t) (ppid g' s' t') = eqb_ℤ g g' && (eqb_ℤ s s' && time_eq t t')

unfoldable pub matches : SessionRecord → RecordScope → ℕ → Bool
matches r scope auth_user = scope_eq r.scope scope && (r.auth_user == auth_user)

unfoldable pub written_between : SessionRecord → SystemTime → SystemTime → Bool
written_between r early later =
    time_le early later && (time_le early r.timestamp && time_le r.timestamp later)

abbrev pub pid_bytes : ℤ → Text
pid_bytes p = to_le_bytes 4 (to_bits i32_half p)

-- `write_bool`
abbrev pub write_bool : Bool → Text
write_bool true = 255 ∷ []
write_bool false = 0 ∷ []

abbrev pub to_bool : ℕ → Option Bool
to_bool b = if b == 255 then some true else if b == 0 then some false else none

unfoldable pub read_pid : Text → Option (ℤ × Text)
read_pid from = read_exact 4 from >>= λ r. some (from_bits i32_half (from_le_bytes r.0), r.1)

unfoldable pub read_number : ℕ → Text → Option (ℕ × Text)
read_number k from = read_exact k from >>= λ r. some (from_le_bytes r.0, r.1)

module _ (big_endian : Bool) where
  unfoldable pub encode_scope : RecordScope → Text
  encode_scope (tty tty_device session_pid init_time) =
      1 ∷ (to_le_bytes 8 tty_device ++ (pid_bytes session_pid ++ encode_time big_endian init_time))
  encode_scope (ppid group_pid session_pid init_time) =
      2 ∷ (pid_bytes group_pid ++ (pid_bytes session_pid ++ encode_time big_endian init_time))

  unfoldable pub decode_tty : Text → Option (RecordScope × Text)
  decode_tty from = do
    (tty_device, from₁) ← read_number 8 from
    (session_pid, from₂) ← read_pid from₁
    (init_time, from₃) ← decode_time big_endian from₂
    some (tty tty_device session_pid init_time, from₃)

  unfoldable pub decode_ppid : Text → Option (RecordScope × Text)
  decode_ppid from = do
    (group_pid, from₁) ← read_pid from
    (session_pid, from₂) ← read_pid from₁
    (init_time, from₃) ← decode_time big_endian from₂
    some (ppid group_pid session_pid init_time, from₃)

  unfoldable pub decode_scope : Text → Option (RecordScope × Text)
  decode_scope [] = none
  decode_scope (x ∷ from) =
      if x == 1 then decode_tty from else if x == 2 then decode_ppid from else none

  -- `SessionRecord::encode`, which `as_bytes` calls
  unfoldable pub encode_record : SessionRecord → Text
  encode_record r =
      encode_scope r.scope
      ++ (to_le_bytes 4 r.auth_user ++ (encode_time big_endian r.timestamp ++ write_bool r.enabled))

  unfoldable pub decode_enabled : Text → Option (Bool × Text)
  decode_enabled [] = none
  decode_enabled (b ∷ from) = to_bool b >>= λ enabled. some (enabled, from)

  unfoldable pub decode_record : Text → Option (SessionRecord × Text)
  decode_record from = do
    (scope, from₁) ← decode_scope from
    (auth_user, from₂) ← read_number 4 from₁
    (timestamp, from₃) ← decode_time big_endian from₂
    (enabled, from₄) ← decode_enabled from₃
    some (
      record { scope = scope; auth_user = auth_user; timestamp = timestamp; enabled = enabled },
      from₄,
    )

  -- All bytes have to be consumed.
  unfoldable pub from_bytes : Text → Option SessionRecord
  from_bytes bytes = decode_record bytes >>= λ r. elim r.1 [ [] ↦ some r.0 | b ∷ bs ↦ none ]
