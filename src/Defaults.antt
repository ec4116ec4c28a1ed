-- ===== src/Defaults.antt =====
-- src/defaults/mod.rs: the settings that the policy reads, with their initial values. Those marked
-- `#ignored` there are read by nothing and are left out.
use sudo_rs.Prelude.{ℕ, ◌*◌, Bool, true, false, ◌&&◌, Option, none, some, List, [], ◌∷◌}
use sudo_rs.Prelude.Tests.{if◌then◌else◌, ◌==◌, leb, ◌>>=◌}
use sudo_rs.Prelude.Text.{Text, codes}

pub data TimestampType : Type 0 where
  tty ppid : TimestampType

-- The sets `env_keep` and `env_check` are lists: only membership of a pattern is asked.
pub record Settings : Type 0 where
  pub use_pty : Bool
  pub pwfeedback : Bool
  pub rootpw : Bool
  pub targetpw : Bool
  pub noexec : Bool
  pub noninteractive_auth : Bool
  pub log_allowed : Bool
  pub setenv : Bool
  pub runcwd : Option Text
  pub apparmor_profile : Option Text
  pub umask : ℕ
  pub umask_override : Bool
  pub passwd_tries : ℕ
  pub secure_path : Option Text
  pub passwd_timeout : ℕ
  pub timestamp_timeout : ℕ
  pub timestamp_type : TimestampType
  pub editor : Text
  pub env_editor : Bool
  pub env_keep : List Text
  pub env_check : List Text

abbrev pub default_settings : Settings
default_settings = record {
  use_pty = true;
  pwfeedback = true;
  rootpw = false;
  targetpw = false;
  noexec = false;
  noninteractive_auth = false;
  log_allowed = true;
  setenv = false;
  runcwd = none;
  apparmor_profile = none;
  umask = 0o022;
  umask_override = false;
  passwd_tries = 3;
  secure_path = none;
  passwd_timeout = 5 * 60;
  timestamp_timeout = 15 * 60;
  timestamp_type = tty;
  editor = codes "/usr/bin/editor:/usr/bin/nano:/usr/bin/vi";
  env_editor = true;
  env_keep =
      codes "COLORS"
      ∷ codes "DISPLAY"
      ∷ codes "HOSTNAME"
      ∷ codes "KRB5CCNAME"
      ∷ codes "LS_COLORS"
      ∷ codes "PATH"
      ∷ codes "PS1"
      ∷ codes "PS2"
      ∷ codes "XAUTHORITY"
      ∷ codes "XAUTHORIZATION"
      ∷ codes "XDG_CURRENT_DESKTOP"
      ∷ [];
  env_check =
      codes "COLORTERM"
      ∷ codes "LANG"
      ∷ codes "LANGUAGE"
      ∷ codes "LC_*"
      ∷ codes "LINGUAS"
      ∷ codes "TERM"
      ∷ codes "TZ"
      ∷ [];
}

-- The parsers of settings. `from_str_radix bits radix` is the parser of unsigned integers of the
-- standard library, `none` for an error.
module _ (from_str_radix : ℕ → ℕ → Text → Option ℕ) where
  -- The integer of a setting that declares a range.
  unfoldable pub integer_in : ℕ → ℕ → Text → Option ℕ
  integer_in first last text = do
    val ← from_str_radix 64 10 text
    if leb first val && leb val last then some val else none

  -- `strip_prefix('0')`, and a file mode of 32 bits
  unfoldable pub octal_mode : Text → Option ℕ
  octal_mode [] = none
  octal_mode (c ∷ input) = if c == b'0' then from_str_radix 32 8 input else none
