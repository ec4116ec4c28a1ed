-- ===== src/Sudoers/Policy.antt =====
-- src/sudoers/policy.rs: from the outcome of a permission check to terms and conditions. `none` is a
-- panic: a number of attempts or a file mode that does not fit its machine type. The AppArmor
-- profile, which only a build with that feature has, is left out.

pub mod Fields
pub mod Terms
use sudo_rs.Prelude.{ℕ, ◌^◌, ◌<◌, ◌≤◌, Bool, true, false, Option, none, some, List, []}
use sudo_rs.Prelude.Tests.{if◌then◌else◌, ◌==◌, ltb, ◌>>=◌}
use sudo_rs.Prelude.Lists.{any}
use sudo_rs.Prelude.Text.{Text, text_eq, codes}
use sudo_rs.Defaults.{Settings, TimestampType, tty, ppid}
use sudo_rs.Sudoers.Ast.{Tag, needs_passwd, EnvironmentControl, ExecControl, ChDir, path, any_dir}

pub data AuthenticatingUser : Type 0 where
  invoking_user root_user target_user : AuthenticatingUser

-- `Tty` and `PPid`
pub data AuthenticationScope : Type 0 where
  tty_scope ppid_scope : AuthenticationScope

-- Durations are in seconds.
pub record Authentication : Type 0 where
  pub must_authenticate : Bool
  pub credential : AuthenticatingUser
  pub allowed_attempts : ℕ
  pub prior_validity : ℕ
  pub pwfeedback : Bool
  pub password_timeout : Option ℕ
  pub noninteractive_auth : Bool
  pub scope : AuthenticationScope

pub data Authorization (T : Type 0) : Type 0 where
  allowed : Authentication → T → Authorization T
  forbidden : Authorization T

pub data DirChange : Type 0 where
  strict : Option Text → DirChange
  any_change : DirChange

pub data Logging : Type 0 where
  auth disabled : Logging

-- `exec::Umask`
pub data Umask : Type 0 where
  preserve : Umask
  extend : ℕ → Umask
  override : ℕ → Umask

pub record Restrictions : Type 0 where
  pub use_pty : Bool
  pub trust_environment : Bool
  pub noexec : Bool
  pub env_keep : List Text
  pub env_check : List Text
  pub chdir : DirChange
  pub path : Option Text
  pub umask : Umask
  pub log : Logging

pub record Judgement : Type 0 where
  pub flags : Option Tag
  pub settings : Settings

-- `try_into` to an unsigned integer of `w` bits
abbrev pub try_into : ℕ → ℕ → Option ℕ
try_into w n = if ltb n (2 ^ w) then some n else none

unfoldable pub to_auth : Settings → Tag → Option Authentication
to_auth s t = do
  allowed_attempts ← try_into 16 s.passwd_tries
  some (record {
    must_authenticate = needs_passwd t;
    credential = if s.rootpw then root_user else if s.targetpw then target_user else invoking_user;
    allowed_attempts = allowed_attempts;
    prior_validity = s.timestamp_timeout;
    pwfeedback = s.pwfeedback;
    password_timeout = if s.passwd_timeout == 0 then none else some s.passwd_timeout;
    noninteractive_auth = s.noninteractive_auth;
    scope = elim s.timestamp_type [ tty ↦ tty_scope | ppid ↦ ppid_scope ];
  })

-- `ChDir::construct` of src/sudoers/tokens.rs, `none` for an error. A path has no null byte.
unfoldable pub construct_ch_dir : Text → Option ChDir
construct_ch_dir s =
    if text_eq s (codes "*")
    then some any_dir
    else if any (λ c. c == b'*') s
    then none
    else if any (λ c. c == 0) s
    then none
    else some (path s)

unfoldable pub dir_change : Option ChDir → Option Text → DirChange
unfolding construct_ch_dir
dir_change cwd runcwd =
    let default = runcwd >>= construct_ch_dir in
    elim (elim cwd as (λ _. Option ChDir) [ some d ↦ some d | none ↦ default ]) [
      | none ↦ strict none
      | some any_dir ↦ any_change
      | some (path p) ↦ strict (some p)
    ]

unfoldable pub to_umask : Settings → Option Umask
to_umask s = do
  mask ← try_into 32 s.umask
  some (if mask == 0o777 then preserve else if s.umask_override then override mask else extend mask)

unfoldable pub restrictions : Settings → Tag → Option Restrictions
unfolding dir_change to_umask
restrictions s t = do
  umask ← to_umask s
  some (record {
    use_pty = s.use_pty;
    trust_environment = elim t.env [
      | EnvironmentControl.implicit ↦ s.setenv
      | EnvironmentControl.setenv ↦ true
      | EnvironmentControl.nosetenv ↦ false
    ];
    noexec = elim t.noexec [
      | ExecControl.implicit ↦ s.noexec
      | ExecControl.exec ↦ false
      | ExecControl.noexec ↦ true
    ];
    env_keep = s.env_keep;
    env_check = s.env_check;
    chdir = dir_change t.cwd s.runcwd;
    path = s.secure_path;
    umask = umask;
    log = if s.log_allowed then auth else disabled;
  })

unfoldable pub authorization : Judgement → Option (Authorization Restrictions)
unfolding restrictions to_auth
authorization j = elim j.flags [
  | none ↦ some forbidden
  | some t ↦ do a ← to_auth j.settings t; r ← restrictions j.settings t; some (allowed a r)
]
