-- ===== src/Env/Tests.antt =====
-- Runs of the environment code, and instances of the theorems about it.
use sudo_rs.Prelude.{true, false, not, ◌&&◌, none, some, List, [], ◌∷◌, ◌++◌}
use sudo_rs.Prelude.{◌≡◌, ◌≢◌, ◌<◌, refl, ◌↔◌}
use sudo_rs.Prelude.Lists.{length}
use sudo_rs.Prelude.Text.{Text, codes, text_eq, starts_with, lookup, insert}
use sudo_rs.Accounts.{User}
use sudo_rs.Sudoers.FindItem.{is_some}
use sudo_rs.Sudoers.Policy.{Restrictions, strict, Umask, Logging}
use sudo_rs.Env.Wildcard.{wildcard_match}
use sudo_rs.Env.Wildcard.Correct.{Matches, wildcard_match_iff}
use sudo_rs.Env.Keep.{
  is_printable, path_max, colon_less, in_zoneinfo, is_safe_tz, in_table, should_keep,
}
use sudo_rs.Env.Keep.Safe.{IsSafe, should_keep-IsSafe, is_safe_tz-bounds}
use sudo_rs.Env.Target.{Environment, Context, direct, ok, get_target_environment}
use sudo_rs.Env.Target.Origin.{Origin}

abbrev limits : Restrictions
limits = record {
  use_pty = true;
  trust_environment = false;
  noexec = false;
  env_keep = codes "DISPLAY" ∷ codes "COLORS" ∷ [];
  env_check = codes "LC_*" ∷ codes "TZ" ∷ [];
  chdir = strict none;
  path = some (codes "/sbin");
  umask = Umask.preserve;
  log = Logging.auth;
}

abbrev alice : User
alice = record {
  uid = 1000;
  gid = 100;
  name = codes "alice";
  home = codes "/home/alice";
  shell = codes "/bin/sh";
  groups = 100 ∷ [];
}

abbrev root : User
root = record {
  uid = 0;
  gid = 0;
  name = codes "root";
  home = codes "/root";
  shell = codes "/bin/sh";
  groups = 0 ∷ [];
}

abbrev context : Context
context = record {
  launch = direct;
  command = codes "/bin/ls";
  arguments = codes "-l" ∷ [];
  current_user = alice;
  target_user = root;
}

-- The two variables are kept, and dropped.
abbrev current : List (Text × Text)
current = (codes "DISPLAY", codes ":0") ∷ (codes "LD_PRELOAD", codes "/x") ∷ []

abbrev from_user : List (Text × Text)
from_user = (codes "COLORS", codes "1") ∷ []

abbrev final : Environment
final =
    (codes "COLORS", codes "1")
    ∷ (codes "TERM", codes "unknown")
    ∷ (codes "PATH", codes "/sbin")
    ∷ (codes "USER", codes "root")
    ∷ (codes "LOGNAME", codes "root")
    ∷ (codes "HOME", codes "/root")
    ∷ (codes "SHELL", codes "/bin/sh")
    ∷ (codes "SUDO_HOME", codes "/home/alice")
    ∷ (codes "SUDO_USER", codes "alice")
    ∷ (codes "SUDO_GID", codes "100")
    ∷ (codes "SUDO_UID", codes "1000")
    ∷ (codes "SUDO_COMMAND", codes "/bin/ls -l")
    ∷ (codes "DISPLAY", codes ":0")
    ∷ []

run : get_target_environment none limits current [] from_user context ≡ ok final
unfolding get_target_environment should_keep starts_with text_eq in_table wildcard_match insert
    lookup
run = refl

wildcard_match_iff_example :
    (wildcard_match (codes "LC_TIME") (codes "LC_*") ≡ true)
    ↔ Matches (codes "LC_*") (codes "LC_TIME")
wildcard_match_iff_example = wildcard_match_iff (codes "LC_TIME") (codes "LC_*")

keep_display : should_keep none limits (codes "DISPLAY") (codes ":0") ≡ true
unfolding should_keep starts_with text_eq in_table wildcard_match
keep_display = refl

should_keep-IsSafe_example :
    (starts_with (codes ":0") (codes "()") ≡ false)
    × ((is_some limits.path && text_eq (codes "DISPLAY") (codes "PATH")) ≡ false)
    × IsSafe none limits (codes "DISPLAY") (codes ":0")
should_keep-IsSafe_example =
    should_keep-IsSafe none limits (codes "DISPLAY") (codes ":0") keep_display

safe_amsterdam : is_safe_tz none (codes ":Europe/Amsterdam") ≡ true
unfolding is_safe_tz starts_with text_eq
safe_amsterdam = refl

is_safe_tz-bounds_example :
    ((before after : Text)
      → colon_less (codes ":Europe/Amsterdam") ≢ before ++ (codes ".." ++ after))
    × (is_printable (colon_less (codes ":Europe/Amsterdam")) ≡ true)
    × (length (colon_less (codes ":Europe/Amsterdam")) < path_max)
    × ((starts_with (colon_less (codes ":Europe/Amsterdam")) (codes "/")
          && not (in_zoneinfo none (colon_less (codes ":Europe/Amsterdam"))))
        ≡ false)
is_safe_tz-bounds_example = is_safe_tz-bounds none (codes ":Europe/Amsterdam") safe_amsterdam
