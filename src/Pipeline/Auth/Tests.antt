-- ===== src/Pipeline/Auth/Tests.antt =====
-- src/sudo/pam.rs and src/sudo/pipeline.rs: authentications at concrete inputs.
use sudo_rs.Prelude.{ℕ, ◌+◌, ◌<◌, ◌^◌, true, false, Option, none, some, [], arith}
use sudo_rs.Prelude.{◌≡◌, refl}
use sudo_rs.Prelude.Tests.{if◌then◌else◌, ◌==◌, lt→ltb}
use sudo_rs.Prelude.Text.{codes, text_eq}
use sudo_rs.Prelude.Bytes.{read_exact, to_le_bytes, from_le_bytes}
use sudo_rs.Prelude.Int.{pos, negsuc, wrap, ◌+ℤ◌, ◌-ℤ◌}
use sudo_rs.Accounts.{User}
use sudo_rs.Sudoers.Policy.{Authentication, invoking_user, ppid_scope}
use sudo_rs.Resolve.{ok, Database}
use sudo_rs.Session.Time.{SystemTime, checked_sub, new_time, time_le}
use sudo_rs.Session.Time.Codec.{IsNormal}
use sudo_rs.Session.Record.{RecordScope, ppid}
use sudo_rs.Session.Record.Codec.{IsScope}
use sudo_rs.Session.Operations.{touch, not_found}
use sudo_rs.Session.Store.{File, returned, scan, open_file, expect, read_file, next_record}
use sudo_rs.Session.Store.Layout.{file_bytes, frames}
use sudo_rs.Session.Current.{for_ppid}
use sudo_rs.Pam.{
  auth_error, pam_ok, Library, authenticate, same_user, validate_account,
  validate_account_or_change_auth_token,
}
use sudo_rs.Pipeline.Attempts.{attempt_authenticate, attempt_from}
use sudo_rs.Pipeline.Attempts.Bounded.{Decided, attempt_authenticate-Decided}
use sudo_rs.Pipeline.Auth.{
  Machine, AuthContext, validity_of, granted, finish, auth_user_of, with_status,
  determine_auth_status, scope_of, status_of, log_in, auth_and_update_record_file,
}
use sudo_rs.Pipeline.Auth.Granted.{Reason, Checked, auth_and_update_record_file-Reason}
use sudo_rs.Pipeline.Auth.Remembered.{touch_result}
use sudo_rs.Pipeline.Auth.Again.{auth_and_update_record_file_again}

-- The first password is wrong, and every later one right; the state counts the attempts.
abbrev library : Library ℕ
library = record {
  pam_authenticate = λ n. ((if n == 0 then some auth_error else none), n + 1);
  set_mask = λ s. none;
  pam_acct_mgmt = λ n. (none, n);
  pam_chauthtok = λ n. (none, n);
  take_error = λ n. (none, n);
  get_user = λ n. pam_ok (codes "ferris");
}

abbrev ferris : User
ferris = record {
  uid = 1_000;
  gid = 1_000;
  name = codes "ferris";
  home = codes "/home/ferris";
  shell = codes "/bin/sh";
  groups = [];
}

abbrev at_second : ℕ → SystemTime
at_second n = record { secs = pos n; nsecs = pos 0 }

abbrev database : Database
database = record {
  user_from_name = λ n. ok (some ferris);
  user_from_uid = λ n. ok (some ferris);
  group_from_name = λ n. ok none;
  group_entry = λ n. ok none;
}

abbrev machine : ℕ → Machine ℕ
machine now = record {
  big_endian = false;
  library = library;
  init_pam = pam_ok 0;
  database = database;
  process = record { parent_pid = some (pos 700); session_id = pos 600 };
  tty_device_id = none;
  starting_time = λ p. some (at_second 20);
  touch_now = at_second now;
  touch_time = at_second now;
  create_time = at_second (now + 5);
}

abbrev context : AuthContext
context = record {
  use_session_records = true;
  non_interactive = false;
  current_user = ferris;
  target_user = ferris;
}

abbrev policy : Authentication
policy = record {
  must_authenticate = true;
  credential = invoking_user;
  allowed_attempts = 3;
  prior_validity = 900;
  pwfeedback = false;
  password_timeout = none;
  noninteractive_auth = false;
  scope = ppid_scope;
}

abbrev session : RecordScope
session = ppid (pos 700) (pos 600) (at_second 20)

abbrev no_records : File
no_records = record { bytes = file_bytes false []; position = 0 }

attempt_authenticate-Decided_example :
    Decided library
      (codes "ferris")
      false
      3
      0
      (attempt_authenticate library (codes "ferris") false 3 0)
attempt_authenticate-Decided_example =
    attempt_authenticate-Decided library (codes "ferris") false 3 0 (omega arith)

first_granted :
    (auth_and_update_record_file (machine 100) context policy (some no_records)).0 ≡ granted 2
unfolding auth_and_update_record_file auth_user_of with_status determine_auth_status scope_of
    for_ppid status_of touch scan open_file expect read_file read_exact file_bytes to_le_bytes
    from_le_bytes frames next_record authenticate same_user validate_account
    validate_account_or_change_auth_token attempt_authenticate attempt_from log_in text_eq
first_granted = refl

auth_and_update_record_file-Reason_example :
    Reason (machine 100) context policy (some no_records)
    × Checked (machine 100) context policy (some no_records) 2
auth_and_update_record_file-Reason_example =
    auth_and_update_record_file-Reason (machine 100) context policy (some no_records) 2
      first_granted

none_found :
    (touch_result (machine 100) context policy ferris session no_records).1 ≡ returned not_found
unfolding touch scan open_file expect read_file read_exact file_bytes to_le_bytes from_le_bytes
    frames next_record
none_found = refl

session_found : (now : ℕ) → scope_of (machine now) ppid_scope ≡ some session
unfolding scope_of for_ppid
session_found now = refl

ferris_found : auth_user_of database context invoking_user ≡ ok ferris
unfolding auth_user_of
ferris_found = refl

abbrev early : SystemTime
early = record { secs = negsuc 699; nsecs = pos 0 }

early_second : checked_sub (at_second 200) (validity_of policy) ≡ some early
unfolding checked_sub new_time ◌+ℤ◌ ◌-ℤ◌ wrap
early_second = refl

early_first : time_le early (at_second 105) ≡ true
unfolding time_le
early_first = refl

created_before : time_le (at_second 105) (at_second 200) ≡ true
unfolding time_le
created_before = refl

at_second-IsNormal : (n : ℕ) → n < 2 ^ 63 → IsNormal (at_second n)
at_second-IsNormal n h = record {
  nanos = 0;
  secs = lt→ltb n (2 ^ 63) h;
  nsecs = refl;
  below = omega arith;
}

session-IsScope : IsScope session
session-IsScope = (refl, refl, at_second-IsNormal 20 (omega arith))

auth_and_update_record_file_again_example :
    (disk : Option File) × (auth_and_update_record_file
        (machine 200)
        context
        policy
        (auth_and_update_record_file (machine 100) context policy (some no_records)).1
      ≡ finish (machine 200) 0 disk)
auth_and_update_record_file_again_example =
    auth_and_update_record_file_again (machine 100) (machine 200) context policy ferris session []
      no_records early 2 0 refl tt refl (at_second-IsNormal 100 (omega arith))
      (at_second-IsNormal 105 (omega arith), session-IsScope, omega arith) early_second early_first
      created_before refl refl ferris_found ferris_found (session_found 100) (session_found 200)
      refl none_found first_granted
