-- ===== src/Session/Tests.antt =====
-- src/system/timestamp.rs: the session records at concrete inputs.
use sudo_rs.Prelude.{ℕ, ◌<◌, ◌^◌, true, false, ◌&&◌, some, List, [], ◌∷◌, arith}
use sudo_rs.Prelude.{◌≡◌, refl}
use sudo_rs.Prelude.Tests.{◌==◌, lt→ltb}
use sudo_rs.Prelude.Lists.{All}
use sudo_rs.Prelude.Int.{pos, negsuc, to_bits, ◌+ℤ◌, ◌-ℤ◌, wrap}
use sudo_rs.Prelude.Bytes.{read_exact, from_le_bytes, to_le_bytes, to_ne_bytes}
use sudo_rs.Session.Time.{
  encode_time, SystemTime, Duration, checked_sub, new_time, time_le, time_eq,
}
use sudo_rs.Session.Time.Codec.{IsNormal}
use sudo_rs.Session.Record.{
  RecordScope, tty, ppid, SessionRecord, scope_eq, encode_scope, encode_record, from_bytes,
}
use sudo_rs.Session.Record.Codec.{IsScope, IsRecord, from_bytes-encode_record}
use sudo_rs.Session.Store.{
  scan, next_record, read_record, read_file, write_all, File, returned, open_file,
}
use sudo_rs.Session.Store.Layout.{file_bytes}
use sudo_rs.Session.Store.Header.{opened, open_file-opened}
use sudo_rs.Session.Operations.{create_new, write_record, updated, not_found, touch, create}
use sudo_rs.Session.Run.{
  Operation, opening, touching, creating, disabling, resetting, run, runs, perform,
}
use sudo_rs.Session.Run.Simulation.{run_lem}
use sudo_rs.Session.Run.Total.{is_finished, perform_finished}
use sudo_rs.Session.Safety.{touch-run_disabled, touch-run_reset}
use sudo_rs.Session.Safety.Found.{touch-create}

abbrev at_second : ℕ → SystemTime
at_second n = record { secs = pos n; nsecs = pos 0 }

abbrev at_second-IsNormal : (n : ℕ) → n < 2 ^ 63 → IsNormal (at_second n)
at_second-IsNormal n h = record {
  nanos = 0;
  secs = lt→ltb n (2 ^ 63) h;
  nsecs = refl;
  below = omega arith;
}

abbrev terminal : RecordScope
terminal = tty 34_816 (pos 4_711) (at_second 50)

abbrev shell : RecordScope
shell = ppid (pos 4_711) (pos 4_700) (at_second 40)

abbrev first_record : SessionRecord
first_record = record {
  scope = terminal;
  auth_user = 1_000;
  timestamp = at_second 100;
  enabled = true;
}

abbrev second_record : SessionRecord
second_record = record {
  scope = shell;
  auth_user = 1_000;
  timestamp = at_second 130;
  enabled = true;
}

terminal-IsScope : IsScope terminal
terminal-IsScope = (omega arith, refl, at_second-IsNormal 50 (omega arith))

shell-IsScope : IsScope shell
shell-IsScope = (refl, refl, at_second-IsNormal 40 (omega arith))

first_record-IsRecord : IsRecord first_record
first_record-IsRecord = record {
  scope = terminal-IsScope;
  auth_user = omega arith;
  timestamp = at_second-IsNormal 100 (omega arith);
}

second_record-IsRecord : IsRecord second_record
second_record-IsRecord = record {
  scope = shell-IsScope;
  auth_user = omega arith;
  timestamp = at_second-IsNormal 130 (omega arith);
}

abbrev records : List SessionRecord
records = first_record ∷ second_record ∷ []

records-IsRecord : All IsRecord records
records-IsRecord = (first_record-IsRecord, (second_record-IsRecord, tt))

abbrev two_records : File
two_records = record { bytes = file_bytes false records; position = 0 }

abbrev five_minutes : Duration
five_minutes = record { secs = 300; subsec_nanos = 0 }

from_bytes-encode_record_example :
    from_bytes false (encode_record false first_record) ≡ some first_record
from_bytes-encode_record_example = from_bytes-encode_record false first_record first_record-IsRecord

abbrev history : List Operation
history =
    opening
    ∷ disabling shell
    ∷ creating (at_second 140) terminal 1_000
    ∷ touching (at_second 150) (at_second 151) five_minutes terminal 1_000
    ∷ []

run_lem_example :
    (((run false history two_records).0.bytes ≡ file_bytes false (runs history records).0)
      × ((run false history two_records).1 ≡ (runs history records).1))
    × All IsRecord (runs history records).0
run_lem_example = run_lem false history records two_records refl records-IsRecord (
  tt,
  (
    tt,
    (
      (at_second-IsNormal 140 (omega arith), terminal-IsScope, omega arith),
      (at_second-IsNormal 151 (omega arith), tt),
    ),
  ),
)

scopes_differ : scope_eq terminal shell ≡ false
unfolding scope_eq
scopes_differ = refl

users_differ : (scope_eq terminal terminal && (1_000 == 1_001)) ≡ false
unfolding scope_eq time_eq
users_differ = refl

abbrev early : SystemTime
early = record { secs = negsuc 99; nsecs = pos 0 }

early_second : checked_sub (at_second 200) five_minutes ≡ some early
unfolding checked_sub new_time ◌+ℤ◌ ◌-ℤ◌ wrap
early_second = refl

early_first : time_le early (at_second 140) ≡ true
unfolding time_le
early_first = refl

created_before : time_le (at_second 140) (at_second 200) ≡ true
unfolding time_le
created_before = refl

touch-run_disabled_example :
    (touch false
      (at_second 150)
      (at_second 151)
      five_minutes
      shell
      1_000
      (run false
        (disabling shell ∷ opening ∷ creating (at_second 140) terminal 1_000 ∷ [])
        two_records).0).1
    ≡ returned not_found
touch-run_disabled_example =
    touch-run_disabled false (at_second 150) (at_second 151) five_minutes shell 1_000
      (opening ∷ creating (at_second 140) terminal 1_000 ∷ []) records two_records refl
      records-IsRecord
      (tt, ((at_second-IsNormal 140 (omega arith), terminal-IsScope, omega arith), tt))
      (tt, (scopes_differ, tt))

touch-run_reset_example :
    (touch false
      (at_second 150)
      (at_second 151)
      five_minutes
      terminal
      1_001
      (run false (resetting ∷ creating (at_second 140) terminal 1_000 ∷ []) two_records).0).1
    ≡ returned not_found
touch-run_reset_example =
    touch-run_reset false (at_second 150) (at_second 151) five_minutes terminal 1_001
      (creating (at_second 140) terminal 1_000 ∷ []) two_records
      ((at_second-IsNormal 140 (omega arith), terminal-IsScope, omega arith), tt) (users_differ, tt)

touch-create_example :
    (touch true
      (at_second 200)
      (at_second 201)
      five_minutes
      terminal
      1_000
      (create true
        (at_second 140)
        terminal
        1_000
        (record { bytes = file_bytes true records; position = 0 })).0).1
    ≡ returned (updated (at_second 140) (at_second 201))
touch-create_example =
    touch-create (at_second 200) (at_second 140) (at_second 201) five_minutes terminal 1_000 early
      true records (record { bytes = file_bytes true records; position = 0 }) refl records-IsRecord
      (at_second-IsNormal 140 (omega arith), terminal-IsScope, omega arith) early_second early_first
      created_before

open_file-opened_example :
    open_file (record { bytes = 208 ∷ 80 ∷ 1 ∷ 0 ∷ 7 ∷ []; position = 0 })
    ≡ opened (208 ∷ 80 ∷ 1 ∷ 0 ∷ 7 ∷ [])
open_file-opened_example =
    open_file-opened (208 ∷ 80 ∷ 1 ∷ 0 ∷ 7 ∷ [])
      (omega arith, (omega arith, (omega arith, (omega arith, (omega arith, tt)))))

perform_finished_example :
    is_finished
      (perform false
        (disabling shell)
        (record { bytes = 208 ∷ 80 ∷ 2 ∷ 0 ∷ 3 ∷ 0 ∷ 9 ∷ []; position = 1 })).1
    ≡ true
perform_finished_example =
    perform_finished false (disabling shell)
      (record { bytes = 208 ∷ 80 ∷ 2 ∷ 0 ∷ 3 ∷ 0 ∷ 9 ∷ []; position = 1 })

-- A file that ends with a stray byte after its header: the record that is created is not found.
abbrev stray_byte : File
stray_byte = record { bytes = 208 ∷ 80 ∷ 2 ∷ 0 ∷ 7 ∷ []; position = 0 }

stray_byte_test :
    (touch false
      (at_second 200)
      (at_second 201)
      five_minutes
      terminal
      1_000
      (create false (at_second 140) terminal 1_000 stray_byte).0).1
    ≡ returned not_found
unfolding touch create scan next_record read_record read_file read_exact from_le_bytes to_le_bytes
    create_new write_record write_all encode_record encode_scope encode_time to_ne_bytes to_bits
stray_byte_test = refl
