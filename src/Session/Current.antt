-- ===== src/Session/Current.antt =====
-- src/system/timestamp.rs: the scope of the records of the current process. What the system says of
-- processes is a parameter; `none` is an error.
use sudo_rs.Prelude.{ℕ, Option, none, some}
use sudo_rs.Prelude.Int.{ℤ}
use sudo_rs.Session.Time.{SystemTime}
use sudo_rs.Session.Record.{RecordScope, tty, ppid}

pub record Process : Type 0 where
  pub parent_pid : Option ℤ
  pub session_id : ℤ

module _ (starting_time : ℤ → Option SystemTime) (process : Process) where
  unfoldable pub for_ppid : Option RecordScope
  for_ppid = elim process.parent_pid [
    | none ↦ none
    | some parent_pid ↦ elim (starting_time parent_pid) [
      | none ↦ none
      | some init_time ↦ some (ppid parent_pid process.session_id init_time)
    ]
  ]

  -- `Process::tty_device_id` gives an error, no terminal, or the device.
  unfoldable pub for_tty : Option (Option ℕ) → Option RecordScope
  for_tty (some (some tty_device)) = elim (starting_time process.session_id) [
    | none ↦ none
    | some init_time ↦ some (tty tty_device process.session_id init_time)
  ]
  for_tty (some none) = for_ppid
  for_tty none = for_ppid
