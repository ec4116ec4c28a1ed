-- ===== src/Exec/Backchannel.antt =====
-- src/exec/use_pty/backchannel.rs and src/common/bin_serde.rs: the messages between the parent and
-- the monitor, and their bytes. The socket is a queue of bytes. The data of a message is a 32-bit
-- integer with a sign. `none` is a prefix that no message has, where the source panics, or bytes
-- that are missing.
pub mod Stream
mod Tests
use sudo_rs.Prelude.{
  ℕ, zero, suc, ◌+◌, ◌^◌, Bool, true, false, Option, none, some, List, [], ◌∷◌, ◌++◌,
}
use sudo_rs.Prelude.Tests.{if◌then◌else◌, ◌==◌, ◌>>=◌}
use sudo_rs.Prelude.Text.{Text}
use sudo_rs.Prelude.Int.{ℤ, pos, to_bits, from_bits}
use sudo_rs.Prelude.Bytes.{to_ne_bytes, from_ne_bytes, read_exact}

pub data CommandStatus : Type 0 where
  exit : ℤ → CommandStatus
  term : ℤ → CommandStatus
  stop : ℤ → CommandStatus

pub data ParentMessage : Type 0 where
  io_error : ℤ → ParentMessage
  command_status : CommandStatus → ParentMessage
  command_pid : ℤ → ParentMessage
  short_read : ParentMessage

pub data MonitorMessage : Type 0 where
  edge : MonitorMessage
  signal : ℤ → MonitorMessage

abbrev pub c_int_half : ℕ
c_int_half = 2 ^ 31

-- One byte of prefix, and the data.
abbrev pub message_len : ℕ
message_len = 1 + 4

-- `DeSerialize`, as both messages implement it: by a prefix and the data.
pub record Serial (M : Type 0) : Type 0 where
  pub to_parts : M → ℕ × ℤ
  pub from_parts : ℕ → ℤ → Option M

abbrev pub parent_to_parts : ParentMessage → ℕ × ℤ
parent_to_parts (io_error value) = (0, value)
parent_to_parts (command_status (exit value)) = (1, value)
parent_to_parts (command_status (term value)) = (2, value)
parent_to_parts (command_status (stop value)) = (3, value)
parent_to_parts (command_pid value) = (4, value)
parent_to_parts short_read = (5, pos 0)

abbrev pub parent_from_parts : ℕ → ℤ → Option ParentMessage
parent_from_parts prefix value =
    if prefix == 0
    then some (io_error value)
    else if prefix == 1
    then some (command_status (exit value))
    else if prefix == 2
    then some (command_status (term value))
    else if prefix == 3
    then some (command_status (stop value))
    else if prefix == 4
    then some (command_pid value)
    else if prefix == 5
    then some short_read
    else none

abbrev pub monitor_to_parts : MonitorMessage → ℕ × ℤ
monitor_to_parts edge = (0, pos 0)
monitor_to_parts (signal value) = (1, value)

abbrev pub monitor_from_parts : ℕ → ℤ → Option MonitorMessage
monitor_from_parts prefix value =
    if prefix == 0 then some edge else if prefix == 1 then some (signal value) else none

abbrev pub parent_serial : Serial ParentMessage
parent_serial = record { to_parts = parent_to_parts; from_parts = parent_from_parts }

abbrev pub monitor_serial : Serial MonitorMessage
monitor_serial = record { to_parts = monitor_to_parts; from_parts = monitor_from_parts }

module _ (big_endian : Bool) {M : Type 0} (s : Serial M) where
  unfoldable pub serialize : M → Text
  serialize message =
      let (prefix, value) = s.to_parts message in
      to_ne_bytes big_endian 1 prefix ++ to_ne_bytes big_endian 4 (to_bits c_int_half value)

  unfoldable pub deserialize : Text → Option M
  deserialize buf = do
    (prefix_buf, data_buf) ← read_exact 1 buf
    s.from_parts (from_ne_bytes big_endian prefix_buf)
        (from_bits c_int_half (from_ne_bytes big_endian data_buf))

  -- `BinPipe::write` and `BinPipe::read`
  unfoldable pub write : M → Text → Text
  write message queue = queue ++ serialize message

  unfoldable pub read : Text → Option (M × Text)
  read queue = do
    (bytes, queue') ← read_exact message_len queue
    message ← deserialize bytes
    some (message, queue')

  unfoldable pub write_messages : List M → Text → Text
  write_messages [] queue = queue
  write_messages (message ∷ messages) queue = write_messages messages (write message queue)

  unfoldable pub read_messages : ℕ → Text → Option (List M × Text)
  read_messages zero queue = some ([], queue)
  read_messages (suc n) queue = do
    (message, queue') ← read queue
    (messages, queue'') ← read_messages n queue'
    some (message ∷ messages, queue'')
