-- ===== src/Exec/Backchannel/Stream.antt =====
-- src/exec/use_pty/backchannel.rs: messages that are written and read in order.
use sudo_rs.Prelude.{◌+◌, ◌<◌, Bool, true, some, List, [], ◌∷◌, ◌++◌, arith}
use sudo_rs.Prelude.{◌≡◌, refl, sym, ap, ◌∙◌, append_assoc, append-nil}
use sudo_rs.Prelude.Lists.{length, All, length-append}
use sudo_rs.Prelude.Text.{Text}
use sudo_rs.Prelude.Int.{fits, to_bits, from_bits-to_bits, to_bits-lt}
use sudo_rs.Prelude.Bytes.{
  to_ne_bytes, capacity_of, length-to_ne_bytes, from_ne_bytes-to_ne_bytes, read_exact-all,
}
use sudo_rs.Exec.Backchannel.{
  exit, term, stop, ParentMessage, io_error, command_status, command_pid, short_read,
  MonitorMessage, edge, signal, c_int_half, message_len, Serial, parent_to_parts, parent_from_parts,
  monitor_to_parts, monitor_from_parts, parent_serial, monitor_serial, serialize, deserialize,
  write, read, write_messages, read_messages,
}

capacity_of-one : capacity_of 1 ≡ 256
unfolding capacity_of
capacity_of-one = refl

capacity_of-four : capacity_of 4 ≡ c_int_half + c_int_half
unfolding capacity_of
capacity_of-four = refl

-- The data fits its type.
abbrev pub Sendable : {M : Type 0} → Serial M → M → Type 0
Sendable s message = fits c_int_half (s.to_parts message).1 ≡ true

-- What both kinds of messages keep.
record IsSerial {M : Type 0} (s : Serial M) : Type 0 where
  prefix : (message : M) → (s.to_parts message).0 < 256
  parts : (message : M) → s.from_parts (s.to_parts message).0 (s.to_parts message).1 ≡ some message

parent_to_parts-lt : (m : ParentMessage) → (parent_to_parts m).0 < 256
parent_to_parts-lt (io_error d) = omega arith
parent_to_parts-lt (command_status (exit d)) = omega arith
parent_to_parts-lt (command_status (term d)) = omega arith
parent_to_parts-lt (command_status (stop d)) = omega arith
parent_to_parts-lt (command_pid d) = omega arith
parent_to_parts-lt short_read = omega arith

parent_from_parts-to_parts :
    (m : ParentMessage) → parent_from_parts (parent_to_parts m).0 (parent_to_parts m).1 ≡ some m
parent_from_parts-to_parts (io_error d) = refl
parent_from_parts-to_parts (command_status (exit d)) = refl
parent_from_parts-to_parts (command_status (term d)) = refl
parent_from_parts-to_parts (command_status (stop d)) = refl
parent_from_parts-to_parts (command_pid d) = refl
parent_from_parts-to_parts short_read = refl

parent_serial-IsSerial : IsSerial parent_serial
parent_serial-IsSerial = record { prefix = parent_to_parts-lt; parts = parent_from_parts-to_parts }

monitor_to_parts-lt : (m : MonitorMessage) → (monitor_to_parts m).0 < 256
monitor_to_parts-lt edge = omega arith
monitor_to_parts-lt (signal d) = omega arith

monitor_from_parts-to_parts :
    (m : MonitorMessage) → monitor_from_parts (monitor_to_parts m).0 (monitor_to_parts m).1 ≡ some m
monitor_from_parts-to_parts edge = refl
monitor_from_parts-to_parts (signal d) = refl

monitor_serial-IsSerial : IsSerial monitor_serial
monitor_serial-IsSerial = record {
  prefix = monitor_to_parts-lt;
  parts = monitor_from_parts-to_parts;
}

module _ (e : Bool) {M : Type 0} (s : Serial M) (law : IsSerial s) where
  length-serialize : (message : M) → length (serialize e s message) ≡ message_len
  unfolding serialize
  length-serialize message =
      let (prefix, value) = s.to_parts message in
      omega (
        arith,
        length-append (to_ne_bytes e 1 prefix) (to_ne_bytes e 4 (to_bits c_int_half value)),
        length-to_ne_bytes e 1 prefix,
        length-to_ne_bytes e 4 (to_bits c_int_half value),
      )

  deserialize-serialize :
      (message : M) → Sendable s message → deserialize e s (serialize e s message) ≡ some message
  unfolding serialize deserialize
  deserialize-serialize message f =
      let prefix = (s.to_parts message).0 in
      let value = (s.to_parts message).1 in
      let r =
        read_exact-all 1 (to_ne_bytes e 1 prefix) (to_ne_bytes e 4 (to_bits c_int_half value))
          (length-to_ne_bytes e 1 prefix) in
      let p = from_ne_bytes-to_ne_bytes e 1 prefix (rw capacity_of-one (law.prefix message)) in
      let q =
        from_ne_bytes-to_ne_bytes e 4 (to_bits c_int_half value)
          (rw capacity_of-four (to_bits-lt c_int_half value f)) in
      rw (r, p, q, from_bits-to_bits c_int_half value f) (law.parts message)

  read-serialize :
      (message : M) (queue : Text)
      → Sendable s message
      → read e s (serialize e s message ++ queue) ≡ some (message, queue)
  unfolding read
  read-serialize message queue f =
      rw
        (
          read_exact-all message_len (serialize e s message) queue (length-serialize message),
          deserialize-serialize message f,
        )
        refl

  -- The bytes of messages one after the other.
  stream : List M → Text
  stream [] = []
  stream (message ∷ messages) = serialize e s message ++ stream messages

  write_messages-stream :
      (messages : List M) (queue : Text)
      → write_messages e s messages queue ≡ queue ++ stream messages
  unfolding write_messages write stream
  write_messages-stream [] queue = sym (append-nil queue)
  write_messages-stream (message ∷ messages) queue =
      write_messages-stream messages (queue ++ serialize e s message)
      ∙ append_assoc queue (serialize e s message) (stream messages)

  read_messages-stream :
      (messages : List M)
      → All (Sendable s) messages
      → read_messages e s (length messages) (stream messages) ≡ some (messages, [])
  unfolding read_messages stream
  read_messages-stream [] f = refl
  read_messages-stream (message ∷ messages) f =
      rw (read-serialize message (stream messages) f.0, read_messages-stream messages f.1) refl

  read_messages-write_messages :
      (messages : List M)
      → All (Sendable s) messages
      → read_messages e s (length messages) (write_messages e s messages []) ≡ some (messages, [])
  read_messages-write_messages messages f =
      ap (read_messages e s (length messages)) (write_messages-stream messages [])
      ∙ read_messages-stream messages f

-- In both directions, as many messages as were written to an empty pipe are read as they were
-- written, in the same order, and use up its bytes, if their data fits 32 bits.
pub backchannel_lem :
    (e : Bool) (ps : List ParentMessage) (ms : List MonitorMessage)
    → All (Sendable parent_serial) ps
    → All (Sendable monitor_serial) ms
    → (read_messages e parent_serial (length ps) (write_messages e parent_serial ps [])
        ≡ some (ps, []))
      × (read_messages e monitor_serial (length ms) (write_messages e monitor_serial ms [])
          ≡ some (ms, []))
backchannel_lem e ps ms f g = (
  read_messages-write_messages e parent_serial parent_serial-IsSerial ps f,
  read_messages-write_messages e monitor_serial monitor_serial-IsSerial ms g,
)
