-- ===== src/Exec/Backchannel/Tests.antt =====
-- src/exec/use_pty/backchannel.rs: messages at concrete inputs.
use sudo_rs.Prelude.{true, some, List, [], ◌∷◌}
use sudo_rs.Prelude.{◌≡◌, refl}
use sudo_rs.Prelude.Int.{pos, negsuc}
use sudo_rs.Exec.Backchannel.{
  ParentMessage, command_status, stop, command_pid, short_read, MonitorMessage, edge, signal,
  parent_serial, monitor_serial, write_messages, read_messages,
}
use sudo_rs.Exec.Backchannel.Stream.{backchannel_lem}

abbrev to_parent : List ParentMessage
to_parent = command_pid (pos 4_711) ∷ command_status (stop (pos 19)) ∷ short_read ∷ []

abbrev to_monitor : List MonitorMessage
to_monitor = edge ∷ signal (negsuc 1) ∷ []

backchannel_lem_example :
    (read_messages true parent_serial 3 (write_messages true parent_serial to_parent [])
      ≡ some (to_parent, []))
    × (read_messages true monitor_serial 2 (write_messages true monitor_serial to_monitor [])
        ≡ some (to_monitor, []))
backchannel_lem_example =
    backchannel_lem true to_parent to_monitor (refl, (refl, (refl, tt))) (refl, (refl, tt))
