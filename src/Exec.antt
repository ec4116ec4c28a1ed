-- ===== src/Exec.antt =====
-- src/exec/: running the command.
pub mod RingBuffer
pub mod Backchannel
