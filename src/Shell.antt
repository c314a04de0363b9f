-- ===== src/Shell.antt =====
-- The shell's part in a transfer: internal/serialcmd/zmodem_shell.go.
pub mod Detector
pub mod DetectorPads
pub mod DetectorChunks
pub mod DetectorFeed
pub mod Gate
pub mod GateKeys
