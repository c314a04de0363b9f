-- ===== src/Transfer.antt =====
-- One file of a ZMODEM session over the link: internal/serialcmd/zmodem.go.
pub mod Frames
pub mod Receive
pub mod ReceiveSafe
pub mod ReceiveWhole
pub mod Send
pub mod Stream
pub mod SendReady
pub mod SendWaits
pub mod SendHonest
pub mod Delivery
pub mod Quiet
pub mod QuietSteps
pub mod QuietSend
pub mod Names
pub mod NamesSafe
pub mod Disk
pub mod DiskRemove
pub mod DiskFree
pub mod Decide
pub mod DecideSafe
pub mod DecidePolicy
pub mod Options
pub mod OptionsBounds
pub mod ReceiveFile
pub mod DiskEntries
pub mod ReceiveFileSafe
pub mod ReceiveFolders
pub mod ReceiveResume
pub mod ReceiveFileWhole
