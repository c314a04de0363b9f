-- ===== src/Zmodem.antt =====
-- The ZMODEM file transfer: internal/serialcmd/zmodem_proto.go, zmodem_link.go and zmodem.go.
pub mod Crc
pub mod Header
pub mod Escape
pub mod Encode
pub mod HexRoundTrip
pub mod Unescape
pub mod Scan
pub mod EscapeRoundTrip
pub mod ScanRoundTrip
pub mod ScanBounds
pub mod DeviceText
pub mod Link
pub mod LinkFrames
pub mod LinkWrite
pub mod LinkRead
pub mod DleRoundTrip
pub mod Subpacket
