-- ===== src/Text.antt =====
-- Payloads as the user writes and sees them: internal/serialcmd/payload.go, and the lines and
-- chunks of monitor.go, timed_chunks.go and txoverlay.go.
pub mod Payload
pub mod PayloadBounds
pub mod HexPayload
pub mod HexPayloadRoundTrip
pub mod Display
pub mod DisplayRoundTrip
pub mod Chunks
pub mod ChunksCover
pub mod ChunksWrite
pub mod LastLines
pub mod Monitor
pub mod MonitorOrder
pub mod Overlay
pub mod OverlayChunks
