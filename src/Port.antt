-- ===== src/Port.antt =====
-- Who may use the serial port of a session: the transfer claim of
-- internal/serialcmd/transfer_claim.go and the port lease of portlease.go.
pub mod Claim
pub mod ClaimHeld
pub mod Request
pub mod RequestBytes
pub mod Lease
pub mod LeaseSystem
pub mod LeasePhases
pub mod LeaseHeld
pub mod LeaseLent
pub mod LeaseHandles
