-- ===== src/Tests.antt =====
-- Concrete runs of the definitions, and the theorems at concrete inputs, by component.
mod Frames
mod Texts
mod Ports
mod Transfers
mod Workers
mod Shells
mod Files
