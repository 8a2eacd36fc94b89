-- ===== src/Protocol.antt =====
-- The wire protocol (src/ya_license_protocol).
pub mod Frame
pub mod Record
pub mod Envelope
pub mod AuthorizationError
pub mod AuthorizationState
pub mod Messages
pub mod Handshake
