-- ===== src/Core.antt =====
-- The licensing core (src/ya_license_core): status codes, licences, sessions.
pub mod Status
pub mod License
pub mod Session
pub mod MachineIdentity
