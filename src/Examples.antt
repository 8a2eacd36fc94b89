-- ===== src/Examples.antt =====
-- Concrete instances of the parameters, and runs of the program on them.
pub mod Ciphers
pub mod Buffers
pub mod Frames
pub mod Transcripts
pub mod Records
pub mod Sessions
pub mod Ciphertexts
pub mod Messages
pub mod Licenses
pub mod Handshakes
pub mod Connections
pub mod Machines
pub mod Issuing
pub mod Transports
pub mod Configurations
pub mod Services
pub mod Clients
pub mod Initialized
