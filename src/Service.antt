-- ===== src/Service.antt =====
-- The service (src/ya_license_service).
pub mod ServiceError
pub mod Connection
pub mod Config
pub mod KeyStore
pub mod Loop
pub mod Running
pub mod Creation
