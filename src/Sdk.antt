-- ===== src/Sdk.antt =====
-- The SDK (src/ya_license_sdk): statuses, and the client of the service (sdk/client.h).
pub mod Status
pub mod Steps
pub mod Client
pub mod LocalAuthorizer
