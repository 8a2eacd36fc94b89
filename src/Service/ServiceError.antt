-- ===== src/Service/ServiceError.antt =====
-- `ServiceError` (service/service.h); a result without an error carries its value.
pub data ServiceError : Type 0 where
  config keys license_file machine_identity invalid_license listen transport : ServiceError
