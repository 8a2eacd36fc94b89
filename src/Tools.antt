-- ===== src/Tools.antt =====
-- The tools (src/tools).
pub mod Issuer
