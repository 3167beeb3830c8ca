-- ===== src/Security.antt =====
-- app/core/security: validation and sanitising of input.
pub mod Identifier
pub mod Validation
pub mod Data
