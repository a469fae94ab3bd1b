-- ===== src/Security.antt =====
-- security: the permissions of a Harness and its validators.
pub mod Permissions
pub mod Validator
