-- ===== src/Auth.antt =====
-- internal/auth: the credentials of the public API.
pub mod Key
pub mod Store
