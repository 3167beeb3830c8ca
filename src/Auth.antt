-- ===== src/Auth.antt =====
-- app/services/auth, app/services/verify and app/core/dependencies.py: tokens, who the caller is, the
-- gates of the routes, and the account actions.
pub mod Token
pub mod CurrentUser
pub mod Gates
pub mod Session
pub mod Rotation
pub mod Deactivation
pub mod Account
pub mod GoogleOauth
