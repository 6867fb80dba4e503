-- ===== src/Authentication.antt =====
-- src/authentication/services: accounts and browser sessions.
pub mod Account
pub mod Browser
