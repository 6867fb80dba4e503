-- ===== src/OAuth/Authorization.antt =====
-- src/oauth/services/authorization.rs: the authorization endpoint.
pub mod Prompt
pub mod Request
pub mod Validation
pub mod Decision
pub mod SignInLoop
