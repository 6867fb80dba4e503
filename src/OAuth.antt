-- ===== src/OAuth.antt =====
-- src/oauth: the authorization, token and revocation endpoints and what they share.
pub mod Params
pub mod Pkce
pub mod Client
pub mod Token
pub mod Consent
pub mod Authorization
