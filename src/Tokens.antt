-- ===== src/Tokens.antt =====
-- src/token and src/oidc/services/id_token.rs: the tokens that the token endpoint hands out.
pub mod Access
pub mod Refresh
pub mod IdToken
