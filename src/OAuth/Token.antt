-- ===== src/OAuth/Token.antt =====
-- src/oauth/services/token.rs and revocation.rs: `Response` has what both grants share, `Code` the
-- exchange of authorization codes, `Rotation` that of refresh tokens, `Endpoint` the handlers.
pub mod Response
pub mod Code
pub mod Rotation
pub mod Endpoint
