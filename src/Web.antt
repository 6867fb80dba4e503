-- ===== src/Web.antt =====
-- The browser and HTTP side: requests and responses, cookies, the CSRF check, and the controllers.
pub mod Http
pub mod Cookies
pub mod Csrf
pub mod SignedIn
pub mod Accounts
pub mod Authorize
pub mod Portal
pub mod Endpoints
