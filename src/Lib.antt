-- ===== src/Lib.antt =====
-- sharp-oauth, an OAuth 2.0 authorization server and OpenID Connect provider, modelled from its
-- Rust services. A user signs in at the authorization endpoint and approves an app, which gets a
-- one-time code; the app redeems the code at the token endpoint for a signed access token, an ID
-- token and a refresh token, rotates the refresh token and may revoke it. With the access token it
-- reads the user's claims at the userinfo endpoint. A user registers apps in the developer portal.
--
-- Files. Prelude holds the library names, lists, texts and Boolean tests that all parts share.
-- Platform holds what the server takes from other crates, as a record of functions: hashing,
-- base64, URLs, Unicode, Argon2, JWT. Secret, Config, State and Error are src/shared/secret.rs,
-- src/config/mod.rs, src/lib.rs and src/shared/error.rs. Storage has the rows of the models
-- (src/*/models), and its children one file for each repo module: a statement is a function from
-- the tables to a result and the new tables. Storage.Conn is the connection of one request: the
-- tables that the pool sees, those of the open transaction, and which calls to the database fail. A
-- service that talks to the database is a block of that monad; its `?` is the monad's failure,
-- `begin` copies the tables, `commit` publishes the copy, and a transaction that is not committed
-- is lost. Storage.Conn.Steps takes a successful run apart step by step, Storage.Conn.Rollback says
-- which runs publish nothing. Scope and its children are src/oauth/services/scope.rs. OAuth.Params,
-- OAuth.Pkce, OAuth.Consent and OAuth.Client are params.rs, pkce.rs, consent.rs and client.rs of
-- src/oauth/services. OAuth.Pkce.Verifiers has the
-- verifiers of RFC 7636 and OAuth.Consent.Ledger the abstract view of the consents, a ledger of
-- approvals. OAuth.Authorization is authorization.rs: the request, its validation in two phases,
-- the decision what happens next, and the user's answer. OAuth.Token is token.rs and revocation.rs:
-- Code has the exchange of a code, Rotation that of a refresh token, Endpoint the handlers. Tokens
-- has src/token/services and src/oidc/services/id_token.rs; Keys is the signing and verification of
-- src/pkg/jwt_manager.rs. Authentication is user.rs and session.rs of src/authentication/services.
-- Oidc is userinfo.rs and discovery.rs of src/oidc/services. Developer is src/developer/dtos.rs and
-- src/developer/services/apps.rs. Web has what a browser or a client talks to: Cookies is
-- src/pkg/cookie_manager.rs, Csrf and SignedIn are csrf.rs and auth.rs of src/middlewares, Http is
-- src/shared/views.rs and src/shared/response.rs, and Accounts, Authorize, Portal and Endpoints are
-- the controllers of the features. Server is src/api/router.rs: a request is one of the routes with
-- what its handler extracts and draws, `serve` runs the handler, and `Reach` relates the tables
-- before and after any number of requests. Web.Portal.Touches says what a statement on
-- one application leaves of the others, Web.Portal.Changes carries that to the handlers of the portal
-- with the rules of Storage.Conn.Holds. Server.Closed lists what a property of the tables needs
-- of each statement, Server.Histories carries it along every history by way of Clients, Browsers,
-- Grants and Apps of Server, and Storage.Conn.Preserve has the rules for the monad.
-- Server.SpentCodes, Server.DeadFamilies and Server.EndedSessions use it. Tests runs the model on
-- concrete inputs.
--
-- State. Clocks, random bytes and drawn ids are arguments: TokenDraw, AuthorizationDraw,
-- ClientDraw, PageDraw, BrowserDraw, PortalDraw. An early return of a handler, the rejection of an
-- extractor included, is the failure of its block, and a page is the data of its template. Times
-- are nanoseconds since the epoch, ids the numbers of their 128 bits, texts lists of code points; a
-- length in bytes is `len`, one in characters is `count`. A function that the source writes with
-- early returns inside a match is split at the match: `exchange_authorization_code` calls `redeem`,
-- `settle` and `issue_tokens`, `exchange_refresh_token` calls `answer` and `rotate`, `decide` calls
-- `decide_signed_in` and `decide_consent`. Every loop of the source runs over a list or a text and
-- is structural recursion. Only `show`, which prints a number n, runs on fuel: n rounds, of which
-- each divides the number by 10; more fuel changes nothing.
--
-- Not modelled: audit logging; row locks and other transactions that run at the same time; the HTML
-- of the pages, the security headers, CORS, the static routes and the parsing of paths and forms,
-- which are constants or the work of axum, tower and askama; the key files and the start of the
-- process. A request of a history starts with the tables that the one before has committed. A
-- failed database call changes nothing, a failed commit included. The foreign keys of the migrations
-- cascade on deletion, but an insert does not ask for the rows that it refers to. Stored times keep
-- their nanoseconds, where the database keeps microseconds.
pub mod Prelude
pub mod Scope
pub mod Error
pub mod Storage
pub mod Platform
pub mod Secret
pub mod OAuth
pub mod Authentication
pub mod Config
pub mod Keys
pub mod State
pub mod Tokens
pub mod Tests
pub mod Developer
pub mod Oidc
pub mod Web
pub mod Server
