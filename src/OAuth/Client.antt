-- ===== src/OAuth/Client.antt =====
-- src/oauth/services/client.rs: registered applications. `Details` has the rules for what a developer
-- chooses about a client, `Registry` the operations on the registry, `Credentials` how a client
-- authenticates.
pub mod Details
pub mod Credentials
pub mod Registry
