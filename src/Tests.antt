-- ===== src/Tests.antt =====
-- Runs of the model on concrete inputs.
mod World
mod Exchanges
mod Replays
mod Redemptions
mod Histories
mod Pages
mod Claims
mod Bearers
mod Refreshes
mod Authorizations
mod Decisions
mod Clients
mod Consents
mod Values
mod Accounts
mod Registrations
