-- ===== src/Tests.antt =====
-- Runs of the service on small tables, and each theorem applied to one of them.
mod Setup
mod Transfers
mod CrossCurrency
mod Services
mod Rates
mod Requests
mod Accounts
mod System
mod Migrations
mod Replays
