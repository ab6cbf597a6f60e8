-- ===== src/Api.antt =====
-- The HTTP layer: src/fund_transfer/api/, and the start-up of main.py.
pub mod ErrorHandler
pub mod Transfers
pub mod Startup
pub mod Accounts
pub mod Fx
pub mod Notifications
pub mod App
