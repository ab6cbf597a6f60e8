-- ===== src/Repository.antt =====
-- The repositories of src/fund_transfer/repositories/: the queries and the writes of each table.
pub mod Insert
pub mod TransferRepository
pub mod AccountRepository
pub mod FxRateRepository
pub mod NotificationRepository
