-- ===== src/Service.antt =====
-- The services of src/fund_transfer/services/.
pub mod ExchangeRateService
pub mod TransferService
pub mod NotificationService
pub mod AccountService
pub mod FxRateService
pub mod FxRateProvider
pub mod StaticFxRateProvider
pub mod Retry
pub mod CrossCurrencyTransferService
