-- ===== src/Service/CrossCurrencyTransferService/Validation.antt =====
-- src/fund_transfer/services/cross_currency_transfer_service.py: the tests of `initiate`.
use ai_spec_driven_developme.Prelude.{
  ℕ, ◌-◌, String, Bool, not, ◌&&◌, Option, none, some, str_eq, any_of, if◌then◌else◌,
}
use ai_spec_driven_developme.Decimal.{Decimal, add, lt}
use ai_spec_driven_developme.Errors.{
  domain_error, transfer_limit_exceeded_error, forbidden_error, stale_rate_error,
  unsupported_currency_pair_error, insufficient_funds_error, Result, ok, err,
}
use ai_spec_driven_developme.Models.{Account, FxRateSnapshot, CurrencyPair}
use ai_spec_driven_developme.Config.{Settings}
use ai_spec_driven_developme.Session.{Engine, Action, pure, lift, raise_when, ◌>>=◌, ◌>>◌}
use ai_spec_driven_developme.Repository.TransferRepository.{get_daily_transfer_volume_usd}
use ai_spec_driven_developme.Repository.FxRateRepository.{
  get_latest_snapshot, get_snapshot_by_id, get_active_currency_pairs,
}
use ai_spec_driven_developme.Service.TransferService.{load_active}
use ai_spec_driven_developme.Service.CrossCurrencyTransferService.Computation.{
  Amounts, rate_of, calculate_amounts, amount_in_usd, check_rate_deviation, to_quantum,
}

-- schemas/fx.py
pub record CrossCurrencyTransferRequest : Type 0 where
  pub source_account_number : String
  pub destination_account_number : String
  pub source_amount : Decimal
  pub source_currency : String
  pub destination_currency : String
  pub fx_snapshot_id : ℕ

-- `_load_accounts`
unfoldable pub load_accounts : String → String → Action (Account × Account)
load_accounts source_account_number destination_account_number = do
  source_account ← load_active source_account_number
  destination_account ← load_active destination_account_number
  pure (source_account, destination_account)

-- A snapshot that was found and is not stale.
abbrev pub fresh_or_raise : Option FxRateSnapshot → Result FxRateSnapshot
fresh_or_raise none = err (domain_error stale_rate_error none)
fresh_or_raise (some snapshot) =
    if snapshot.is_stale then err (domain_error stale_rate_error none) else ok snapshot

abbrev pub is_pair : String → String → CurrencyPair → Bool
is_pair from_currency to_currency pair =
    str_eq pair.from_currency from_currency && str_eq pair.to_currency to_currency

unfoldable pub ensure_active_pair : String → String → Action (Unit {0})
ensure_active_pair from_currency to_currency = do
  active_pairs ← get_active_currency_pairs
  raise_when (not (any_of (is_pair from_currency to_currency) active_pairs))
      (domain_error unsupported_currency_pair_error none)

-- 24 hours, in microseconds.
abbrev pub day : ℕ
day = 86400000000

unfoldable pub check_transfer_limits : Engine → Settings → String → Decimal → Action (Unit {0})
check_transfer_limits e settings account_number source_amount_usd = do
  raise_when (lt settings.transfer_limit_per_tx_usd source_amount_usd) (
      transfer_limit_exceeded_error "per_transaction" settings.transfer_limit_per_tx_usd
        source_amount_usd)
  daily_volume ← get_daily_transfer_volume_usd account_number (e.utcnow - day)
  total_volume ← lift (to_quantum (add daily_volume source_amount_usd))
  raise_when (lt settings.transfer_limit_per_day_usd total_volume)
      (transfer_limit_exceeded_error "per_day" settings.transfer_limit_per_day_usd total_volume)

-- What the tests of `initiate` establish before anything is written.
pub record Plan : Type 0 where
  pub source_account : Account
  pub destination_account : Account
  pub snapshot_id : ℕ
  pub current_rate : Decimal
  pub amounts : Amounts
  pub source_amount_usd : Decimal

-- The tests of `initiate`, in their order.
unfoldable pub validate :
    Engine → Settings → CrossCurrencyTransferRequest → (caller_id : String) → Action Plan
validate e settings request caller_id = do
  current ← get_latest_snapshot
  current_snapshot ← lift (fresh_or_raise current)
  preview ← get_snapshot_by_id request.fx_snapshot_id
  preview_snapshot ← lift (fresh_or_raise preview)
  ensure_active_pair request.source_currency request.destination_currency
  accounts ← load_accounts request.source_account_number request.destination_account_number
  let source_account = accounts.0
  let destination_account = accounts.1
  raise_when (not (str_eq source_account.owner_id caller_id)) (domain_error forbidden_error none)
  raise_when (not (str_eq source_account.currency request.source_currency))
      (domain_error unsupported_currency_pair_error none)
  preview_rate ←
      lift (rate_of preview_snapshot.rates request.source_currency request.destination_currency)
  current_rate ←
      lift (rate_of current_snapshot.rates request.source_currency request.destination_currency)
  lift (check_rate_deviation settings preview_rate current_rate current_snapshot.id)
  amounts ← lift (calculate_amounts settings request.source_amount current_rate)
  source_amount_usd ←
      lift (amount_in_usd request.source_amount request.source_currency current_snapshot.rates)
  check_transfer_limits e settings source_account.account_number source_amount_usd
  raise_when (lt source_account.balance amounts.total_sender_cost)
      (domain_error insufficient_funds_error none)
  pure (record {
    source_account = source_account;
    destination_account = destination_account;
    snapshot_id = current_snapshot.id;
    current_rate = current_rate;
    amounts = amounts;
    source_amount_usd = source_amount_usd;
  })
