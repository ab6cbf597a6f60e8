-- ===== src/Service/CrossCurrencyTransferService/Records/Filling.antt =====
-- What the row of a cross-currency transfer is filled with.
use ai_spec_driven_developme.Prelude.{
  ℕ, String, ◌≡◌, ap, Option, some, none, Option-cases, inl, inr, arith,
}
use ai_spec_driven_developme.Decimal.{Decimal}
use ai_spec_driven_developme.Errors.{ok}
use ai_spec_driven_developme.Models.{Transfer, TransferStatus, pending}
use ai_spec_driven_developme.Session.{Engine}
use ai_spec_driven_developme.Session.Columns.{stored_or_null}
use ai_spec_driven_developme.Repository.Insert.{store_transfer}
use ai_spec_driven_developme.Repository.TransferRepository.{
  CrossCurrencyArguments, cross_currency_row,
}
use ai_spec_driven_developme.Repository.TransferRepository.Laws.{
  store_transfer-StoredRow, store_transfer-StoredAmounts,
}
use ai_spec_driven_developme.Service.CrossCurrencyTransferService.Validation.{
  Plan, CrossCurrencyTransferRequest,
}

-- The arguments that a plan gives the repository.
abbrev pub planned :
    Engine
    → CrossCurrencyTransferRequest
    → (caller_id key : String) → (request_id : Option String) → Plan
    → CrossCurrencyArguments
planned e request caller_id key request_id plan = record {
  idempotency_key = key;
  source_account_number = plan.source_account.account_number;
  destination_account_number = plan.destination_account.account_number;
  source_amount = request.source_amount;
  source_currency = request.source_currency;
  destination_amount = plan.amounts.net_amount;
  destination_currency = request.destination_currency;
  exchange_rate = plan.current_rate;
  status = pending;
  caller_id = caller_id;
  request_id = request_id;
  sending_fee = plan.amounts.sending_fee;
  sending_fee_currency = request.source_currency;
  receiving_fee = plan.amounts.receiving_fee;
  receiving_fee_currency = request.destination_currency;
  fx_snapshot_id = plan.snapshot_id;
  rate_confirmed_at = e.utcnow;
  source_amount_usd = plan.source_amount_usd;
  failure_reason = none;
}

-- A nullable Numeric(19, 4) column that took a value.
abbrev Takes : Engine → Decimal → Option Decimal → Type 0
Takes e d column = (x : Decimal) × (e.numeric 19 4 d ≡ some x) × (column ≡ some x)

taken :
    (e : Engine) (d : Decimal) {o : Option Decimal}
    → stored_or_null e 19 4 (some d) ≡ ok o
    → Takes e d o
taken e d {o} h = elim (Option-cases (e.numeric 19 4 d)) [
  | inl p ↦ absurd (ground (arith, rw p at h))
  | inr (x, p) ↦ (x, p, ground (arith, rw p at h))
]

-- A row with these arguments, its amounts as their columns take them.
pub record Filled (e : Engine) (a : CrossCurrencyArguments) (r : Transfer) : Type 0 where
  pub keyed : r.idempotency_key ≡ a.idempotency_key
  pub called : r.caller_id ≡ a.caller_id
  pub source_number : r.source_account_number ≡ a.source_account_number
  pub destination_number : r.destination_account_number ≡ a.destination_account_number
  pub source_amount : e.numeric 19 4 a.source_amount ≡ some r.source_amount
  pub source_currency : r.source_currency ≡ a.source_currency
  pub destination_amount : e.numeric 19 4 a.destination_amount ≡ some r.destination_amount
  pub destination_currency : r.destination_currency ≡ a.destination_currency
  pub exchange_rate : e.numeric 20 8 a.exchange_rate ≡ some r.exchange_rate
  pub sending_fee : Takes e a.sending_fee r.sending_fee
  pub sending_fee_currency : r.sending_fee_currency ≡ some a.sending_fee_currency
  pub receiving_fee : Takes e a.receiving_fee r.receiving_fee
  pub receiving_fee_currency : r.receiving_fee_currency ≡ some a.receiving_fee_currency
  pub fx_snapshot_id : r.fx_snapshot_id ≡ some a.fx_snapshot_id
  pub rate_confirmed_at : r.rate_confirmed_at ≡ some a.rate_confirmed_at
  pub source_amount_usd : Takes e a.source_amount_usd r.source_amount_usd
  pub transfer_type : r.transfer_type ≡ some "cross_currency"

pub row-Filled :
    (e : Engine) (id : ℕ) (a : CrossCurrencyArguments) {r : Transfer}
    → store_transfer e (cross_currency_row e id a) ≡ ok r
    → Filled e a r
row-Filled e id a h =
    let amounts = store_transfer-StoredAmounts e (cross_currency_row e id a) h in
    let w = store_transfer-StoredRow e (cross_currency_row e id a) h in
    record {
      keyed = ap (λ (x : Transfer). x.idempotency_key) w.same;
      called = ap (λ (x : Transfer). x.caller_id) w.same;
      source_number = ap (λ (x : Transfer). x.source_account_number) w.same;
      destination_number = ap (λ (x : Transfer). x.destination_account_number) w.same;
      source_amount = amounts.source;
      source_currency = ap (λ (x : Transfer). x.source_currency) w.same;
      destination_amount = amounts.destination;
      destination_currency = ap (λ (x : Transfer). x.destination_currency) w.same;
      exchange_rate = amounts.rate;
      sending_fee = taken e a.sending_fee w.sending_fee;
      sending_fee_currency = ap (λ (x : Transfer). x.sending_fee_currency) w.same;
      receiving_fee = taken e a.receiving_fee w.receiving_fee;
      receiving_fee_currency = ap (λ (x : Transfer). x.receiving_fee_currency) w.same;
      fx_snapshot_id = ap (λ (x : Transfer). x.fx_snapshot_id) w.same;
      rate_confirmed_at = ap (λ (x : Transfer). x.rate_confirmed_at) w.same;
      source_amount_usd = taken e a.source_amount_usd w.source_amount_usd;
      transfer_type = ap (λ (x : Transfer). x.transfer_type) w.same;
    }

-- The destination amount is assigned anew, and the status changes.
pub Filled-changed :
    {e : Engine} {a : CrossCurrencyArguments} {r : Transfer} {d : Decimal} {status : TransferStatus}
    → Filled e a r
    → e.numeric 19 4 a.destination_amount ≡ some d
    → Filled e a (record r { destination_amount = d; status = status })
Filled-changed w t = record {
  keyed = w.keyed;
  called = w.called;
  source_number = w.source_number;
  destination_number = w.destination_number;
  source_amount = w.source_amount;
  source_currency = w.source_currency;
  destination_amount = t;
  destination_currency = w.destination_currency;
  exchange_rate = w.exchange_rate;
  sending_fee = w.sending_fee;
  sending_fee_currency = w.sending_fee_currency;
  receiving_fee = w.receiving_fee;
  receiving_fee_currency = w.receiving_fee_currency;
  fx_snapshot_id = w.fx_snapshot_id;
  rate_confirmed_at = w.rate_confirmed_at;
  source_amount_usd = w.source_amount_usd;
  transfer_type = w.transfer_type;
}
