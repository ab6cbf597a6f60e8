-- ===== src/System/Operations.antt =====
-- The operations of the services move the tables along any order that the writes move them along,
-- whatever they are asked and however they end.
use ai_spec_driven_developme.Models.{
  Account, Notification, Transfer, TransferStatus, completed, failed, pending, processing, rejected,
}
use ai_spec_driven_developme.Service.TransferService.{
  CreateTransferRequest, execute_transfer, load_active, move_money, replay_or_run, transfer_block,
}
use ai_spec_driven_developme.Repository.TransferRepository.{
  CrossCurrencyArguments, create_cross_currency_transfer, create_transfer,
  get_daily_transfer_volume_usd, get_idempotency_record, get_transfer_by_id,
}
use ai_spec_driven_developme.Repository.TransferRepository.StatusUpdate.{
  audit_status, set_status, update_transfer_status, is_invalid_transition, with_status,
}
use ai_spec_driven_developme.Service.CrossCurrencyTransferService.{
  aml_kyc_check, initiate, initiate_block, move_balances, notify, perform, replay_or_initiate,
}
use ai_spec_driven_developme.Service.CrossCurrencyTransferService.Validation.{
  CrossCurrencyTransferRequest, Plan, check_transfer_limits, ensure_active_pair, load_accounts,
  validate,
}
use ai_spec_driven_developme.Session.{Db, Engine, raise_when}
use ai_spec_driven_developme.Decimal.{Decimal}
use ai_spec_driven_developme.Session.Evolves.{
  Evolves, Evolves-bind, Evolves-pure, Evolves-raise_when,
}
use ai_spec_driven_developme.Config.{ExchangeRateConfig, Settings}
use ai_spec_driven_developme.Prelude.{Option, String, none, some, ℕ}
use ai_spec_driven_developme.System.Writes.{Writes, written, status-Evolves}
use ai_spec_driven_developme.Service.NotificationService.{create_transfer_notifications, deliver}
use ai_spec_driven_developme.Repository.FxRateRepository.{
  get_active_currency_pairs, get_latest_snapshot, get_snapshot_by_id,
}
use ai_spec_driven_developme.Repository.AccountRepository.{get_by_account_number}

module _ {κ} {e : Engine} {R : Db → Db → Type κ} (w : Writes e R) where
  audit_status-Evolves :
      (request_id : Option String) (new_status : TransferStatus) (t : Transfer)
      → Evolves R (audit_status e request_id new_status t)
  unfolding audit_status
  audit_status-Evolves request_id pending t = search written
  audit_status-Evolves request_id processing t = search written
  audit_status-Evolves request_id completed t = search written
  audit_status-Evolves request_id failed t = search written
  audit_status-Evolves request_id rejected t = search written

  set_status-Evolves :
      (new_status : TransferStatus) (reason request_id : Option String) (found : Option Transfer)
      → Evolves R (set_status e new_status reason request_id found)
  unfolding set_status
  set_status-Evolves new_status reason request_id none = search written
  set_status-Evolves new_status reason request_id (some t) =
      let changed = with_status new_status reason t in
      Evolves-bind w.order (raise_when (is_invalid_transition t.status new_status) _) _
        (Evolves-raise_when w.order (is_invalid_transition t.status new_status) _)
        (λ _. Evolves-bind w.order _ _ (status-Evolves w new_status reason t.id) (λ _.
          Evolves-bind w.order _ _ (audit_status-Evolves request_id new_status changed)
            (λ _. Evolves-pure w.order changed)))

  update_transfer_status-Evolves :
      (i : ℕ) (new_status : TransferStatus) (reason request_id : Option String)
      → Evolves R (update_transfer_status e i new_status reason request_id)
  unfolding update_transfer_status get_transfer_by_id
  update_transfer_status-Evolves i new_status reason request_id =
      search (written, set_status-Evolves)

  create_transfer-Evolves :
      (key src dst : String) (source_amount : Decimal) (source_currency : String)
      (destination_amount : Decimal) (destination_currency : String) (rate : Decimal)
      (status : TransferStatus) (caller_id : String) (rejection failure : Option String)
      → Evolves R (
          create_transfer e key src dst source_amount source_currency destination_amount
            destination_currency rate status caller_id rejection failure)
  unfolding create_transfer
  create_transfer-Evolves key src dst source_amount source_currency destination_amount
        destination_currency rate status caller_id rejection failure =
      search written

  load_active-Evolves : (number : String) → Evolves R (load_active number)
  unfolding load_active get_by_account_number
  load_active-Evolves number = search written

  module _ (fx : ExchangeRateConfig) (request : CreateTransferRequest) (caller_id key : String)
      (request_id : Option String) where
    move_money-Evolves :
        (source dest : Account) (rate amount : Decimal)
        → Evolves R (move_money e request caller_id key request_id source dest rate amount)
    unfolding move_money
    move_money-Evolves source dest rate amount = search (written, create_transfer-Evolves) depth 20

    transfer_block-Evolves : Evolves R (transfer_block e fx request caller_id key request_id)
    unfolding transfer_block
    transfer_block-Evolves = search (written, load_active-Evolves, move_money-Evolves) depth 20

    replay_or_run-Evolves :
        (found : Option Transfer)
        → Evolves R (replay_or_run e fx request caller_id key request_id found)
    unfolding replay_or_run
    replay_or_run-Evolves none = search (written, transfer_block-Evolves)
    replay_or_run-Evolves (some t) = search written

    pub execute_transfer-Evolves :
        Evolves R (execute_transfer e fx request caller_id key request_id)
    unfolding execute_transfer get_idempotency_record
    execute_transfer-Evolves = search (written, replay_or_run-Evolves)

  create_cross_currency_transfer-Evolves :
      (a : CrossCurrencyArguments) → Evolves R (create_cross_currency_transfer e a)
  unfolding create_cross_currency_transfer
  create_cross_currency_transfer-Evolves a = search written

  deliver-Evolves :
      (t : Transfer) (n : Notification) (actor request_id : Option String)
      → Evolves R (deliver e t n actor request_id)
  unfolding deliver
  deliver-Evolves t n actor request_id = search written

  create_transfer_notifications-Evolves :
      (t : Transfer) (sender recipient : Account) (actor request_id : Option String)
      → Evolves R (create_transfer_notifications e t sender recipient actor request_id)
  unfolding create_transfer_notifications
  create_transfer_notifications-Evolves t sender recipient actor request_id =
      search (written, deliver-Evolves)

  module _ (settings : Settings) (request : CrossCurrencyTransferRequest) (caller_id key : String)
      (request_id : Option String) where
    check_transfer_limits-Evolves :
        (number : String) (usd : Decimal) → Evolves R (check_transfer_limits e settings number usd)
    unfolding check_transfer_limits get_daily_transfer_volume_usd
    check_transfer_limits-Evolves number usd = search written

    ensure_active_pair-Evolves : (from to : String) → Evolves R (ensure_active_pair from to)
    unfolding ensure_active_pair get_active_currency_pairs
    ensure_active_pair-Evolves from to = search written

    load_accounts-Evolves : (src dst : String) → Evolves R (load_accounts src dst)
    unfolding load_accounts
    load_accounts-Evolves src dst = search (written, load_active-Evolves)

    validate-Evolves : Evolves R (validate e settings request caller_id)
    unfolding validate get_latest_snapshot get_snapshot_by_id
    validate-Evolves =
        search
          (
            written, check_transfer_limits-Evolves, ensure_active_pair-Evolves,
            load_accounts-Evolves,
          )
          depth 40

    move_balances-Evolves : (plan : Plan) → Evolves R (move_balances e plan)
    unfolding move_balances
    move_balances-Evolves plan = search written depth 20

    aml_kyc_check-Evolves :
        (t : Transfer) (plan : Plan) → Evolves R (aml_kyc_check e settings t plan request_id)
    unfolding aml_kyc_check
    aml_kyc_check-Evolves t plan = search written

    notify-Evolves : (t : Transfer) (plan : Plan) → Evolves R (notify e t plan caller_id request_id)
    unfolding notify
    notify-Evolves t plan = search (written, create_transfer_notifications-Evolves)

    perform-Evolves :
        (plan : Plan) → Evolves R (perform e settings request caller_id key request_id plan)
    unfolding perform
    perform-Evolves plan =
        search
          (
            written, create_cross_currency_transfer-Evolves, update_transfer_status-Evolves,
            move_balances-Evolves, notify-Evolves, aml_kyc_check-Evolves,
          )
          depth 20

    initiate_block-Evolves : Evolves R (initiate_block e settings request caller_id key request_id)
    unfolding initiate_block
    initiate_block-Evolves = search (written, validate-Evolves, perform-Evolves)

    replay_or_initiate-Evolves :
        (found : Option Transfer)
        → Evolves R (replay_or_initiate e settings request caller_id key request_id found)
    unfolding replay_or_initiate
    replay_or_initiate-Evolves none = search (written, initiate_block-Evolves)
    replay_or_initiate-Evolves (some t) = search written

    pub initiate-Evolves : Evolves R (initiate e settings request caller_id key request_id)
    unfolding initiate get_idempotency_record
    initiate-Evolves = search (written, replay_or_initiate-Evolves)
