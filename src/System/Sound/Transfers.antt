-- ===== src/System/Sound/Transfers.antt =====
-- What a transfer leaves is sound.
use ai_spec_driven_developme.System.Sound.AccountRows.{same_sound}
use ai_spec_driven_developme.Models.{Transfer}
use ai_spec_driven_developme.Session.{Db, Session}
use ai_spec_driven_developme.Session.Numeric.{AllSound, NumericColumns, found-IsSound}
use ai_spec_driven_developme.System.Bounds.{AllStored}
use ai_spec_driven_developme.Api.App.{App}
use ai_spec_driven_developme.Prelude.{
  Bool, Option, String, arith, false, str_eq, subst, sym, true, ◌≡◌, ◌≤◌,
}
use ai_spec_driven_developme.Service.TransferService.{
  CreateTransferRequest, execute_transfer, validate_not_self_transfer,
}
use ai_spec_driven_developme.Service.CrossCurrencyTransferService.{
  CrossCurrencyTransferResponse, initiate,
}
use ai_spec_driven_developme.Service.CrossCurrencyTransferService.Validation.{
  CrossCurrencyTransferRequest,
}
use ai_spec_driven_developme.Service.TransferService.Conversion.{IsNonneg}
use ai_spec_driven_developme.System.Nonneg.{Moved-AllNonneg, both_sound, sound_nonneg}
use ai_spec_driven_developme.Service.TransferService.Ledger.{NonnegRates, execute_transfer-Settled}
use ai_spec_driven_developme.System.Rates.{NonnegSnapshots, current_rate-IsNonneg}
use ai_spec_driven_developme.Errors.{Result, err, ok}
use ai_spec_driven_developme.Config.{Settings, default_settings}
use ai_spec_driven_developme.Service.CrossCurrencyTransferService.Computation.{calculate_amounts}
use ai_spec_driven_developme.Service.TransferService.Settlement.{
  execute_transfer-Outcome, execute_transfer-eq-err,
}
use ai_spec_driven_developme.Service.CrossCurrencyTransferService.Settlement.{
  Exchanged, initiate-Exchanged, initiate-eq-err,
}
use ai_spec_driven_developme.Service.CrossCurrencyTransferService.Recall.{initiate-same_db}
use ai_spec_driven_developme.Service.CrossCurrencyTransferService.NetAmount.{net_amount-IsNonneg}

module _ (app : App) (laws : NumericColumns app.engine) (fx_rates : NonnegRates app.exchange_rates)
    (usual : app.settings ≡ default_settings) where
  pub execute_transfer_sound :
      (request : CreateTransferRequest) (key caller_id : String) (request_id : Option String)
      → request.amount.scale ≤ 4
      → validate_not_self_transfer request ≡ ok request
      → (s t : Session) (r : Result (Transfer × Bool))
      → execute_transfer app.engine app.exchange_rates request caller_id key request_id s ≡ (r, t)
      → AllSound s.db.accounts
      → AllSound t.db.accounts
  execute_transfer_sound request key caller_id request_id small valid s t (ok (r, true)) h sound =
      same_sound s.db t.db
        (execute_transfer-Outcome app.engine app.exchange_rates request caller_id key request_id s
          h).same_db
        sound
  execute_transfer_sound request key caller_id request_id small valid s t (ok (r, false)) h sound =
      (execute_transfer-Settled app.engine laws app.exchange_rates fx_rates request caller_id key
        request_id s valid small sound h).sound
  execute_transfer_sound request key caller_id request_id small valid s t (err x) h sound =
      same_sound s.db t.db
        (execute_transfer-eq-err app.engine app.exchange_rates request caller_id key request_id s h)
        sound

  pub fee-IsNonneg : IsNonneg app.settings.sending_fee_pct
  fee-IsNonneg = subst (λ (x : Settings). IsNonneg x.sending_fee_pct) (sym usual) (ground arith)

  pub net-IsNonneg :
      (request : CrossCurrencyTransferRequest) (key caller_id : String) (request_id : Option String)
      → IsNonneg request.source_amount
      → {before after : Db} {r : CrossCurrencyTransferResponse}
      → (w : Exchanged app.engine app.settings request caller_id key request_id before r after)
      → NonnegSnapshots before.snapshots
      → IsNonneg w.plan.amounts.net_amount
  net-IsNonneg request key caller_id request_id nonneg w rates =
      let rate =
        current_rate-IsNonneg w.validated
          (subst (λ (x : Db). NonnegSnapshots x.snapshots) (sym w.same_start) rates) in
      net_amount-IsNonneg request.source_amount w.plan.current_rate nonneg rate (
        subst
          (λ x. calculate_amounts x request.source_amount w.plan.current_rate ≡ ok w.plan.amounts)
          usual w.validated.computed)

  pub initiate_sound :
      (request : CrossCurrencyTransferRequest) (key caller_id : String) (request_id : Option String)
      → IsNonneg request.source_amount
      → str_eq request.source_account_number request.destination_account_number ≡ false
      → (s t : Session) (r : Result (CrossCurrencyTransferResponse × Bool))
      → initiate app.engine app.settings request caller_id key request_id s ≡ (r, t)
      → NonnegSnapshots s.db.snapshots
      → AllSound s.db.accounts
      → AllStored t.db.accounts
      → AllSound t.db.accounts
  initiate_sound request key caller_id request_id nonneg distinct s t (ok (r, true)) h rates sound
        stored =
      same_sound s.db t.db
        (initiate-same_db app.engine app.settings request caller_id key request_id s h) sound
  initiate_sound request key caller_id request_id nonneg distinct s t (ok (r, false)) h rates sound
        stored =
      let w =
        initiate-Exchanged app.engine app.settings request caller_id key request_id laws
          fee-IsNonneg nonneg distinct s sound h in
      let start_sound = same_sound s.db w.start.db w.same_start sound in
      let dest_sound =
        found-IsSound request.destination_account_number w.start.db.accounts
          w.plan.destination_account w.validated.dest_found start_sound in
      both_sound t.db.accounts stored (
        Moved-AllNonneg w.moved w.rest dest_sound.nonneg
          (net-IsNonneg request key caller_id request_id nonneg w rates)
          (sound_nonneg s.db.accounts sound))
  initiate_sound request key caller_id request_id nonneg distinct s t (err x) h rates sound stored =
      same_sound s.db t.db
        (initiate-eq-err app.engine app.settings request caller_id key request_id s h) sound
