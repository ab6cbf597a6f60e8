-- ===== src/System/Sound.antt =====
-- No balance is ever negative, in the runs that the conditions name.
pub mod AccountRows
pub mod Transfers
use ai_spec_driven_developme.System.Sound.AccountRows.{create_account_sound, delete_account_sound}
use ai_spec_driven_developme.System.Sound.Transfers.{execute_transfer_sound, initiate_sound}
use ai_spec_driven_developme.Decimal.Exact.{lt-zero_decimal}
use ai_spec_driven_developme.Models.{Account, Transfer}
use ai_spec_driven_developme.Session.{Action, Db, Engine, Session}
use ai_spec_driven_developme.Session.Numeric.{
  AllSound, IsSound, NumericColumns, NumericRange, NumericRange-at_time, NumericColumns-at_time,
  found-IsSound,
}
use ai_spec_driven_developme.System.Bounds.{AllStored, Bounded, writes_bounded}
use ai_spec_driven_developme.Api.App.{
  create_transfer, create_cross_currency_transfer, App, Endpoint,
}
use ai_spec_driven_developme.Prelude.{
  Bool, Bool-cases, List, Option, String, [], arith, false, inl, inr, refl, str_eq, subst, sym,
  true, ◌++◌, ◌∙◌, ◌∷◌, ◌≡◌, ◌≤◌,
}
use ai_spec_driven_developme.Security.{Claims}
use ai_spec_driven_developme.Service.AccountService.{CreateAccountRequest}
use ai_spec_driven_developme.Service.TransferService.{
  CreateTransferRequest, execute_transfer, validate_not_self_transfer,
}
use ai_spec_driven_developme.Service.CrossCurrencyTransferService.{
  CrossCurrencyTransferResponse, initiate,
}
use ai_spec_driven_developme.Service.CrossCurrencyTransferService.Validation.{
  CrossCurrencyTransferRequest,
}
use ai_spec_driven_developme.Session.Evolves.{Evolves, Preorder}
use ai_spec_driven_developme.System.Grown.{Grown}
use ai_spec_driven_developme.Service.TransferService.Conversion.{IsNonneg}
use ai_spec_driven_developme.System.Nonneg.{Moved-AllNonneg, both_sound, sound_nonneg, sound_stored}
use ai_spec_driven_developme.Service.TransferService.Ledger.{NonnegRates, execute_transfer-Settled}
use ai_spec_driven_developme.System.Rates.{NonnegSnapshots, current_rate-IsNonneg}
use ai_spec_driven_developme.System.Requests.{Operations}
use ai_spec_driven_developme.System.{at_time, Reach}
use ai_spec_driven_developme.Errors.{Result, err, ok}
use ai_spec_driven_developme.Config.{Settings, default_settings}
use ai_spec_driven_developme.Session.Keeps.{accounts_of}
use ai_spec_driven_developme.Repository.AccountRepository.{anonymized}
use ai_spec_driven_developme.Service.CrossCurrencyTransferService.Computation.{calculate_amounts}
use ai_spec_driven_developme.Service.AccountService.Creation.{
  create_account-Added, create_account-eq-err,
}
use ai_spec_driven_developme.Service.AccountService.Deletion.{
  delete_account-Deleted, delete_account-eq-err,
}
use ai_spec_driven_developme.Service.TransferService.Settlement.{
  execute_transfer-Outcome, execute_transfer-eq-err,
}
use ai_spec_driven_developme.Service.CrossCurrencyTransferService.Settlement.{
  Exchanged, initiate-Exchanged, initiate-eq-err,
}
use ai_spec_driven_developme.Service.CrossCurrencyTransferService.Recall.{initiate-same_db}
use ai_spec_driven_developme.Session.Rows.{is_numbered, update_row}
use ai_spec_driven_developme.System.Sides.{mark_read-Evolves, seed_currency_pairs-Evolves}
use ai_spec_driven_developme.Service.CrossCurrencyTransferService.NetAmount.{net_amount-IsNonneg}
use ai_spec_driven_developme.System.Growth.{writes_grow}
use ai_spec_driven_developme.Service.AccountService
use ai_spec_driven_developme.System.Accounts
use ai_spec_driven_developme.System.Requests

-- A transfer of an amount with at most four decimal places; a cross-currency transfer between different
-- accounts of an amount that is not negative; and all other requests.
abbrev pub IsOrdinary : Endpoint → Type 0
IsOrdinary (create_transfer request key) = request.amount.scale ≤ 4
IsOrdinary (create_cross_currency_transfer request key) =
    IsNonneg request.source_amount
    × (str_eq request.source_account_number request.destination_account_number ≡ false)
IsOrdinary endpoint = Unit

-- The snapshots stay, and where they hold no negative rate, sound accounts stay sound.
abbrev pub StaysSound : Db → Db → Type 0
StaysSound db db' =
    (db'.snapshots ≡ db.snapshots)
    × (NonnegSnapshots db.snapshots → AllSound db.accounts → AllSound db'.accounts)

abbrev stays_sound : Preorder StaysSound
stays_sound = record {
  stays = λ db. (refl, λ rates sound. sound);
  composes = λ p q.
      (q.0 ∙ p.0, λ rates sound. q.1 (subst NonnegSnapshots (sym p.0) rates) (p.1 rates sound));
}

-- What a result says of the accounts, beside what the tables grow by.
combined :
    {A : Type 0} (m : Action A)
    → Evolves Grown m
    → ((s : Session) → AllSound s.db.accounts → AllSound (m s).1.db.accounts)
    → Evolves StaysSound m
combined m grows known = record { at = λ s. ((grows.at s).snapshots, λ rates sound. known s sound) }

module _ (app : App) (range : NumericRange app.engine) (laws : NumericColumns app.engine)
    (fx_rates : NonnegRates app.exchange_rates) (usual : app.settings ≡ default_settings) where
  grows : Operations app IsOrdinary Grown
  grows = Accounts.operations app IsOrdinary (writes_grow app.engine)

  stores : Operations app IsOrdinary Bounded
  stores = Accounts.operations app IsOrdinary (writes_bounded app.engine range)

  pub operations : Operations app IsOrdinary StaysSound
  operations = record {
    order = stays_sound;
    creates = λ request actor request_id permitted valid.
        combined _ (grows.creates request actor request_id permitted valid)
          (λ s. create_account_sound app range request actor request_id s _ _ refl);
    deletes = λ number actor claims request_id.
        combined _ (grows.deletes number actor claims request_id)
          (λ s. delete_account_sound app range number actor claims request_id s _ _ refl);
    transfers = λ request key caller_id request_id permitted valid.
        combined _ (grows.transfers request key caller_id request_id permitted valid) (λ s.
          execute_transfer_sound app laws fx_rates usual request key caller_id request_id permitted
            valid s _ _ refl);
    exchanges = λ request key caller_id request_id permitted. record {
      at = λ s. (
        ((grows.exchanges request key caller_id request_id permitted).at s).snapshots,
        λ rates sound.
            initiate_sound app laws fx_rates usual request key caller_id request_id permitted.0
              permitted.1 s _ _ refl rates sound
              ((stores.exchanges request key caller_id request_id permitted).at s
                (sound_stored s.db.accounts sound)),
      );
    };
    marks = λ i number.
        combined _ (grows.marks i number)
          (mark_read-Evolves accounts_of AllSound (λ db l. refl) (λ db l. refl) app.engine i
            number).at;
    seeds =
        combined _ grows.seeds
          (seed_currency_pairs-Evolves accounts_of AllSound (λ db l. refl) (λ db l. refl)
            app.engine).at;
  }

-- With columns as `NumericColumns` and `NumericRange` say, no negative rate in the configuration or in
-- the snapshots at the beginning, and the default settings: in every run whose transfers are of
-- amounts with at most four decimal places, and whose cross-currency transfers are between
-- different accounts and of amounts that are not negative, balances that are not negative and fit
-- their column at the beginning are so at the end, however the requests ended.
pub Reach-AllSound :
    {app : App} {before after : Db}
    → NumericColumns app.engine
    → NumericRange app.engine
    → NonnegRates app.exchange_rates
    → app.settings ≡ default_settings
    → Reach app IsOrdinary before after
    → NonnegSnapshots before.snapshots
    → AllSound before.accounts
    → AllSound after.accounts
Reach-AllSound {app} laws range fx_rates usual reach rates sound =
    (Requests.run
        (λ utcnow db_now.
          operations (at_time app utcnow db_now) (NumericRange-at_time utcnow db_now range)
            (NumericColumns-at_time utcnow db_now laws) fx_rates usual)
        reach).1
      rates sound
