-- ===== src/System/Snapshots.antt =====
-- The snapshots of the rates are written by no part of the service.
use ai_spec_driven_developme.Api.App.{App, Endpoint, new_session}
use ai_spec_driven_developme.Service.CrossCurrencyTransferService.{
  CrossCurrencyTransferResponse, initiate,
}
use ai_spec_driven_developme.Service.CrossCurrencyTransferService.Validation.{
  CrossCurrencyTransferRequest,
}
use ai_spec_driven_developme.Session.{Db, Session}
use ai_spec_driven_developme.Prelude.{
  Option, String, [], false, none, true, ℕ, ◌∙◌, ◌≡◌, List, ap, select, some,
}
use ai_spec_driven_developme.System.{Reach, at_time}
use ai_spec_driven_developme.System.Lasting.{Reach-Grown}
use ai_spec_driven_developme.Errors.{domain_error, err, ok, stale_rate_error}
use ai_spec_driven_developme.Repository.FxRateRepository.{get_latest_snapshot, is_fresh, latest}
use ai_spec_driven_developme.Service.CrossCurrencyTransferService.Recall.{initiate-Initiated}
use ai_spec_driven_developme.Models.{FxRateSnapshot}
use ai_spec_driven_developme.Service.FxRateService

none_newest :
    {l : List FxRateSnapshot} {x : FxRateSnapshot}
    → l ≡ []
    → latest (select is_fresh l) ≡ some x
    → ⊥
unfolding latest select
none_newest h k = cc (rw h at k)

-- In every run of the service that begins with no snapshot of the rates, the rate table is refused as
-- stale, and at no time a cross-currency transfer is made.
pub Reach-no_snapshot :
    {app : App} {allowed : Endpoint → Type 0} {before after : Db}
    → Reach app allowed before after
    → before.snapshots ≡ []
    → (draws utcnow db_now : ℕ)
    → (FxRateService.get_rate_table (new_session after draws) ≡ (
      err (domain_error stale_rate_error none),
      record (new_session after draws) { in_transaction = true },
    ))
      × ((request : CrossCurrencyTransferRequest) (caller_id key : String)
            (request_id : Option String) (r : CrossCurrencyTransferResponse) (t : Session)
          → ¬ (
              initiate
                (at_time app utcnow db_now).engine
                app.settings
                request
                caller_id
                key
                request_id
                (new_session after draws)
              ≡ (ok (r, false), t)))
unfolding FxRateService.get_rate_table get_latest_snapshot latest select
Reach-no_snapshot {app} {after = after} reach empty draws utcnow db_now =
    let still = (Reach-Grown reach).snapshots ∙ empty in
    (
      rw still,
      λ request caller_id key request_id r t done.
          let w =
            initiate-Initiated (at_time app utcnow db_now).engine app.settings request caller_id key
              request_id (new_session after draws) done in
          absurd
            (none_newest (ap (λ (db : Db). db.snapshots) w.same_start ∙ still) w.validated.newest),
    )
