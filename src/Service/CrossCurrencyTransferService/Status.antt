-- ===== src/Service/CrossCurrencyTransferService/Status.antt =====
-- Who may read the status of a transfer.
use ai_spec_driven_developme.Prelude.{
  ℕ, String, ◌≡◌, ◌∙◌, ap, Option, none, some, [], ◌∷◌, select, eq_iff, arith,
}
use ai_spec_driven_developme.Errors.{ok}
use ai_spec_driven_developme.Models.{Transfer}
use ai_spec_driven_developme.Session.{Session}
use ai_spec_driven_developme.Session.Laws.{after_bind}
use ai_spec_driven_developme.Repository.TransferRepository.{has_id, get_transfer_by_id}
use ai_spec_driven_developme.Repository.TransferRepository.Transitions.{transfer_found, one_found}
use ai_spec_driven_developme.Service.TransferService.Inversion.{lift-eq-ok}
use ai_spec_driven_developme.Service.CrossCurrencyTransferService.{
  CrossCurrencyTransferResponse, to_response, own_transfer_or_raise, get_status,
}

own-eq-ok :
    (caller_id : String) (o : Option Transfer) {r : CrossCurrencyTransferResponse}
    → own_transfer_or_raise caller_id o ≡ ok r
    → (o ≡ some r.transfer) × (r.transfer.caller_id ≡ caller_id)
unfolding own_transfer_or_raise to_response
own-eq-ok caller_id none h = cc
own-eq-ok caller_id (some x) h = (ground arith, ground (arith, eq_iff x.caller_id caller_id))

-- A status that is returned is that of the one transfer with the id, which the caller has made; no table
-- changes.
pub get_status-own :
    (id : ℕ) (caller_id : String) (s : Session) {r : CrossCurrencyTransferResponse} {t : Session}
    → get_status id caller_id s ≡ (ok r, t)
    → (select (has_id id) s.db.transfers ≡ r.transfer ∷ [])
      × (r.transfer.caller_id ≡ caller_id)
      × (t.db ≡ s.db)
unfolding get_status
get_status-own id caller_id s {r} h = after_bind _ (get_transfer_by_id id s) h λ found s1 p1 h1.
    let (q, same) = transfer_found id s p1 in
    let (f, e1) = lift-eq-ok (own_transfer_or_raise caller_id found) s1 h1 in
    let (is_found, mine) = own-eq-ok caller_id found f in
    (
      one_found (select (has_id id) s.db.transfers) r.transfer (q ∙ ap ok is_found),
      mine,
      ap (λ u. u.db) e1 ∙ same,
    )
