-- ===== src/System/Replays.antt =====
-- An idempotency key is answered for as long as the service runs.
use ai_spec_driven_developme.Prelude.{
  String, ◌≡◌, sym, ◌∙◌, ap, refl, true, false, Option, List, [], ◌∷◌, ◌++◌, ◌≤◌, arith, eq_iff, ℕ,
  map, select, select-append, length, Bool-cases, inl, inr,
}
use ai_spec_driven_developme.Decimal.{le, zero_decimal}
use ai_spec_driven_developme.Errors.{ok}
use ai_spec_driven_developme.Models.{Transfer}
use ai_spec_driven_developme.Session.{Db, Session}
use ai_spec_driven_developme.Repository.Insert.{has_key}
use ai_spec_driven_developme.Repository.TransferRepository.{get_idempotency_record}
use ai_spec_driven_developme.Service.TransferService.{
  CreateTransferRequest, replay_or_run, execute_transfer,
}
use ai_spec_driven_developme.Service.TransferService.Replay.{stored_once}
use ai_spec_driven_developme.Service.CrossCurrencyTransferService.{
  CrossCurrencyTransferResponse, initiate, replay_or_initiate, to_response,
}
use ai_spec_driven_developme.Service.CrossCurrencyTransferService.Validation.{
  CrossCurrencyTransferRequest,
}
use ai_spec_driven_developme.Service.CrossCurrencyTransferService.Recall.{
  as_replay, found_by_key, mine, replayed,
}
use ai_spec_driven_developme.Api.App.{App, Endpoint, new_session}
use ai_spec_driven_developme.System.{Reach, at_time}
use ai_spec_driven_developme.System.Grown.{Grown, lasting_transfer}
use ai_spec_driven_developme.System.Lasting.{Reach-Grown}

-- The key of a transfer is among what lasts of it.
lasting_keys :
    (k : String) (l : List Transfer)
    → map lasting_transfer (select (has_key k) l) ≡ select (has_key k) (map lasting_transfer l)
unfolding select
lasting_keys k [] = refl
lasting_keys k (t ∷ l) = elim (Bool-cases (has_key k t)) [
  | inl p ↦ rw p (ap (λ m. lasting_transfer t ∷ m) (lasting_keys k l))
  | inr p ↦ rw p (lasting_keys k l)
]

-- One row at most, where a row lasts, is one row.
one_left :
    (l rest : List Transfer) (r : Transfer)
    → length l ≤ 1
    → map lasting_transfer l ≡ lasting_transfer r ∷ rest
    → (r' : Transfer) × (l ≡ r' ∷ []) × (lasting_transfer r' ≡ lasting_transfer r)
one_left [] rest r short h = absurd (ground arith)
one_left (a ∷ []) rest r short h = (a, refl, first h)
  where
    first :
        {x y : Transfer} {xs ys : List Transfer} → ◌≡◌ {A = List Transfer} (x ∷ xs) (y ∷ ys) → x ≡ y
    first p = cc
one_left (a ∷ b ∷ l) rest r short h = absurd (ground arith)

at_most : {l : List Transfer} {r : Transfer} → l ≡ r ∷ [] → length l ≤ 1
at_most p = rw p (ground arith)

still_found :
    (k : String) (r : Transfer) {before after : Db}
    → Grown before after
    → select (has_key k) before.transfers ≡ r ∷ []
    → (r' : Transfer) × (select (has_key k) after.transfers ≡ r' ∷ [])
      × (lasting_transfer r' ≡ lasting_transfer r)
still_found k r {before} {after} grown found =
    one_left (select (has_key k) after.transfers) (select (has_key k) grown.transfers.rest) r
      (grown.one_transfer k (at_most found))
      (lasting_keys k after.transfers
        ∙ ap (select (has_key k)) grown.transfers.appended
        ∙ select-append (has_key k) (map lasting_transfer before.transfers) grown.transfers.rest
        ∙ ap (λ m. m ++ select (has_key k) grown.transfers.rest)
            (sym (lasting_keys k before.transfers) ∙ ap (map lasting_transfer) found))

module _ {app : App} {allowed : Endpoint → Type 0} (caller_id key : String)
    (request_id request_id' : Option String) (s : Session) {t : Session} {after : Db}
    (reach : Reach app allowed t.db after) (draws utcnow db_now : ℕ) where
  -- Once a new transfer was made, and after any run of the service that follows and any time, a request with its key and
  -- its caller, whatever positive amount and accounts it names, returns the transfer as a replay,
  -- the same but for its status, reason and destination amount, and changes no table.
  pub execute_transfer-replay_later :
      (request again : CreateTransferRequest) {r : Transfer}
      → execute_transfer app.engine app.exchange_rates request caller_id key request_id s
        ≡ (ok (r, false), t)
      → le again.amount zero_decimal ≡ false
      → (r' : Transfer) × (execute_transfer
            (at_time app utcnow db_now).engine
            app.exchange_rates
            again
            caller_id
            key
            request_id'
            (new_session after draws)
          ≡ (ok (r', true), record (new_session after draws) { in_transaction = true }))
        × (lasting_transfer r' ≡ lasting_transfer r)
  unfolding execute_transfer get_idempotency_record replay_or_run
  execute_transfer-replay_later request again {r} done positive =
      let (found, called) =
        stored_once app.engine app.exchange_rates request caller_id key request_id s done in
      let (r', now, lasts) = still_found key r (Reach-Grown reach) found in
      (
        r',
        rw (
          positive,
          now,
          (eq_iff r'.caller_id caller_id).1 (ap (λ x. x.caller_id) lasts ∙ called),
        ),
        lasts,
      )

  -- Likewise for a cross-currency transfer: the answer is what its status would be.
  pub initiate-replay_later :
      (request again : CrossCurrencyTransferRequest) {r : CrossCurrencyTransferResponse}
      → initiate app.engine app.settings request caller_id key request_id s ≡ (ok (r, false), t)
      → (r' : Transfer) × (initiate
            (at_time app utcnow db_now).engine
            app.settings
            again
            caller_id
            key
            request_id'
            (new_session after draws)
          ≡ (
            as_replay (to_response r'),
            record (new_session after draws) { in_transaction = true },
          ))
        × (lasting_transfer r' ≡ lasting_transfer r.transfer)
  unfolding initiate get_idempotency_record replay_or_initiate
  initiate-replay_later request again {r} done =
      let found =
        found_by_key app.engine app.settings request caller_id key request_id s done t refl in
      let called = mine app.engine app.settings request caller_id key request_id s done t refl in
      let (r', now, lasts) = still_found key r.transfer (Reach-Grown reach) found in
      (
        r',
        rw
            (
              now,
              (eq_iff r'.caller_id caller_id).1
                  (ap (λ x. x.caller_id) lasts ∙ (eq_iff r.transfer.caller_id caller_id).0 called),
            )
            (replayed (to_response r')
              (record (new_session after draws) { in_transaction = true })),
        lasts,
      )
