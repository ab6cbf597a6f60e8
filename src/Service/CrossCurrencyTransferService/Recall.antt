-- ===== src/Service/CrossCurrencyTransferService/Recall.antt =====
-- A cross-currency transfer as it is found again: by its key, in a repeated request, and by its id.
use ai_spec_driven_developme.Prelude.{
  Bool, Option, String, [], ap, arith, eq_iff, false, none, not, refl, select, some, str_eq, subst,
  sym, true, ◌++◌, ◌∙◌, ◌∷◌, ◌≡◌,
}
use ai_spec_driven_developme.Service.CrossCurrencyTransferService.{
  CrossCurrencyTransferResponse, get_status, initiate, initiate_block, own_transfer_or_raise,
  perform, replay_or_initiate, to_response,
}
use ai_spec_driven_developme.Service.CrossCurrencyTransferService.Validation.{
  CrossCurrencyTransferRequest, Plan, validate,
}
use ai_spec_driven_developme.Session.{
  Db, Engine, Session, lift, raise_when, transaction, pure, ◌>>=◌,
}
use ai_spec_driven_developme.Service.CrossCurrencyTransferService.Records.{
  Recorded, perform-Recorded,
}
use ai_spec_driven_developme.Service.CrossCurrencyTransferService.Records.Filling.{planned}
use ai_spec_driven_developme.Service.CrossCurrencyTransferService.Records.LastRow.{
  last_selected, own_id,
}
use ai_spec_driven_developme.Errors.{Result, err, ok}
use ai_spec_driven_developme.Config.{Settings}
use ai_spec_driven_developme.Models.{Transfer}
use ai_spec_driven_developme.Service.CrossCurrencyTransferService.Inversion.{
  Validated, validate-Validated,
}
use ai_spec_driven_developme.Session.Laws.{after_bind, ok-injective, second, transaction-eq-ok}
use ai_spec_driven_developme.Repository.TransferRepository.{
  get_idempotency_record, get_transfer_by_id, has_id,
}
use ai_spec_driven_developme.Repository.Insert.{has_key}
use ai_spec_driven_developme.Service.TransferService.Replay.{has_key_only}
use ai_spec_driven_developme.Session.Rows.{scalar_one_or_none}
use ai_spec_driven_developme.Repository.TransferRepository.Transitions.{none_found}

module _ (e : Engine) (settings : Settings) (request : CrossCurrencyTransferRequest)
    (caller_id key : String) (request_id : Option String) where
  -- A new transfer: its key was unused and the tests passed, on the same tables.
  pub record Initiated (before : Db) (r : CrossCurrencyTransferResponse) (after : Db) : Type 0 where
    pub plan : Plan
    pub start : Session
    pub same_start : start.db ≡ before
    pub checked : Session
    pub validated : Validated e settings request caller_id start plan checked
    pub unused : select (has_key key) before.transfers ≡ []
    pub recorded :
        Recorded e
          (planned e request caller_id key request_id plan)
          before.transfers
          r.transfer
          after.transfers

  block-Initiated :
      (s : Session) {r : CrossCurrencyTransferResponse} {t : Session}
      → select (has_key key) s.db.transfers ≡ []
      → initiate_block e settings request caller_id key request_id s ≡ (ok r, t)
      → Initiated s.db r t.db
  unfolding initiate_block
  block-Initiated s {r} {t} unused h =
      after_bind _ (validate e settings request caller_id s) h λ plan s1 p1 h1.
        after_bind _ (perform e settings request caller_id key request_id plan s1) h1
          λ row s2 p2 h2.
            let v = validate-Validated e settings request caller_id s p1 in
            let (same, e3) = ok-injective _ r s2 t h2 in
            record {
              plan = plan;
              start = s;
              same_start = refl;
              checked = s1;
              validated = v;
              unused = unused;
              recorded =
                  subst
                    (λ x.
                      Recorded e (planned e request caller_id key request_id plan) s.db.transfers x
                        t.db.transfers)
                    (ap (λ (x : CrossCurrencyTransferResponse). x.transfer) same)
                    (subst
                      (λ (u : Session).
                        Recorded e (planned e request caller_id key request_id plan) s.db.transfers
                          row u.db.transfers)
                      e3
                      (subst
                        (λ (db : Db).
                          Recorded e (planned e request caller_id key request_id plan) db.transfers
                            row s2.db.transfers)
                        v.same_db
                        (perform-Recorded e settings request caller_id key request_id plan s1 p2)));
            }

  replay_or_initiate-Initiated :
      (found : Option Transfer) (s : Session) {r : CrossCurrencyTransferResponse} {t : Session}
      → scalar_one_or_none (select (has_key key) s.db.transfers) ≡ ok found
      → replay_or_initiate e settings request caller_id key request_id found s ≡ (ok (r, false), t)
      → Initiated s.db r t.db
  unfolding replay_or_initiate
  replay_or_initiate-Initiated (some earlier) s q h =
      after_bind _ (raise_when (not (str_eq earlier.caller_id caller_id)) _ s) h λ _ s1 p1 h1.
        after_bind _ (lift (to_response earlier) s1) h1 λ response s2 p2 h2. absurd (ground arith)
  replay_or_initiate-Initiated none s {r} {t} q h =
      after_bind _ (transaction e (initiate_block e settings request caller_id key request_id) s) h
        λ response s1 p1 h1.
          let (u, ran, kept) =
            transaction-eq-ok e (initiate_block e settings request caller_id key request_id) s p1 in
          let (pair, e2) = ok-injective (response, false) (r, false) s1 t h1 in
          let w =
            block-Initiated (record s { in_transaction = true })
              (none_found (select (has_key key) s.db.transfers) q) ran in
          subst (λ x. Initiated s.db x t.db) (ap (λ p. p.0) pair)
            (subst (λ db. Initiated s.db response db)
              (sym (ap (λ (v : Session). v.db) (sym e2) ∙ kept)) w)

  pub initiate-Initiated :
      (s : Session) {r : CrossCurrencyTransferResponse} {t : Session}
      → initiate e settings request caller_id key request_id s ≡ (ok (r, false), t)
      → Initiated s.db r t.db
  unfolding initiate get_idempotency_record
  initiate-Initiated s {r} {t} h = after_bind _ (get_idempotency_record key s) h λ found s1 p1 h1.
      let same : s1.db ≡ s.db = ap (λ u. u.db) (sym (second p1)) in
      subst (λ db. Initiated db r t.db) same
        (replay_or_initiate-Initiated found s1
          (ap (λ (db : Db). scalar_one_or_none (select (has_key key) db.transfers)) same
            ∙ ap (λ p. p.0) p1)
          h1)

module _ (e : Engine) (settings : Settings) (request : CrossCurrencyTransferRequest)
    (caller_id key : String) (request_id : Option String) where
  replay_or_initiate-same_db :
      (found : Option Transfer) (s : Session) {r : CrossCurrencyTransferResponse} {t : Session}
      → replay_or_initiate e settings request caller_id key request_id found s ≡ (ok (r, true), t)
      → t.db ≡ s.db
  unfolding replay_or_initiate
  replay_or_initiate-same_db (some earlier) s h =
      after_bind _ (raise_when (not (str_eq earlier.caller_id caller_id)) _ s) h λ _ s1 p1 h1.
        after_bind _ (lift (to_response earlier) s1) h1
          λ response s2 p2 h2. ap (λ u. u.db) (sym (second h2) ∙ sym (second p2) ∙ sym (second p1))
  replay_or_initiate-same_db none s h =
      after_bind _ (transaction e (initiate_block e settings request caller_id key request_id) s) h
        λ response s1 p1 h1. absurd (ground arith)

  -- A replay changes no table.
  pub initiate-same_db :
      (s : Session) {r : CrossCurrencyTransferResponse} {t : Session}
      → initiate e settings request caller_id key request_id s ≡ (ok (r, true), t)
      → t.db ≡ s.db
  unfolding initiate get_idempotency_record
  initiate-same_db s h =
      after_bind _ (get_idempotency_record key s) h
        λ found s1 p1 h1. replay_or_initiate-same_db found s1 h1 ∙ ap (λ u. u.db) (sym (second p1))

abbrev pub as_replay :
    Result CrossCurrencyTransferResponse → Result (CrossCurrencyTransferResponse × Bool)
as_replay (err x) = err x
as_replay (ok r) = ok (r, true)

pub replayed :
    (r : Result CrossCurrencyTransferResponse) (u : Session)
    → (lift r >>= λ response. pure (response, true)) u ≡ (as_replay r, u)
replayed (err x) u = refl
replayed (ok r) u = refl

module _ (e : Engine) (settings : Settings) (request : CrossCurrencyTransferRequest)
    (caller_id key : String) (request_id : Option String) (s : Session)
    {r : CrossCurrencyTransferResponse} {t : Session}
    (done : initiate e settings request caller_id key request_id s ≡ (ok (r, false), t))
    (s' : Session) (same : s'.db ≡ t.db) where
  pub found_by_key : select (has_key key) s'.db.transfers ≡ r.transfer ∷ []
  found_by_key =
      let w = initiate-Initiated e settings request caller_id key request_id s done in
      ap (λ (db : Db). select (has_key key) db.transfers) same
      ∙ ap (select (has_key key)) w.recorded.added
      ∙ has_key_only key s.db.transfers r.transfer w.unused w.recorded.filled.keyed

  found_by_id : select (has_id r.transfer.id) s'.db.transfers ≡ r.transfer ∷ []
  found_by_id =
      let w = initiate-Initiated e settings request caller_id key request_id s done in
      ap (λ (db : Db). select (has_id r.transfer.id) db.transfers) same
      ∙ ap (select (has_id r.transfer.id)) w.recorded.added
      ∙ last_selected r.transfer.id s.db.transfers r.transfer (own_id r.transfer)
      ∙ ap (λ l. l ++ r.transfer ∷ []) w.recorded.new_id

  pub mine : str_eq r.transfer.caller_id caller_id ≡ true
  mine =
      (eq_iff r.transfer.caller_id caller_id).1
        (initiate-Initiated e settings request caller_id key request_id s
          done).recorded.filled.called

  -- On the tables as a new cross-currency transfer left them, its caller reads the transfer back by
  -- its id, with the gross amount computed anew from the stored amount and rate; no table changes.
  pub initiate-get_status :
      get_status r.transfer.id caller_id s'
      ≡ (to_response r.transfer, record s' { in_transaction = true })
  unfolding get_status get_transfer_by_id own_transfer_or_raise
  initiate-get_status = rw (found_by_id, mine)

  -- On the tables as a new cross-currency transfer left them, a request with its key and its caller,
  -- whatever it asks for, is answered with that transfer, marked as a replay, as its status would
  -- be; nothing is moved and no table changes.
  pub initiate-replay :
      (again : CrossCurrencyTransferRequest) (settings' : Settings) (request_id' : Option String)
      → initiate e settings' again caller_id key request_id' s'
        ≡ (as_replay (to_response r.transfer), record s' { in_transaction = true })
  unfolding initiate get_idempotency_record replay_or_initiate
  initiate-replay again settings' request_id' =
      rw (found_by_key, mine)
        (replayed (to_response r.transfer) (record s' { in_transaction = true }))
