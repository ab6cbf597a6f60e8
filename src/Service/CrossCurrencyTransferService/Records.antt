-- ===== src/Service/CrossCurrencyTransferService/Records.antt =====
-- The row that a cross-currency transfer adds to the transfers.
pub mod LastRow
pub mod Filling
use ai_spec_driven_developme.Service.CrossCurrencyTransferService.Records.Filling.{
  Filled, row-Filled, Filled-changed, planned,
}
use ai_spec_driven_developme.Service.CrossCurrencyTransferService.Records.LastRow.{
  only_last, last_selected, none_before, update_transfer-none, update_transfer-last, own_id,
  with_status-id,
}
use ai_spec_driven_developme.Models.{
  AuditLogEntry, Notification, Transfer, TransferStatus, completed,
  cross_currency_transfer_initiated, processing,
}
use ai_spec_driven_developme.Session.{Db, Engine, set_balance, Action, Session, modify}
use ai_spec_driven_developme.Decimal.{Decimal}
use ai_spec_driven_developme.Session.Keeps.{Keeps, keeps_rules}
use ai_spec_driven_developme.Prelude.{
  List, Option, String, [], arith, refl, select, true, ℕ, ◌++◌, ◌∷◌, ◌≡◌, Option-cases, ap, inl,
  inr, none, select-append, sym, ◌∙◌, some, subst, ◌+◌,
}
use ai_spec_driven_developme.Service.CrossCurrencyTransferService.{
  aml_kyc_check, move_balances, notify, assign_destination_amount, perform,
}
use ai_spec_driven_developme.Service.CrossCurrencyTransferService.Validation.{
  Plan, CrossCurrencyTransferRequest,
}
use ai_spec_driven_developme.Config.{Settings}
use ai_spec_driven_developme.Repository.NotificationRepository.{create_notification}
use ai_spec_driven_developme.Service.NotificationService.{create_transfer_notifications, deliver}
use ai_spec_driven_developme.Repository.TransferRepository.{
  has_id, write_audit_log, CrossCurrencyArguments, create_cross_currency_transfer, add_transfer,
  cross_currency_row,
}
use ai_spec_driven_developme.Repository.TransferRepository.StatusUpdate.{
  update_transfer, with_status, update_transfer_status,
}
use ai_spec_driven_developme.Repository.Insert.{insert_audit, insert_notification}
use ai_spec_driven_developme.Errors.{ok, Result}
use ai_spec_driven_developme.Repository.TransferRepository.Laws.{
  add_transfer-eq-ok, write_audit_log-eq-ok,
}
use ai_spec_driven_developme.Session.Laws.{after_bind, ok-injective}
use ai_spec_driven_developme.Repository.TransferRepository.Transitions.{
  update_transfer_status-Updated,
}

abbrev transfers_of : Db → List Transfer
transfers_of db = db.transfers

insert_audit-transfers :
    (e : Engine) (entry : AuditLogEntry) (db db' : Db)
    → insert_audit e entry db ≡ ok db'
    → transfers_of db' ≡ transfers_of db
unfolding insert_audit
insert_audit-transfers e entry db db' h = ground arith

insert_notification-transfers :
    (e : Engine) (n : Notification) (db db' : Db)
    → insert_notification e n db ≡ ok db'
    → transfers_of db' ≡ transfers_of db
unfolding insert_notification
insert_notification-transfers e n db db' h = ground arith

set_balance-transfers :
    (e : Engine) (number : String) (d : Decimal) (db db' : Db)
    → set_balance e number d db ≡ ok db'
    → transfers_of db' ≡ transfers_of db
unfolding set_balance
set_balance-transfers e number d db db' h = ground arith

ruleset kept =
    (keeps_rules, insert_audit-transfers, insert_notification-transfers, set_balance-transfers)

module _ (e : Engine) (plan : Plan) where
  move_balances-Keeps_transfers : Keeps transfers_of (move_balances e plan)
  unfolding move_balances
  move_balances-Keeps_transfers = search kept depth 20

  notify-Keeps_transfers :
      (t : Transfer) (caller_id : String) (request_id : Option String)
      → Keeps transfers_of (notify e t plan caller_id request_id)
  unfolding notify create_transfer_notifications deliver create_notification write_audit_log
  notify-Keeps_transfers t caller_id request_id = search kept depth 20

  aml_kyc_check-Keeps_transfers :
      (settings : Settings) (t : Transfer) (request_id : Option String)
      → Keeps transfers_of (aml_kyc_check e settings t plan request_id)
  unfolding aml_kyc_check write_audit_log
  aml_kyc_check-Keeps_transfers settings t request_id = search kept

same_transfers :
    {A : Type 0} (m : Action A) (s : Session) {r : Result A} {t : Session}
    → Keeps transfers_of m
    → m s ≡ (r, t)
    → t.db.transfers ≡ s.db.transfers
same_transfers m s k h = ap (λ p. p.1.db.transfers) (sym h) ∙ k.at s

-- A row that was added, with what it was made of.
record Begun (e : Engine) (a : CrossCurrencyArguments) (before : List Transfer) (row : Transfer)
    (after : List Transfer) : Type 0 where
  pub added : after ≡ before ++ row ∷ []
  pub filled : Filled e a row

create_cross_currency_transfer-Begun :
    (e : Engine) (a : CrossCurrencyArguments) (s : Session) {row : Transfer} {t : Session}
    → create_cross_currency_transfer e a s ≡ (ok row, t)
    → Begun e a s.db.transfers row t.db.transfers
unfolding create_cross_currency_transfer
create_cross_currency_transfer-Begun e a s {row} {t} h =
    after_bind _
      (add_transfer e (cross_currency_row e (e.uuid4 s.draws) a) (record s { draws = s.draws + 1 }))
      h
      λ made u p q.
        after_bind _
          (write_audit_log e cross_currency_transfer_initiated a.caller_id
            (a.source_account_number ∷ a.destination_account_number ∷ []) (some a.source_amount)
            (some a.source_currency) "success" a.request_id u)
          q
          λ _ v p1 q1.
            let (_, added, stored_row) =
              add_transfer-eq-ok e (cross_currency_row e (e.uuid4 s.draws) a)
                (record s { draws = s.draws + 1 }) p in
            let (_, logged) = write_audit_log-eq-ok e _ _ _ _ _ _ _ u p1 in
            let (same, last) = ok-injective made row v t q1 in
            subst (λ r. Begun e a s.db.transfers r t.db.transfers) same
              (record {
                added = ap (λ w. w.db.transfers) (sym last) ∙ logged ∙ added;
                filled = row-Filled e (e.uuid4 s.draws) a stored_row;
              })

assign_destination_amount-rows :
    (e : Engine) (i : ℕ) (net : Decimal) (s : Session) {x : Unit {0}} {t : Session}
    → assign_destination_amount e i net s ≡ (ok x, t)
    → (d : Decimal) × (e.numeric 19 4 net ≡ some d)
      × (t.db.transfers
          ≡ update_transfer i (λ u. record u { destination_amount = d }) s.db.transfers)
unfolding assign_destination_amount
assign_destination_amount-rows e i net s h = elim (Option-cases (e.numeric 19 4 net)) [
  | inl p ↦ absurd (ground (arith, rw (p, modify) at h))
  | inr (d, p) ↦ (d, p, ap (λ v. v.1.db.transfers) (sym (rw (p, modify) at h)))
]

-- A change of the last row alone.
last_changed :
    (i : ℕ) (f : Transfer → Transfer) (l before after : List Transfer) (row : Transfer)
    → select (has_id i) l ≡ []
    → has_id i row ≡ true
    → before ≡ l ++ row ∷ []
    → after ≡ update_transfer i f before
    → after ≡ l ++ f row ∷ []
last_changed i f l before after row none_left same h k =
    k ∙ ap (update_transfer i f) h ∙ update_transfer-last i f l row none_left same

-- What a cross-currency transfer leaves in the table: one row more, completed and filled as
-- planned, with an id that no other row has.
pub record Recorded (e : Engine) (a : CrossCurrencyArguments) (before : List Transfer)
    (r : Transfer) (after : List Transfer) : Type 0 where
  pub added : after ≡ before ++ r ∷ []
  pub new_id : select (has_id r.id) before ≡ []
  pub filled : Filled e a r
  pub done : r.status ≡ completed

-- The rows from `create_cross_currency_transfer` on to the second change of the status.
completed_row :
    {e : Engine} {a : CrossCurrencyArguments} {before l1 l2 l3 l4 l5 : List Transfer}
    {row : Transfer}
    → Begun e a before row l1
    → (old2 : Transfer) → select (has_id row.id) l1 ≡ old2 ∷ []
    → l2 ≡ update_transfer old2.id (with_status processing none) l1
    → l3 ≡ l2
    → (d : Decimal) → e.numeric 19 4 a.destination_amount ≡ some d
    → l4 ≡ update_transfer row.id (λ u. record u { destination_amount = d }) l3
    → (old5 : Transfer) → select (has_id row.id) l4 ≡ old5 ∷ []
    → l5 ≡ update_transfer old5.id (with_status completed none) l4
    → Recorded e a before (with_status completed none old5) l5
unfolding with_status
completed_row {e = e} {a} {before} {l1 = l1} {l2} {l3} {l4} {l5} {row} begun old2 found2 h2 h3 d
      taken h4 old5 found5 h5 =
    let (none_left, same2) =
      none_before row.id before row old2 (own_id row)
        (ap (select (has_id row.id)) (sym begun.added) ∙ found2) in
    let row2 = record row { status = processing } in
    let at2 =
      last_changed row.id (with_status processing none) before l1 l2 row none_left (own_id row)
        begun.added
        (h2 ∙ ap (λ (x : Transfer). update_transfer x.id (with_status processing none) l1) same2) in
    let row4 = record row2 { destination_amount = d } in
    let at4 =
      last_changed row.id (λ u. record u { destination_amount = d }) before l3 l4 row2 none_left
        (own_id row) (h3 ∙ at2) h4 in
    let (_, same5) =
      none_before row.id before row4 old5 (own_id row)
        (ap (select (has_id row.id)) (sym at4) ∙ found5) in
    subst (λ x. Recorded e a before (with_status completed none x) l5) (sym same5)
      (record {
        added =
            last_changed row.id (with_status completed none) before l4 l5 row4 none_left
              (own_id row) at4
              (h5
                ∙ ap (λ (x : Transfer). update_transfer x.id (with_status completed none) l4)
                    same5);
        new_id = none_left;
        filled = Filled-changed begun.filled taken;
        done = refl;
      })

module _ (e : Engine) (settings : Settings) (request : CrossCurrencyTransferRequest)
    (caller_id key : String) (request_id : Option String) where
  pub perform-Recorded :
      (plan : Plan) (s : Session) {r : Transfer} {t : Session}
      → perform e settings request caller_id key request_id plan s ≡ (ok r, t)
      → Recorded e (planned e request caller_id key request_id plan) s.db.transfers r t.db.transfers
  unfolding perform
  perform-Recorded plan s {r} {t} h =
      after_bind _ (create_cross_currency_transfer e _ s) h λ row s1 p1 h1.
        after_bind _ (update_transfer_status e row.id processing none request_id s1) h1
          λ _ s2 p2 h2. after_bind _ (move_balances e plan s2) h2 λ _ s3 p3 h3.
            after_bind _ (assign_destination_amount e row.id plan.amounts.net_amount s3) h3
              λ _ s4 p4 h4.
                after_bind _ (update_transfer_status e row.id completed none request_id s4) h4
                  λ done s5 p5 h5.
                    after_bind _ (notify e done plan caller_id request_id s5) h5 λ _ s6 p6 h6.
                      after_bind _ (aml_kyc_check e settings done plan request_id s6) h6
                        λ _ s7 p7 h7.
                          let begun = create_cross_currency_transfer-Begun e _ s p1 in
                          let w2 =
                            update_transfer_status-Updated e row.id processing none request_id s1
                              p2 in
                          let k3 =
                            same_transfers (move_balances e plan) s2
                              (move_balances-Keeps_transfers e plan) p3 in
                          let (d, taken, k4) =
                            assign_destination_amount-rows e row.id plan.amounts.net_amount s3 p4 in
                          let w5 =
                            update_transfer_status-Updated e row.id completed none request_id s4
                              p5 in
                          let k6 =
                            same_transfers (notify e done plan caller_id request_id) s5
                              (notify-Keeps_transfers e plan done caller_id request_id) p6 in
                          let k7 =
                            same_transfers (aml_kyc_check e settings done plan request_id) s6
                              (aml_kyc_check-Keeps_transfers e plan settings done request_id) p7 in
                          let (same, e8) = ok-injective done r s7 t h7 in
                          let w =
                            completed_row begun w2.old w2.found w2.rows_after k3 d taken k4 w5.old
                              w5.found w5.rows_after in
                          subst
                            (λ x.
                              Recorded e (planned e request caller_id key request_id plan)
                                s.db.transfers x t.db.transfers)
                            (sym w5.result ∙ same)
                            (subst
                              (λ l.
                                Recorded e (planned e request caller_id key request_id plan)
                                  s.db.transfers (with_status completed none w5.old) l)
                              (sym (ap (λ u. u.db.transfers) (sym e8) ∙ k7 ∙ k6)) w)
