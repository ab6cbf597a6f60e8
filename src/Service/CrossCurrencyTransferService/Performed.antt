-- ===== src/Service/CrossCurrencyTransferService/Performed.antt =====
-- The accounts after the writes of a cross-currency transfer.
use ai_spec_driven_developme.Session.Unwinding.{after_balance, after_lift}
use ai_spec_driven_developme.Prelude.{
  ℕ, String, ◌≡◌, sym, subst, ◌∙◌, ap, Option, some, none, List, arith, Option-cases, inl, inr,
}
use ai_spec_driven_developme.Decimal.{Decimal, sub, add}
use ai_spec_driven_developme.Errors.{Result, ok}
use ai_spec_driven_developme.Models.{Account, Transfer, processing, completed}
use ai_spec_driven_developme.Config.{Settings}
use ai_spec_driven_developme.Session.{Engine, Db, Session, Action, modify, current_balance}
use ai_spec_driven_developme.Session.Keeps.{Keeps, accounts_of}
use ai_spec_driven_developme.Session.Laws.{after_bind, ok-injective, set_balance-eq-ok}
use ai_spec_driven_developme.Session.Rows.{update_row, with_balance}
use ai_spec_driven_developme.Repository.TransferRepository.{create_cross_currency_transfer}
use ai_spec_driven_developme.Repository.TransferRepository.StatusUpdate.{update_transfer_status}
use ai_spec_driven_developme.Service.CrossCurrencyTransferService.{
  move_balances, assign_destination_amount, notify, aml_kyc_check, perform,
}
use ai_spec_driven_developme.Service.CrossCurrencyTransferService.Validation.{
  CrossCurrencyTransferRequest, Plan,
}
use ai_spec_driven_developme.Service.CrossCurrencyTransferService.Computation.{to_quantum}
use ai_spec_driven_developme.Service.CrossCurrencyTransferService.KeepsAccounts.{
  create_cross_currency_transfer-Keeps, update_transfer_status-Keeps, notify-Keeps,
  aml_kyc_check-Keeps, assign_destination_amount-Keeps,
}

-- The two balances: what was computed, and what the columns made of it.
pub record Balances (e : Engine) (plan : Plan) (before after : List Account) (db : Db)
    : Type 0 where
  pub left : Decimal
  pub debited : Decimal
  pub grown : Decimal
  pub credited : Decimal
  pub left_computed :
      to_quantum (sub plan.source_account.balance plan.amounts.total_sender_cost) ≡ ok left
  pub debit : e.numeric 19 4 left ≡ some debited
  pub grown_computed :
      to_quantum (
        add
          (current_balance plan.destination_account (record db {
            accounts = update_row plan.source_account.account_number (with_balance debited) before;
          }))
          plan.amounts.net_amount)
      ≡ ok grown
  pub credit : e.numeric 19 4 grown ≡ some credited
  pub accounts_after :
      after
      ≡ update_row plan.destination_account.account_number
          (with_balance credited)
          (update_row plan.source_account.account_number (with_balance debited) before)

move_balances-Balances :
    (e : Engine) (plan : Plan) (s : Session) {x : Unit {0}} {t : Session}
    → move_balances e plan s ≡ (ok x, t)
    → Balances e plan s.db.accounts t.db.accounts s.db
unfolding move_balances
move_balances-Balances e plan s {t = t} h =
    after_lift (to_quantum (sub plan.source_account.balance plan.amounts.total_sender_cost)) _ s h
      λ left f1 h1.
        after_balance e plan.source_account.account_number left _ s h1 λ debited debit h2.
          let paid : Session = record s {
            db = record s.db {
              accounts =
                  update_row plan.source_account.account_number (with_balance debited)
                    s.db.accounts;
            };
          } in
          after_lift
            (to_quantum
              (add (current_balance plan.destination_account paid.db) plan.amounts.net_amount))
            _ paid h2
            λ grown f3 h3.
              let (credited, credit, e4) =
                set_balance-eq-ok e plan.destination_account.account_number grown paid h3 in
              record {
                left = left;
                debited = debited;
                grown = grown;
                credited = credited;
                left_computed = f1;
                debit = debit;
                grown_computed = f3;
                credit = credit;
                accounts_after = ap (λ u. u.db.accounts) e4;
              }

same_accounts :
    {A : Type 0} (m : Action A) (s : Session) {r : Result A} {t : Session}
    → Keeps accounts_of m
    → m s ≡ (r, t)
    → t.db.accounts ≡ s.db.accounts
same_accounts m s k h = ap (λ p. p.1.db.accounts) (sym h) ∙ k.at s

-- The net amount was stored in a Numeric(19, 4) column.
net_stored :
    (e : Engine) (id : ℕ) (net : Decimal) (s : Session) {x : Unit {0}} {t : Session}
    → assign_destination_amount e id net s ≡ (ok x, t)
    → (d : Decimal) × (e.numeric 19 4 net ≡ some d)
unfolding assign_destination_amount
net_stored e id net s h = elim (Option-cases (e.numeric 19 4 net)) [
  | inl refused ↦ absurd (ground (arith, rw (refused, modify) at h))
  | inr found ↦ found
]

-- Of the writes only the two balances change accounts.
pub record Performed (e : Engine) (plan : Plan) (before after : List Account) : Type 0 where
  pub db : Db
  pub balances : Balances e plan before after db
  pub net : Decimal
  pub net_taken : e.numeric 19 4 plan.amounts.net_amount ≡ some net

module _ (e : Engine) (settings : Settings) (request : CrossCurrencyTransferRequest)
    (caller_id key : String) (request_id : Option String) (plan : Plan) where
  pub perform-Performed :
      (s : Session) {r : Transfer} {t : Session}
      → perform e settings request caller_id key request_id plan s ≡ (ok r, t)
      → Performed e plan s.db.accounts t.db.accounts
  unfolding perform
  perform-Performed s {r} {t} h =
      after_bind _ (create_cross_currency_transfer e _ s) h λ row s1 p1 h1.
        after_bind _ (update_transfer_status e row.id processing none request_id s1) h1
          λ _ s2 p2 h2. after_bind _ (move_balances e plan s2) h2 λ _ s3 p3 h3.
            after_bind _ (assign_destination_amount e row.id plan.amounts.net_amount s3) h3
              λ _ s4 p4 h4.
                after_bind _ (update_transfer_status e row.id completed none request_id s4) h4
                  λ done s5 p5 h5.
                    after_bind _ (notify e done plan caller_id request_id s5) h5 λ _ s6 p6 h6.
                      after_bind _ (aml_kyc_check e settings done plan request_id s6) h6
                        λ _ s7 p7 h7.
                          let k1 =
                            same_accounts (create_cross_currency_transfer e _) s
                              (create_cross_currency_transfer-Keeps e _) p1 in
                          let k2 =
                            same_accounts
                              (update_transfer_status e row.id processing none request_id) s1
                              (update_transfer_status-Keeps e row.id processing none request_id)
                              p2 in
                          let k4 =
                            same_accounts
                              (assign_destination_amount e row.id plan.amounts.net_amount) s3
                              (assign_destination_amount-Keeps e row.id plan.amounts.net_amount)
                              p4 in
                          let k5 =
                            same_accounts
                              (update_transfer_status e row.id completed none request_id) s4
                              (update_transfer_status-Keeps e row.id completed none request_id)
                              p5 in
                          let k6 =
                            same_accounts (notify e done plan caller_id request_id) s5
                              (notify-Keeps e done plan caller_id request_id) p6 in
                          let k7 =
                            same_accounts (aml_kyc_check e settings done plan request_id) s6
                              (aml_kyc_check-Keeps e settings done plan request_id) p7 in
                          let (_, e8) = ok-injective done r s7 t h7 in
                          let after = ap (λ u. u.db.accounts) (sym e8) ∙ k7 ∙ k6 ∙ k5 ∙ k4 in
                          let (net, taken) = net_stored e row.id plan.amounts.net_amount s3 p4 in
                          record {
                            db = s2.db;
                            balances =
                                subst (λ l. Balances e plan l t.db.accounts s2.db) (k2 ∙ k1)
                                  (subst (λ l. Balances e plan s2.db.accounts l s2.db) (sym after)
                                    (move_balances-Balances e plan s2 p3));
                            net = net;
                            net_taken = taken;
                          }
