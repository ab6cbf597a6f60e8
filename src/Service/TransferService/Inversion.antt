-- ===== src/Service/TransferService/Inversion.antt =====
-- What a transfer that went through has found and done, step by step.
use ai_spec_driven_developme.Session.Unwinding.{after_balance, after_lift, after_test}
use ai_spec_driven_developme.Prelude.{
  String, ◌≡◌, refl, sym, subst, ◌∙◌, ap, true, false, Option, some, List, [], ◌∷◌, ◌++◌, arith,
}
use ai_spec_driven_developme.Decimal.{Decimal, sub, add, lt}
use ai_spec_driven_developme.Errors.{Result, ok}
use ai_spec_driven_developme.Models.{Account, Transfer, completed}
use ai_spec_driven_developme.Config.{ExchangeRateConfig}
use ai_spec_driven_developme.Session.{Engine, Db, Session, lift, current_balance}
use ai_spec_driven_developme.Session.Laws.{second, ok-injective, after_bind}
use ai_spec_driven_developme.Session.Rows.{rows, update_row, with_balance}
use ai_spec_driven_developme.Repository.TransferRepository.{create_transfer, write_audit_log}
use ai_spec_driven_developme.Repository.TransferRepository.Laws.{
  create_transfer-eq-ok, write_audit_log-eq-ok,
}
use ai_spec_driven_developme.Repository.AccountRepository.{is_active_account}
use ai_spec_driven_developme.Service.ExchangeRateService.{get_max_transfer_amount, get_rate}
use ai_spec_driven_developme.Service.TransferService.{
  CreateTransferRequest, load_active, converted, move_money, transfer_block,
}

-- A number that was loaded has one row, and that is active.
pub record Loaded (number : String) (s : Session) (a : Account) (t : Session) : Type 0 where
  pub found : rows number s.db.accounts ≡ a ∷ []
  pub is_active : is_active_account a ≡ true
  pub same_db : t.db ≡ s.db

pub load_active-eq-ok :
    (number : String) (s : Session) {a : Account} {t : Session}
    → load_active number s ≡ (ok a, t)
    → Loaded number s a t
unfolding load_active
load_active-eq-ok number s {a} {t} h = by_rows (rows number s.db.accounts) refl
  where
    by_rows : (l : List Account) → rows number s.db.accounts ≡ l → Loaded number s a t
    by_rows [] p = absurd (ground arith)
    by_rows (b ∷ []) p = ground arith
    by_rows (b ∷ c ∷ l) p = absurd (ground arith)

-- The accounts after the two balances were assigned.
abbrev pub after_balances : Db → String → Decimal → String → Decimal → List Account
after_balances db src d dst x =
    update_row dst (with_balance x) (update_row src (with_balance d) db.accounts)

-- What `move_money` did: the balances that the columns made of the two new values, and one row.
pub record Paid (e : Engine) (request : CreateTransferRequest) (caller_id key : String)
    (source dest : Account) (amount : Decimal) (db : Db) (r : Transfer) (t : Session) : Type 0 where
  pub debited : Decimal
  pub credited : Decimal
  pub debit : e.numeric 19 4 (sub source.balance request.amount) ≡ some debited
  pub credit :
      e.numeric 19 4 (
        add
          (current_balance dest (record db {
            accounts = update_row source.account_number (with_balance debited) db.accounts;
          }))
          amount)
      ≡ some credited
  pub accounts :
      t.db.accounts ≡ after_balances db source.account_number debited dest.account_number credited
  pub recorded : t.db.transfers ≡ db.transfers ++ r ∷ []
  pub keyed : r.idempotency_key ≡ key
  pub called : r.caller_id ≡ caller_id
  pub done : r.status ≡ completed
  pub source_amount : e.numeric 19 4 request.amount ≡ some r.source_amount
  pub destination_amount : e.numeric 19 4 amount ≡ some r.destination_amount

module _ (e : Engine) (request : CreateTransferRequest) (caller_id key : String)
    (request_id : Option String) (source dest : Account) (rate amount : Decimal) where
  move_money-Paid :
      (s : Session) {r : Transfer} {t : Session}
      → move_money e request caller_id key request_id source dest rate amount s ≡ (ok r, t)
      → Paid e request caller_id key source dest amount s.db r t
  unfolding move_money
  move_money-Paid s {r} {t} h =
      after_balance e source.account_number (sub source.balance request.amount) _ s h
        λ debited debit h1.
          let debited_db : Db = record s.db {
            accounts = update_row source.account_number (with_balance debited) s.db.accounts;
          } in
          after_balance e dest.account_number (add (current_balance dest debited_db) amount) _
            (record s { db = debited_db }) h1
            λ credited credit h2.
              let paid : Session = record s {
                db = record s.db {
                  accounts =
                      after_balances s.db source.account_number debited dest.account_number
                        credited;
                };
              } in
              after_bind _ (create_transfer e key _ _ _ _ _ _ _ _ _ _ _ paid) h2 λ row s3 p3 h3.
                after_bind _ (write_audit_log e _ _ _ _ _ _ _ s3) h3 λ _ s4 p4 h4.
                  let (kept3, added, keyed, called, done, to_store, from_store) =
                    create_transfer-eq-ok e key _ _ _ _ _ _ _ _ _ paid p3 in
                  let (kept4, same4) = write_audit_log-eq-ok e _ _ _ _ _ _ _ s3 p4 in
                  let (same_row, same_state) = ok-injective row r s4 t h4 in
                  record {
                    debited = debited;
                    credited = credited;
                    debit = debit;
                    credit = credit;
                    accounts = ap (λ u. u.db.accounts) (sym same_state) ∙ kept4 ∙ kept3;
                    recorded =
                        ap (λ u. u.db.transfers) (sym same_state)
                        ∙ same4
                        ∙ added
                        ∙ ap (λ x. s.db.transfers ++ x ∷ []) same_row;
                    keyed = ap (λ x. x.idempotency_key) (sym same_row) ∙ keyed;
                    called = ap (λ x. x.caller_id) (sym same_row) ∙ called;
                    source_amount = from_store ∙ ap (λ x. some x.source_amount) same_row;
                    destination_amount = to_store ∙ ap (λ x. some x.destination_amount) same_row;
                    done = ap (λ x. x.status) (sym same_row) ∙ done;
                  }

-- What the transaction block of a transfer has found, and done.
pub record Transferred (e : Engine) (fx : ExchangeRateConfig) (request : CreateTransferRequest)
    (caller_id key : String) (s : Session) (r : Transfer) (t : Session) : Type 0 where
  pub source : Account
  pub dest : Account
  pub max_amount : Decimal
  pub rate : Decimal
  pub amount : Decimal
  pub source_found : rows request.source_account_number s.db.accounts ≡ source ∷ []
  pub source_active : is_active_account source ≡ true
  pub dest_found : rows request.destination_account_number s.db.accounts ≡ dest ∷ []
  pub dest_active : is_active_account dest ≡ true
  pub limit : get_max_transfer_amount fx source.currency ≡ ok max_amount
  pub within_limit : lt max_amount request.amount ≡ false
  pub covered : lt source.balance request.amount ≡ false
  pub rated : get_rate fx source.currency dest.currency ≡ ok rate
  pub conversion : converted request.amount rate ≡ ok amount
  pub paid : Paid e request caller_id key source dest amount s.db r t

pub lift-eq-ok {ℓ} :
    {A : Type ℓ} (m : Result A) (s : Session) {a : A} {t : Session}
    → lift m s ≡ (ok a, t)
    → (m ≡ ok a) × (t ≡ s)
lift-eq-ok m s h = (ap (λ p. p.0) h, sym (second h))

module _ (e : Engine) (fx : ExchangeRateConfig) (request : CreateTransferRequest)
    (caller_id key : String) (request_id : Option String) where
  pub transfer_block-Transferred :
      (s : Session) {r : Transfer} {t : Session}
      → transfer_block e fx request caller_id key request_id s ≡ (ok r, t)
      → Transferred e fx request caller_id key s r t
  unfolding transfer_block
  transfer_block-Transferred s {r} {t} h =
      after_bind _ (load_active request.source_account_number s) h λ source s1 p1 h1.
        after_bind _ (load_active request.destination_account_number s1) h1 λ dest s2 p2 h2.
          after_lift (get_max_transfer_amount fx source.currency) _ s2 h2 λ max_amount limit h3.
            after_test (lt max_amount request.amount) _ _ s2 h3 λ within h4.
              after_test (lt source.balance request.amount) _ _ s2 h4 λ covered h5.
                after_lift (get_rate fx source.currency dest.currency) _ s2 h5 λ rate rated h6.
                  after_lift (converted request.amount rate) _ s2 h6 λ amount conversion h7.
                    let l1 = load_active-eq-ok request.source_account_number s p1 in
                    let l2 = load_active-eq-ok request.destination_account_number s1 p2 in
                    record {
                      source = source;
                      dest = dest;
                      max_amount = max_amount;
                      rate = rate;
                      amount = amount;
                      source_found = l1.found;
                      source_active = l1.is_active;
                      dest_found =
                          subst
                            (λ db. rows request.destination_account_number db.accounts ≡ dest ∷ [])
                            l1.same_db l2.found;
                      dest_active = l2.is_active;
                      limit = limit;
                      within_limit = within;
                      covered = covered;
                      rated = rated;
                      conversion = conversion;
                      paid =
                          subst (λ db. Paid e request caller_id key source dest amount db r t)
                            (l2.same_db ∙ l1.same_db)
                            (move_money-Paid e request caller_id key request_id source dest rate
                              amount s2 h7);
                    }
