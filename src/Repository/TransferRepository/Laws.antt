-- ===== src/Repository/TransferRepository/Laws.antt =====
-- What the writes of the transfer repository leave alone.
use ai_spec_driven_developme.Prelude.{
  ◌+◌, String, ◌≡◌, refl, sym, ◌∙◌, Option, none, some, List, [], ◌∷◌, ◌++◌, arith, ◌⊎◌, ap, inl,
  inr, subst,
}
use ai_spec_driven_developme.Decimal.{Decimal}
use ai_spec_driven_developme.Errors.{Error, Result, ok, err, ◌>>=◌, >>=-eq-ok}
use ai_spec_driven_developme.Models.{Transfer, TransferStatus, AuditLogEntry, OperationType}
use ai_spec_driven_developme.Session.{Engine, Db, Session}
use ai_spec_driven_developme.Session.Columns.{stored, stored_or_null}
use ai_spec_driven_developme.Repository.Insert.{
  insert_transfer, insert_audit, check_transfer_texts, store_amounts, store_fees, store_transfer,
}
use ai_spec_driven_developme.Repository.TransferRepository.{
  add_transfer, write_audit_log, same_currency_row, create_transfer,
}

insert_audit-eq-ok :
    (e : Engine) (entry : AuditLogEntry) (db : Db) {db' : Db}
    → insert_audit e entry db ≡ ok db'
    → (db'.accounts ≡ db.accounts)
      × (db'.transfers ≡ db.transfers)
      × (db'.snapshots ≡ db.snapshots)
      × (db'.currency_pairs ≡ db.currency_pairs)
      × (db'.notifications ≡ db.notifications)
unfolding insert_audit
insert_audit-eq-ok e entry db h = ground arith

insert_transfer-eq-ok :
    (e : Engine) (row : Transfer) (db : Db) {x : Transfer × Db}
    → insert_transfer e row db ≡ ok x
    → (x.1.accounts ≡ db.accounts)
      × (x.1.transfers ≡ db.transfers ++ x.0 ∷ [])
      × (store_transfer e row ≡ ok x.0)
unfolding insert_transfer
insert_transfer-eq-ok e row db h = ground arith

Result-cases {ℓ} :
    {A : Type ℓ} (r : Result A) → ((a : A) × (r ≡ ok a)) ⊎ ((x : Error) × (r ≡ err x))
Result-cases (ok a) = inl (a, refl)
Result-cases (err x) = inr (x, refl)

pub add_transfer-eq-ok :
    (e : Engine) (row : Transfer) (s : Session) {r : Transfer} {t : Session}
    → add_transfer e row s ≡ (ok r, t)
    → (t.db.accounts ≡ s.db.accounts)
      × (t.db.transfers ≡ s.db.transfers ++ r ∷ [])
      × (store_transfer e row ≡ ok r)
unfolding add_transfer
add_transfer-eq-ok e row s h = elim (Result-cases (insert_transfer e row s.db)) [
  | inl (x, p) ↦ ground (arith, insert_transfer-eq-ok e row s.db p, rw (p, add_transfer) at h)
  | inr (x, p) ↦ absurd (ground (arith, rw (p, add_transfer) at h))
]

pub write_audit_log-eq-ok :
    (e : Engine) (operation_type : OperationType) (actor : String) (affected : List String)
    (amount : Option Decimal) (currency : Option String) (outcome : String)
    (request_id : Option String) (s : Session) {x : Unit {0}} {t : Session}
    → write_audit_log e operation_type actor affected amount currency outcome request_id s
      ≡ (ok x, t)
    → (t.db.accounts ≡ s.db.accounts) × (t.db.transfers ≡ s.db.transfers)
unfolding write_audit_log insert_audit
write_audit_log-eq-ok e operation_type actor affected amount currency outcome request_id s h =
    ground arith

-- A stored row differs from the row that was added in its amounts alone.
pub record SameTexts (row r : Transfer) : Type 0 where
  pub key : r.idempotency_key ≡ row.idempotency_key
  pub caller : r.caller_id ≡ row.caller_id
  pub status : r.status ≡ row.status
  pub id : r.id ≡ row.id

-- The amounts of a stored row are what the columns made of the amounts of the row added.
pub record StoredAmounts (e : Engine) (row r : Transfer) : Type 0 where
  pub source : e.numeric 19 4 row.source_amount ≡ some r.source_amount
  pub destination : e.numeric 19 4 row.destination_amount ≡ some r.destination_amount
  pub rate : e.numeric 20 8 row.exchange_rate ≡ some r.exchange_rate

store_amounts-SameTexts :
    (e : Engine) (row : Transfer) {r : Transfer} → store_amounts e row ≡ ok r → SameTexts row r
unfolding store_amounts
store_amounts-SameTexts e row h = ground arith

store_fees-SameTexts :
    (e : Engine) (row : Transfer) {r : Transfer} → store_fees e row ≡ ok r → SameTexts row r
unfolding store_fees
store_fees-SameTexts e row h = ground arith

store_amounts-StoredAmounts :
    (e : Engine) (row : Transfer) {r : Transfer}
    → store_amounts e row ≡ ok r
    → StoredAmounts e row r
unfolding store_amounts
store_amounts-StoredAmounts e row h = ground arith

store_fees-amounts :
    (e : Engine) (row : Transfer) {r : Transfer}
    → store_fees e row ≡ ok r
    → (r.source_amount ≡ row.source_amount)
      × (r.destination_amount ≡ row.destination_amount)
      × (r.exchange_rate ≡ row.exchange_rate)
unfolding store_fees
store_fees-amounts e row h = ground arith

pub store_transfer-StoredAmounts :
    (e : Engine) (row : Transfer) {r : Transfer}
    → store_transfer e row ≡ ok r
    → StoredAmounts e row r
unfolding store_transfer
store_transfer-StoredAmounts e row {r} h =
    let (_, _, rest) =
      >>=-eq-ok (check_transfer_texts e row) (λ _. store_amounts e row >>= store_fees e) h in
    let (middle, amounts, fees) = >>=-eq-ok (store_amounts e row) (store_fees e) rest in
    let a = store_amounts-StoredAmounts e row amounts in
    let (source, destination, rate) = store_fees-amounts e middle fees in
    record {
      source = a.source ∙ ap some (sym source);
      destination = a.destination ∙ ap some (sym destination);
      rate = a.rate ∙ ap some (sym rate);
    }

pub store_transfer-SameTexts :
    (e : Engine) (row : Transfer) {r : Transfer} → store_transfer e row ≡ ok r → SameTexts row r
unfolding store_transfer
store_transfer-SameTexts e row {r} h =
    let (_, _, rest) =
      >>=-eq-ok (check_transfer_texts e row) (λ _. store_amounts e row >>= store_fees e) h in
    let (middle, amounts, fees) = >>=-eq-ok (store_amounts e row) (store_fees e) rest in
    let a = store_amounts-SameTexts e row amounts in
    let b = store_fees-SameTexts e middle fees in
    record {
      key = b.key ∙ a.key;
      caller = b.caller ∙ a.caller;
      status = b.status ∙ a.status;
      id = b.id ∙ a.id;
    }

-- The fees of a stored row are what the columns made of the fees of the row added, and all but its
-- amounts and fees is as in the row added.
pub record StoredRow (e : Engine) (row r : Transfer) : Type 0 where
  pub sending_fee : stored_or_null e 19 4 row.sending_fee ≡ ok r.sending_fee
  pub receiving_fee : stored_or_null e 19 4 row.receiving_fee ≡ ok r.receiving_fee
  pub source_amount_usd : stored_or_null e 19 4 row.source_amount_usd ≡ ok r.source_amount_usd
  pub same : r ≡ record row {
    source_amount = r.source_amount;
    destination_amount = r.destination_amount;
    exchange_rate = r.exchange_rate;
    sending_fee = r.sending_fee;
    receiving_fee = r.receiving_fee;
    source_amount_usd = r.source_amount_usd;
  }

returned_row : (x y : Transfer) → ◌≡◌ {A = Result Transfer} (ok x) (ok y) → x ≡ y
returned_row x y h = cc

store_amounts-same :
    (e : Engine) (row : Transfer) {r : Transfer}
    → store_amounts e row ≡ ok r
    → r ≡ record row {
      source_amount = r.source_amount;
      destination_amount = r.destination_amount;
      exchange_rate = r.exchange_rate;
    }
unfolding store_amounts
store_amounts-same e row {r} h =
    let (x, _, h1) = >>=-eq-ok (stored e 19 4 row.source_amount) _ h in
    let (y, _, h2) = >>=-eq-ok (stored e 19 4 row.destination_amount) _ h1 in
    let (z, _, h3) = >>=-eq-ok (stored e 20 8 row.exchange_rate) _ h2 in
    let same =
      returned_row (record row { source_amount = x; destination_amount = y; exchange_rate = z }) r
        h3 in
    subst
      (λ q. q ≡ record row {
        source_amount = q.source_amount;
        destination_amount = q.destination_amount;
        exchange_rate = q.exchange_rate;
      })
      same refl

store_fees-StoredRow :
    (e : Engine) (row : Transfer) {r : Transfer} → store_fees e row ≡ ok r → StoredRow e row r
unfolding store_fees
store_fees-StoredRow e row {r} h =
    let (x, p1, h1) = >>=-eq-ok (stored_or_null e 19 4 row.sending_fee) _ h in
    let (y, p2, h2) = >>=-eq-ok (stored_or_null e 19 4 row.receiving_fee) _ h1 in
    let (z, p3, h3) = >>=-eq-ok (stored_or_null e 19 4 row.source_amount_usd) _ h2 in
    let same =
      returned_row (record row { sending_fee = x; receiving_fee = y; source_amount_usd = z }) r
        h3 in
    subst (StoredRow e row) same
      (record { sending_fee = p1; receiving_fee = p2; source_amount_usd = p3; same = refl })

pub store_transfer-StoredRow :
    (e : Engine) (row : Transfer) {r : Transfer} → store_transfer e row ≡ ok r → StoredRow e row r
unfolding store_transfer
store_transfer-StoredRow e row {r} h =
    let (_, _, rest) =
      >>=-eq-ok (check_transfer_texts e row) (λ _. store_amounts e row >>= store_fees e) h in
    let (middle, amounts, fees) = >>=-eq-ok (store_amounts e row) (store_fees e) rest in
    let same = store_amounts-same e row amounts in
    let a = store_fees-StoredRow e middle fees in
    record {
      sending_fee =
          ap (λ (q : Transfer). stored_or_null e 19 4 q.sending_fee) (sym same) ∙ a.sending_fee;
      receiving_fee =
          ap (λ (q : Transfer). stored_or_null e 19 4 q.receiving_fee) (sym same) ∙ a.receiving_fee;
      source_amount_usd =
          ap (λ (q : Transfer). stored_or_null e 19 4 q.source_amount_usd) (sym same)
          ∙ a.source_amount_usd;
      same =
          a.same
          ∙ ap
              (λ (q : Transfer). record q {
                source_amount = r.source_amount;
                destination_amount = r.destination_amount;
                exchange_rate = r.exchange_rate;
                sending_fee = r.sending_fee;
                receiving_fee = r.receiving_fee;
                source_amount_usd = r.source_amount_usd;
              })
              same;
    }

pub create_transfer-eq-ok :
    (e : Engine) (key src dst : String) (source_amount : Decimal) (source_currency : String)
    (destination_amount : Decimal) (destination_currency : String) (exchange_rate : Decimal)
    (status : TransferStatus) (caller_id : String) (s : Session) {r : Transfer} {t : Session}
    → create_transfer e key src dst source_amount source_currency destination_amount
        destination_currency exchange_rate status caller_id none none s
      ≡ (ok r, t)
    → (t.db.accounts ≡ s.db.accounts)
      × (t.db.transfers ≡ s.db.transfers ++ r ∷ [])
      × (r.idempotency_key ≡ key)
      × (r.caller_id ≡ caller_id)
      × (r.status ≡ status)
      × (e.numeric 19 4 destination_amount ≡ some r.destination_amount)
      × (e.numeric 19 4 source_amount ≡ some r.source_amount)
unfolding create_transfer
create_transfer-eq-ok e key src dst sa sc da dc rate status caller s h =
    let row : Transfer =
      same_currency_row e (e.uuid4 s.draws) key src dst sa sc da dc rate status caller none none in
    let (kept, added, stored) = add_transfer-eq-ok e row (record s { draws = s.draws + 1 }) h in
    let same = store_transfer-SameTexts e row stored in
    let amounts = store_transfer-StoredAmounts e row stored in
    (kept, added, same.key, same.caller, same.status, amounts.destination, amounts.source)
