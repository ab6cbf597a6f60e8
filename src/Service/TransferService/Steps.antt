-- ===== src/Service/TransferService/Steps.antt =====
-- The steps of a transfer, each with what it needs to go through.
use ai_spec_driven_developme.Prelude.{
  ◌+◌, String, ◌≤◌, ◌<◌, ◌++◌, ◌≡◌, refl, sym, ◌∙◌, ap, ap₂, true, false, Option, some, none, List,
  [], ◌∷◌, arith, select, any_of,
}
use ai_spec_driven_developme.Prelude.Int.{magnitude, ◌+ℤ◌, ◌-ℤ◌}
use ai_spec_driven_developme.Decimal.{Decimal, lt, le, sub, add, zero_decimal}
use ai_spec_driven_developme.Decimal.Exact.{
  money, units, sub_exact, add_exact, lt_exact, le-zero_decimal,
}
use ai_spec_driven_developme.Errors.{ok}
use ai_spec_driven_developme.Models.{Account, Transfer, completed, transfer_completed}
use ai_spec_driven_developme.Session.{Engine, Db, Session, modify, set_balance}
use ai_spec_driven_developme.Session.Numeric.{NumericColumns, column_limit, IsSound, balance-money}
use ai_spec_driven_developme.Session.Runs.{Returns}
use ai_spec_driven_developme.Session.Rows.{rows, update_row, with_balance}
use ai_spec_driven_developme.Repository.Insert.{
  has_key, has_entry_id, has_transfer_id, insert_transfer, insert_audit, store_transfer,
  store_amounts, store_fees, check_transfer_texts,
}
use ai_spec_driven_developme.Repository.TransferRepository.{
  create_transfer, add_transfer, write_audit_log, same_currency_row,
}
use ai_spec_driven_developme.Repository.AccountRepository.{get_by_account_number, is_active_account}
use ai_spec_driven_developme.Service.TransferService.{load_active}
use ai_spec_driven_developme.Service.TransferService.Money.{debit_bounds}

pub load_active_ok :
    (number : String) (s : Session) {a : Account}
    → rows number s.db.accounts ≡ a ∷ []
    → is_active_account a ≡ true
    → load_active number s ≡ (ok a, record s { in_transaction = true })
unfolding load_active get_by_account_number
load_active_ok number s found is_active = rw (found, is_active)

-- An unused key violates no constraint.
unused_key :
    (key : String) (l : List Transfer)
    → select (has_key key) l ≡ []
    → any_of (has_key key) l ≡ false
unfolding select any_of
unused_key key [] h = refl
unused_key key (x ∷ l) h = ground (arith, unused_key key l)

module _ (e : Engine) where
  pub write_audit_log_ok :
      (actor : String) (affected : List String) (amount : Decimal) (currency : String)
      (request_id : Option String) (s : Session) {a : Decimal}
      → e.fits 30 "transfer_completed" ≡ true
      → e.fits 20 "success" ≡ true
      → e.fits 3 currency ≡ true
      → e.numeric 19 4 amount ≡ some a
      → any_of (has_entry_id (e.uuid4 s.draws)) s.db.audit_log ≡ false
      → Returns (
          write_audit_log e transfer_completed actor affected
            (some amount)
            (some currency)
            "success"
            request_id
            s)
  unfolding write_audit_log insert_audit
  write_audit_log_ok actor affected amount currency request_id s {a} operation outcome text h
        new_id =
      record {
        value = tt;
        end = record s {
          db = record s.db {
            audit_log =
                s.db.audit_log
                ++ record {
                  id = e.uuid4 s.draws;
                  operation_type = transfer_completed;
                  actor_identity = actor;
                  affected_account_numbers = affected;
                  amount = some a;
                  currency = some currency;
                  outcome = "success";
                  timestamp = e.db_now;
                  request_id = request_id;
                }
                  ∷ [];
          };
          draws = s.draws + 1;
        };
        returned = rw (modify, operation, text, outcome, h, new_id);
      }

  pub create_transfer_ok :
      (key src dst : String) (source_amount : Decimal) (source_currency : String)
      (destination_amount : Decimal) (destination_currency : String) (exchange_rate : Decimal)
      (caller_id : String) (s : Session) {a b r : Decimal}
      → e.fits 255 key ≡ true
      → e.fits 34 src ≡ true
      → e.fits 34 dst ≡ true
      → e.fits 3 source_currency ≡ true
      → e.fits 3 destination_currency ≡ true
      → e.numeric 19 4 source_amount ≡ some a
      → e.numeric 19 4 destination_amount ≡ some b
      → e.numeric 20 8 exchange_rate ≡ some r
      → select (has_key key) s.db.transfers ≡ []
      → any_of (has_transfer_id (e.uuid4 s.draws)) s.db.transfers ≡ false
      → (w : Returns (
          create_transfer e key src dst source_amount source_currency destination_amount
            destination_currency exchange_rate completed caller_id none none s))
        × (w.end.draws ≡ s.draws + 1)
        × (w.end.db.audit_log ≡ s.db.audit_log)
  unfolding create_transfer add_transfer insert_transfer store_transfer store_amounts store_fees
      check_transfer_texts
  create_transfer_ok key src dst source_amount source_currency destination_amount
        destination_currency exchange_rate caller_id s {a} {b} {r} key_fits source_fits
        destination_fits from_fits to_fits h k l unused new_id =
      let row : Transfer =
        record (same_currency_row e (e.uuid4 s.draws) key src dst source_amount source_currency
          destination_amount destination_currency exchange_rate completed caller_id none none) {
            source_amount = a;
            destination_amount = b;
            exchange_rate = r;
          } in
      (
        record {
          value = row;
          end = record s {
            db = record s.db { transfers = s.db.transfers ++ row ∷ [] };
            draws = s.draws + 1;
          };
          returned = rw (
            add_transfer,
            key_fits,
            source_fits,
            destination_fits,
            from_fits,
            to_fits,
            h,
            k,
            l,
            new_id,
            unused_key key s.db.transfers unused,
          );
        },
        refl,
        refl,
      )

pub debited_ok :
    {e : Engine} (laws : NumericColumns e) (source : Account) (amount : Decimal)
    → IsSound source
    → amount.scale ≤ 4
    → le amount zero_decimal ≡ false
    → lt source.balance amount ≡ false
    → e.numeric 19 4 (sub source.balance amount)
      ≡ some (money (source.balance.coefficient -ℤ units amount))
debited_ok {e} laws source amount sound small positive covered =
    let bounds =
      debit_bounds source.balance.coefficient (units amount) sound.fits sound.nonneg
        (le-zero_decimal amount positive)
        (sym (lt_exact source.balance.coefficient amount small)
          ∙ ap (λ d. lt d amount) (sym (balance-money source sound.scale))
          ∙ covered) in
    ap (λ d. e.numeric 19 4 (sub d amount)) (balance-money source sound.scale)
    ∙ ap (e.numeric 19 4)
        (sub_exact source.balance.coefficient amount small (omega (arith, bounds.0)))
    ∙ laws.exact 19 4 (source.balance.coefficient -ℤ units amount) bounds.0

pub decimal_money : (d : Decimal) → d.scale ≡ 4 → d ≡ money d.coefficient
decimal_money d h = ground arith

pub credited_ok :
    {e : Engine} (laws : NumericColumns e) (dest : Account) (amount : Decimal)
    → IsSound dest
    → amount.scale ≡ 4
    → magnitude (dest.balance.coefficient +ℤ amount.coefficient) < column_limit
    → e.numeric 19 4 (add dest.balance amount)
      ≡ some (money (dest.balance.coefficient +ℤ amount.coefficient))
credited_ok {e} laws dest amount sound scale fits =
    ap₂ (λ x y. e.numeric 19 4 (add x y)) (balance-money dest sound.scale)
      (decimal_money amount scale)
    ∙ ap (e.numeric 19 4)
        (add_exact dest.balance.coefficient amount.coefficient (omega (arith, fits)))
    ∙ laws.exact 19 4 (dest.balance.coefficient +ℤ amount.coefficient) fits

pub amount_taken :
    {e : Engine} (laws : NumericColumns e) (d : Decimal)
    → d.scale ≡ 4
    → magnitude d.coefficient < column_limit
    → e.numeric 19 4 d ≡ some (money d.coefficient)
amount_taken {e} laws d scale fits =
    ap (e.numeric 19 4) (decimal_money d scale) ∙ laws.exact 19 4 d.coefficient fits

pub set_balance_ok :
    (e : Engine) (number : String) (value : Decimal) (db : Db) {d : Decimal}
    → e.numeric 19 4 value ≡ some d
    → set_balance e number value db
      ≡ ok (record db { accounts = update_row number (with_balance d) db.accounts })
unfolding set_balance
set_balance_ok e number value db h = rw (set_balance, h)
