-- ===== src/Service/TransferService/Ledger.antt =====
-- The accounts after a new transfer.
use ai_spec_driven_developme.Prelude.{
  ℕ, String, ◌≤◌, ◌<◌, ◌*◌, ◌^◌, ◌-◌, ◌≡◌, sym, subst, ◌∙◌, ap, ap₂, true, false, Option, List, [],
  ◌∷◌, ◌++◌, arith, str_eq, eq_iff,
}
use ai_spec_driven_developme.Prelude.Int.{
  ℤ, pos, pos_part, neg_part, magnitude, signed, ltb_ℤ, ◌+ℤ◌, ◌-ℤ◌, ◌≤ℤ◌, int_laws,
}
use ai_spec_driven_developme.Decimal.{Decimal, le, zero_decimal, literal, coefficient_limit}
use ai_spec_driven_developme.Decimal.Exact.{money, units, le-zero_decimal}
use ai_spec_driven_developme.Errors.{Result, ok}
use ai_spec_driven_developme.Models.{Account, Transfer}
use ai_spec_driven_developme.Config.{ExchangeRateConfig}
use ai_spec_driven_developme.Session.{Engine, Db, Session}
use ai_spec_driven_developme.Session.Numeric.{
  NumericColumns, IsSound, AllSound, found-IsSound, column_limit,
}
use ai_spec_driven_developme.Session.Rows.{rows, with_balance}
use ai_spec_driven_developme.Session.Rows.Laws.{rows_number, total}
use ai_spec_driven_developme.Service.ExchangeRateService.{get_rate}
use ai_spec_driven_developme.Service.TransferService.{
  CreateTransferRequest, validate_not_self_transfer, converted, execute_transfer,
}
use ai_spec_driven_developme.Service.TransferService.Conversion.{converted-eq-ok, converted-one}
use ai_spec_driven_developme.Service.TransferService.Inversion.{
  Transferred, transfer_block-Transferred,
}
use ai_spec_driven_developme.Service.TransferService.Money
use ai_spec_driven_developme.Session.Rows.Moves.{part_in}
use ai_spec_driven_developme.Service.TransferService.Settlement.{execute_transfer-Outcome}

-- No configured rate is negative.
pub record NonnegRates (fx : ExchangeRateConfig) : Type 0 where
  pub at : (from to : String) (r : Decimal) → get_rate fx from to ≡ ok r → pos 0 ≤ℤ r.coefficient

-- The effect that a transfer promises, in ten-thousandths of the currencies' units.
pub record Settled (fx : ExchangeRateConfig) (request : CreateTransferRequest) (before : Db)
    (r : Transfer) (after : Db) : Type 0 where
  pub source : Account
  pub dest : Account
  pub rate : Decimal
  pub amount : Decimal
  pub source_found : rows request.source_account_number before.accounts ≡ source ∷ []
  pub dest_found : rows request.destination_account_number before.accounts ≡ dest ∷ []
  pub rated : get_rate fx source.currency dest.currency ≡ ok rate
  pub conversion : converted request.amount rate ≡ ok amount
  -- The source pays the amount, which it had.
  pub source_after :
      rows request.source_account_number after.accounts
      ≡ with_balance (money (source.balance.coefficient -ℤ units request.amount)) source ∷ []
  pub covered : pos 0 ≤ℤ source.balance.coefficient -ℤ units request.amount
  -- The destination gets the converted amount.
  pub dest_after :
      rows request.destination_account_number after.accounts
      ≡ with_balance (money (dest.balance.coefficient +ℤ amount.coefficient)) dest ∷ []
  -- No other account changes.
  pub others :
      (k : String)
      → str_eq request.source_account_number k ≡ false
      → str_eq request.destination_account_number k ≡ false
      → rows k after.accounts ≡ rows k before.accounts
  pub totals :
      (c : String)
      → total c after.accounts +ℤ part_in c source.currency (units request.amount)
        ≡ total c before.accounts +ℤ part_in c dest.currency amount.coefficient
  pub sound : AllSound after.accounts
  pub recorded : after.transfers ≡ before.transfers ++ r ∷ []

pub nonneg_of_positive : (d : Decimal) → ltb_ℤ (pos 0) (units d) ≡ true → pos 0 ≤ℤ d.coefficient
nonneg_of_positive d h = ground arith

Transferred-Settled :
    {e : Engine} (laws : NumericColumns e) {fx : ExchangeRateConfig} (rates : NonnegRates fx)
    {request : CreateTransferRequest}
    (distinct : str_eq request.source_account_number request.destination_account_number ≡ false)
    (small : request.amount.scale ≤ 4) (positive : le request.amount zero_decimal ≡ false)
    {caller_id key : String} {s : Session} {r : Transfer} {t : Session}
    → AllSound s.db.accounts
    → Transferred e fx request caller_id key s r t
    → Settled fx request s.db r t.db
Transferred-Settled laws rates {request} distinct small positive {s = s} {t = t} sound w =
    let src_number =
      rows_number request.source_account_number s.db.accounts w.source w.source_found in
    let dst_number =
      rows_number request.destination_account_number s.db.accounts w.dest w.dest_found in
    let source_sound =
      found-IsSound request.source_account_number s.db.accounts w.source w.source_found sound in
    let dest_sound =
      found-IsSound request.destination_account_number s.db.accounts w.dest w.dest_found sound in
    let (scale, sign) = converted-eq-ok request.amount w.rate w.conversion in
    let nonneg =
      sign (nonneg_of_positive request.amount (le-zero_decimal request.amount positive))
        (rates.at w.source.currency w.dest.currency w.rate w.rated) in
    let found_source : rows w.source.account_number s.db.accounts ≡ w.source ∷ [] =
      subst (λ k. rows k s.db.accounts ≡ w.source ∷ []) (sym src_number) w.source_found in
    let found_dest : rows w.dest.account_number s.db.accounts ≡ w.dest ∷ [] =
      subst (λ k. rows k s.db.accounts ≡ w.dest ∷ []) (sym dst_number) w.dest_found in
    let apart : str_eq w.source.account_number w.dest.account_number ≡ false =
      rw (src_number, dst_number) distinct in
    let change =
      Money.Paid-Moved laws w.paid small positive source_sound w.covered found_dest dest_sound apart
        scale nonneg found_source in
    record {
      source = w.source;
      dest = w.dest;
      rate = w.rate;
      amount = w.amount;
      source_found = w.source_found;
      dest_found = w.dest_found;
      rated = w.rated;
      conversion = w.conversion;
      source_after =
          subst
            (λ k.
              rows k t.db.accounts
              ≡ with_balance (money (w.source.balance.coefficient -ℤ units request.amount)) w.source
                ∷ [])
            src_number change.source_after;
      covered = (Money.left_bounds laws w.paid small positive source_sound w.covered).1;
      dest_after =
          subst
            (λ k.
              rows k t.db.accounts
              ≡ with_balance (money (w.dest.balance.coefficient +ℤ w.amount.coefficient)) w.dest
                ∷ [])
            dst_number change.dest_after;
      others = λ k p q. change.others k (rw src_number p) (rw dst_number q);
      totals = change.totals;
      sound =
          Money.Paid-AllSound laws w.paid small positive source_sound w.covered found_dest
            dest_sound apart scale nonneg sound;
      recorded = w.paid.recorded;
    }

pub distinct_if_valid :
    (request : CreateTransferRequest)
    → validate_not_self_transfer request ≡ ok request
    → str_eq request.source_account_number request.destination_account_number ≡ false
unfolding validate_not_self_transfer
distinct_if_valid request valid = ground arith

module _ (e : Engine) (laws : NumericColumns e) (fx : ExchangeRateConfig) (rates : NonnegRates fx)
    (request : CreateTransferRequest) (caller_id key : String) (request_id : Option String)
    (s : Session) {r : Transfer} {t : Session}
    (valid : validate_not_self_transfer request ≡ ok request) (small : request.amount.scale ≤ 4)
    (sound : AllSound s.db.accounts)
    (done : execute_transfer e fx request caller_id key request_id s ≡ (ok (r, false), t)) where
  -- With columns as `NumericColumns` says, no negative rate, and balances as their column holds
  -- them and not negative: a new transfer by a validated request, of an amount with at most four
  -- decimal places, takes exactly the amount from the source, which had it, gives exactly the
  -- converted amount to the destination, changes no other account, changes the sum of the
  -- balances of each currency by just these, keeps every balance in its column's range and not
  -- negative, and adds its row.
  pub execute_transfer-Settled : Settled fx request s.db r t.db
  execute_transfer-Settled =
      let fresh = execute_transfer-Outcome e fx request caller_id key request_id s done in
      let start_sound = subst (λ db. AllSound db.accounts) (sym fresh.same_start) sound in
      let w =
        transfer_block-Transferred e fx request caller_id key request_id fresh.start fresh.ran in
      subst (λ db. Settled fx request db r t.db) fresh.same_start
        (subst (λ db. Settled fx request fresh.start.db r db) (sym fresh.same_end)
          (Transferred-Settled laws rates (distinct_if_valid request valid) small fresh.positive
            start_sound w))

get_rate_same :
    (fx : ExchangeRateConfig) (from to : String)
    → from ≡ to
    → get_rate fx from to ≡ ok (literal 1 0)
unfolding get_rate
get_rate_same fx from to h = rw ((eq_iff from to).1 h)

units_below :
    (c x : ℤ) (k : ℕ)
    → magnitude x < column_limit
    → ltb_ℤ (pos 0) (signed c (magnitude c * 10 ^ k)) ≡ true
    → pos 0 ≤ℤ x -ℤ signed c (magnitude c * 10 ^ k)
    → magnitude c * 10 ^ k < coefficient_limit
unfolding ◌-ℤ◌
units_below c x k fits positive covered = ground arith

ok_unique : (a b : Decimal) → ◌≡◌ {A = Result Decimal} (ok a) (ok b) → a ≡ b
ok_unique a b h = cc

-- Between accounts of one currency the amount credited is the amount debited.
pub Settled-same_currency :
    {fx : ExchangeRateConfig} {request : CreateTransferRequest} {before : Db} {r : Transfer}
    {after : Db} (w : Settled fx request before r after)
    → w.source.currency ≡ w.dest.currency
    → request.amount.scale ≤ 4
    → le request.amount zero_decimal ≡ false
    → IsSound w.source
    → w.amount.coefficient ≡ units request.amount
Settled-same_currency {fx} {request} w same small positive sound =
    let fits =
      units_below request.amount.coefficient w.source.balance.coefficient (4 - request.amount.scale)
        sound.fits (le-zero_decimal request.amount positive) w.covered in
    let one : w.rate ≡ literal 1 0 =
      ok_unique w.rate (literal 1 0)
        (sym w.rated ∙ get_rate_same fx w.source.currency w.dest.currency same) in
    let credited : w.amount ≡ money (units request.amount) =
      ok_unique w.amount (money (units request.amount)) (
        sym w.conversion
        ∙ ap (converted request.amount) one
        ∙ converted-one request.amount small fits) in
    ap (λ d. d.coefficient) credited

parts_cancel : (s s' p q : ℤ) → s' +ℤ p ≡ s +ℤ q → q ≡ p → s' ≡ s
parts_cancel s s' p q h same =
    omega (int_laws, ap pos_part h, ap neg_part h, ap pos_part same, ap neg_part same)

one_account : (a b : Account) → ◌≡◌ {A = List Account} (a ∷ []) (b ∷ []) → a ≡ b
one_account a b h = cc

-- Under the same conditions, a new transfer by a validated request between accounts of one
-- currency, of an amount with at most four decimal places, keeps the sum of the balances of every
-- currency.
pub execute_transfer-total :
    (e : Engine) (laws : NumericColumns e) (fx : ExchangeRateConfig) (rates : NonnegRates fx)
    (request : CreateTransferRequest) (caller_id key : String) (request_id : Option String)
    (s : Session) {r : Transfer} {t : Session} (source dest : Account)
    → rows request.source_account_number s.db.accounts ≡ source ∷ []
    → rows request.destination_account_number s.db.accounts ≡ dest ∷ []
    → source.currency ≡ dest.currency
    → validate_not_self_transfer request ≡ ok request
    → request.amount.scale ≤ 4
    → AllSound s.db.accounts
    → execute_transfer e fx request caller_id key request_id s ≡ (ok (r, false), t)
    → (c : String) → total c t.db.accounts ≡ total c s.db.accounts
execute_transfer-total e laws fx rates request caller_id key request_id s {t = t} source dest from
      to same valid small sound done c =
    let w =
      execute_transfer-Settled e laws fx rates request caller_id key request_id s valid small sound
        done in
    let fresh = execute_transfer-Outcome e fx request caller_id key request_id s done in
    let a = one_account w.source source (sym w.source_found ∙ from) in
    let b = one_account w.dest dest (sym w.dest_found ∙ to) in
    let one_currency = ap (λ x. x.currency) a ∙ same ∙ ap (λ x. x.currency) (sym b) in
    let source_sound =
      found-IsSound request.source_account_number s.db.accounts w.source w.source_found sound in
    parts_cancel (total c s.db.accounts) (total c t.db.accounts)
      (part_in c w.source.currency (units request.amount))
      (part_in c w.dest.currency w.amount.coefficient) (w.totals c)
      (ap₂ (part_in c) (sym one_currency)
        (Settled-same_currency w one_currency small fresh.positive source_sound))
