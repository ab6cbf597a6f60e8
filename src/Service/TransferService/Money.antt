-- ===== src/Service/TransferService/Money.antt =====
-- The money that a transfer moves.
use ai_spec_driven_developme.Prelude.{
  String, ◌≤◌, ◌<◌, ◌≡◌, sym, subst, ◌∙◌, ap, ap₂, true, false, [], ◌∷◌, arith, str_eq,
}
use ai_spec_driven_developme.Prelude.Int.{ℤ, pos, magnitude, ltb_ℤ, ◌+ℤ◌, ◌-ℤ◌, ◌≤ℤ◌, int_laws}
use ai_spec_driven_developme.Decimal.{Decimal, sub, add, lt, le, zero_decimal, coefficient_limit}
use ai_spec_driven_developme.Decimal.Exact.{
  money, units, sub_exact, add_exact, lt_exact, le-zero_decimal,
}
use ai_spec_driven_developme.Models.{Account, Transfer}
use ai_spec_driven_developme.Session.{Engine, Db, Session, current_balance}
use ai_spec_driven_developme.Session.Laws.{current_balance-found}
use ai_spec_driven_developme.Session.Numeric.{
  NumericColumns, numeric-money, column_limit, IsSound, AllSound, balance-money,
}
use ai_spec_driven_developme.Session.Rows.{rows, update_row, with_balance}
use ai_spec_driven_developme.Session.Rows.Laws.{rows-update_row}
use ai_spec_driven_developme.Session.Rows.Moves
use ai_spec_driven_developme.Session.Rows.Moves.{Moved}
use ai_spec_driven_developme.Service.TransferService.{CreateTransferRequest}
use ai_spec_driven_developme.Service.TransferService.Inversion.{Paid}

-- A covered debit of a positive amount leaves a balance in range.
pub debit_bounds :
    (x u : ℤ)
    → magnitude x < column_limit
    → pos 0 ≤ℤ x
    → ltb_ℤ (pos 0) u ≡ true
    → ltb_ℤ x u ≡ false
    → (magnitude (x -ℤ u) < column_limit) × (pos 0 ≤ℤ x -ℤ u)
unfolding ◌-ℤ◌
debit_bounds x u fits nonneg positive covered = ground arith

pub sum_fits :
    (x y : ℤ)
    → magnitude x < column_limit
    → magnitude y < column_limit
    → magnitude (x +ℤ y) < coefficient_limit
unfolding ◌+ℤ◌
sum_fits x y h k = ground arith

module _ {e : Engine} (laws : NumericColumns e) {request : CreateTransferRequest}
    {caller_id key : String} {source dest : Account} {amount : Decimal} {db : Db} {r : Transfer}
    {t : Session} (paid : Paid e request caller_id key source dest amount db r t)
    (small : request.amount.scale ≤ 4) (positive : le request.amount zero_decimal ≡ false)
    (sound : IsSound source) (covered : lt source.balance request.amount ≡ false) where
  abbrev pub left : ℤ
  left = source.balance.coefficient -ℤ units request.amount

  pub left_bounds : (magnitude left < column_limit) × (pos 0 ≤ℤ left)
  left_bounds =
      debit_bounds source.balance.coefficient (units request.amount) sound.fits sound.nonneg
        (le-zero_decimal request.amount positive)
        (sym (lt_exact source.balance.coefficient request.amount small)
          ∙ ap (λ d. lt d request.amount) (sym (balance-money source sound.scale))
          ∙ covered)

  -- The source's new balance is the old one less the amount.
  debited-eq : paid.debited ≡ money left
  debited-eq =
      (numeric-money laws left (
        ap (e.numeric 19 4) (
          sym (
            sub_exact source.balance.coefficient request.amount small
              (omega (arith, left_bounds.0)))
          ∙ ap (λ d. sub d request.amount) (sym (balance-money source sound.scale)))
        ∙ paid.debit)).0

  module _ (dest_found : rows dest.account_number db.accounts ≡ dest ∷ [])
      (dest_sound : IsSound dest)
      (distinct : str_eq source.account_number dest.account_number ≡ false)
      (quantized : amount.scale ≡ 4) (nonneg : pos 0 ≤ℤ amount.coefficient) where
    abbrev pub gained : ℤ
    gained = dest.balance.coefficient +ℤ amount.coefficient

    still :
        current_balance dest (record db {
          accounts = update_row source.account_number (with_balance paid.debited) db.accounts;
        })
        ≡ dest.balance
    still =
        current_balance-found dest dest []
          (record db {
            accounts = update_row source.account_number (with_balance paid.debited) db.accounts;
          })
          (rw (
            rows-update_row dest.account_number source.account_number paid.debited db.accounts,
            distinct,
            dest_found,
          ))

    amount-money : amount ≡ money amount.coefficient
    amount-money = ground arith

    amount_fits : magnitude amount.coefficient < column_limit
    amount_fits =
        (numeric-money laws amount.coefficient
          (ap (e.numeric 19 4) (sym amount-money) ∙ paid.destination_amount)).1

    -- The destination's new balance is the old one and the converted amount.
    credited-eq : (paid.credited ≡ money gained) × (magnitude gained < column_limit)
    credited-eq = numeric-money laws gained (
        ap (e.numeric 19 4) (
          sym (
            add_exact dest.balance.coefficient amount.coefficient
              (sum_fits _ _ dest_sound.fits amount_fits))
          ∙ ap₂ add (sym (still ∙ balance-money dest dest_sound.scale)) (sym amount-money))
        ∙ paid.credit)

    accounts-eq :
        t.db.accounts
        ≡ update_row dest.account_number
            (with_balance (money gained))
            (update_row source.account_number (with_balance (money left)) db.accounts)
    accounts-eq =
        paid.accounts
        ∙ ap₂
            (λ d x.
              update_row dest.account_number (with_balance x)
                (update_row source.account_number (with_balance d) db.accounts))
            debited-eq credited-eq.0

    gained_nonneg : pos 0 ≤ℤ gained
    gained_nonneg = omega (int_laws, dest_sound.nonneg)

    pub Paid-AllSound : AllSound db.accounts → AllSound t.db.accounts
    Paid-AllSound all = subst AllSound (sym accounts-eq) (
        Moves.moved-AllSound db.accounts source dest (units request.amount) amount.coefficient
          left_bounds (credited-eq.1, gained_nonneg) all)

    module _ (source_found : rows source.account_number db.accounts ≡ source ∷ []) where
      -- The accounts differ by one debit and one credit.
      pub Paid-Moved :
          Moved db.accounts source dest (units request.amount) amount.coefficient t.db.accounts
      Paid-Moved =
          subst (Moved db.accounts source dest (units request.amount) amount.coefficient)
            (sym accounts-eq)
            (Moves.moved-Moved db.accounts source dest (units request.amount) amount.coefficient
              source_found dest_found distinct)
