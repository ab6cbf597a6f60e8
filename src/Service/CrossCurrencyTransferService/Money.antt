-- ===== src/Service/CrossCurrencyTransferService/Money.antt =====
-- The money that a cross-currency transfer moves.
use ai_spec_driven_developme.Prelude.{
  ℕ, ◌<◌, ◌≡◌, sym, subst, ◌∙◌, ap, ap₂, false, some, List, [], ◌∷◌, arith, str_eq,
}
use ai_spec_driven_developme.Prelude.Int.{ℤ, pos, magnitude, ltb_ℤ, ◌+ℤ◌, ◌-ℤ◌, ◌≤ℤ◌}
use ai_spec_driven_developme.Decimal.{
  Decimal, sub, add, mul, lt, quantize, round_half_up, coefficient_limit,
}
use ai_spec_driven_developme.Decimal.Exact.{money, units, sub_exact, add_exact, lt_exact}
use ai_spec_driven_developme.Errors.{Result, ok, >>=-eq-ok}
use ai_spec_driven_developme.Models.{Account}
use ai_spec_driven_developme.Config.{Settings}
use ai_spec_driven_developme.Session.{Engine, current_balance}
use ai_spec_driven_developme.Session.Laws.{current_balance-found}
use ai_spec_driven_developme.Session.Numeric.{
  NumericColumns, numeric-money, column_limit, IsSound, balance-money,
}
use ai_spec_driven_developme.Session.Rows.{rows, update_row, with_balance}
use ai_spec_driven_developme.Session.Rows.Laws.{rows-update_row}
use ai_spec_driven_developme.Session.Rows.Moves
use ai_spec_driven_developme.Session.Rows.Moves.{Moved}
use ai_spec_driven_developme.Service.TransferService.Conversion.{
  quantize-eq-some, quantize_exact, fix_keeps_sign, mul_keeps_sign, IsNonneg,
}
use ai_spec_driven_developme.Service.TransferService.Money.{sum_fits}
use ai_spec_driven_developme.Service.CrossCurrencyTransferService.Validation.{Plan}
use ai_spec_driven_developme.Service.CrossCurrencyTransferService.Performed.{Performed}
use ai_spec_driven_developme.Service.CrossCurrencyTransferService.Computation.{
  Amounts, calculate_amounts, to_quantum,
}

to_quantum-eq-ok :
    (d : Decimal) {m : Decimal} → to_quantum d ≡ ok m → (m.scale ≡ 4) × (IsNonneg d → IsNonneg m)
unfolding to_quantum
to_quantum-eq-ok d {m} h =
    let q : quantize round_half_up 4 d ≡ some m = ground arith in
    quantize-eq-some round_half_up 4 d q

add_keeps_sign : (a b : Decimal) → IsNonneg a → IsNonneg b → IsNonneg (add a b)
unfolding add ◌+ℤ◌
add_keeps_sign a b m n = fix_keeps_sign _ (ground arith)

-- What is known of computed amounts.
pub record Computed (settings : Settings) (amount : Decimal) (a : Amounts) : Type 0 where
  pub total_scale : a.total_sender_cost.scale ≡ 4
  pub net_scale : a.net_amount.scale ≡ 4
  pub total_nonneg :
      IsNonneg amount → IsNonneg settings.sending_fee_pct → IsNonneg a.total_sender_cost

computed_alike : (a b : Amounts) → ◌≡◌ {A = Result Amounts} (ok a) (ok b) → a ≡ b
computed_alike a b h = cc

value_alike : (a b : Decimal) → ◌≡◌ {A = Result Decimal} (ok a) (ok b) → a ≡ b
value_alike a b h = cc

pub calculate_amounts-Computed :
    (settings : Settings) (amount rate : Decimal) {a : Amounts}
    → calculate_amounts settings amount rate ≡ ok a
    → Computed settings amount a
unfolding calculate_amounts
calculate_amounts-Computed settings amount rate {a} h =
    let (fee, p1, h1) = >>=-eq-ok (to_quantum (mul amount settings.sending_fee_pct)) _ h in
    let (gross, p2, h2) = >>=-eq-ok (to_quantum (mul amount rate)) _ h1 in
    let (receiving, p3, h3) = >>=-eq-ok (to_quantum (mul gross settings.receiving_fee_pct)) _ h2 in
    let (net, p4, h4) = >>=-eq-ok (to_quantum (sub gross receiving)) _ h3 in
    let (cost, p5, h5) = >>=-eq-ok (to_quantum (add amount fee)) _ h4 in
    let same = computed_alike _ a h5 in
    subst (Computed settings amount) same (record {
      total_scale = (to_quantum-eq-ok (add amount fee) p5).0;
      net_scale = (to_quantum-eq-ok (sub gross receiving) p4).0;
      total_nonneg = λ n k. (to_quantum-eq-ok (add amount fee) p5).1 (
          add_keeps_sign amount fee n (
            (to_quantum-eq-ok (mul amount settings.sending_fee_pct) p1).1
              (mul_keeps_sign amount settings.sending_fee_pct n k)));
    })

same_units : (x : ℤ) → units (money x) ≡ x
same_units x = ground arith

pub to_quantum_exact :
    (x : ℤ) → magnitude x < coefficient_limit → to_quantum (money x) ≡ ok (money x)
unfolding to_quantum
to_quantum_exact x fits =
    rw (quantize_exact round_half_up (money x) (ground arith) (ground arith), same_units x)

pub sub-money :
    (x u : ℤ) → magnitude (x -ℤ u) < coefficient_limit → sub (money x) (money u) ≡ money (x -ℤ u)
sub-money x u fits =
    sub_exact x (money u) (ground arith) (rw (same_units u) fits)
    ∙ ap (λ v. money (x -ℤ v)) (same_units u)

-- A debit that is covered leaves a balance in range.
rest_bounds :
    (x u : ℤ)
    → magnitude x < column_limit
    → pos 0 ≤ℤ u
    → ltb_ℤ x u ≡ false
    → (magnitude (x -ℤ u) < coefficient_limit) × (pos 0 ≤ℤ x -ℤ u)
unfolding ◌-ℤ◌
rest_bounds x u fits nonneg covered = ground arith

below_limit : (m : ℕ) → m < column_limit → m < coefficient_limit
below_limit m h = omega (arith, h)

decimal_money : (d : Decimal) → d.scale ≡ 4 → d ≡ money d.coefficient
decimal_money d h = ground arith

module _ {e : Engine} (laws : NumericColumns e) {plan : Plan} {before after : List Account}
    (done : Performed e plan before after) (source_sound : IsSound plan.source_account)
    (dest_sound : IsSound plan.destination_account)
    (total_scale : plan.amounts.total_sender_cost.scale ≡ 4)
    (net_scale : plan.amounts.net_amount.scale ≡ 4)
    (total_nonneg : IsNonneg plan.amounts.total_sender_cost)
    (covered : lt plan.source_account.balance plan.amounts.total_sender_cost ≡ false) where
  abbrev x : ℤ
  x = plan.source_account.balance.coefficient

  abbrev u : ℤ
  u = plan.amounts.total_sender_cost.coefficient

  abbrev y : ℤ
  y = plan.destination_account.balance.coefficient

  abbrev n : ℤ
  n = plan.amounts.net_amount.coefficient

  source_money : plan.source_account.balance ≡ money x
  source_money = balance-money plan.source_account source_sound.scale

  total_money : plan.amounts.total_sender_cost ≡ money u
  total_money = decimal_money plan.amounts.total_sender_cost total_scale

  pub rest : (magnitude (x -ℤ u) < coefficient_limit) × (pos 0 ≤ℤ x -ℤ u)
  rest = rest_bounds x u source_sound.fits total_nonneg (
      sym (ap (ltb_ℤ x) (same_units u))
      ∙ sym (lt_exact x (money u) (ground arith))
      ∙ ap₂ lt (sym source_money) (sym total_money)
      ∙ covered)

  left-eq : done.balances.left ≡ money (x -ℤ u)
  left-eq = value_alike done.balances.left (money (x -ℤ u)) (
      sym done.balances.left_computed
      ∙ ap to_quantum (ap₂ sub source_money total_money ∙ sub-money x u rest.0)
      ∙ to_quantum_exact (x -ℤ u) rest.0)

  debited-eq : done.balances.debited ≡ money (x -ℤ u)
  debited-eq =
      (numeric-money laws (x -ℤ u) (ap (e.numeric 19 4) (sym left-eq) ∙ done.balances.debit)).0

  net_fits : magnitude n < column_limit
  net_fits =
      (numeric-money laws n (
        ap (e.numeric 19 4) (sym (decimal_money plan.amounts.net_amount net_scale))
        ∙ done.net_taken)).1

  module _
      (source_found : rows plan.source_account.account_number before ≡ plan.source_account ∷ [])
      (dest_found : rows plan.destination_account.account_number before
        ≡ plan.destination_account ∷ [])
      (distinct : str_eq plan.source_account.account_number plan.destination_account.account_number
        ≡ false) where
    still :
        current_balance plan.destination_account (record done.db {
          accounts =
              update_row plan.source_account.account_number
                (with_balance done.balances.debited)
                before;
        })
        ≡ money y
    still =
        current_balance-found plan.destination_account plan.destination_account []
          (record done.db {
            accounts =
                update_row plan.source_account.account_number (with_balance done.balances.debited)
                  before;
          })
          (rw (
            rows-update_row plan.destination_account.account_number
                plan.source_account.account_number done.balances.debited before,
            distinct,
            dest_found,
          ))
        ∙ balance-money plan.destination_account dest_sound.scale

    grown-eq : done.balances.grown ≡ money (y +ℤ n)
    grown-eq = value_alike done.balances.grown (money (y +ℤ n)) (
        sym done.balances.grown_computed
        ∙ ap to_quantum (
            ap₂ add still (decimal_money plan.amounts.net_amount net_scale)
            ∙ add_exact y n (sum_fits y n dest_sound.fits net_fits))
        ∙ to_quantum_exact (y +ℤ n) (sum_fits y n dest_sound.fits net_fits))

    credited-eq : done.balances.credited ≡ money (y +ℤ n)
    credited-eq =
        (numeric-money laws (y +ℤ n) (ap (e.numeric 19 4) (sym grown-eq) ∙ done.balances.credit)).0

    pub Performed-Moved : Moved before plan.source_account plan.destination_account u n after
    Performed-Moved =
        subst (Moved before plan.source_account plan.destination_account u n)
          (sym (
            done.balances.accounts_after
            ∙ ap₂
                (λ d c.
                  update_row plan.destination_account.account_number (with_balance c)
                    (update_row plan.source_account.account_number (with_balance d) before))
                debited-eq credited-eq))
          (Moves.moved-Moved before plan.source_account plan.destination_account u n source_found
            dest_found distinct)
