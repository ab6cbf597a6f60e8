-- ===== src/Session/Rows/Moves.antt =====
-- A debit of one account and a credit of another, as a change of the table.
use ai_spec_driven_developme.Prelude.{
  String, ◌≡◌, refl, ap, Bool, true, false, List, [], ◌∷◌, arith, str_eq, eq_iff, eq_refl, ◌<◌,
  if◌then◌else◌,
}
use ai_spec_driven_developme.Prelude.Int.{
  ℤ, pos, pos_part, neg_part, magnitude, ◌+ℤ◌, ◌-ℤ◌, ◌≤ℤ◌, int_laws,
}
use ai_spec_driven_developme.Decimal.Exact.{money}
use ai_spec_driven_developme.Models.{Account}
use ai_spec_driven_developme.Session.Numeric.{column_limit, AllSound, update_row-AllSound}
use ai_spec_driven_developme.Session.Rows.{rows, update_row, with_balance}
use ai_spec_driven_developme.Session.Rows.Laws.{rows-update_row, total, total-update_row}

-- A part of a sum that counts only in one currency.
abbrev pub part_in : String → String → ℤ → ℤ
part_in c currency x = if str_eq currency c then x else pos 0

abbrev when : Bool → ℤ → ℤ
when b x = if b then x else pos 0

when_sub : (a : Bool) (x u : ℤ) → when a (x -ℤ u) +ℤ when a u ≡ when a x
when_sub true x u = omega int_laws
when_sub false x u = omega int_laws

when_add : (b : Bool) (z q : ℤ) → when b z +ℤ when b q ≡ when b (z +ℤ q)
when_add true z q = refl
when_add false z q = omega int_laws

cancel :
    (s s1 s2 x y z w u q : ℤ)
    → s1 +ℤ x ≡ s +ℤ y
    → s2 +ℤ z ≡ s1 +ℤ w
    → y +ℤ u ≡ x
    → z +ℤ q ≡ w
    → s2 +ℤ u ≡ s +ℤ q
cancel s s1 s2 x y z w u q h k less more = omega (
  int_laws,
  ap pos_part h,
  ap neg_part h,
  ap pos_part k,
  ap neg_part k,
  ap pos_part less,
  ap neg_part less,
  ap pos_part more,
  ap neg_part more,
)

-- Two changes of a sum, from `s` to `s1` and on to `s2`.
sums_moved :
    (a b : Bool) (s s1 s2 x u z q : ℤ)
    → s1 +ℤ when a x ≡ s +ℤ when a (x -ℤ u)
    → s2 +ℤ when b z ≡ s1 +ℤ when b (z +ℤ q)
    → s2 +ℤ when a u ≡ s +ℤ when b q
sums_moved a b s s1 s2 x u z q h k =
    cancel s s1 s2 (when a x) (when a (x -ℤ u)) (when b z) (when b (z +ℤ q)) (when a u) (when b q) h
      k (when_sub a x u) (when_add b z q)

-- `after` is `l` with `u` taken from one account and `q` given to another, in ten-thousandths.
pub record Moved (l : List Account) (source dest : Account) (u q : ℤ) (after : List Account)
    : Type 0 where
  pub source_after :
      rows source.account_number after
      ≡ with_balance (money (source.balance.coefficient -ℤ u)) source ∷ []
  pub dest_after :
      rows dest.account_number after
      ≡ with_balance (money (dest.balance.coefficient +ℤ q)) dest ∷ []
  pub others :
      (k : String)
      → str_eq source.account_number k ≡ false
      → str_eq dest.account_number k ≡ false
      → rows k after ≡ rows k l
  pub totals :
      (c : String)
      → total c after +ℤ part_in c source.currency u ≡ total c l +ℤ part_in c dest.currency q

module _ (l : List Account) (source dest : Account) (u q : ℤ) where
  abbrev left : ℤ
  left = source.balance.coefficient -ℤ u

  abbrev gained : ℤ
  gained = dest.balance.coefficient +ℤ q

  abbrev pub moved : List Account
  moved =
      update_row dest.account_number (with_balance (money gained))
        (update_row source.account_number (with_balance (money left)) l)

  pub moved-AllSound :
      (magnitude left < column_limit) × (pos 0 ≤ℤ left)
      → (magnitude gained < column_limit) × (pos 0 ≤ℤ gained)
      → AllSound l
      → AllSound moved
  moved-AllSound in_left in_gained all =
      update_row-AllSound dest.account_number gained
        (update_row source.account_number (with_balance (money left)) l) in_gained.0 in_gained.1
        (update_row-AllSound source.account_number left l in_left.0 in_left.1 all)

  module _ (source_found : rows source.account_number l ≡ source ∷ [])
      (dest_found : rows dest.account_number l ≡ dest ∷ [])
      (distinct : str_eq source.account_number dest.account_number ≡ false) where
    reversed : str_eq dest.account_number source.account_number ≡ false
    reversed = ground (
      arith,
      distinct,
      eq_iff source.account_number dest.account_number,
      eq_iff dest.account_number source.account_number,
    )

    dest_still :
        rows dest.account_number (update_row source.account_number (with_balance (money left)) l)
        ≡ dest ∷ []
    dest_still = rw (
      rows-update_row dest.account_number source.account_number (money left),
      distinct,
      dest_found,
    )

    pub moved-Moved : Moved l source dest u q moved
    moved-Moved = record {
      source_after = rw (
        rows-update_row source.account_number dest.account_number (money gained),
        reversed,
        rows-update_row source.account_number source.account_number (money left),
        eq_refl source.account_number,
        source_found,
      );
      dest_after = rw (
        rows-update_row dest.account_number dest.account_number (money gained),
        eq_refl dest.account_number,
        dest_still,
      );
      others = λ k from to. rw (
        rows-update_row k dest.account_number (money gained),
        to,
        rows-update_row k source.account_number (money left),
        from,
      );
      totals = λ c.
          sums_moved (str_eq source.currency c) (str_eq dest.currency c) _ _ _
            source.balance.coefficient u dest.balance.coefficient q
            (total-update_row c source.account_number (money left) l source source_found)
            (total-update_row c dest.account_number (money gained)
              (update_row source.account_number (with_balance (money left)) l) dest dest_still);
    }
