-- ===== src/Session/Rows/Laws.antt =====
-- What a change of one account does to the queries and to the sums of the balances.
use ai_spec_driven_developme.Prelude.{
  String, ◌≡◌, refl, some, List, [], ◌∷◌, map, arith, str_eq, eq_iff, if◌then◌else◌, ap, Bool-cases,
  inl, inr, any_of, ◌++◌, true, false, select-append,
}
use ai_spec_driven_developme.Prelude.Int.{ℤ, pos, pos_part, neg_part, ◌+ℤ◌, int_laws}
use ai_spec_driven_developme.Decimal.{Decimal}
use ai_spec_driven_developme.Errors.{ok}
use ai_spec_driven_developme.Models.{Account}
use ai_spec_driven_developme.Session.Rows.{
  scalar_one_or_none, is_numbered, rows, update_row, with_balance,
}

-- A query after a change of the balance of account `j`.
pub rows-update_row :
    (k j : String) (d : Decimal) (l : List Account)
    → rows k (update_row j (with_balance d) l)
      ≡ (if str_eq j k then map (with_balance d) (rows k l) else rows k l)
unfolding rows update_row
rows-update_row k j d [] = ground arith
rows-update_row k j d (a ∷ l) = ground (
  arith,
  rows-update_row k j d l,
  eq_iff a.account_number j,
  eq_iff a.account_number k,
  eq_iff j k,
)

-- A query that found one row found the only one.
pub rows_of_scalar :
    (k : String) (l : List Account) (a : Account)
    → scalar_one_or_none (rows k l) ≡ ok (some a)
    → rows k l ≡ a ∷ []
rows_of_scalar k l a h = only (rows k l) h
  where
    only : (found : List Account) → scalar_one_or_none found ≡ ok (some a) → found ≡ a ∷ []
    only [] p = cc
    only (x ∷ []) p = cc
    only (x ∷ y ∷ xs) p = cc

-- A row that a query finds has the number asked for.
pub rows_number :
    (k : String) (l : List Account) (a : Account) → rows k l ≡ a ∷ [] → a.account_number ≡ k
unfolding rows
rows_number k [] a h = cc
rows_number k (b ∷ l) a h = ground (arith, rows_number k l a, eq_iff b.account_number k)

-- The sum of the balances in one currency, in ten-thousandths.
abbrev pub amount_in : String → Account → ℤ
amount_in currency a = if str_eq a.currency currency then a.balance.coefficient else pos 0

unfoldable pub total : String → List Account → ℤ
total currency [] = pos 0
total currency (a ∷ l) = amount_in currency a +ℤ total currency l

total-update_row_none :
    (c k : String) (d : Decimal) (l : List Account)
    → rows k l ≡ []
    → total c (update_row k (with_balance d) l) ≡ total c l
unfolding rows update_row total
total-update_row_none c k d [] h = refl
total-update_row_none c k d (b ∷ l) h = ground (arith, total-update_row_none c k d l)

cons-injective {ℓ} :
    {A : Type ℓ} (x y : A) (xs ys : List A)
    → ◌≡◌ {A = List A} (x ∷ xs) (y ∷ ys)
    → (x ≡ y) × (xs ≡ ys)
cons-injective x y xs ys h = (cc, cc)

swap_ends : (x t y : ℤ) → x +ℤ t +ℤ y ≡ y +ℤ t +ℤ x
swap_ends x t y = omega int_laws

under_head : (x t u y z : ℤ) → t +ℤ y ≡ u +ℤ z → x +ℤ t +ℤ y ≡ x +ℤ u +ℤ z
under_head x t u y z h = omega (int_laws, ap pos_part h, ap neg_part h)

-- A change of one balance changes the sum by the difference.
pub total-update_row :
    (c k : String) (d : Decimal) (l : List Account) (a : Account)
    → rows k l ≡ a ∷ []
    → total c (update_row k (with_balance d) l) +ℤ amount_in c a
      ≡ total c l +ℤ amount_in c (with_balance d a)
unfolding rows update_row total
total-update_row c k d [] a h = cc
total-update_row c k d (b ∷ l) a h = elim (Bool-cases (is_numbered k b)) [
  | inl same ↦
      let (e, none_left) = cons-injective b a (rows k l) [] (rw same at h) in
      rw (same, total-update_row_none c k d l none_left, ← e)
        (swap_ends (amount_in c (with_balance d b)) (total c l) (amount_in c b))
  | inr other ↦
      let ih = total-update_row c k d l a (rw other at h) in
      rw other (
        under_head (amount_in c b) (total c (update_row k (with_balance d) l)) (total c l)
          (amount_in c a) (amount_in c (with_balance d a)) ih)
]

pub no_rows : (k : String) (l : List Account) → any_of (is_numbered k) l ≡ false → rows k l ≡ []
unfolding rows any_of
no_rows k [] h = refl
no_rows k (a ∷ l) h = ground (arith, no_rows k l)

pub rows-append : (k : String) (l m : List Account) → rows k (l ++ m) ≡ rows k l ++ rows k m
unfolding rows
rows-append k l m = select-append (is_numbered k) l m

pub row_alone :
    (k : String) (a : Account)
    → (str_eq a.account_number k ≡ true → rows k (a ∷ []) ≡ a ∷ [])
      × (str_eq a.account_number k ≡ false → rows k (a ∷ []) ≡ [])
unfolding rows
row_alone k a = (λ p. rw p, λ p. rw p)
