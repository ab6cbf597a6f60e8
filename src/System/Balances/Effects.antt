-- ===== src/System/Balances/Effects.antt =====
-- The writes of the accounts as effects on the book.
use ai_spec_driven_developme.Session.Rows.Laws.{no_rows, row_alone, rows-append}
use mathlib.Core.List.{append-nil}
use ai_spec_driven_developme.Models.{Account}
use ai_spec_driven_developme.Session.{Engine}
use ai_spec_driven_developme.Prelude.{
  fun_ext, refl, Bool-cases, inl, inr, List, String, [], any_of, ap, false, str_eq, ◌++◌, ◌∙◌, ◌∷◌,
  ◌≡◌, ap₂, eq_refl, subst, sym,
}
use ai_spec_driven_developme.System.Balances.{Effect, transfer, Opening, balances, entry, Movement}
use ai_spec_driven_developme.Repository.AccountRepository.{anonymized}
use ai_spec_driven_developme.Session.Rows.{is_numbered, rows, update_row, with_balance}
use ai_spec_driven_developme.Prelude.Int.{pos, ◌≤ℤ◌, ℤ, ◌+ℤ◌, ◌-ℤ◌}
use ai_spec_driven_developme.Session.Rows.Moves.{Moved, moved}
use ai_spec_driven_developme.Decimal.Exact.{money}
use ai_spec_driven_developme.Session.Rows.Laws.{rows_number}

-- A row added under an unused number, with a balance that is not negative.
pub added-Opening :
    (l : List Account) (a : Account)
    → any_of (is_numbered a.account_number) l ≡ false
    → pos 0 ≤ℤ a.balance.coefficient
    → Opening (balances l) (balances (l ++ a ∷ []))
unfolding balances
added-Opening l a unused nonneg = record {
  number = a.account_number;
  currency = a.currency;
  balance = a.balance.coefficient;
  unused = ap entry (no_rows a.account_number l unused);
  opened = ap entry (
      rows-append a.account_number l (a ∷ [])
      ∙ ap₂ (λ x y. x ++ y) (no_rows a.account_number l unused)
          ((row_alone a.account_number a).0 (eq_refl a.account_number)));
  balance_nonneg = nonneg;
  others = λ k p. ap entry (
      rows-append k l (a ∷ [])
      ∙ ap (λ x. rows k l ++ x) ((row_alone k a).1 p)
      ∙ append-nil (rows k l));
}

-- A closed account keeps its number, currency and balance.
closed_entry :
    (e : Engine) (number k : String) (l : List Account)
    → entry (rows k (update_row number (anonymized e) l)) ≡ entry (rows k l)
unfolding update_row rows entry
closed_entry e number k [] = refl
closed_entry e number k (a ∷ l) = elim (Bool-cases (is_numbered number a)) [
  | inl p ↦ elim (Bool-cases (is_numbered k a)) [
    | inl q ↦ rw (p, q) refl
    | inr q ↦ rw (p, q) (closed_entry e number k l)
  ]
  | inr p ↦ elim (Bool-cases (is_numbered k a)) [
    | inl q ↦ rw (p, q) refl
    | inr q ↦ rw (p, q) (closed_entry e number k l)
  ]
]

pub closed-balances :
    (e : Engine) (number : String) (l : List Account)
    → balances (update_row number (anonymized e) l) ≡ balances l
unfolding balances
closed-balances e number l = fun_ext (λ k. closed_entry e number k l)

-- Of the rows of two numbers, what a movement of money is.
pub record RowsMoved (l after : List Account) : Type 0 where
  pub from : String
  pub to : String
  pub source : Account
  pub dest : Account
  pub taken : ℤ
  pub given : ℤ
  pub distinct : str_eq from to ≡ false
  pub source_found : rows from l ≡ source ∷ []
  pub dest_found : rows to l ≡ dest ∷ []
  pub taken_nonneg : pos 0 ≤ℤ taken
  pub given_nonneg : pos 0 ≤ℤ given
  pub covered : pos 0 ≤ℤ source.balance.coefficient -ℤ taken
  pub source_after :
      rows from after ≡ with_balance (money (source.balance.coefficient -ℤ taken)) source ∷ []
  pub dest_after :
      rows to after ≡ with_balance (money (dest.balance.coefficient +ℤ given)) dest ∷ []
  pub others : (k : String) → str_eq from k ≡ false → str_eq to k ≡ false → rows k after ≡ rows k l

pub rows-Movement :
    {l after : List Account} → RowsMoved l after → Movement (balances l) (balances after)
unfolding balances entry
rows-Movement w = record {
  source = w.from;
  dest = w.to;
  source_currency = w.source.currency;
  dest_currency = w.dest.currency;
  source_balance = w.source.balance.coefficient;
  dest_balance = w.dest.balance.coefficient;
  taken = w.taken;
  given = w.given;
  distinct = w.distinct;
  had = ap entry w.source_found;
  held = ap entry w.dest_found;
  taken_nonneg = w.taken_nonneg;
  given_nonneg = w.given_nonneg;
  covered = w.covered;
  pays = ap entry w.source_after;
  gets = ap entry w.dest_after;
  others = λ k p q. ap entry (w.others k p q);
}

pub rows-transfer :
    {l after : List Account} (w : RowsMoved l after)
    → (w.source.currency ≡ w.dest.currency → w.given ≡ w.taken)
    → Effect (balances l) (balances after)
unfolding rows-Movement
rows-transfer w one_currency = transfer (rows-Movement w) one_currency

-- The movement of two accounts that were found by number.
pub Moved-RowsMoved :
    {l after : List Account} {source dest : Account} {u q : ℤ} (from to : String)
    → rows from l ≡ source ∷ []
    → rows to l ≡ dest ∷ []
    → str_eq from to ≡ false
    → Moved l source dest u q after
    → pos 0 ≤ℤ u
    → pos 0 ≤ℤ q
    → pos 0 ≤ℤ source.balance.coefficient -ℤ u
    → RowsMoved l after
Moved-RowsMoved {l} {after} {source} {dest} {u} {q} from to source_found dest_found distinct moved
      taken given covered =
    let a = rows_number from l source source_found in
    let b = rows_number to l dest dest_found in
    record {
      from = source.account_number;
      to = dest.account_number;
      source = source;
      dest = dest;
      taken = u;
      given = q;
      distinct = rw (a, b) distinct;
      source_found = subst (λ k. rows k l ≡ source ∷ []) (sym a) source_found;
      dest_found = subst (λ k. rows k l ≡ dest ∷ []) (sym b) dest_found;
      taken_nonneg = taken;
      given_nonneg = given;
      covered = covered;
      source_after = moved.source_after;
      dest_after = moved.dest_after;
      others = moved.others;
    }
