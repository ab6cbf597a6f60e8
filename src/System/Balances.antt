-- ===== src/System/Balances.antt =====
-- What the service promises of the money: an abstract account book, from account numbers to a currency and
-- a balance, which an opening or a movement of money changes. It forgets owners, statuses, the
-- order of the rows, and every other table.
pub mod Effects
use ai_spec_driven_developme.Models.{Account}
use ai_spec_driven_developme.Prelude.{
  List, Option, String, [], false, none, some, str_eq, subst, sym, ◌∷◌, ◌≡◌,
}
use ai_spec_driven_developme.Prelude.Int.{pos, ℤ, ◌+ℤ◌, ◌-ℤ◌, ◌≤ℤ◌}
use ai_spec_driven_developme.Session.Rows.{rows}
pub mod Histories
pub mod Refinement

-- A balance in ten-thousandths.
abbrev pub Entry : Type 0
Entry = Option (String × ℤ)

abbrev pub Book : Type 0
Book = String → Entry

-- Money leaves one account, which has it, and money reaches another; all other accounts stay.
pub record Movement (before after : Book) : Type 0 where
  pub source : String
  pub dest : String
  pub source_currency : String
  pub dest_currency : String
  pub source_balance : ℤ
  pub dest_balance : ℤ
  pub taken : ℤ
  pub given : ℤ
  pub distinct : str_eq source dest ≡ false
  pub had : before source ≡ some (source_currency, source_balance)
  pub held : before dest ≡ some (dest_currency, dest_balance)
  pub taken_nonneg : pos 0 ≤ℤ taken
  pub given_nonneg : pos 0 ≤ℤ given
  pub covered : pos 0 ≤ℤ source_balance -ℤ taken
  pub pays : after source ≡ some (source_currency, source_balance -ℤ taken)
  pub gets : after dest ≡ some (dest_currency, dest_balance +ℤ given)
  pub others : (k : String) → str_eq source k ≡ false → str_eq dest k ≡ false → after k ≡ before k

-- A number that was not used gets a balance that is not negative; all other accounts stay.
pub record Opening (before after : Book) : Type 0 where
  pub number : String
  pub currency : String
  pub balance : ℤ
  pub unused : before number ≡ none
  pub opened : after number ≡ some (currency, balance)
  pub balance_nonneg : pos 0 ≤ℤ balance
  pub others : (k : String) → str_eq number k ≡ false → after k ≡ before k

pub data Effect (before after : Book) : Type 0 where
  opening : Opening before after → Effect before after
  -- Within one currency, what is given is what is taken.
  transfer :
      (m : Movement before after)
      → (m.source_currency ≡ m.dest_currency → m.given ≡ m.taken)
      → Effect before after
  -- A cross-currency transfer, which takes a fee.
  exchange : Movement before after → Effect before after

-- Effects, one after another.
pub data History (before : Book) : Book → Type 0 where
  no_effect : History before before
  effect : {mid after : Book} → History before mid → Effect mid after → History before after

pub followed : {a b c : Book} → History a b → History b c → History a c
followed p no_effect = p
followed p (effect q x) = effect (followed p q) x

pub History-same : {a b : Book} → b ≡ a → History a b
History-same {a} same = subst (History a) (sym same) no_effect

-- The book that the rows of the accounts make.
unfoldable pub entry : List Account → Entry
entry [] = none
entry (a ∷ l) = some (a.currency, a.balance.coefficient)

unfoldable pub balances : List Account → Book
unfolding entry
balances accounts number = entry (rows number accounts)
