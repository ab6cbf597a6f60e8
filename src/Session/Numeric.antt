-- ===== src/Session/Numeric.antt =====
-- What the service relies on of a Numeric(precision, scale) column, and the accounts as stored.
use ai_spec_driven_developme.Prelude.{
  ℕ, ◌^◌, ◌<◌, ◌≤◌, ◌≡◌, none, some, List, [], ◌∷◌, arith, ltb, refl, subst, String, Bool-cases,
  inl, inr,
}
use ai_spec_driven_developme.Prelude.Int.{ℤ, pos, magnitude, ◌≤ℤ◌}
use ai_spec_driven_developme.Decimal.{Decimal}
use ai_spec_driven_developme.Decimal.Exact.{money}
use ai_spec_driven_developme.Models.{Account}
use ai_spec_driven_developme.Session.{Engine}
use ai_spec_driven_developme.Session.Rows.{rows, update_row, with_balance, is_numbered}

abbrev at_scale : ℕ → ℤ → Decimal
at_scale s x = record { coefficient = x; scale = s }

-- A value at the column's scale is stored unchanged if its digits fit, and refused if not.
pub record NumericColumns (e : Engine) : Type 0 where
  pub exact :
      (p s : ℕ) (x : ℤ) → magnitude x < 10 ^ p → e.numeric p s (at_scale s x) ≡ some (at_scale s x)
  pub refuses : (p s : ℕ) (x : ℤ) → 10 ^ p ≤ magnitude x → e.numeric p s (at_scale s x) ≡ none

-- What a column gives back of any value it took: at its scale, within its precision, and with no sign
-- added.
pub record NumericRange (e : Engine) : Type 0 where
  pub in_range :
      (p s : ℕ) (d v : Decimal)
      → e.numeric p s d ≡ some v
      → (v.scale ≡ s) × (magnitude v.coefficient < 10 ^ p)
  pub keeps_sign :
      (p s : ℕ) (d v : Decimal)
      → e.numeric p s d ≡ some v
      → pos 0 ≤ℤ d.coefficient
      → pos 0 ≤ℤ v.coefficient

-- The time says nothing of the columns.
pub NumericColumns-at_time :
    {e : Engine} (utcnow db_now : ℕ)
    → NumericColumns e
    → NumericColumns (record e { utcnow = utcnow; db_now = db_now })
NumericColumns-at_time utcnow db_now laws = record { exact = laws.exact; refuses = laws.refuses }

pub NumericRange-at_time :
    {e : Engine} (utcnow db_now : ℕ)
    → NumericRange e
    → NumericRange (record e { utcnow = utcnow; db_now = db_now })
NumericRange-at_time utcnow db_now range = record {
  in_range = range.in_range;
  keeps_sign = range.keeps_sign;
}

-- The bound of a Numeric(19, 4) column, in ten-thousandths.
abbrev pub column_limit : ℕ
column_limit = 10 ^ 19

-- What a Numeric(19, 4) column took it took unchanged.
pub numeric-money :
    {e : Engine} (laws : NumericColumns e) (x : ℤ) {d : Decimal}
    → e.numeric 19 4 (money x) ≡ some d
    → (d ≡ money x) × (magnitude x < column_limit)
numeric-money laws x h = elim (Bool-cases (ltb (magnitude x) column_limit)) [
  | inl fits ↦ (ground (arith, laws.exact 19 4 x), ground arith)
  | inr large ↦ absurd (ground (arith, laws.refuses 19 4 x))
]

-- A balance as its column holds it, and not negative.
pub record IsSound (a : Account) : Type 0 where
  pub scale : a.balance.scale ≡ 4
  pub fits : magnitude a.balance.coefficient < column_limit
  pub nonneg : pos 0 ≤ℤ a.balance.coefficient

abbrev pub AllSound : List Account → Type 0
AllSound [] = Unit
AllSound (a ∷ l) = IsSound a × AllSound l

pub balance-money : (a : Account) → a.balance.scale ≡ 4 → a.balance ≡ money a.balance.coefficient
balance-money a h = ground arith

pub found-IsSound :
    (k : String) (l : List Account) (a : Account) → rows k l ≡ a ∷ [] → AllSound l → IsSound a
unfolding rows
found-IsSound k [] a h sound = cc
found-IsSound k (b ∷ l) a h sound = elim (Bool-cases (is_numbered k b)) [
  | inl same ↦ subst IsSound (head_of (rw same at h)) sound.0
  | inr other ↦ found-IsSound k l a (rw other at h) sound.1
]
  where
    head_of :
        {x y : Account} {xs ys : List Account} → ◌≡◌ {A = List Account} (x ∷ xs) (y ∷ ys) → x ≡ y
    head_of p = cc

-- A sound balance keeps all accounts sound.
pub update_row-AllSound :
    (k : String) (x : ℤ) (l : List Account)
    → magnitude x < column_limit
    → pos 0 ≤ℤ x
    → AllSound l
    → AllSound (update_row k (with_balance (money x)) l)
unfolding update_row
update_row-AllSound k x [] fits nonneg sound = tt
update_row-AllSound k x (b ∷ l) fits nonneg sound = elim (Bool-cases (is_numbered k b)) [
  | inl same ↦ rw same (
    record { scale = refl; fits = fits; nonneg = nonneg },
    update_row-AllSound k x l fits nonneg sound.1,
  )
  | inr other ↦ rw other (sound.0, update_row-AllSound k x l fits nonneg sound.1)
]
