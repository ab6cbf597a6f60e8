-- ===== src/Tests/Setup.antt =====
-- A database that rounds and bounds its Numeric columns as PostgreSQL does, a configuration and
-- two accounts.
use ai_spec_driven_developme.Prelude.{
  ℕ, ◌+◌, ◌*◌, ◌-◌, ◌^◌, ◌<◌, ◌≤◌, ◌≡◌, refl, String, Bool, true, false, Option, none, some, [],
  ◌∷◌, ltb, leb, arith, if◌then◌else◌, lookup, any_of,
}
use ai_spec_driven_developme.Prelude.Int.{ℤ, pos, magnitude, signed, ◌≤ℤ◌}
use ai_spec_driven_developme.Decimal.{Decimal, rescaled, round_half_up, literal}
use ai_spec_driven_developme.Errors.{ok}
use ai_spec_driven_developme.Models.{Account, active}
use ai_spec_driven_developme.Config.{ExchangeRateConfig}
use ai_spec_driven_developme.Session.{Engine, Db, Session}
use ai_spec_driven_developme.Session.Numeric.{NumericColumns, NumericRange, AllSound, IsSound}
use ai_spec_driven_developme.Service.TransferService.Ledger.{NonnegRates}
use ai_spec_driven_developme.Service.ExchangeRateService.{get_rate, find_rate, validate_currency}
use ai_spec_driven_developme.Security.{Claims}

abbrev pub claims_of : String → Claims
claims_of name = ("sub", name) ∷ []

unfoldable pub column : ℕ → ℕ → Decimal → Option Decimal
unfolding rescaled
column p s d =
    let m = rescaled round_half_up s d in
    if ltb m (10 ^ p)
    then some (record { coefficient = signed d.coefficient m; scale = s })
    else none

abbrev pub engine : Engine
engine = record {
  begins = λ b. true;
  numeric = column;
  fits = λ n text. true;
  uuid4 = λ n. 100 + n;
  choices = λ n. "A1B2C3D4E5F6";
  sha256 = λ text. text;
  utcnow = 1000;
  db_now = 1000;
}

signed-magnitude : (x : ℤ) → signed x (magnitude x) ≡ x
signed-magnitude x = ground arith

same_scale : (s : ℕ) → leb s s ≡ true
same_scale s = ground arith

no_shift : (m s : ℕ) → m * 10 ^ (s - s) ≡ m
no_shift m s = ground arith

pub engine-NumericColumns : NumericColumns engine
unfolding column rescaled
engine-NumericColumns = record {
  exact = λ p s x h.
      rw (
        same_scale s,
        no_shift (magnitude x) s,
        below (magnitude x) (10 ^ p) h,
        signed-magnitude x,
      );
  refuses = λ p s x h. rw (same_scale s, no_shift (magnitude x) s, above (magnitude x) (10 ^ p) h);
}
  where
    below : (m n : ℕ) → m < n → ltb m n ≡ true
    below m n h = ground arith

    above : (m n : ℕ) → n ≤ m → ltb m n ≡ false
    above m n h = ground arith

abbrev pub config : ExchangeRateConfig
config = record {
  supported_currencies = "USD" ∷ "EUR" ∷ [];
  max_transfer_amounts = ("USD", literal 10000 0) ∷ ("EUR", literal 9000 0) ∷ [];
  rates = ("USD", ("EUR", literal 92 2) ∷ []) ∷ ("EUR", ("USD", literal 109 2) ∷ []) ∷ [];
}

rate_nonneg :
    (from to : String) (r : Decimal) → get_rate config from to ≡ ok r → pos 0 ≤ℤ r.coefficient
unfolding get_rate find_rate lookup validate_currency any_of
rate_nonneg from to r h = ground arith

pub config-NonnegRates : NonnegRates config
config-NonnegRates = record { at = rate_nonneg }

column_range :
    (p s : ℕ) (d v : Decimal)
    → column p s d ≡ some v
    → ((v.scale ≡ s) × (magnitude v.coefficient < 10 ^ p))
      × (pos 0 ≤ℤ d.coefficient → pos 0 ≤ℤ v.coefficient)
unfolding column
column_range p s d v h =
    by_size (rescaled round_half_up s d) (ltb (rescaled round_half_up s d) (10 ^ p)) refl h
  where
    by_size :
        (m : ℕ) (b : Bool)
        → ltb m (10 ^ p) ≡ b
        → (if b then some (record { coefficient = signed d.coefficient m; scale = s }) else none)
          ≡ some v
        → ((v.scale ≡ s) × (magnitude v.coefficient < 10 ^ p))
          × (pos 0 ≤ℤ d.coefficient → pos 0 ≤ℤ v.coefficient)
    by_size m true q k = ground arith
    by_size m false q k = absurd (ground arith)

pub engine-NumericRange : NumericRange engine
engine-NumericRange = record {
  in_range = λ p s d v h. (column_range p s d v h).0;
  keeps_sign = λ p s d v h. (column_range p s d v h).1;
}

abbrev pub account : ℕ → String → String → String → ℕ → Account
account id number owner currency balance = record {
  id = id;
  account_number = number;
  owner_id = owner;
  currency = currency;
  balance = literal balance 4;
  status = active;
  owner_pii_hash = none;
}

abbrev pub alice : Account
alice = account 1 "ACC-ALICE" "alice" "USD" 5000000

abbrev pub bob : Account
bob = account 2 "ACC-BOB" "bob" "EUR" 100000

abbrev pub carol : Account
carol = account 3 "ACC-CAROL" "carol" "USD" 70000

abbrev pub tables : Db
tables = record {
  accounts = alice ∷ bob ∷ carol ∷ [];
  transfers = [];
  audit_log = [];
  currency_pairs = [];
  snapshots = [];
  notifications = [];
}

abbrev pub session : Session
session = record { db = tables; in_transaction = false; draws = 0 }

pub tables-AllSound : AllSound tables.accounts
tables-AllSound = (sound 5000000 refl, (sound 100000 refl, (sound 70000 refl, tt)))
  where
    sound : {i : ℕ} {n o c : String} (b : ℕ) → ltb b (10 ^ 19) ≡ true → IsSound (account i n o c b)
    sound b h = record { scale = refl; fits = ground arith; nonneg = ground arith }
