-- ===== src/Service/FxRateProvider.antt =====
-- src/fund_transfer/services/fx_rate_provider.py. The feed is a parameter: what each of the three
-- attempts gets, `none` for any exception.
pub mod Refresh
use ai_spec_driven_developme.Prelude.{
  ℕ, ◌+◌, String, Bool, true, false, not, ◌||◌, Option, none, some, List, [], ◌∷◌, str_eq, any_of,
  leb, lookup, if◌then◌else◌,
}
use ai_spec_driven_developme.Decimal.{Decimal}
use ai_spec_driven_developme.Errors.{
  domain_error, other_error, attribute_error, unsupported_currency_pair_error, Result, ok, err,
  raise_if, or_raise,
}
use ai_spec_driven_developme.Models.{RateMap}
use ai_spec_driven_developme.Service.ExchangeRateService.{find_rate}

pub record RateSnapshot : Type 0 where
  pub rates : RateMap
  pub fetched_at : ℕ
  pub provider : String

-- The state of a `TreasuryFeedAdapter`.
pub record TreasuryFeedAdapter : Type 0 where
  pub snapshot : Option RateSnapshot
  pub consecutive_failures : ℕ
  pub is_stale : Bool

abbrev pub new_adapter : TreasuryFeedAdapter
new_adapter = record { snapshot = none; consecutive_failures = 0; is_stale = false }

abbrev pub max_failures : ℕ
max_failures = 3

-- An attempt that got the rates.
abbrev pub took : ℕ → RateMap → TreasuryFeedAdapter → TreasuryFeedAdapter
took now rates a = record a {
  snapshot = some (record { rates = rates; fetched_at = now; provider = "treasury_feed" });
  consecutive_failures = 0;
  is_stale = false;
}

-- An attempt that raised.
abbrev pub failed_once : TreasuryFeedAdapter → TreasuryFeedAdapter
failed_once a = record a { consecutive_failures = a.consecutive_failures + 1 }

-- After the loop.
abbrev settle_stale : TreasuryFeedAdapter → TreasuryFeedAdapter
settle_stale a = if leb max_failures a.consecutive_failures then record a { is_stale = true } else a

-- The attempts that are left, and what the feed answers to each; the first success returns.
unfoldable pub attempts : ℕ → List (Option RateMap) → TreasuryFeedAdapter → TreasuryFeedAdapter
attempts now [] a = settle_stale a
attempts now (none ∷ answers) a = attempts now answers (failed_once a)
attempts now (some rates ∷ answers) a = took now rates a

-- `_do_refresh`: three attempts.
unfoldable pub do_refresh :
    ℕ → (first second third : Option RateMap) → TreasuryFeedAdapter → TreasuryFeedAdapter
unfolding attempts
do_refresh now first second third a = attempts now (first ∷ second ∷ third ∷ []) a

abbrev has_code : String → String × List (String × Decimal) → Bool
has_code code (from_currency, rates) =
    (elim (lookup code rates) [ none ↦ false | some _ ↦ true ]) || str_eq code from_currency

unfoldable pub validate_currency : TreasuryFeedAdapter → String → Result (Unit {0})
validate_currency a code = elim a.snapshot [
  | none ↦ ok tt
  | some snapshot ↦
      raise_if (not (any_of (has_code code) snapshot.rates))
        (domain_error unsupported_currency_pair_error none)
]

-- `get_snapshot`: the adapter after it, and what it returns; a first one refreshes. The feed is asked
-- only then.
unfoldable pub get_snapshot :
    ℕ
    → (first second third : Option RateMap) → TreasuryFeedAdapter
    → Option RateSnapshot × TreasuryFeedAdapter
get_snapshot now first second third a = elim a.snapshot [
  | some snapshot ↦ (some snapshot, a)
  | none ↦ let b = do_refresh now first second third a in (b.snapshot, b)
]

-- `get_rate`; the attribute of a snapshot that is None raises an AttributeError.
unfoldable pub get_rate :
    ℕ
    → (first second third : Option RateMap) → (from_currency to_currency : String)
    → TreasuryFeedAdapter
    → Result Decimal × TreasuryFeedAdapter
get_rate now first second third from_currency to_currency a =
    let (snapshot, b) = get_snapshot now first second third a in
    elim snapshot [
      | none ↦ (err (other_error attribute_error), b)
      | some s ↦ (
        or_raise (find_rate s.rates from_currency to_currency)
            (domain_error unsupported_currency_pair_error none),
        b,
      )
    ]
