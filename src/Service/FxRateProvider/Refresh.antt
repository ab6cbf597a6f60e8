-- ===== src/Service/FxRateProvider/Refresh.antt =====
-- What a refresh of the rates leaves, over all answers of the feed.
use ai_spec_driven_developme.Prelude.{ℕ, ◌+◌, ◌≡◌, refl, true, false, Option, none, some, arith}
use ai_spec_driven_developme.Models.{RateMap}
use ai_spec_driven_developme.Service.FxRateProvider.{TreasuryFeedAdapter, do_refresh}

-- The rates of the first attempt that got some.
abbrev pub first_answer : (first second third : Option RateMap) → Option RateMap
first_answer (some rates) _ _ = some rates
first_answer none (some rates) _ = some rates
first_answer none none third = third

abbrev pub refreshed : ℕ → Option RateMap → TreasuryFeedAdapter → TreasuryFeedAdapter
refreshed now (some rates) a = record {
  snapshot = some (record { rates = rates; fetched_at = now; provider = "treasury_feed" });
  consecutive_failures = 0;
  is_stale = false;
}
refreshed now none a = record {
  snapshot = a.snapshot;
  consecutive_failures = a.consecutive_failures + 3;
  is_stale = true;
}

-- A refresh takes the rates of the first attempt that gets some, and resets the failures and the stale
-- mark; when all three fail it keeps the last snapshot and marks it stale.
pub do_refresh-eq :
    (now : ℕ) (first second third : Option RateMap) (a : TreasuryFeedAdapter)
    → do_refresh now first second third a ≡ refreshed now (first_answer first second third) a
unfolding do_refresh
do_refresh-eq now (some rates) second third a = refl
do_refresh-eq now none (some rates) third a = refl
do_refresh-eq now none none (some rates) a = refl
do_refresh-eq now none none none a = ground arith
