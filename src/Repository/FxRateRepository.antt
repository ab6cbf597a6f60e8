-- ===== src/Repository/FxRateRepository.antt =====
-- src/fund_transfer/repositories/fx_rate_repository.py
pub mod Latest
use ai_spec_driven_developme.Prelude.{
  ℕ, ◌==◌, String, Bool, true, false, not, Option, none, some, List, [], ◌∷◌, ◌++◌, map, select,
  any_of, ltb, if◌then◌else◌,
}
use ai_spec_driven_developme.Errors.{other_error, data_error, integrity_error, ok, err}
use ai_spec_driven_developme.Models.{CurrencyPair, FxRateSnapshot, RateMap}
use ai_spec_driven_developme.Session.{Engine, Action, pure, query, modify, new_id, ◌>>=◌, ◌>>◌}
use ai_spec_driven_developme.Session.Rows.{scalar_one_or_none}

abbrev pub is_fresh : FxRateSnapshot → Bool
is_fresh snapshot = not snapshot.is_stale

-- `order_by(effective_at.desc()).limit(1)`; of several with one time, the first stored.
unfoldable pub latest : List FxRateSnapshot → Option FxRateSnapshot
latest [] = none
latest (x ∷ xs) = elim (latest xs) [
  | none ↦ some x
  | some y ↦ if ltb x.effective_at y.effective_at then some y else some x
]

unfoldable pub get_latest_snapshot : Action (Option FxRateSnapshot)
get_latest_snapshot = query (λ db. ok (latest (select is_fresh db.snapshots)))

abbrev pub has_snapshot_id : ℕ → FxRateSnapshot → Bool
has_snapshot_id snapshot_id snapshot = snapshot.id == snapshot_id

unfoldable pub get_snapshot_by_id : ℕ → Action (Option FxRateSnapshot)
get_snapshot_by_id snapshot_id =
    query (λ db. scalar_one_or_none (select (has_snapshot_id snapshot_id) db.snapshots))

unfoldable pub insert_snapshot : Engine → RateMap → String → Action FxRateSnapshot
insert_snapshot e rates provider_source = do
  id ← new_id e
  let snapshot : FxRateSnapshot = record {
    id = id;
    effective_at = e.db_now;
    fetched_at = e.db_now;
    is_stale = false;
    provider_source = provider_source;
    rates = rates;
  }
  modify (λ db.
      if not (e.fits 100 provider_source)
      then err (other_error data_error)
      else if any_of (has_snapshot_id id) db.snapshots
      then err (other_error integrity_error)
      else ok (record db { snapshots = db.snapshots ++ snapshot ∷ [] }))
  pure snapshot

abbrev pub stale_if : ℕ → FxRateSnapshot → FxRateSnapshot
stale_if snapshot_id snapshot =
    if has_snapshot_id snapshot_id snapshot then record snapshot { is_stale = true } else snapshot

unfoldable pub mark_stale : ℕ → Action (Unit {0})
mark_stale snapshot_id =
    modify (λ db. ok (record db { snapshots = map (stale_if snapshot_id) db.snapshots }))

abbrev pub pair_is_active : CurrencyPair → Bool
pair_is_active pair = pair.is_active

unfoldable pub get_active_currency_pairs : Action (List CurrencyPair)
get_active_currency_pairs = query (λ db. ok (select pair_is_active db.currency_pairs))
