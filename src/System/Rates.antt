-- ===== src/System/Rates.antt =====
-- Snapshots without a negative rate, and the rate that a cross-currency transfer takes from them.
use ai_spec_driven_developme.Prelude.{
  Bool-cases, List, Option, Option-cases, String, [], arith, inl, inr, ltb, none, select, some,
  subst, ◌∙◌, ◌∷◌, ◌≡◌,
}
use ai_spec_driven_developme.Service.CrossCurrencyTransferService.Validation.{
  CrossCurrencyTransferRequest, Plan,
}
use ai_spec_driven_developme.Decimal.{Decimal}
use ai_spec_driven_developme.Session.{Engine, Session}
use ai_spec_driven_developme.Models.{FxRateSnapshot, RateMap}
use ai_spec_driven_developme.Service.TransferService.Conversion.{IsNonneg}
use ai_spec_driven_developme.Config.{Settings}
use ai_spec_driven_developme.Service.CrossCurrencyTransferService.Inversion.{Validated}
use ai_spec_driven_developme.Errors.{domain_error, ok, or_raise, unsupported_currency_pair_error}
use ai_spec_driven_developme.Service.ExchangeRateService.{find_rate}
use ai_spec_driven_developme.Repository.FxRateRepository.{is_fresh, latest}
use ai_spec_driven_developme.Service.CrossCurrencyTransferService.Computation.{rate_of}

pub record NonnegRateMap (x : FxRateSnapshot) : Type 0 where
  pub at : (from to : String) (r : Decimal) → find_rate x.rates from to ≡ some r → IsNonneg r

abbrev pub NonnegSnapshots : List FxRateSnapshot → Type 0
NonnegSnapshots [] = Unit
NonnegSnapshots (x ∷ l) = NonnegRateMap x × NonnegSnapshots l

fresh_nonneg : (l : List FxRateSnapshot) → NonnegSnapshots l → NonnegSnapshots (select is_fresh l)
unfolding select
fresh_nonneg [] h = tt
fresh_nonneg (x ∷ l) h = elim (Bool-cases (is_fresh x)) [
  | inl p ↦ rw p (h.0, fresh_nonneg l h.1)
  | inr p ↦ rw p (fresh_nonneg l h.1)
]

latest_nonneg :
    (l : List FxRateSnapshot) {x : FxRateSnapshot}
    → NonnegSnapshots l
    → latest l ≡ some x
    → NonnegRateMap x
unfolding latest
latest_nonneg [] h k = cc
latest_nonneg (y ∷ l) {x} h k = elim (Option-cases (latest l)) [
  | inl p ↦ subst NonnegRateMap (only y x (rw p at k)) h.0
  | inr (z, p) ↦ elim (Bool-cases (ltb y.effective_at z.effective_at)) [
    | inl o ↦ latest_nonneg l h.1 (p ∙ rw (p, o) at k)
    | inr o ↦ subst NonnegRateMap (only y x (rw (p, o) at k)) h.0
  ]
]
  where
    only : (a b : FxRateSnapshot) → ◌≡◌ {A = Option FxRateSnapshot} (some a) (some b) → a ≡ b
    only a b h = cc

rate_of-eq-ok :
    (rates : RateMap) (from to : String) {r : Decimal}
    → rate_of rates from to ≡ ok r
    → find_rate rates from to ≡ some r
unfolding rate_of
rate_of-eq-ok rates from to {r} h = by_rate (find_rate rates from to) h
  where
    by_rate :
        (o : Option Decimal)
        → or_raise o (domain_error unsupported_currency_pair_error none) ≡ ok r
        → o ≡ some r
    by_rate none k = absurd (ground arith)
    by_rate (some d) k = ground arith

-- The rate that a transfer was computed with.
pub current_rate-IsNonneg :
    {e : Engine} {settings : Settings} {request : CrossCurrencyTransferRequest} {caller_id : String}
    {s : Session} {plan : Plan} {t : Session}
    → Validated e settings request caller_id s plan t
    → NonnegSnapshots s.db.snapshots
    → IsNonneg plan.current_rate
current_rate-IsNonneg {request = request} {s = s} {plan} v rates =
    let newest =
      latest_nonneg (select is_fresh s.db.snapshots) (fresh_nonneg s.db.snapshots rates) v.newest in
    newest.at request.source_currency request.destination_currency plan.current_rate
      (rate_of-eq-ok v.snapshot.rates request.source_currency request.destination_currency v.rated)
