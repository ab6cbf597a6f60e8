-- ===== src/Service/CrossCurrencyTransferService/Inversion.antt =====
-- What a cross-currency transfer that went through has found and done.
use ai_spec_driven_developme.Service.CrossCurrencyTransferService.Checks.{
  WithinLimits, get_latest_snapshot-Keeps, get_snapshot_by_id-Keeps, ensure_active_pair-Keeps,
  check_transfer_limits-Keeps, check_transfer_limits-eq-ok, load_accounts-eq-ok,
}
use ai_spec_driven_developme.Prelude.{
  ℕ, List, String, ◌≡◌, refl, sym, subst, ◌∙◌, ap, Bool, true, false, not, Option, some, none, [],
  ◌∷◌, arith, str_eq, select, any_of, ◌⊎◌, inl, inr, Bool-cases,
}
use ai_spec_driven_developme.Decimal.{Decimal, lt, eq, zero_decimal}
use ai_spec_driven_developme.Errors.{ok, >>=-eq-ok, raise_if-eq-ok}
use ai_spec_driven_developme.Models.{Account, FxRateSnapshot}
use ai_spec_driven_developme.Config.{Settings}
use ai_spec_driven_developme.Session.{Engine, Db, Session}
use ai_spec_driven_developme.Session.Laws.{after_bind, ok-injective, raise_when-eq-ok}
use ai_spec_driven_developme.Session.Rows.{rows, scalar_one_or_none}
use ai_spec_driven_developme.Session.Unwinding.{after_lift, after_reading, after_test}
use ai_spec_driven_developme.Repository.FxRateRepository.{
  get_latest_snapshot, get_snapshot_by_id, is_fresh, latest, has_snapshot_id, pair_is_active,
  get_active_currency_pairs,
}
use ai_spec_driven_developme.Service.CrossCurrencyTransferService.Validation.{
  CrossCurrencyTransferRequest, Plan, load_accounts, ensure_active_pair, check_transfer_limits,
  validate, fresh_or_raise, is_pair,
}
use ai_spec_driven_developme.Service.CrossCurrencyTransferService.Computation.{
  rate_of, calculate_amounts, amount_in_usd, check_rate_deviation, deviation,
}

-- The rate differs from the rate of the preview by at most the threshold; against a preview of 0 there
-- is no percentage, and no test.
abbrev pub Tolerated : Settings → Decimal → Decimal → Type 0
Tolerated settings preview_rate current_rate =
    (eq preview_rate zero_decimal ≡ true)
    ⊎ ((pct : Decimal) × (deviation preview_rate current_rate ≡ ok pct)
        × (lt settings.fx_rate_deviation_threshold_pct pct ≡ false))

-- What the tests have found, before anything is written.
pub record Validated (e : Engine) (settings : Settings) (request : CrossCurrencyTransferRequest)
    (caller_id : String) (s : Session) (plan : Plan) (t : Session) : Type 0 where
  pub same_db : t.db ≡ s.db
  pub source_found : rows request.source_account_number s.db.accounts ≡ plan.source_account ∷ []
  pub dest_found :
      rows request.destination_account_number s.db.accounts ≡ plan.destination_account ∷ []
  pub owned : str_eq plan.source_account.owner_id caller_id ≡ true
  pub in_currency : str_eq plan.source_account.currency request.source_currency ≡ true
  pub snapshot : FxRateSnapshot
  pub newest : latest (select is_fresh s.db.snapshots) ≡ some snapshot
  pub fresh : snapshot.is_stale ≡ false
  pub preview : FxRateSnapshot
  pub preview_found : select (has_snapshot_id request.fx_snapshot_id) s.db.snapshots ≡ preview ∷ []
  pub preview_fresh : preview.is_stale ≡ false
  pub pair_active :
      any_of
        (is_pair request.source_currency request.destination_currency)
        (select pair_is_active s.db.currency_pairs)
      ≡ true
  pub preview_rate : Decimal
  pub preview_rated :
      rate_of preview.rates request.source_currency request.destination_currency ≡ ok preview_rate
  pub tolerated : Tolerated settings preview_rate plan.current_rate
  pub rated :
      rate_of snapshot.rates request.source_currency request.destination_currency
      ≡ ok plan.current_rate
  pub computed :
      calculate_amounts settings request.source_amount plan.current_rate ≡ ok plan.amounts
  pub in_usd :
      amount_in_usd request.source_amount request.source_currency snapshot.rates
      ≡ ok plan.source_amount_usd
  pub at : Session
  pub at_same : at.db ≡ s.db
  pub limits : WithinLimits e settings plan.source_account.account_number plan.source_amount_usd at
  pub covered : lt plan.source_account.balance plan.amounts.total_sender_cost ≡ false

fresh_or_raise-eq-ok :
    (o : Option FxRateSnapshot) {x : FxRateSnapshot} → fresh_or_raise o ≡ ok x → x.is_stale ≡ false
fresh_or_raise-eq-ok none h = cc
fresh_or_raise-eq-ok (some y) {x} h = ground arith

newest_found :
    (s : Session) {o : Option FxRateSnapshot} {t : Session} {x : FxRateSnapshot}
    → get_latest_snapshot s ≡ (ok o, t)
    → fresh_or_raise o ≡ ok x
    → latest (select is_fresh s.db.snapshots) ≡ some x
unfolding get_latest_snapshot
newest_found s {o = none} h k = absurd (ground arith)
newest_found s {o = some y} h k = ground arith

true_of_negated : (b : Bool) → not b ≡ false → b ≡ true
true_of_negated true h = refl
true_of_negated false h = cc

snapshot_found :
    (id : ℕ) (s : Session) {o : Option FxRateSnapshot} {t : Session} {x : FxRateSnapshot}
    → get_snapshot_by_id id s ≡ (ok o, t)
    → fresh_or_raise o ≡ ok x
    → select (has_snapshot_id id) s.db.snapshots ≡ x ∷ []
unfolding get_snapshot_by_id
snapshot_found id s {o} {t} {x} h k =
    only (select (has_snapshot_id id) s.db.snapshots) o (ap (λ p. p.0) h) k
  where
    only :
        (l : List FxRateSnapshot) (o : Option FxRateSnapshot)
        → scalar_one_or_none l ≡ ok o
        → fresh_or_raise o ≡ ok x
        → l ≡ x ∷ []
    only [] o h k = absurd (ground arith)
    only (y ∷ []) o h k = ground arith
    only (y ∷ z ∷ l) o h k = cc

ensure_active_pair-eq-ok :
    (from to : String) (s : Session) {x : Unit {0}} {t : Session}
    → ensure_active_pair from to s ≡ (ok x, t)
    → any_of (is_pair from to) (select pair_is_active s.db.currency_pairs) ≡ true
unfolding ensure_active_pair get_active_currency_pairs
ensure_active_pair-eq-ok from to s h =
    true_of_negated (any_of (is_pair from to) (select pair_is_active s.db.currency_pairs))
      (raise_when-eq-ok (not (any_of (is_pair from to) (select pair_is_active s.db.currency_pairs)))
        _ (record s { in_transaction = true }) h).0

check_rate_deviation-Tolerated :
    (settings : Settings) (preview_rate current_rate : Decimal) (id : ℕ) {x : Unit {0}}
    → check_rate_deviation settings preview_rate current_rate id ≡ ok x
    → Tolerated settings preview_rate current_rate
unfolding check_rate_deviation
check_rate_deviation-Tolerated settings preview_rate current_rate id h =
    elim (Bool-cases (eq preview_rate zero_decimal)) [
      | inl p ↦ inl p
      | inr p ↦
          let (pct, found, rest) = >>=-eq-ok (deviation preview_rate current_rate) _ (rw p at h) in
          inr (pct, found, raise_if-eq-ok (lt settings.fx_rate_deviation_threshold_pct pct) _ rest)
    ]

found_before :
    (k : String) (a : Account) {before after : Db}
    → after ≡ before
    → rows k after.accounts ≡ a ∷ []
    → rows k before.accounts ≡ a ∷ []
found_before k a same found = subst (λ (db : Db). rows k db.accounts ≡ a ∷ []) same found

module _ (e : Engine) (settings : Settings) (request : CrossCurrencyTransferRequest)
    (caller_id : String) where
  pub validate-Validated :
      (s : Session) {plan : Plan} {t : Session}
      → validate e settings request caller_id s ≡ (ok plan, t)
      → Validated e settings request caller_id s plan t
  unfolding validate
  validate-Validated s {plan} {t} h =
      after_reading get_latest_snapshot _ s get_latest_snapshot-Keeps h λ current s1 p1 d1 h1.
        after_lift (fresh_or_raise current) _ s1 h1 λ snapshot f2 h2.
          after_reading (get_snapshot_by_id request.fx_snapshot_id) _ s1
            (get_snapshot_by_id-Keeps request.fx_snapshot_id) h2
            λ preview s3 p3 d3 h3. after_lift (fresh_or_raise preview) _ s3 h3 λ previewed f4 h4.
              after_reading
                (ensure_active_pair request.source_currency request.destination_currency) _ s3
                (ensure_active_pair-Keeps request.source_currency request.destination_currency) h4
                λ _ s5 p5 d5 h5.
                  after_bind _
                    (load_accounts request.source_account_number request.destination_account_number
                      s5)
                    h5
                    λ accounts s6 p6 h6.
                      after_test (not (str_eq accounts.0.owner_id caller_id)) _ _ s6 h6 λ f7 h7.
                        after_test (not (str_eq accounts.0.currency request.source_currency)) _ _ s6
                          h7
                          λ f8 h8.
                            after_lift
                              (rate_of previewed.rates request.source_currency
                                request.destination_currency)
                              _ s6 h8
                              λ preview_rate f9 h9.
                                after_lift
                                  (rate_of snapshot.rates request.source_currency
                                    request.destination_currency)
                                  _ s6 h9
                                  λ rate f10 h10.
                                    after_lift
                                      (check_rate_deviation settings preview_rate rate snapshot.id)
                                      _ s6 h10
                                      λ _ f11 h11.
                                        after_lift
                                          (calculate_amounts settings request.source_amount rate) _
                                          s6 h11
                                          λ amounts f12 h12.
                                            after_lift
                                              (amount_in_usd request.source_amount
                                                request.source_currency snapshot.rates)
                                              _ s6 h12
                                              λ usd f13 h13.
                                                after_reading
                                                  (check_transfer_limits e settings
                                                    accounts.0.account_number usd)
                                                  _ s6
                                                  (check_transfer_limits-Keeps e settings
                                                    accounts.0.account_number usd)
                                                  h13
                                                  λ _ s14 p14 d14 h14.
                                                    after_test
                                                      (lt accounts.0.balance
                                                        amounts.total_sender_cost)
                                                      _ _ s14 h14
                                                      λ f15 h15.
                                                        let (same, e16) =
                                                          ok-injective _ plan s14 t h15 in
                                                        let both =
                                                          load_accounts-eq-ok
                                                            request.source_account_number
                                                            request.destination_account_number s5
                                                            p6 in
                                                        let to5 : s5.db ≡ s.db = d5 ∙ d3 ∙ d1 in
                                                        subst
                                                          (λ q.
                                                            Validated e settings request caller_id s
                                                            q t)
                                                          same
                                                          (record {
                                                            same_db =
                                                            ap (λ u. u.db) (sym e16)
                                                            ∙ d14
                                                            ∙ both.same_db
                                                            ∙ to5;
                                                            source_found =
                                                            found_before
                                                            request.source_account_number accounts.0
                                                            to5 both.source_found;
                                                            dest_found =
                                                            found_before
                                                            request.destination_account_number
                                                            accounts.1 to5 both.dest_found;
                                                            owned =
                                                            true_of_negated
                                                            (str_eq accounts.0.owner_id caller_id)
                                                            f7;
                                                            in_currency =
                                                            true_of_negated
                                                            (str_eq accounts.0.currency
                                                            request.source_currency)
                                                            f8;
                                                            snapshot = snapshot;
                                                            newest = newest_found s p1 f2;
                                                            fresh = fresh_or_raise-eq-ok current f2;
                                                            preview = previewed;
                                                            preview_found =
                                                            subst
                                                            (λ (db : Db).
                                                            select
                                                            (has_snapshot_id request.fx_snapshot_id)
                                                            db.snapshots
                                                            ≡ previewed ∷ [])
                                                            d1
                                                            (snapshot_found request.fx_snapshot_id
                                                            s1 p3 f4);
                                                            preview_fresh =
                                                            fresh_or_raise-eq-ok preview f4;
                                                            pair_active =
                                                            subst
                                                            (λ (db : Db).
                                                            any_of
                                                            (is_pair request.source_currency
                                                            request.destination_currency)
                                                            (select pair_is_active
                                                            db.currency_pairs)
                                                            ≡ true)
                                                            (d3 ∙ d1)
                                                            (ensure_active_pair-eq-ok
                                                            request.source_currency
                                                            request.destination_currency s3 p5);
                                                            preview_rate = preview_rate;
                                                            preview_rated = f9;
                                                            tolerated =
                                                            check_rate_deviation-Tolerated settings
                                                            preview_rate rate snapshot.id f11;
                                                            rated = f10;
                                                            computed = f12;
                                                            in_usd = f13;
                                                            at = s6;
                                                            at_same = both.same_db ∙ to5;
                                                            limits =
                                                            check_transfer_limits-eq-ok e settings
                                                            accounts.0.account_number usd s6 p14;
                                                            covered = f15;
                                                          })
