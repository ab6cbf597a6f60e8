-- ===== src/Service/CrossCurrencyTransferService/Checks.antt =====
-- The steps of `validate`: what each has found, and that none changes a table.
use ai_spec_driven_developme.Prelude.{ℕ, ◌-◌, String, ◌≡◌, sym, subst, ◌∙◌, ap, false, [], ◌∷◌}
use ai_spec_driven_developme.Decimal.{Decimal, add, lt}
use ai_spec_driven_developme.Errors.{ok}
use ai_spec_driven_developme.Models.{Account}
use ai_spec_driven_developme.Config.{Settings}
use ai_spec_driven_developme.Session.{Engine, Db, Session, lift, raise_when}
use ai_spec_driven_developme.Session.Keeps.{whole, Keeps, keeps_rules}
use ai_spec_driven_developme.Session.Laws.{after_bind, raise_when-eq-ok, ok-injective}
use ai_spec_driven_developme.Session.Rows.{rows}
use ai_spec_driven_developme.Repository.TransferRepository.{get_daily_transfer_volume_usd}
use ai_spec_driven_developme.Repository.FxRateRepository.{
  get_latest_snapshot, get_snapshot_by_id, get_active_currency_pairs,
}
use ai_spec_driven_developme.Service.TransferService.Inversion.{load_active-eq-ok, lift-eq-ok}
use ai_spec_driven_developme.Service.TransferService.{load_active}
use ai_spec_driven_developme.Service.CrossCurrencyTransferService.Validation.{
  load_accounts, ensure_active_pair, check_transfer_limits, day,
}
use ai_spec_driven_developme.Service.CrossCurrencyTransferService.Computation.{to_quantum}

pub get_latest_snapshot-Keeps : Keeps whole get_latest_snapshot
unfolding get_latest_snapshot
get_latest_snapshot-Keeps = search keeps_rules

pub get_snapshot_by_id-Keeps : (id : ℕ) → Keeps whole (get_snapshot_by_id id)
unfolding get_snapshot_by_id
get_snapshot_by_id-Keeps id = search keeps_rules

pub ensure_active_pair-Keeps : (from to : String) → Keeps whole (ensure_active_pair from to)
unfolding ensure_active_pair get_active_currency_pairs
ensure_active_pair-Keeps from to = search keeps_rules

get_daily_transfer_volume_usd-Keeps :
    (number : String) (since : ℕ) → Keeps whole (get_daily_transfer_volume_usd number since)
unfolding get_daily_transfer_volume_usd
get_daily_transfer_volume_usd-Keeps number since = search keeps_rules

pub check_transfer_limits-Keeps :
    (e : Engine) (settings : Settings) (number : String) (usd : Decimal)
    → Keeps whole (check_transfer_limits e settings number usd)
unfolding check_transfer_limits
check_transfer_limits-Keeps e settings number usd =
    search (keeps_rules, get_daily_transfer_volume_usd-Keeps)

-- The limits that the checks keep to.
pub record WithinLimits (e : Engine) (settings : Settings) (number : String) (usd : Decimal)
    (s : Session) : Type 0 where
  pub per_tx : lt settings.transfer_limit_per_tx_usd usd ≡ false
  pub daily_volume : Decimal
  pub total_volume : Decimal
  pub volume_found : (get_daily_transfer_volume_usd number (e.utcnow - day) s).0 ≡ ok daily_volume
  pub volume_added : to_quantum (add daily_volume usd) ≡ ok total_volume
  pub per_day : lt settings.transfer_limit_per_day_usd total_volume ≡ false

pub check_transfer_limits-eq-ok :
    (e : Engine) (settings : Settings) (number : String) (usd : Decimal) (s : Session)
    {x : Unit {0}} {t : Session}
    → check_transfer_limits e settings number usd s ≡ (ok x, t)
    → WithinLimits e settings number usd s
unfolding check_transfer_limits
check_transfer_limits-eq-ok e settings number usd s h =
    after_bind _ (raise_when (lt settings.transfer_limit_per_tx_usd usd) _ s) h λ _ s1 p1 h1.
      let (per_tx, e1) = raise_when-eq-ok (lt settings.transfer_limit_per_tx_usd usd) _ s p1 in
      after_bind _ (get_daily_transfer_volume_usd number (e.utcnow - day) s1) h1 λ daily s2 p2 h2.
        after_bind _ (lift (to_quantum (add daily usd)) s2) h2 λ sum s3 p3 h3. record {
          per_tx = per_tx;
          daily_volume = daily;
          total_volume = sum;
          volume_found =
              ap (λ u. (get_daily_transfer_volume_usd number (e.utcnow - day) u).0) (sym e1)
              ∙ ap (λ p. p.0) p2;
          volume_added = (lift-eq-ok (to_quantum (add daily usd)) s2 p3).0;
          per_day = (raise_when-eq-ok (lt settings.transfer_limit_per_day_usd sum) _ s3 h3).0;
        }

pub record LoadedBoth (source dest : String) (s : Session) (a b : Account) (t : Session)
    : Type 0 where
  pub source_found : rows source s.db.accounts ≡ a ∷ []
  pub dest_found : rows dest s.db.accounts ≡ b ∷ []
  pub same_db : t.db ≡ s.db

pub load_accounts-eq-ok :
    (source dest : String) (s : Session) {a b : Account} {t : Session}
    → load_accounts source dest s ≡ (ok (a, b), t)
    → LoadedBoth source dest s a b t
unfolding load_accounts
load_accounts-eq-ok source dest s {a} {b} {t} h =
    after_bind _ (load_active source s) h λ x s1 p1 h1.
      after_bind _ (load_active dest s1) h1 λ y s2 p2 h2.
        let l1 = load_active-eq-ok source s p1 in
        let l2 = load_active-eq-ok dest s1 p2 in
        let (pair, e3) = ok-injective (x, y) (a, b) s2 t h2 in
        subst (λ q. LoadedBoth source dest s q.0 q.1 t) pair
          (record {
            source_found = l1.found;
            dest_found = subst (λ (db : Db). rows dest db.accounts ≡ y ∷ []) l1.same_db l2.found;
            same_db = ap (λ u. u.db) (sym e3) ∙ l2.same_db ∙ l1.same_db;
          })
