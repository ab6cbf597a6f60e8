-- ===== src/Service/Retry/Undone.antt =====
-- A retried action that raises leaves every table as it was, if each attempt does.
use ai_spec_driven_developme.Session.{Action, Session}
use ai_spec_driven_developme.Prelude.{
  Bool, Bool-cases, ap, arith, false, inl, inr, refl, suc, sym, true, zero, ℕ, ◌∙◌, ◌≡◌,
}
use ai_spec_driven_developme.Errors.{Error, Result, err, ok}
use ai_spec_driven_developme.Session.Undoes.{Undoes}
use ai_spec_driven_developme.Service.Retry.{retry, retry_on_deadlock}

module _ {A : Type 0} (is_deadlock : Error → Bool) (run : Action A) where
  retry-eq-err :
      Undoes run
      → (n : ℕ) (s : Session) {x : Error} {t : Session} → retry is_deadlock n run s ≡ (err x, t)
      → t.db ≡ s.db
  unfolding retry
  retry-eq-err undoes zero s h = undoes.at s h
  retry-eq-err undoes (suc n) s {x} {t} h =
      attempted (run s) refl h (λ u p. retry-eq-err undoes n u p)
    where
      attempted :
          (r : Result A × Session)
          → run s ≡ r
          → elim r.0 as (λ _. Result A × Session) [
            | ok a ↦ (ok a, r.1)
            | err y ↦ elim (is_deadlock y) as (λ _. Result A × Session) [
              | true ↦ retry is_deadlock n run r.1
              | false ↦ (err y, r.1)
            ]
          ]
            ≡ (err x, t)
          → ((u : Session) → retry is_deadlock n run u ≡ (err x, t) → t.db ≡ u.db)
          → t.db ≡ s.db
      attempted (ok a, u) p q again = absurd (ground arith)
      attempted (err y, u) p q again = elim (Bool-cases (is_deadlock y)) [
        | inl again_run ↦ again u (rw again_run at q) ∙ undoes.at s p
        | inr given_up ↦ ap (λ v. v.1.db) (sym (rw given_up at q)) ∙ undoes.at s p
      ]

  pub Undoes-retry_on_deadlock : Undoes run → Undoes (retry_on_deadlock is_deadlock run)
  unfolding retry_on_deadlock
  Undoes-retry_on_deadlock undoes = record { at = λ s h. retry-eq-err undoes 3 s h }
