-- ===== src/Service/Retry/Evolution.antt =====
-- A retried action moves the tables as its attempts do.
use ai_spec_driven_developme.Prelude.{ℕ, zero, suc, Bool, true, false}
use ai_spec_driven_developme.Errors.{Error, Result, ok, err}
use ai_spec_driven_developme.Session.{Db, Session, Action}
use ai_spec_driven_developme.Session.Evolves.{Preorder, Evolves}
use ai_spec_driven_developme.Service.Retry.{retry, retry_on_deadlock}

module _ {κ} {R : Db → Db → Type κ} (order : Preorder R) {A : Type 0} (is_deadlock : Error → Bool)
    (run : Action A) where
  Evolves-retry : Evolves R run → (n : ℕ) → Evolves R (retry is_deadlock n run)
  unfolding retry
  Evolves-retry evolves zero = evolves
  Evolves-retry evolves (suc n) = record {
    at = λ s. order.composes (evolves.at s) (again (Evolves-retry evolves n) (run s).0 (run s).1);
  }
    where
      retried :
          Evolves R (retry is_deadlock n run)
          → (x : Error) (t : Session) (b : Bool)
          → R t.db
              (elim b as (λ _. Result A × Session) [
                | true ↦ retry is_deadlock n run t
                | false ↦ (err x, t)
              ]).1.db
      retried rest x t true = rest.at t
      retried rest x t false = order.stays t.db

      again :
          Evolves R (retry is_deadlock n run)
          → (r : Result A) (t : Session)
          → R t.db
              (elim r as (λ _. Result A × Session) [
                | ok a ↦ (ok a, t)
                | err x ↦ elim (is_deadlock x) as (λ _. Result A × Session) [
                  | true ↦ retry is_deadlock n run t
                  | false ↦ (err x, t)
                ]
              ]).1.db
      again rest (ok a) t = order.stays t.db
      again rest (err x) t = retried rest x t (is_deadlock x)

  pub Evolves-retry_on_deadlock : Evolves R run → Evolves R (retry_on_deadlock is_deadlock run)
  unfolding retry_on_deadlock
  Evolves-retry_on_deadlock evolves = Evolves-retry evolves 3
