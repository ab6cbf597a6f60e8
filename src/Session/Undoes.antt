-- ===== src/Session/Undoes.antt =====
-- Actions that leave every table as it was when they raise.
use ai_spec_driven_developme.Session.{Action, Engine, Session, pure, transaction, ◌>>=◌}
use ai_spec_driven_developme.Errors.{Error, err}
use ai_spec_driven_developme.Session.Keeps.{Keeps, unchanged, whole}
use ai_spec_driven_developme.Session.Laws.{after_error, transaction-eq-err}
use ai_spec_driven_developme.Prelude.{arith, ◌∙◌, ◌≡◌}

pub record Undoes {ℓ} {A : Type ℓ} (m : Action A) : Type ℓ where
  pub at : (s : Session) {x : Error} {t : Session} → m s ≡ (err x, t) → t.db ≡ s.db

module _ {A : Type 0} where
  pub Undoes-Keeps : (m : Action A) → Keeps whole m → Undoes m
  Undoes-Keeps m k = record { at = λ s h. unchanged m s k h }

  pub Undoes-transaction : (e : Engine) (m : Action A) → Undoes (transaction e m)
  Undoes-transaction e m = record { at = λ s h. transaction-eq-err e m s h }

module _ {A B : Type 0} where
  -- A reading, then an action that undoes what it did.
  pub Undoes-after_reading :
      (m : Action A) (f : A → Action B)
      → Keeps whole m
      → ((a : A) → Undoes (f a))
      → Undoes (m >>= f)
  Undoes-after_reading m f k undoes = record {
    at = λ s h.
        after_error f (m s) h (λ p. unchanged m s k p)
          (λ a u p q. (undoes a).at u q ∙ unchanged m s k p);
  }

  -- Nothing can be raised after the action.
  pub Undoes-then_pure : (m : Action A) (f : A → B) → Undoes m → Undoes (m >>= λ a. pure (f a))
  Undoes-then_pure m f undoes = record {
    at = λ s h.
        after_error (λ a. pure (f a)) (m s) h (λ p. undoes.at s p)
          (λ a u p q. absurd (ground arith));
  }
