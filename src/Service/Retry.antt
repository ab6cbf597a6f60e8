-- ===== src/Service/Retry.antt =====
-- `retry_on_deadlock` of src/fund_transfer/services/transfer_service.py. The pauses between the
-- attempts are left out. Whether an exception reports a deadlock is read off its class and message,
-- which are not modelled: it is a parameter.
pub mod Attempts
pub mod Evolution
pub mod Undone
use ai_spec_driven_developme.Prelude.{ℕ, zero, suc, Bool, true, false}
use ai_spec_driven_developme.Errors.{Error, ok, err}
use ai_spec_driven_developme.Session.{Action}

module _ {A : Type 0} (is_deadlock : Error → Bool) where
  -- The attempts from one on, with the retries that are left after it.
  unfoldable pub retry : ℕ → Action A → Action A
  retry zero run s = run s
  retry (suc retries) run s =
      let (r, t) = run s in
      elim r [
        | ok a ↦ (ok a, t)
        | err x ↦ elim (is_deadlock x) [ true ↦ retry retries run t | false ↦ (err x, t) ]
      ]

-- `@retry_on_deadlock(max_retries=3)`
unfoldable pub retry_on_deadlock : {A : Type 0} → (Error → Bool) → Action A → Action A
unfolding retry
retry_on_deadlock is_deadlock run = retry is_deadlock 3 run
