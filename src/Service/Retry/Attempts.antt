-- ===== src/Service/Retry/Attempts.antt =====
-- How often `retry_on_deadlock` runs its action.
use ai_spec_driven_developme.Prelude.{
  ℕ, zero, suc, ◌≤◌, ◌<◌, ◌≡◌, refl, Bool, true, false, arith, Bool-cases, inl, inr, ap,
}
use ai_spec_driven_developme.Errors.{Error, Result, ok, err}
use ai_spec_driven_developme.Session.{Session, Action}
use ai_spec_driven_developme.Service.Retry.{retry, retry_on_deadlock}

module _ {A : Type 0} (is_deadlock : Error → Bool) (run : Action A) where
  -- The session after a number of runs.
  abbrev pub after_runs : ℕ → Session → Session
  after_runs zero s = s
  after_runs (suc k) s = after_runs k (run s).1

  abbrev pub deadlocks : Result A × Session → Bool
  deadlocks (ok a, t) = false
  deadlocks (err x, t) = is_deadlock x

  -- The run after `count` runs that deadlocked decides, and it deadlocked only if no retry is left.
  pub record Attempted (retries : ℕ) (s : Session) (r : Result A × Session) : Type 0 where
    pub count : ℕ
    pub bounded : count ≤ retries
    pub decided : r ≡ run (after_runs count s)
    pub deadlocked : (j : ℕ) → j < count → deadlocks (run (after_runs j s)) ≡ true
    pub last : deadlocks (run (after_runs count s)) ≡ true → count ≡ retries

  at_once : (retries : ℕ) (s : Session) → deadlocks (run s) ≡ false → Attempted retries s (run s)
  at_once retries s h = record {
    count = 0;
    bounded = ground arith;
    decided = refl;
    deadlocked = λ j p. absurd (omega (arith, p));
    last = λ p. cc;
  }

  earlier :
      (s : Session) (count : ℕ)
      → deadlocks (run s) ≡ true
      → ((j : ℕ) → j < count → deadlocks (run (after_runs j (run s).1)) ≡ true)
      → (j : ℕ) → j < suc count
      → deadlocks (run (after_runs j s)) ≡ true
  earlier s count h all zero p = h
  earlier s count h all (suc i) p = all i (omega (arith, p))

  one_more :
      (retries : ℕ) (s : Session) (r : Result A × Session)
      → deadlocks (run s) ≡ true
      → Attempted retries (run s).1 r
      → Attempted (suc retries) s r
  one_more retries s r h w = record {
    count = suc w.count;
    bounded = omega (arith, w.bounded);
    decided = w.decided;
    deadlocked = earlier s w.count h w.deadlocked;
    last = λ p. ap suc (w.last p);
  }

  retry_done :
      (retries : ℕ) (s : Session)
      → deadlocks (run s) ≡ false
      → retry is_deadlock (suc retries) run s ≡ run s
  unfolding retry
  retry_done retries s h = ground arith

  retry_again :
      (retries : ℕ) (s : Session)
      → deadlocks (run s) ≡ true
      → retry is_deadlock (suc retries) run s ≡ retry is_deadlock retries run (run s).1
  unfolding retry
  retry_again retries s h = ground arith

  retry-Attempted :
      (retries : ℕ) (s : Session) → Attempted retries s (retry is_deadlock retries run s)
  retry-Attempted zero s = record {
    count = 0;
    bounded = ground arith;
    decided = unfold retry in refl;
    deadlocked = λ j p. absurd (omega (arith, p));
    last = λ p. refl;
  }
  retry-Attempted (suc retries) s = elim (Bool-cases (deadlocks (run s))) [
    | inl again ↦ rw (retry_again retries s again) (
        one_more retries s (retry is_deadlock retries run (run s).1) again
          (retry-Attempted retries (run s).1))
    | inr done ↦ rw (retry_done retries s done) (at_once (suc retries) s done)
  ]

  -- The result is that of one run of at most four, each of the runs before it raised a deadlock, and
  -- it is a deadlock itself only if it is the fourth.
  pub retry_on_deadlock-Attempted :
      (s : Session) → Attempted 3 s (retry_on_deadlock is_deadlock run s)
  unfolding retry_on_deadlock
  retry_on_deadlock-Attempted s = retry-Attempted 3 s
