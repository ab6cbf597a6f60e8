-- ===== src/Repository/FxRateRepository/Latest.antt =====
-- Which snapshot is the latest.
use ai_spec_driven_developme.Prelude.{
  ℕ, ◌≤◌, ◌≡◌, refl, sym, subst, ap, true, false, Option, none, some, List, [], ◌∷◌, ◌++◌, arith,
  select, ltb, Bool-cases, inl, inr, if◌then◌else◌,
}
use ai_spec_driven_developme.Errors.{ok}
use ai_spec_driven_developme.Models.{FxRateSnapshot}
use ai_spec_driven_developme.Session.{Session}
use ai_spec_driven_developme.Repository.FxRateRepository.{is_fresh, latest, get_latest_snapshot}

-- Every snapshot that is not stale is effective at the time or earlier.
abbrev pub FreshUpTo : ℕ → List FxRateSnapshot → Type 0
FreshUpTo n [] = Unit
FreshUpTo n (y ∷ l) = (y.is_stale ≡ false → y.effective_at ≤ n) × FreshUpTo n l

abbrev pub AllStale : List FxRateSnapshot → Type 0
AllStale [] = Unit
AllStale (y ∷ l) = (y.is_stale ≡ true) × AllStale l

pub record Newest (l : List FxRateSnapshot) (x : FxRateSnapshot) : Type 0 where
  pub before : List FxRateSnapshot
  pub after : List FxRateSnapshot
  pub stored : l ≡ before ++ x ∷ after
  pub fresh : x.is_stale ≡ false
  pub newest : FreshUpTo x.effective_at l

abbrev pub Answer : List FxRateSnapshot → Option FxRateSnapshot → Type 0
Answer l none = AllStale l
Answer l (some x) = Newest l x

weaken : (m n : ℕ) (l : List FxRateSnapshot) → m ≤ n → FreshUpTo m l → FreshUpTo n l
weaken m n [] h w = tt
weaken m n (y ∷ l) h w = (λ p. omega (arith, h, w.0 p), weaken m n l h w.1)

stale_up_to : (n : ℕ) (l : List FxRateSnapshot) → AllStale l → FreshUpTo n l
stale_up_to n [] w = tt
stale_up_to n (y ∷ l) w = (λ p. absurd (ground (arith, w.0)), stale_up_to n l w.1)

passed_over :
    (y : FxRateSnapshot) (l : List FxRateSnapshot) (o : Option FxRateSnapshot)
    → y.is_stale ≡ true
    → Answer l o
    → Answer (y ∷ l) o
passed_over y l none h w = (h, w)
passed_over y l (some x) h w = record {
  before = y ∷ w.before;
  after = w.after;
  stored = ap (λ k. y ∷ k) w.stored;
  fresh = w.fresh;
  newest = (λ p. absurd (ground (arith, h)), w.newest);
}

abbrev newer : FxRateSnapshot → Option FxRateSnapshot → Option FxRateSnapshot
newer x o = elim o [
  | none ↦ some x
  | some y ↦ if ltb x.effective_at y.effective_at then some y else some x
]

first :
    (x : FxRateSnapshot) (l : List FxRateSnapshot)
    → x.is_stale ≡ false
    → FreshUpTo x.effective_at l
    → Newest (x ∷ l) x
first x l h w = record {
  before = [];
  after = l;
  stored = refl;
  fresh = h;
  newest = (λ p. ground arith, w);
}

compared :
    (x : FxRateSnapshot) (l : List FxRateSnapshot) (o : Option FxRateSnapshot)
    → x.is_stale ≡ false
    → Answer l o
    → Answer (x ∷ l) (newer x o)
compared x l none h w = first x l h (stale_up_to x.effective_at l w)
compared x l (some y) h w = elim (Bool-cases (ltb x.effective_at y.effective_at)) [
  | inl earlier ↦ rw earlier (record {
    before = x ∷ w.before;
    after = w.after;
    stored = ap (λ k. x ∷ k) w.stored;
    fresh = w.fresh;
    newest = (λ p. ground arith, w.newest);
  })
  | inr later ↦
      rw later (first x l h (weaken y.effective_at x.effective_at l (ground arith) w.newest))
]

latest_if_stale :
    (x : FxRateSnapshot) (l : List FxRateSnapshot)
    → x.is_stale ≡ true
    → latest (select is_fresh (x ∷ l)) ≡ latest (select is_fresh l)
unfolding latest select
latest_if_stale x l h = ground arith

latest_if_fresh :
    (x : FxRateSnapshot) (l : List FxRateSnapshot)
    → x.is_stale ≡ false
    → latest (select is_fresh (x ∷ l)) ≡ newer x (latest (select is_fresh l))
unfolding latest select
latest_if_fresh x l h = ground arith

latest-Answer : (l : List FxRateSnapshot) → Answer l (latest (select is_fresh l))
latest-Answer [] = unfold latest select in tt
latest-Answer (x ∷ l) = elim (Bool-cases x.is_stale) [
  | inl stale ↦
      subst (Answer (x ∷ l)) (sym (latest_if_stale x l stale))
        (passed_over x l (latest (select is_fresh l)) stale (latest-Answer l))
  | inr fresh ↦
      subst (Answer (x ∷ l)) (sym (latest_if_fresh x l fresh))
        (compared x l (latest (select is_fresh l)) fresh (latest-Answer l))
]

-- The latest snapshot is a stored one that is not stale, and no other that is not stale is effective
-- later; where there is none, all snapshots are stale.
pub get_latest_snapshot-Answer :
    (s : Session) {o : Option FxRateSnapshot} {t : Session}
    → get_latest_snapshot s ≡ (ok o, t)
    → Answer s.db.snapshots o
unfolding get_latest_snapshot
get_latest_snapshot-Answer s {o} h =
    subst (Answer s.db.snapshots) (cc (ap (λ p. p.0) h)) (latest-Answer s.db.snapshots)
