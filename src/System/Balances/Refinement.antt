-- ===== src/System/Balances/Refinement.antt =====
-- The service as an implementation of the account book.
use ai_spec_driven_developme.Session.{Db, Session}
use ai_spec_driven_developme.Session.Numeric.{AllSound}
use ai_spec_driven_developme.Api.App.{App}
use ai_spec_driven_developme.Prelude.{refl, subst, sym, ◌∙◌, ◌≡◌}
use ai_spec_driven_developme.System.Balances.{History, balances, followed, no_effect}
use ai_spec_driven_developme.Session.Evolves.{Evolves, Preorder}
use ai_spec_driven_developme.System.Rates.{NonnegSnapshots}
use ai_spec_driven_developme.System.Requests
use ai_spec_driven_developme.System.Sound

-- Beside soundness, the book's history.
abbrev Refines : Db → Db → Type 0
Refines db db' =
    (db'.snapshots ≡ db.snapshots)
    × (NonnegSnapshots db.snapshots
        → AllSound db.accounts
        → AllSound db'.accounts × History (balances db.accounts) (balances db'.accounts))

abbrev refines : Preorder Refines
refines = record {
  stays = λ db. (refl, λ rates sound. (sound, no_effect));
  composes = λ p q. (
    q.0 ∙ p.0,
    λ rates sound.
        let (there, first) = p.1 rates sound in
        let (end, next) = q.1 (subst NonnegSnapshots (sym p.0) rates) there in
        (end, followed first next),
  );
}
