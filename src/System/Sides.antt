-- ===== src/System/Sides.antt =====
-- A part of the tables without the notifications and the currency pairs stays as it was when a
-- notification is marked as read and at a start.
use ai_spec_driven_developme.Service.NotificationService
use ai_spec_driven_developme.Repository.NotificationRepository
use ai_spec_driven_developme.Models.{CurrencyPair, Notification}
use ai_spec_driven_developme.Session.{Db, Engine}
use ai_spec_driven_developme.Session.Evolves.{
  Evolves, Evolves-part, Evolves-pure, Evolves-transaction, Preorder, Preserves, evolves_rules,
  preserves,
}
use ai_spec_driven_developme.Session.Keeps.{Keeps, keeps_rules}
use ai_spec_driven_developme.Prelude.{
  List, Option, String, [], ap, none, some, sym, ℕ, ◌++◌, ◌∙◌, ◌∷◌, ◌≡◌,
}
use ai_spec_driven_developme.Repository.Insert.{insert_pair, insert_pair-result}
use ai_spec_driven_developme.Errors.{Result, ok}
use ai_spec_driven_developme.Api.Startup.{
  add_pairs, pairs_to_seed, seed_currency_pairs, seed_if_none,
}
use ai_spec_driven_developme.System.Writes.{ok_same}
use ai_spec_driven_developme.Repository.NotificationRepository.{set_read_at}

module _ {B : Type 0} (part : Db → B) (P : B → Type 0)
    (no_notifications : (db : Db) (l : List Notification)
      → part (record db { notifications = l }) ≡ part db)
    (no_pairs : (db : Db) (l : List CurrencyPair)
      → part (record db { currency_pairs = l }) ≡ part db) where
  module _ (e : Engine) where
    reading_kept :
        (i now : ℕ) (db db' : Db)
        → ◌≡◌ {A = Result Db}
            (ok (record db { notifications = set_read_at i now db.notifications }))
            (ok db')
        → part db' ≡ part db
    reading_kept i now db db' h =
        sym (ap part (ok_same _ db' h)) ∙ no_notifications db (set_read_at i now db.notifications)

    mark_read-Keeps :
        (i : ℕ) (number : String) → Keeps part (NotificationService.mark_read e i number)
    unfolding NotificationService.mark_read NotificationRepository.mark_read
    mark_read-Keeps i number = search (keeps_rules, reading_kept) depth 20

    pub mark_read-Evolves :
        (i : ℕ) (number : String)
        → Evolves (Preserves (λ db. P (part db))) (NotificationService.mark_read e i number)
    mark_read-Evolves i number =
        Evolves-part part P (NotificationService.mark_read e i number) (mark_read-Keeps i number)

    pair_kept :
        (pair : CurrencyPair) (db db' : Db) → insert_pair e pair db ≡ ok db' → part db' ≡ part db
    pair_kept pair db db' h =
        sym (ap part (insert_pair-result e pair db db' h))
        ∙ no_pairs db (db.currency_pairs ++ pair ∷ [])

    add_pairs-Keeps : (pairs : List (String × String)) → Keeps part (add_pairs e pairs)
    unfolding add_pairs
    add_pairs-Keeps [] = search keeps_rules
    add_pairs-Keeps ((from, to) ∷ pairs) =
        let next = add_pairs-Keeps pairs in search (keeps_rules, pair_kept) depth 10

    abbrev held : Preorder (Preserves (λ db. P (part db)))
    held = preserves (λ db. P (part db))

    seed_if_none-Evolves :
        (found : Option CurrencyPair)
        → Evolves (Preserves (λ db. P (part db))) (seed_if_none e found)
    seed_if_none-Evolves none =
        Evolves-transaction held e (add_pairs e pairs_to_seed)
          (Evolves-part part P (add_pairs e pairs_to_seed) (add_pairs-Keeps pairs_to_seed))
    seed_if_none-Evolves (some pair) = Evolves-pure held tt

    pub seed_currency_pairs-Evolves :
        Evolves (Preserves (λ db. P (part db))) (seed_currency_pairs e)
    unfolding seed_currency_pairs
    seed_currency_pairs-Evolves = search (held, evolves_rules, seed_if_none-Evolves)
