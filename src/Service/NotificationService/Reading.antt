-- ===== src/Service/NotificationService/Reading.antt =====
-- Marking a notification as read.
use ai_spec_driven_developme.Prelude.{
  ℕ, String, ◌≡◌, refl, sym, ◌∙◌, ap, false, not, some, List, [], ◌∷◌, select, eq_iff, arith, ◌==◌,
}
use ai_spec_driven_developme.Errors.{ok, or_raise, or_raise-eq-ok}
use ai_spec_driven_developme.Models.{Notification}
use ai_spec_driven_developme.Session.{Engine, Db, Session, lift, query, raise_when}
use ai_spec_driven_developme.Session.Rows.{scalar_one_or_none}
use ai_spec_driven_developme.Session.Laws.{after_bind, raise_when-eq-ok, ok-injective}
use ai_spec_driven_developme.Service.TransferService.Inversion.{lift-eq-ok}
use ai_spec_driven_developme.Repository.NotificationRepository.{
  is_for, has_notification_id, set_read_at,
}
use ai_spec_driven_developme.Repository.NotificationRepository
use ai_spec_driven_developme.Service.NotificationService

-- A notification that was marked: the one with the id, for the account; only it changed.
pub record Marked (e : Engine) (id : ℕ) (number : String) (before : Db) (r : Notification)
    (after : Db) : Type 0 where
  pub old : Notification
  pub found : select (has_notification_id id) before.notifications ≡ old ∷ []
  pub recipient : old.recipient_account_number ≡ number
  pub result : r ≡ record old { read_at = some e.utcnow }
  pub found_after : select (has_notification_id id) after.notifications ≡ r ∷ []
  pub others :
      (j : ℕ)
      → (id == j) ≡ false
      → select (has_notification_id j) after.notifications
        ≡ select (has_notification_id j) before.notifications
  pub accounts_after : after.accounts ≡ before.accounts
  pub transfers_after : after.transfers ≡ before.transfers

none_selected :
    (id now : ℕ) (l : List Notification)
    → select (has_notification_id id) l ≡ []
    → select (has_notification_id id) (set_read_at id now l) ≡ []
unfolding set_read_at select
none_selected id now [] h = refl
none_selected id now (m ∷ l) h = ground (arith, none_selected id now l)

select-set_read_at :
    (id now : ℕ) (l : List Notification) (n : Notification)
    → select (has_notification_id id) l ≡ n ∷ []
    → select (has_notification_id id) (set_read_at id now l) ≡ record n { read_at = some now } ∷ []
unfolding set_read_at select
select-set_read_at id now [] n h = cc
select-set_read_at id now (m ∷ l) n h =
    ground (arith, none_selected id now l, select-set_read_at id now l n)

others-set_read_at :
    (id now j : ℕ) (l : List Notification)
    → (id == j) ≡ false
    → select (has_notification_id j) (set_read_at id now l) ≡ select (has_notification_id j) l
unfolding set_read_at select
others-set_read_at id now j [] h = refl
others-set_read_at id now j (m ∷ l) h = ground (arith, others-set_read_at id now j l h)

the_one :
    (l : List Notification) {n : Notification} → scalar_one_or_none l ≡ ok (some n) → l ≡ n ∷ []
the_one [] h = cc
the_one (a ∷ []) h = cc
the_one (a ∷ b ∷ l) h = cc

-- Marking returns only for the one notification with the id, if its recipient is the account, and then
-- only its reading time changes: other notifications, accounts and transfers stay.
pub mark_read-Marked :
    (e : Engine) (id : ℕ) (number : String) (s : Session) {r : Notification} {t : Session}
    → NotificationService.mark_read e id number s ≡ (ok r, t)
    → Marked e id number s.db r t.db
unfolding NotificationService.mark_read NotificationRepository.mark_read
mark_read-Marked e id number s {r} {t} h =
    after_bind _
      (query (λ db. scalar_one_or_none (select (has_notification_id id) db.notifications)) s) h
      λ found s1 p1 h1. after_bind _ (lift (or_raise found _) s1) h1 λ n s2 p2 h2.
        after_bind _ (raise_when (not (is_for number n)) _ s2) h2 λ _ s3 p3 h3.
          let (f2, e2) = lift-eq-ok (or_raise found _) s1 p2 in
          let (f3, e3) = raise_when-eq-ok (not (is_for number n)) _ s2 p3 in
          let (same, e4) = ok-injective (record n { read_at = some e.utcnow }) r _ t h3 in
          let to3 : s3.db ≡ s.db = ap (λ u. u.db) (e3 ∙ e2) ∙ ap (λ p. p.1.db) (sym p1) in
          let one : select (has_notification_id id) s.db.notifications ≡ n ∷ [] =
            the_one (select (has_notification_id id) s.db.notifications)
              (ap (λ p. p.0) p1 ∙ ap ok (or_raise-eq-ok found _ f2)) in
          let after : t.db
              ≡ record s.db { notifications = set_read_at id e.utcnow s.db.notifications } =
            ap (λ u. u.db) (sym e4)
            ∙ ap
                (λ (db : Db). record db {
                  notifications = set_read_at id e.utcnow db.notifications;
                })
                to3 in
          record {
            old = n;
            found = one;
            recipient = for_account n f3;
            result = sym same;
            found_after =
                ap (λ (db : Db). select (has_notification_id id) db.notifications) after
                ∙ select-set_read_at id e.utcnow s.db.notifications n one
                ∙ ap (λ x. x ∷ []) same;
            others = λ j d.
                ap (λ (db : Db). select (has_notification_id j) db.notifications) after
                ∙ others-set_read_at id e.utcnow j s.db.notifications d;
            accounts_after = ap (λ (db : Db). db.accounts) after;
            transfers_after = ap (λ (db : Db). db.transfers) after;
          }
  where
    for_account :
        (n : Notification) → not (is_for number n) ≡ false → n.recipient_account_number ≡ number
    for_account n k = (eq_iff n.recipient_account_number number).0 (ground arith)
