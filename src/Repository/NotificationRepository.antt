-- ===== src/Repository/NotificationRepository.antt =====
-- src/fund_transfer/repositories/notification_repository.py
use ai_spec_driven_developme.Prelude.{
  ℕ, ◌==◌, String, Bool, true, false, not, ◌&&◌, none, some, List, [], ◌∷◌, select, ltb, length,
  str_eq, if◌then◌else◌,
}
use ai_spec_driven_developme.Errors.{domain_error, not_found_error, forbidden_error, ok, or_raise}
use ai_spec_driven_developme.Models.{Notification}
use ai_spec_driven_developme.Session.{
  Engine, Action, pure, lift, query, raise_when, modify, ◌>>=◌, ◌>>◌,
}
use ai_spec_driven_developme.Session.Rows.{scalar_one_or_none}
use ai_spec_driven_developme.Repository.Insert.{insert_notification}

unfoldable pub create_notification : Engine → Notification → Action (Unit {0})
create_notification e n = modify (insert_notification e n)

abbrev pub is_unread : Notification → Bool
is_unread n = elim n.read_at [ none ↦ true | some _ ↦ false ]

abbrev pub is_for : String → Notification → Bool
is_for account_number n = str_eq n.recipient_account_number account_number

-- `order_by(created_at.desc())`, stable.
unfoldable pub insert_newest : Notification → List Notification → List Notification
insert_newest n [] = n ∷ []
insert_newest n (m ∷ l) = if ltb n.created_at m.created_at then m ∷ insert_newest n l else n ∷ m ∷ l

unfoldable pub newest_first : List Notification → List Notification
unfolding insert_newest
newest_first [] = []
newest_first (n ∷ l) = insert_newest n (newest_first l)

unfoldable pub list_for_account : String → Bool → Action (List Notification)
list_for_account account_number unread_only = query (λ db.
    let mine = select (is_for account_number) db.notifications in
    ok (newest_first (if unread_only then select is_unread mine else mine)))

unfoldable pub count_unread : String → Action ℕ
count_unread account_number =
    query
      (λ db. ok (length (select (λ n. is_for account_number n && is_unread n) db.notifications)))

abbrev pub has_notification_id : ℕ → Notification → Bool
has_notification_id notification_id n = n.id == notification_id

unfoldable pub set_read_at : ℕ → ℕ → List Notification → List Notification
set_read_at notification_id now [] = []
set_read_at notification_id now (n ∷ l) =
    (if has_notification_id notification_id n then record n { read_at = some now } else n)
    ∷ set_read_at notification_id now l

unfoldable pub mark_read : Engine → ℕ → String → Action Notification
mark_read e notification_id account_number = do
  found ←
      query
        (λ db. scalar_one_or_none (select (has_notification_id notification_id) db.notifications))
  n ← lift (or_raise found (domain_error not_found_error (some "NOTIFICATION_NOT_FOUND")))
  raise_when (not (is_for account_number n)) (domain_error forbidden_error (some "FORBIDDEN"))
  modify (λ db.
      ok (record db { notifications = set_read_at notification_id e.utcnow db.notifications }))
  pure (record n { read_at = some e.utcnow })
