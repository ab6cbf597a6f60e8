-- ===== src/System/Grown/Updates.antt =====
-- Rows that are changed.
use ai_spec_driven_developme.System.Grown.Additions.{
  accounts_written, transfers_written, notifications_written,
}
use ai_spec_driven_developme.System.Grown.{
  Extends-same, lasting_account, lasting_transfer, lasting_notification, Grown,
}
use ai_spec_driven_developme.Prelude.{
  subst, ℕ, String, ◌≤◌, ◌≡◌, refl, sym, ap, Bool, List, [], ◌∷◌, map, arith, str_eq, length,
  select, Bool-cases, inl, inr,
}
use ai_spec_driven_developme.Models.{Account, Transfer, Notification}
use ai_spec_driven_developme.Session.{Db}
use ai_spec_driven_developme.Session.Rows.{rows, is_numbered, update_row}
use ai_spec_driven_developme.Repository.Insert.{has_key}
use ai_spec_driven_developme.Repository.TransferRepository.{has_id}
use ai_spec_driven_developme.Repository.TransferRepository.StatusUpdate.{update_transfer}
use ai_spec_driven_developme.Repository.NotificationRepository.{set_read_at, has_notification_id}

length-select_cons :
    {A : Type 0} (test : A → Bool) (a b : A) (l m : List A)
    → test b ≡ test a
    → length (select test m) ≡ length (select test l)
    → length (select test (b ∷ m)) ≡ length (select test (a ∷ l))
unfolding select
length-select_cons test a b l m h ih = ground arith

-- A change of rows that keeps what lasts.
module _ (f : Account → Account)
    (keeps : (a : Account) → lasting_account (f a) ≡ lasting_account a) where
  map-update_row :
      (k : String) (l : List Account)
      → map lasting_account (update_row k f l) ≡ map lasting_account l
  unfolding update_row
  map-update_row k [] = refl
  map-update_row k (a ∷ l) = elim (Bool-cases (is_numbered k a)) [
    | inl p ↦ rw (p, keeps a, map-update_row k l)
    | inr p ↦ rw (p, map-update_row k l)
  ]

  length-rows_update :
      (k j : String) (l : List Account) → length (rows k (update_row j f l)) ≡ length (rows k l)
  unfolding update_row rows
  length-rows_update k j [] = refl
  length-rows_update k j (a ∷ l) = elim (Bool-cases (is_numbered j a)) [
    | inl p ↦ rw p (
        length-select_cons (is_numbered k) a (f a) l (update_row j f l)
          (ap (λ (b : Account). str_eq b.account_number k) (keeps a)) (length-rows_update k j l))
    | inr p ↦ rw p (
        length-select_cons (is_numbered k) a a l (update_row j f l) refl (length-rows_update k j l))
  ]

  pub accounts_updated :
      (db : Db) (k : String) → Grown db (record db { accounts = update_row k f db.accounts })
  accounts_updated db k =
      accounts_written db (update_row k f db.accounts) (Extends-same (map-update_row k db.accounts))
        (λ j. subst (λ n. n ≤ 1) (sym (length-rows_update j k db.accounts)))

module _ (f : Transfer → Transfer)
    (keeps : (t : Transfer) → lasting_transfer (f t) ≡ lasting_transfer t) where
  map-update_transfer :
      (i : ℕ) (l : List Transfer)
      → map lasting_transfer (update_transfer i f l) ≡ map lasting_transfer l
  unfolding update_transfer
  map-update_transfer i [] = refl
  map-update_transfer i (t ∷ l) = elim (Bool-cases (has_id i t)) [
    | inl p ↦ rw (p, keeps t, map-update_transfer i l)
    | inr p ↦ rw (p, map-update_transfer i l)
  ]

  length-select_update :
      (k : String) (i : ℕ) (l : List Transfer)
      → length (select (has_key k) (update_transfer i f l)) ≡ length (select (has_key k) l)
  unfolding update_transfer
  length-select_update k i [] = refl
  length-select_update k i (t ∷ l) = elim (Bool-cases (has_id i t)) [
    | inl p ↦ rw p (
        length-select_cons (has_key k) t (f t) l (update_transfer i f l)
          (ap (λ (u : Transfer). str_eq u.idempotency_key k) (keeps t))
          (length-select_update k i l))
    | inr p ↦ rw p (
        length-select_cons (has_key k) t t l (update_transfer i f l) refl
          (length-select_update k i l))
  ]

  pub transfers_updated :
      (db : Db) (i : ℕ) → Grown db (record db { transfers = update_transfer i f db.transfers })
  transfers_updated db i =
      transfers_written db (update_transfer i f db.transfers)
        (Extends-same (map-update_transfer i db.transfers))
        (λ k. subst (λ n. n ≤ 1) (sym (length-select_update k i db.transfers)))

pub reading_recorded :
    (db : Db) (i now : ℕ)
    → Grown db (record db { notifications = set_read_at i now db.notifications })
unfolding set_read_at
reading_recorded db i now =
    notifications_written db (set_read_at i now db.notifications)
      (Extends-same (same db.notifications))
  where
    same :
        (l : List Notification)
        → map lasting_notification (set_read_at i now l) ≡ map lasting_notification l
    same [] = refl
    same (n ∷ l) = elim (Bool-cases (has_notification_id i n)) [
      | inl p ↦ rw (p, same l)
      | inr p ↦ rw (p, same l)
    ]
