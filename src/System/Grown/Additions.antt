-- ===== src/System/Grown/Additions.antt =====
-- Rows that are added, and tables that are written anew.
use ai_spec_driven_developme.System.Grown.{
  Extends, Extends-same, Extends-map, lasting_account, lasting_transfer, lasting_notification,
  Grown,
}
use ai_spec_driven_developme.Prelude.{
  subst, select-append, String, ◌≤◌, ◌≡◌, refl, Bool, true, false, List, [], ◌∷◌, ◌++◌, map, arith,
  eq_iff, length, select, any_of, Bool-cases, inl, inr,
}
use mathlib.Core.List.{append-nil}
use ai_spec_driven_developme.Models.{AuditLogEntry, CurrencyPair, Account, Transfer, Notification}
use ai_spec_driven_developme.Session.{Db}
use ai_spec_driven_developme.Session.Rows.{rows, is_numbered}
use ai_spec_driven_developme.Repository.Insert.{has_key}

pub one_only : {A : Type 0} (a : A) → length (a ∷ []) ≤ 1
one_only a = ground arith

-- A row added to those that pass a test, if none passes it yet, is the only one.
pub length-select_append :
    {A : Type 0} (test : A → Bool) (l : List A) (a : A)
    → (test a ≡ true → select test l ≡ [])
    → length (select test l) ≤ 1
    → length (select test (l ++ a ∷ [])) ≤ 1
unfolding select
length-select_append test l a unused h = elim (Bool-cases (test a)) [
  | inl p ↦ rw (select-append test l (a ∷ []), unused p, p) (one_only a)
  | inr p ↦ rw (select-append test l (a ∷ []), p, append-nil (select test l)) h
]

pub none_selected :
    {A : Type 0} (test : A → Bool) (l : List A) → any_of test l ≡ false → select test l ≡ []
unfolding select any_of
none_selected test [] h = refl
none_selected test (x ∷ l) h = ground (arith, none_selected test l)

module _ (db : Db) where
  pub accounts_written :
      (l : List Account)
      → Extends (map lasting_account db.accounts) (map lasting_account l)
      → ((k : String) → length (rows k db.accounts) ≤ 1 → length (rows k l) ≤ 1)
      → Grown db (record db { accounts = l })
  accounts_written l extends one = record {
    audit_log = Extends-same refl;
    accounts = extends;
    transfers = Extends-same refl;
    notifications = Extends-same refl;
    snapshots = refl;
    one_account = one;
    one_transfer = λ k h. h;
  }

  pub transfers_written :
      (l : List Transfer)
      → Extends (map lasting_transfer db.transfers) (map lasting_transfer l)
      → ((k : String)
          → length (select (has_key k) db.transfers) ≤ 1
          → length (select (has_key k) l) ≤ 1)
      → Grown db (record db { transfers = l })
  transfers_written l extends one = record {
    audit_log = Extends-same refl;
    accounts = Extends-same refl;
    transfers = extends;
    notifications = Extends-same refl;
    snapshots = refl;
    one_account = λ k h. h;
    one_transfer = one;
  }

  pub notifications_written :
      (l : List Notification)
      → Extends (map lasting_notification db.notifications) (map lasting_notification l)
      → Grown db (record db { notifications = l })
  notifications_written l extends = record {
    audit_log = Extends-same refl;
    accounts = Extends-same refl;
    transfers = Extends-same refl;
    notifications = extends;
    snapshots = refl;
    one_account = λ k h. h;
    one_transfer = λ k h. h;
  }

  pub notification_added :
      (n : Notification) → Grown db (record db { notifications = db.notifications ++ n ∷ [] })
  notification_added n =
      notifications_written (db.notifications ++ n ∷ [])
        (Extends-map lasting_notification db.notifications (n ∷ []))

  pub audit_log_written :
      (entry : AuditLogEntry) → Grown db (record db { audit_log = db.audit_log ++ entry ∷ [] })
  audit_log_written entry = record {
    audit_log = record { rest = entry ∷ []; appended = refl };
    accounts = Extends-same refl;
    transfers = Extends-same refl;
    notifications = Extends-same refl;
    snapshots = refl;
    one_account = λ k h. h;
    one_transfer = λ k h. h;
  }

  pub pairs_written : (l : List CurrencyPair) → Grown db (record db { currency_pairs = l })
  pairs_written l = record {
    audit_log = Extends-same refl;
    accounts = Extends-same refl;
    transfers = Extends-same refl;
    notifications = Extends-same refl;
    snapshots = refl;
    one_account = λ k h. h;
    one_transfer = λ k h. h;
  }

  pub account_added :
      (a : Account)
      → any_of (is_numbered a.account_number) db.accounts ≡ false
      → Grown db (record db { accounts = db.accounts ++ a ∷ [] })
  unfolding rows
  account_added a unused =
      accounts_written (db.accounts ++ a ∷ []) (Extends-map lasting_account db.accounts (a ∷ []))
        (λ k. length-select_append (is_numbered k) db.accounts a (λ p.
          subst (λ n. select (is_numbered n) db.accounts ≡ []) ((eq_iff a.account_number k).0 p)
            (none_selected (is_numbered a.account_number) db.accounts unused)))

  pub transfer_added :
      (t : Transfer)
      → any_of (has_key t.idempotency_key) db.transfers ≡ false
      → Grown db (record db { transfers = db.transfers ++ t ∷ [] })
  transfer_added t unused =
      transfers_written (db.transfers ++ t ∷ [])
        (Extends-map lasting_transfer db.transfers (t ∷ []))
        (λ k. length-select_append (has_key k) db.transfers t (λ p.
          subst (λ n. select (has_key n) db.transfers ≡ []) ((eq_iff t.idempotency_key k).0 p)
            (none_selected (has_key t.idempotency_key) db.transfers unused)))
