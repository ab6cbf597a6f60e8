-- ===== src/System/Grown.antt =====
-- What no write of the service undoes: the order of tables in which the later one has grown from the
-- earlier one.
pub mod Additions
pub mod Updates
use ai_spec_driven_developme.Prelude.{
  subst, select-append, ℕ, String, ◌≤◌, ◌≡◌, refl, sym, ◌∙◌, ap, Bool, true, false, none, List, [],
  ◌∷◌, ◌++◌, map, arith, str_eq, eq_iff, length, select, any_of, Bool-cases, inl, inr,
}
use mathlib.Core.List.{append_assoc, append-nil, map-append}
use ai_spec_driven_developme.Decimal.{zero_decimal}
use ai_spec_driven_developme.Models.{
  AuditLogEntry, CurrencyPair, Account, Transfer, Notification, active, pending,
}
use ai_spec_driven_developme.Session.{Db}
use ai_spec_driven_developme.Session.Evolves.{Preorder}
use ai_spec_driven_developme.Session.Rows.{rows, is_numbered, update_row}
use ai_spec_driven_developme.Repository.Insert.{has_key}
use ai_spec_driven_developme.Repository.TransferRepository.{has_id}
use ai_spec_driven_developme.Repository.TransferRepository.StatusUpdate.{update_transfer}
use ai_spec_driven_developme.Repository.NotificationRepository.{set_read_at, has_notification_id}

-- `l'` is `l` with rows appended.
pub record Extends {A : Type 0} (l l' : List A) : Type 0 where
  pub rest : List A
  pub appended : l' ≡ l ++ rest

module _ {A : Type 0} where
  pub Extends-same : {l l' : List A} → l' ≡ l → Extends l l'
  Extends-same {l} h = record { rest = []; appended = h ∙ sym (append-nil l) }

  pub Extends-trans : {l m n : List A} → Extends l m → Extends m n → Extends l n
  Extends-trans {l} {m} {n} p q = record {
    rest = p.rest ++ q.rest;
    appended = q.appended ∙ ap (λ k. k ++ q.rest) p.appended ∙ append_assoc l p.rest q.rest;
  }

  pub Extends-map :
      {B : Type 0} (f : A → B) (l rest : List A) → Extends (map f l) (map f (l ++ rest))
  Extends-map f l rest = record { rest = map f rest; appended = map-append f l rest }

-- What of a row lasts: the rest is blanked.
abbrev pub lasting_account : Account → Account
lasting_account a = record a {
  owner_id = "";
  balance = zero_decimal;
  status = active;
  owner_pii_hash = none;
}

abbrev pub lasting_transfer : Transfer → Transfer
lasting_transfer t = record t {
  destination_amount = zero_decimal;
  status = pending;
  failure_reason = none;
}

abbrev pub lasting_notification : Notification → Notification
lasting_notification n = record n { read_at = none }

-- Rows are added and none is removed; the audit log is not rewritten at all; of an account its id,
-- number and currency last, of a transfer all but its status, reason and destination amount, of a
-- notification all but its reading time. No snapshot is written, and no account number or key of
-- a transfer is doubled.
pub record Grown (before after : Db) : Type 0 where
  pub audit_log : Extends before.audit_log after.audit_log
  pub accounts : Extends (map lasting_account before.accounts) (map lasting_account after.accounts)
  pub transfers :
      Extends (map lasting_transfer before.transfers) (map lasting_transfer after.transfers)
  pub notifications :
      Extends
        (map lasting_notification before.notifications)
        (map lasting_notification after.notifications)
  pub snapshots : after.snapshots ≡ before.snapshots
  pub one_account :
      (k : String) → length (rows k before.accounts) ≤ 1 → length (rows k after.accounts) ≤ 1
  pub one_transfer :
      (k : String)
      → length (select (has_key k) before.transfers) ≤ 1
      → length (select (has_key k) after.transfers) ≤ 1

abbrev pub grown : Preorder Grown
grown = record {
  stays = λ db. record {
    audit_log = Extends-same refl;
    accounts = Extends-same refl;
    transfers = Extends-same refl;
    notifications = Extends-same refl;
    snapshots = refl;
    one_account = λ k h. h;
    one_transfer = λ k h. h;
  };
  composes = λ p q. record {
    audit_log = Extends-trans p.audit_log q.audit_log;
    accounts = Extends-trans p.accounts q.accounts;
    transfers = Extends-trans p.transfers q.transfers;
    notifications = Extends-trans p.notifications q.notifications;
    snapshots = q.snapshots ∙ p.snapshots;
    one_account = λ k h. q.one_account k (p.one_account k h);
    one_transfer = λ k h. q.one_transfer k (p.one_transfer k h);
  };
}
