-- ===== src/Repository/TransferRepository/Transitions.antt =====
-- The state machine of a transfer's status.
use ai_spec_driven_developme.Session.Keeps.{Keeps, keeps_rules}
use ai_spec_driven_developme.Repository.Insert.{insert_audit}
use ai_spec_driven_developme.Prelude.{
  ◌∙◌, ℕ, String, ◌≡◌, refl, false, Option, none, some, List, [], ◌∷◌, arith, select, any_of, ap,
  sym, subst,
}
use ai_spec_driven_developme.Errors.{ok}
use ai_spec_driven_developme.Models.{
  Account, AuditLogEntry, Transfer, TransferStatus, pending, processing, completed, failed,
  rejected,
}
use ai_spec_driven_developme.Session.{Engine, Db, Session, raise_when}
use ai_spec_driven_developme.Session.Laws.{after_bind, raise_when-eq-ok, ok-injective}
use ai_spec_driven_developme.Repository.TransferRepository.{
  write_audit_log, scalar_one_or_none, has_id, get_transfer_by_id,
}
use ai_spec_driven_developme.Repository.TransferRepository.StatusUpdate.{
  is_invalid_transition, update_transfer, audit_status, with_status, set_status,
  update_transfer_status,
}

-- What a status may become.
pub data Allowed : TransferStatus → TransferStatus → Type 0 where
  stays : (a : TransferStatus) → Allowed a a
  starts : Allowed pending processing
  completes : Allowed processing completed
  fails_early : Allowed pending failed
  fails : Allowed processing failed

valid_step : (a b : TransferStatus) → is_invalid_transition a b ≡ false → Allowed a b
unfolding is_invalid_transition any_of
valid_step pending pending h = stays pending
valid_step pending processing h = starts
valid_step pending completed h = cc
valid_step pending failed h = fails_early
valid_step pending rejected h = cc
valid_step processing pending h = cc
valid_step processing processing h = stays processing
valid_step processing completed h = completes
valid_step processing failed h = fails
valid_step processing rejected h = cc
valid_step completed pending h = cc
valid_step completed processing h = cc
valid_step completed completed h = stays completed
valid_step completed failed h = cc
valid_step completed rejected h = cc
valid_step failed pending h = cc
valid_step failed processing h = cc
valid_step failed completed h = cc
valid_step failed failed h = stays failed
valid_step failed rejected h = cc
valid_step rejected pending h = cc
valid_step rejected processing h = cc
valid_step rejected completed h = cc
valid_step rejected failed h = cc
valid_step rejected rejected h = stays rejected

with_status-status :
    (b : TransferStatus) (reason : Option String) (x : Transfer)
    → (with_status b reason x).status ≡ b
unfolding with_status
with_status-status b none x = refl
with_status-status b (some y) x = refl

-- A status that an update gave: the transfer had the id, its status allowed the new one, no account
-- changed, and the rows differ by that transfer's status and reason.
pub record Updated (id : ℕ) (new_status : TransferStatus) (reason : Option String) (before : Db)
    (r : Transfer) (after : Db) : Type 0 where
  pub old : Transfer
  pub found : select (has_id id) before.transfers ≡ old ∷ []
  pub allowed : Allowed old.status new_status
  pub result : r ≡ with_status new_status reason old
  pub rows_after :
      after.transfers ≡ update_transfer old.id (with_status new_status reason) before.transfers
  pub accounts_after : after.accounts ≡ before.accounts

pub one_found : (l : List Transfer) (x : Transfer) → scalar_one_or_none l ≡ ok (some x) → l ≡ x ∷ []
one_found [] x h = cc
one_found (a ∷ []) x h = cc
one_found (a ∷ b ∷ l) x h = cc

pub none_found : (l : List Transfer) → scalar_one_or_none l ≡ ok none → l ≡ []
none_found [] h = refl
none_found (a ∷ []) h = cc
none_found (a ∷ b ∷ l) h = cc

-- A query of one row gives it, and keeps the tables.
pub transfer_found :
    (id : ℕ) (s : Session) {found : Option Transfer} {t : Session}
    → get_transfer_by_id id s ≡ (ok found, t)
    → (scalar_one_or_none (select (has_id id) s.db.transfers) ≡ ok found) × (t.db ≡ s.db)
unfolding get_transfer_by_id
transfer_found id s h = (ap (λ p. p.0) h, ap (λ p. p.1.db) (sym h))

-- The audit log is apart from the accounts and the transfers.
abbrev books_of : Db → List Account × List Transfer
books_of db = (db.accounts, db.transfers)

insert_audit-books :
    (e : Engine) (entry : AuditLogEntry) (db db' : Db)
    → insert_audit e entry db ≡ ok db'
    → books_of db' ≡ books_of db
unfolding insert_audit
insert_audit-books e entry db db' h = ground arith

audit_status-Keeps_books :
    (e : Engine) (request_id : Option String) (new_status : TransferStatus) (x : Transfer)
    → Keeps books_of (audit_status e request_id new_status x)
unfolding audit_status write_audit_log
audit_status-Keeps_books e request_id pending x = search keeps_rules
audit_status-Keeps_books e request_id processing x = search keeps_rules
audit_status-Keeps_books e request_id completed x = search (keeps_rules, insert_audit-books)
audit_status-Keeps_books e request_id failed x = search (keeps_rules, insert_audit-books)
audit_status-Keeps_books e request_id rejected x = search keeps_rules

set_status-Updated :
    (e : Engine) (id : ℕ) (new_status : TransferStatus) (reason request_id : Option String)
    (found : Option Transfer) (s : Session) {r : Transfer} {t : Session}
    → scalar_one_or_none (select (has_id id) s.db.transfers) ≡ ok found
    → set_status e new_status reason request_id found s ≡ (ok r, t)
    → Updated id new_status reason s.db r t.db
unfolding set_status
set_status-Updated e id new_status reason request_id none s q h = absurd (ground arith)
set_status-Updated e id new_status reason request_id (some old) s {r} {t} q h =
    after_bind _ (raise_when (is_invalid_transition old.status new_status) _ s) h λ _ s1 p1 h1.
      let (valid, e1) = raise_when-eq-ok (is_invalid_transition old.status new_status) _ s p1 in
      after_bind _
        (audit_status e request_id new_status (with_status new_status reason old) (record s1 {
          db = record s1.db {
            transfers = update_transfer old.id (with_status new_status reason) s1.db.transfers;
          };
        }))
        h1
        λ _ s3 p3 h3.
          let (same, e3) = ok-injective (with_status new_status reason old) r s3 t h3 in
          let after =
            sym (ap (λ p. books_of p.1.db) p3 ∙ ap (λ u. books_of u.db) e3)
            ∙ (audit_status-Keeps_books e request_id new_status
                  (with_status new_status reason old)).at
                _
            ∙ ap
                (λ u. (
                  u.db.accounts,
                  update_transfer old.id (with_status new_status reason) u.db.transfers,
                ))
                e1 in
          record {
            old = old;
            found = one_found (select (has_id id) s.db.transfers) old q;
            allowed = valid_step old.status new_status valid;
            result = sym same;
            rows_after = ap (λ p. p.1) after;
            accounts_after = ap (λ p. p.0) after;
          }

-- A status update that returns found one transfer with the id, whose status allowed the new one, and
-- changes only the status and the reason of that transfer: no account, and no other transfer, changes.
pub update_transfer_status-Updated :
    (e : Engine) (id : ℕ) (new_status : TransferStatus) (reason request_id : Option String)
    (s : Session) {r : Transfer} {t : Session}
    → update_transfer_status e id new_status reason request_id s ≡ (ok r, t)
    → Updated id new_status reason s.db r t.db
unfolding update_transfer_status
update_transfer_status-Updated e id new_status reason request_id s {r} {t} h =
    after_bind _ (get_transfer_by_id id s) h λ found s1 p1 h1.
      let (q, same) = transfer_found id s p1 in
      subst (λ db. Updated id new_status reason db r t.db) same
        (set_status-Updated e id new_status reason request_id found s1
          (subst (λ (db : Db). scalar_one_or_none (select (has_id id) db.transfers) ≡ ok found)
            (sym same) q)
          h1)
