-- ===== src/Tests/Services.antt =====
-- Accounts, statuses, notifications and retries.
use ai_spec_driven_developme.Service.AccountService.{get_account}
use ai_spec_driven_developme.Service.AccountService.Closing.{delete_account-gone}
use ai_spec_driven_developme.Service.TransferService.{load_active}
use ai_spec_driven_developme.Repository.AccountRepository.{account_not_found}
use ai_spec_driven_developme.Repository.Insert.{insert_audit}
use ai_spec_driven_developme.Repository.AccountRepository.{
  close_row, get_by_account_number, get_active_by_account_number,
}
use ai_spec_driven_developme.Prelude.{
  ℕ, zero, suc, ◌+◌, ◌≡◌, refl, Bool, true, false, ◌||◌, none, some, [], ◌∷◌, select, any_of,
  lookup,
}
use ai_spec_driven_developme.Decimal.{eq, literal}
use ai_spec_driven_developme.Errors.{Error, ok, err, other_error, deadlock_detected}
use ai_spec_driven_developme.Models.{Notification, Account, processing, completed, sent}
use ai_spec_driven_developme.Security.{require_owner_or_operator, claim_is, is_operator}
use ai_spec_driven_developme.Session.{transaction, Session, Action}
use ai_spec_driven_developme.Session.Rows.{rows}
use ai_spec_driven_developme.Service.NotificationService
use ai_spec_driven_developme.Repository.NotificationRepository
use ai_spec_driven_developme.Repository.NotificationRepository.{set_read_at}
use ai_spec_driven_developme.Service.NotificationService.Reading.{Marked, mark_read-Marked}
use ai_spec_driven_developme.Service.Retry.{retry_on_deadlock}
use ai_spec_driven_developme.Service.Retry.Attempts.{Attempted, retry_on_deadlock-Attempted}
use ai_spec_driven_developme.Repository.TransferRepository.{get_transfer_by_id, write_audit_log}
use ai_spec_driven_developme.Repository.TransferRepository.StatusUpdate.{
  with_status, audit_status, is_invalid_transition, set_status, update_transfer_status,
}
use ai_spec_driven_developme.Repository.TransferRepository.Transitions.{
  Updated, update_transfer_status-Updated,
}
use ai_spec_driven_developme.Tests.Setup.{
  claims_of, engine, tables, session, alice, account, column,
}
use ai_spec_driven_developme.Tests.CrossCurrency.{exchanged}
use ai_spec_driven_developme.Service.AccountService.{delete_account}
use ai_spec_driven_developme.Service.AccountService.Deletion.{Deleted, delete_account-Deleted}

-- Dave's account is empty.
abbrev dave : Account
dave = account 4 "ACC-DAVE" "dave" "USD" 0

abbrev closing : Session
closing = record session { db = record tables { accounts = dave ∷ alice ∷ [] } }

abbrev closed_session : Session
closed_session = (delete_account engine "ACC-DAVE" "dave" (claims_of "dave") none closing).1

run_close :
    delete_account engine "ACC-DAVE" "dave" (claims_of "dave") none closing
    ≡ (ok tt, closed_session)
unfolding delete_account get_active_by_account_number any_of select rows require_owner_or_operator
    lookup transaction ai_spec_driven_developme.Repository.AccountRepository.delete_account
    get_by_account_number eq close_row write_audit_log insert_audit
run_close = refl

-- Alice would read it.
delete_account-gone_example :
    (get_account "ACC-DAVE" (claims_of "alice") closed_session
      ≡ (err account_not_found, record closed_session { in_transaction = true }))
    × (load_active "ACC-DAVE" closed_session
        ≡ (err account_not_found, record closed_session { in_transaction = true }))
delete_account-gone_example =
    delete_account-gone engine "ACC-DAVE" "dave" none (claims_of "dave") closing run_close
      (claims_of "alice") closed_session refl

delete_account-Deleted_example :
    (w : Deleted engine "ACC-DAVE" closing.db closed_session.db) × ((claim_is "sub"
          w.account.owner_id
          (claims_of "dave")
        || is_operator (claims_of "dave"))
      ≡ true)
delete_account-Deleted_example =
    delete_account-Deleted engine "ACC-DAVE" "dave" none (claims_of "dave") closing run_close

-- A status is moved on.
abbrev started : Session
started = record session {
  db = record tables { transfers = record exchanged { status = processing } ∷ [] };
}

run_complete :
    update_transfer_status engine 100 completed none none started
    ≡ (ok exchanged, (update_transfer_status engine 100 completed none none started).1)
unfolding update_transfer_status get_transfer_by_id select set_status is_invalid_transition any_of
    audit_status write_audit_log insert_audit column with_status
run_complete = refl

update_transfer_status-Updated_example :
    Updated 100 completed none started.db exchanged
      (update_transfer_status engine 100 completed none none started).1.db
update_transfer_status-Updated_example =
    update_transfer_status-Updated engine 100 completed none none started run_complete

-- An action that deadlocks as long as less than two draws were made.
abbrev is_deadlock : Error → Bool
is_deadlock (other_error deadlock_detected) = true
is_deadlock _ = false

abbrev flaky : Action ℕ
flaky s = (
  elim s.draws [ zero ↦ err (other_error deadlock_detected) | suc n ↦ ok n ],
  record s { draws = s.draws + 1 },
)

retry_on_deadlock-Attempted_example :
    Attempted is_deadlock flaky 3 session (retry_on_deadlock is_deadlock flaky session)
retry_on_deadlock-Attempted_example = retry_on_deadlock-Attempted is_deadlock flaky session

abbrev note : Notification
note = record {
  id = 50;
  recipient_account_number = "ACC-BOB";
  transfer_id = 100;
  direction = sent;
  source_amount = literal 1002500 4;
  source_currency = "USD";
  net_credited_amount = literal 919533 4;
  net_credited_currency = "EUR";
  read_at = none;
  created_at = 1000;
}

abbrev inbox : Session
inbox = record session {
  db = record tables { notifications = note ∷ record note { id = 51 } ∷ [] };
}

run_mark : NotificationService.mark_read engine 50 "ACC-BOB" inbox ≡ (
  ok (record note { read_at = some 1000 }),
  (NotificationService.mark_read engine 50 "ACC-BOB" inbox).1,
)
unfolding NotificationService.mark_read NotificationRepository.mark_read select set_read_at
run_mark = refl

mark_read-Marked_example :
    Marked engine 50 "ACC-BOB" inbox.db
      (record note { read_at = some 1000 })
      (NotificationService.mark_read engine 50 "ACC-BOB" inbox).1.db
mark_read-Marked_example = mark_read-Marked engine 50 "ACC-BOB" inbox run_mark
