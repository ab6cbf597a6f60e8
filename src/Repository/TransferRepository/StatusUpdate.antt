-- ===== src/Repository/TransferRepository/StatusUpdate.antt =====
-- src/fund_transfer/repositories/transfer_repository.py: `update_transfer_status`.
use ai_spec_driven_developme.Prelude.{
  ℕ, String, Bool, not, ◌&&◌, Option, none, some, List, [], ◌∷◌, any_of, if◌then◌else◌,
}
use ai_spec_driven_developme.Errors.{other_error, value_error, ok, err}
use ai_spec_driven_developme.Models.{
  Transfer, TransferStatus, pending, processing, completed, failed, rejected, OperationType,
  cross_currency_transfer_completed, cross_currency_transfer_failed,
}
use ai_spec_driven_developme.Session.{Engine, Action, pure, lift, raise_when, modify, ◌>>=◌, ◌>>◌}
use ai_spec_driven_developme.Repository.TransferRepository.{
  has_id, same_status, get_transfer_by_id, write_audit_log,
}

abbrev pub allowed_transitions : TransferStatus → List TransferStatus
allowed_transitions pending = processing ∷ failed ∷ []
allowed_transitions processing = completed ∷ failed ∷ []
allowed_transitions completed = []
allowed_transitions failed = []
allowed_transitions rejected = []

-- The test that `update_transfer_status` raises ValueError by.
unfoldable pub is_invalid_transition : TransferStatus → TransferStatus → Bool
is_invalid_transition status new_status =
    not (same_status new_status status)
    && not (any_of (same_status new_status) (allowed_transitions status))

-- An assignment to attributes of the object with an id, and its flush.
unfoldable pub update_transfer : ℕ → (Transfer → Transfer) → List Transfer → List Transfer
update_transfer transfer_id f [] = []
update_transfer transfer_id f (t ∷ l) =
    (if has_id transfer_id t then f t else t) ∷ update_transfer transfer_id f l

unfoldable pub with_status : TransferStatus → Option String → Transfer → Transfer
with_status new_status none t = record t { status = new_status }
with_status new_status (some reason) t = record t {
  status = new_status;
  failure_reason = some reason;
}

abbrev operation_of : TransferStatus → Option (OperationType × String)
operation_of completed = some (cross_currency_transfer_completed, "success")
operation_of failed = some (cross_currency_transfer_failed, "failure")
operation_of _ = none

unfoldable pub audit_status : Engine → Option String → TransferStatus → Transfer → Action (Unit {0})
audit_status e request_id new_status t = elim (operation_of new_status) [
  | none ↦ pure tt
  | some (operation_type, outcome) ↦
      write_audit_log e operation_type t.caller_id
        (t.source_account_number ∷ t.destination_account_number ∷ []) (some t.source_amount)
        (some t.source_currency) outcome request_id
]

unfoldable pub set_status :
    Engine → TransferStatus → Option String → Option String → Option Transfer → Action Transfer
set_status e new_status failure_reason request_id none = lift (err (other_error value_error))
set_status e new_status failure_reason request_id (some transfer) = do
  raise_when (is_invalid_transition transfer.status new_status) (other_error value_error)
  let changed = with_status new_status failure_reason transfer
  modify (λ db. ok (record db {
    transfers = update_transfer transfer.id (with_status new_status failure_reason) db.transfers;
  }))
  audit_status e request_id new_status changed
  pure changed

unfoldable pub update_transfer_status :
    Engine → ℕ → TransferStatus → Option String → Option String → Action Transfer
update_transfer_status e transfer_id new_status failure_reason request_id = do
  found ← get_transfer_by_id transfer_id
  set_status e new_status failure_reason request_id found
