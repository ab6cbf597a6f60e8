-- ===== src/Service/CrossCurrencyTransferService/Records/LastRow.antt =====
-- The last row of the transfers, found and changed by its id.
use ai_spec_driven_developme.Models.{Transfer, TransferStatus}
use ai_spec_driven_developme.Prelude.{
  List, [], arith, refl, select, true, ℕ, ◌++◌, ◌∷◌, ◌≡◌, none, select-append, sym, ◌∙◌,
}
use ai_spec_driven_developme.Repository.TransferRepository.{has_id}
use ai_spec_driven_developme.Repository.TransferRepository.StatusUpdate.{
  update_transfer, with_status,
}

pub only_last :
    (xs : List Transfer) (row old : Transfer) → xs ++ row ∷ [] ≡ old ∷ [] → (xs ≡ []) × (old ≡ row)
only_last [] row old h = (refl, cc)
only_last (x ∷ []) row old h = cc
only_last (x ∷ y ∷ xs) row old h = cc

pub last_selected :
    (i : ℕ) (l : List Transfer) (row : Transfer)
    → has_id i row ≡ true
    → select (has_id i) (l ++ row ∷ []) ≡ select (has_id i) l ++ row ∷ []
unfolding select
last_selected i l row same = rw (select-append (has_id i) l (row ∷ []), same)

-- If one row has an id and the last row has it, no other has.
pub none_before :
    (i : ℕ) (l : List Transfer) (row old : Transfer)
    → has_id i row ≡ true
    → select (has_id i) (l ++ row ∷ []) ≡ old ∷ []
    → (select (has_id i) l ≡ []) × (old ≡ row)
none_before i l row old same h =
    only_last (select (has_id i) l) row old (sym (last_selected i l row same) ∙ h)

pub update_transfer-none :
    (i : ℕ) (f : Transfer → Transfer) (l : List Transfer)
    → select (has_id i) l ≡ []
    → update_transfer i f l ≡ l
unfolding select update_transfer
update_transfer-none i f [] h = refl
update_transfer-none i f (x ∷ l) h = ground (arith, update_transfer-none i f l)

pub update_transfer-last :
    (i : ℕ) (f : Transfer → Transfer) (l : List Transfer) (row : Transfer)
    → select (has_id i) l ≡ []
    → has_id i row ≡ true
    → update_transfer i f (l ++ row ∷ []) ≡ l ++ f row ∷ []
unfolding select update_transfer
update_transfer-last i f [] row none_left same = ground arith
update_transfer-last i f (x ∷ l) row none_left same = ground (arith, update_transfer-last i f l row)

pub own_id : (t : Transfer) → has_id t.id t ≡ true
own_id t = ground arith

pub with_status-id : (b : TransferStatus) (t : Transfer) → (with_status b none t).id ≡ t.id
unfolding with_status
with_status-id b t = refl
