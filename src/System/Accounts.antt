-- ===== src/System/Accounts.antt =====
-- The operations on accounts and notifications, and the start, move the tables along any order that the
-- writes move them along.
use ai_spec_driven_developme.Repository.Insert.{insert_pair, insert_pair-result}
use ai_spec_driven_developme.Api.App.{App, Endpoint}
use ai_spec_driven_developme.Models.{Account, CurrencyPair}
use ai_spec_driven_developme.Session.{Action, Db, Engine, pure}
use ai_spec_driven_developme.Security.{Claims}
use ai_spec_driven_developme.Service.AccountService.{CreateAccountRequest}
use ai_spec_driven_developme.Decimal.{Decimal}
use ai_spec_driven_developme.Session.Evolves.{Evolves, Evolves-bind}
use ai_spec_driven_developme.Config.{ExchangeRateConfig}
use ai_spec_driven_developme.Prelude.{
  List, Option, String, [], none, some, suc, zero, ℕ, ◌∷◌, subst, ◌≡◌,
}
use ai_spec_driven_developme.System.Requests.{Operations}
use ai_spec_driven_developme.System.Writes.{Writes, written, ok_same}
use ai_spec_driven_developme.Api.Startup.{add_pairs, seed_currency_pairs, seed_if_none}
use ai_spec_driven_developme.Repository.AccountRepository.{
  create, find_unused_number, generate_account_number, get_active_by_account_number,
  get_by_account_number,
}
use ai_spec_driven_developme.System.Operations.{execute_transfer-Evolves, initiate-Evolves}
use ai_spec_driven_developme.Errors.{Result, ok}
use ai_spec_driven_developme.Repository.NotificationRepository.{set_read_at}
use ai_spec_driven_developme.Service.AccountService
use ai_spec_driven_developme.Service.NotificationService
use ai_spec_driven_developme.Repository.AccountRepository
use ai_spec_driven_developme.Repository.NotificationRepository

module _ {κ} {e : Engine} {R : Db → Db → Type κ} (w : Writes e R) where
  generate_account_number-Evolves : Evolves R (generate_account_number e)
  unfolding generate_account_number
  generate_account_number-Evolves = record { at = λ s. w.order.stays s.db }

  find_unused_number-Evolves :
      (rounds : ℕ) (number : String) → Evolves R (find_unused_number e rounds number)
  unfolding find_unused_number get_by_account_number
  find_unused_number-Evolves zero number = search written
  find_unused_number-Evolves (suc rounds) _ =
      Evolves-bind w.order (generate_account_number e) _ (generate_account_number-Evolves)
        (λ number.
          Evolves-bind w.order (get_by_account_number number) _ (search written)
            (picked number (find_unused_number-Evolves rounds number)))
    where
      picked :
          (number : String)
          → Evolves R (find_unused_number e rounds number)
          → (existing : Option Account)
          → Evolves R (elim existing as (λ _. Action String) [
            | none ↦ pure number
            | some _ ↦ find_unused_number e rounds number
          ])
      picked number next none = search written
      picked number next (some _) = next

  create-Evolves :
      (owner currency : String) (balance : Decimal) (actor : String) (request_id : Option String)
      → Evolves R (create e owner currency balance actor request_id)
  unfolding create
  create-Evolves owner currency balance actor request_id =
      search (written, find_unused_number-Evolves) depth 20

  create_account-Evolves :
      (fx : ExchangeRateConfig) (request : CreateAccountRequest) (actor : String)
      (request_id : Option String)
      → Evolves R (AccountService.create_account e fx request actor request_id)
  unfolding AccountService.create_account
  create_account-Evolves fx request actor request_id = search (written, create-Evolves)

  delete_account-Evolves :
      (number actor : String) (claims : Claims) (request_id : Option String)
      → Evolves R (AccountService.delete_account e number actor claims request_id)
  unfolding AccountService.delete_account AccountRepository.delete_account
      get_active_by_account_number get_by_account_number
  delete_account-Evolves number actor claims request_id = search written depth 20

  reading_written :
      (i now : ℕ) (db db' : Db)
      → ◌≡◌ {A = Result Db}
          (ok (record db { notifications = set_read_at i now db.notifications }))
          (ok db')
      → R db db'
  reading_written i now db db' h = subst (R db) (ok_same _ db' h) (w.reads i now db)

  mark_read-Evolves :
      (i : ℕ) (number : String) → Evolves R (NotificationService.mark_read e i number)
  unfolding NotificationService.mark_read NotificationRepository.mark_read
  mark_read-Evolves i number = search (written, reading_written) depth 20

  pair_written : (pair : CurrencyPair) (db db' : Db) → insert_pair e pair db ≡ ok db' → R db db'
  pair_written pair db db' h = subst (R db) (insert_pair-result e pair db db' h) (w.pairs pair db)

  add_pairs-Evolves : (pairs : List (String × String)) → Evolves R (add_pairs e pairs)
  unfolding add_pairs
  add_pairs-Evolves [] = search written
  add_pairs-Evolves ((from, to) ∷ pairs) =
      let rest = add_pairs-Evolves pairs in search (written, pair_written) depth 10

  seed_if_none-Evolves : (found : Option CurrencyPair) → Evolves R (seed_if_none e found)
  seed_if_none-Evolves none = search (written, add_pairs-Evolves)
  seed_if_none-Evolves (some pair) = search written

  seed_currency_pairs-Evolves : Evolves R (seed_currency_pairs e)
  unfolding seed_currency_pairs
  seed_currency_pairs-Evolves = search (written, seed_if_none-Evolves)

-- Every writing operation, for any requests.
pub operations {κ} :
    {R : Db → Db → Type κ} (app : App) (allowed : Endpoint → Type 0)
    → Writes app.engine R
    → Operations app allowed R
operations app allowed w = record {
  order = w.order;
  creates = λ request actor request_id permitted valid.
      create_account-Evolves w app.exchange_rates request actor request_id;
  deletes = delete_account-Evolves w;
  transfers = λ request key caller_id request_id permitted valid.
      execute_transfer-Evolves w app.exchange_rates request caller_id key request_id;
  exchanges = λ request key caller_id request_id permitted.
      initiate-Evolves w app.settings request caller_id key request_id;
  marks = mark_read-Evolves w;
  seeds = seed_currency_pairs-Evolves w;
}
