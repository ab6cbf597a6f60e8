-- ===== src/System/Bounds.antt =====
-- Writes keep balances in the range that their column gives back.
use ai_spec_driven_developme.System.Writes.{ok_same, Writes}
use ai_spec_driven_developme.Models.{Account, Transfer}
use ai_spec_driven_developme.Prelude.{
  Bool-cases, List, Option-cases, String, [], arith, inl, inr, subst, sym, ◌++◌, ◌<◌, ◌∷◌, ◌≡◌,
}
use ai_spec_driven_developme.Session.{Db, Engine, set_balance}
use ai_spec_driven_developme.Decimal.{Decimal}
use ai_spec_driven_developme.Session.Numeric.{NumericRange, column_limit}
use ai_spec_driven_developme.Session.Evolves.{Preorder, Preserves, preserves}
use ai_spec_driven_developme.Session.Keeps.{accounts_of}
use ai_spec_driven_developme.Repository.AccountRepository.{anonymized, close_row}
use ai_spec_driven_developme.Repository.AccountRepository.Laws.{
  close_row-result, insert_account-Inserted,
}
use ai_spec_driven_developme.Repository.Insert.{insert_account, insert_transfer}
use ai_spec_driven_developme.Service.CrossCurrencyTransferService.KeepsAccounts.{
  insert_audit-accounts, insert_notification-accounts,
}
use ai_spec_driven_developme.Session.Rows.{is_numbered, update_row, with_balance}
use ai_spec_driven_developme.Prelude.Int.{magnitude}
use ai_spec_driven_developme.Errors.{ok}

-- Every balance has four decimal places and at most 19 digits.
abbrev pub AllStored : List Account → Type 0
AllStored [] = Unit
AllStored (a ∷ l) =
    ((a.balance.scale ≡ 4) × (magnitude a.balance.coefficient < column_limit)) × AllStored l

abbrev pub Bounded : Db → Db → Type 0
Bounded = Preserves (λ db. AllStored db.accounts)

abbrev bounded : Preorder Bounded
bounded = preserves (λ db. AllStored db.accounts)

appended :
    (l : List Account) (a : Account)
    → (a.balance.scale ≡ 4) × (magnitude a.balance.coefficient < column_limit)
    → AllStored l
    → AllStored (l ++ a ∷ [])
appended [] a stored_a h = (stored_a, tt)
appended (b ∷ l) a stored_a h = (h.0, appended l a stored_a h.1)

updated :
    (k : String) (f : Account → Account) (l : List Account)
    → ((a : Account)
        → (a.balance.scale ≡ 4) × (magnitude a.balance.coefficient < column_limit)
        → ((f a).balance.scale ≡ 4) × (magnitude (f a).balance.coefficient < column_limit))
    → AllStored l
    → AllStored (update_row k f l)
unfolding update_row
updated k f [] keeps h = tt
updated k f (a ∷ l) keeps h = elim (Bool-cases (is_numbered k a)) [
  | inl p ↦ rw p (keeps a h.0, updated k f l keeps h.1)
  | inr p ↦ rw p (h.0, updated k f l keeps h.1)
]

module _ (e : Engine) (range : NumericRange e) where
  set_balance-Bounded :
      (number : String) (d : Decimal) (db db' : Db)
      → set_balance e number d db ≡ ok db'
      → Bounded db db'
  unfolding set_balance
  set_balance-Bounded number d db db' h all = elim (Option-cases (e.numeric 19 4 d)) [
    | inl p ↦ absurd (ground (arith, rw (set_balance, p) at h))
    | inr (v, p) ↦
        subst (λ (x : Db). AllStored x.accounts) (ok_same _ db' (rw (set_balance, p) at h))
          (updated number (with_balance v) db.accounts (λ a _. range.in_range 19 4 d v p) all)
  ]

  insert_account-Bounded :
      (a : Account) (db : Db) (x : Account × Db) → insert_account e a db ≡ ok x → Bounded db x.1
  insert_account-Bounded a db x h all =
      let w = insert_account-Inserted e a db x h in
      subst (λ (y : Db). AllStored y.accounts) (sym w.result)
        (appended db.accounts x.0 (range.in_range 19 4 a.balance x.0.balance w.balance) all)

  close_row-Bounded : (a : Account) (db db' : Db) → close_row e a db ≡ ok db' → Bounded db db'
  close_row-Bounded a db db' h all =
      subst (λ (y : Db). AllStored y.accounts) (close_row-result e a db db' h)
        (updated a.account_number (anonymized e) db.accounts (λ b stored_b. stored_b) all)

  same_accounts : (db db' : Db) → accounts_of db' ≡ accounts_of db → Bounded db db'
  same_accounts db db' same all = subst AllStored (sym same) all

  insert_transfer-accounts :
      (t : Transfer) (db : Db) (x : Transfer × Db)
      → insert_transfer e t db ≡ ok x
      → accounts_of x.1 ≡ accounts_of db
  unfolding insert_transfer
  insert_transfer-accounts t db x h = ground arith

  pub writes_bounded : Writes e Bounded
  writes_bounded = record {
    order = bounded;
    audits = λ entry db db' h. same_accounts db db' (insert_audit-accounts e entry db db' h);
    notifies = λ n db db' h. same_accounts db db' (insert_notification-accounts e n db db' h);
    opens = insert_account-Bounded;
    closes = close_row-Bounded;
    pays = set_balance-Bounded;
    records = λ t db x h. same_accounts db x.1 (insert_transfer-accounts t db x h);
    changes_status = λ new_status reason i db all. all;
    changes_amount = λ d i db all. all;
    reads = λ i now db all. all;
    pairs = λ pair db all. all;
  }
