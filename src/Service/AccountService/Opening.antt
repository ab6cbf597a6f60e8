-- ===== src/Service/AccountService/Opening.antt =====
-- An account that was opened is there to be read.
use ai_spec_driven_developme.Prelude.{
  String, Option, Bool, none, ◌≡◌, ◌||◌, true, false, not, ◌&&◌, [], ◌∷◌, ◌++◌, ◌∙◌, ap, ap₂, refl,
  arith, eq_refl, select, if◌then◌else◌,
}
use ai_spec_driven_developme.Errors.{raise_if, ok, err, domain_error, forbidden_error}
use ai_spec_driven_developme.Models.{Account, active}
use ai_spec_driven_developme.Config.{ExchangeRateConfig}
use ai_spec_driven_developme.Security.{Claims, claim_is, is_operator, require_owner_or_operator}
use ai_spec_driven_developme.Session.{Engine, Db, Session, continue, pure}
use ai_spec_driven_developme.Session.Rows.{rows}
use ai_spec_driven_developme.Session.Rows.Laws.{no_rows, row_alone, rows-append}
use ai_spec_driven_developme.Repository.AccountRepository.{
  get_active_by_account_number, is_active_account,
}
use ai_spec_driven_developme.Service.AccountService.{
  CreateAccountRequest, create_account, get_account,
}
use ai_spec_driven_developme.Service.AccountService.Creation.{create_account-Added}

-- Whether the caller owns what the owner owns, or is an operator.
abbrev pub may_read : String → Claims → Bool
may_read owner claims = claim_is "sub" owner claims || is_operator claims

one_active : (a : Account) → a.status ≡ active → select is_active_account (a ∷ []) ≡ a ∷ []
unfolding select
one_active a h = ground arith

decided :
    (owns operates : Bool) (a : Account) (u : Session)
    → continue
        (λ _. pure a)
        (raise_if (not owns && not operates) (domain_error forbidden_error none), u)
      ≡ (if owns || operates then ok a else err (domain_error forbidden_error none), u)
decided true operates a u = refl
decided false true a u = refl
decided false false a u = refl

module _ (e : Engine) (fx : ExchangeRateConfig) (request : CreateAccountRequest) (actor : String)
    (request_id : Option String) (s : Session) {a : Account} {t : Session}
    (done : create_account e fx request actor request_id s ≡ (ok a, t)) where
  only_row : select is_active_account (rows a.account_number t.db.accounts) ≡ a ∷ []
  only_row =
      let (_, _, w) = create_account-Added e fx request actor request_id s done in
      ap (λ l. select is_active_account (rows a.account_number l)) w.accounts_after
      ∙ ap (select is_active_account) (
          rows-append a.account_number s.db.accounts (a ∷ [])
          ∙ ap₂ (λ x y. x ++ y) (no_rows a.account_number s.db.accounts w.new_number)
              ((row_alone a.account_number a).0 (eq_refl a.account_number)))
      ∙ one_active a w.is_active

  -- On the tables as an account was opened, a request for its number gives its owner and an operator that
  -- account, and any other caller ForbiddenError; no table changes.
  pub create_account-get_account :
      (claims : Claims) (s' : Session)
      → s'.db ≡ t.db
      → get_account a.account_number claims s' ≡ (
        if may_read request.owner_id claims then ok a else err (domain_error forbidden_error none),
        record s' { in_transaction = true },
      )
  unfolding get_account get_active_by_account_number require_owner_or_operator
  create_account-get_account claims s' same =
      let (_, _, w) = create_account-Added e fx request actor request_id s done in
      let found : select is_active_account (rows a.account_number s'.db.accounts) ≡ a ∷ [] =
        ap (λ (db : Db). select is_active_account (rows a.account_number db.accounts)) same
        ∙ only_row in
      rw (found, w.owned)
        (decided (claim_is "sub" request.owner_id claims) (is_operator claims) _
          (record s' { in_transaction = true }))
