-- ===== src/Api/Startup.antt =====
-- `_seed_currency_pairs` of src/fund_transfer/main.py.
use ai_spec_driven_developme.Prelude.{String, true, Option, none, some, List, [], ◌∷◌}
use ai_spec_driven_developme.Errors.{ok}
use ai_spec_driven_developme.Repository.Insert.{insert_pair}
use ai_spec_driven_developme.Models.{CurrencyPair}
use ai_spec_driven_developme.Session.{
  Engine, Action, pure, query, modify, new_id, transaction, ◌>>=◌, ◌>>◌,
}

abbrev pub pairs_to_seed : List (String × String)
pairs_to_seed =
    ("EUR", "USD")
    ∷ ("USD", "EUR")
    ∷ ("EUR", "GBP")
    ∷ ("GBP", "EUR")
    ∷ ("USD", "GBP")
    ∷ ("GBP", "USD")
    ∷ ("EUR", "CHF")
    ∷ ("CHF", "EUR")
    ∷ []

unfoldable pub add_pairs : Engine → List (String × String) → Action (Unit {0})
add_pairs e [] = pure tt
add_pairs e ((from_c, to_c) ∷ pairs) = do
  id ← new_id e
  modify (
      insert_pair e (record {
        id = id;
        from_currency = from_c;
        to_currency = to_c;
        is_active = true;
        created_at = e.db_now;
      }))
  add_pairs e pairs

-- `select(CurrencyPair).limit(1)`
abbrev pub first_row : List CurrencyPair → Option CurrencyPair
first_row [] = none
first_row (pair ∷ _) = some pair

abbrev pub seed_if_none : Engine → Option CurrencyPair → Action (Unit {0})
seed_if_none e (some _) = pure tt
seed_if_none e none = transaction e (add_pairs e pairs_to_seed)

unfoldable pub seed_currency_pairs : Engine → Action (Unit {0})
seed_currency_pairs e = do
  found ← query (λ db. ok (first_row db.currency_pairs))
  seed_if_none e found
