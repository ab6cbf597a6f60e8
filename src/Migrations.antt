-- ===== src/Migrations.antt =====
-- The migrations of the tables (alembic/versions/): each is the list of the operations that its
-- `upgrade` and its `downgrade` call, in order. What a database makes of an operation is the
-- parameter `Ddl`.
pub mod Columns
pub mod Initial
pub mod Transfers
pub mod CrossCurrency
pub mod Models
pub mod Undoing
pub mod Agreement
use ai_spec_driven_developme.Prelude.{ℕ, String, Bool, Option, none, some, List, [], ◌∷◌, ◌++◌, ◌≡◌}
use ai_spec_driven_developme.Migrations.Columns.{Operation, Column, effect}
use ai_spec_driven_developme.Migrations.Initial
use ai_spec_driven_developme.Migrations.Transfers
use ai_spec_driven_developme.Migrations.CrossCurrency

pub data Revision : Type 0 where
  revision_001 revision_002 revision_003 : Revision

abbrev pub upgrade : Revision → List Operation
upgrade revision_001 = Initial.upgrade
upgrade revision_002 = Transfers.upgrade
upgrade revision_003 = CrossCurrency.upgrade

abbrev pub downgrade : Revision → List Operation
downgrade revision_001 = Initial.downgrade
downgrade revision_002 = Transfers.downgrade
downgrade revision_003 = CrossCurrency.downgrade

-- A database of tables: `none` where it refuses an operation.
pub record Ddl (S : Type 0) : Type 0 where
  pub execute : Operation → S → Option S
  pub columns : S → String → Option (List Column)

abbrev pub run : {S : Type 0} → Ddl S → List Operation → S → Option S
run db [] s = some s
run db (o ∷ ops) s = elim (db.execute o s) [ none ↦ none | some t ↦ run db ops t ]

-- From an older revision to a newer one, and back.
abbrev pub upgrades : List Revision → List Operation
upgrades [] = []
upgrades (r ∷ rs) = upgrade r ++ upgrades rs

abbrev pub downgrades : List Revision → List Operation
downgrades [] = []
downgrades (r ∷ rs) = downgrades rs ++ downgrade r

abbrev pub all_revisions : List Revision
all_revisions = revision_001 ∷ revision_002 ∷ revision_003 ∷ []
