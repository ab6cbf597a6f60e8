-- ===== src/Migrations/Agreement.antt =====
-- The tables that the migrations make have the columns that the models declare.
use mathlib.Core.List.{Perm, perm_append_comm}
use mathlib.Core.List.Perm
use ai_spec_driven_developme.Prelude.{
  ℕ, zero, suc, String, Option, none, some, List, [], ◌∷◌, ◌++◌, ◌≡◌, ◌∙◌, ap, map,
}
use ai_spec_driven_developme.Migrations.{Ddl, run, upgrades, all_revisions}
use ai_spec_driven_developme.Migrations.Columns.{Operation, Column, effect}
use ai_spec_driven_developme.Migrations.Models.{
  Model, account, audit_log_entry, transfer, fx_rate_snapshot, currency_pair, notification,
  tablename, model_columns, account_columns, audit_log_columns, snapshot_columns, pair_columns,
  notification_columns, transfer_columns,
}
use ai_spec_driven_developme.Migrations.Undoing.{first_step}

-- What a database says of a table's columns after an operation that it accepted.
pub record Reads {S : Type 0} (db : Ddl S) : Type 0 where
  pub reads :
      (o : Operation) {s t : S}
      → db.execute o s ≡ some t
      → (n : String) → db.columns t n ≡ effect n o (db.columns s n)

abbrev effects : String → List Operation → Option (List Column) → Option (List Column)
effects n [] before = before
effects n (o ∷ ops) before = effects n ops (effect n o before)

-- A column without its default, which the models declare in Python.
abbrev pub without_default : Column → Column
without_default c = record c { server_default = none }

abbrev first_columns : ℕ → List Column → List Column
first_columns zero l = []
first_columns (suc k) [] = []
first_columns (suc k) (c ∷ l) = c ∷ first_columns k l

abbrev columns_from : ℕ → List Column → List Column
columns_from zero l = l
columns_from (suc k) [] = []
columns_from (suc k) (c ∷ l) = columns_from k l

-- The caller and the time stand before the columns that migration 003 adds.
moved_back : (start pair l : List Column) → Perm (start ++ (pair ++ l)) (start ++ (l ++ pair))
moved_back start pair l = Perm.append (Perm.refl start) (perm_append_comm pair l)

transfer_order :
    Perm
      (first_columns 11 transfer_columns
        ++ (columns_from 19 transfer_columns ++ first_columns 8 (columns_from 11 transfer_columns)))
      transfer_columns
transfer_order =
    moved_back (first_columns 11 transfer_columns) (columns_from 19 transfer_columns)
      (first_columns 8 (columns_from 11 transfer_columns))

module _ {S : Type 0} (db : Ddl S) (laws : Reads db) where
  run-columns :
      (n : String) (ops : List Operation) (s : S) {t : S}
      → run db ops s ≡ some t
      → db.columns t n ≡ effects n ops (db.columns s n)
  run-columns n [] s {t} h = same s t h
    where
      same : (a b : S) → ◌≡◌ {A = Option S} (some a) (some b) → db.columns b n ≡ db.columns a n
      same a b p = cc
  run-columns n (o ∷ ops) s h =
      let (x, p, q) = first_step db o ops s h in
      run-columns n ops x q ∙ ap (effects n ops) (laws.reads o p n)

  -- With a database that reads back what it accepted: after all migrations the table of each model has
  -- the columns that the model declares, with their names, types, keys and nullability, in some
  -- order, and no others.
  pub upgrades-model_columns :
      (s : S) {t : S}
      → run db (upgrades all_revisions) s ≡ some t
      → (m : Model)
      → (columns : List Column) × (db.columns t (tablename m) ≡ some columns)
        × Perm (map without_default columns) (model_columns m)
  upgrades-model_columns s h account =
      (_, run-columns "accounts" (upgrades all_revisions) s h, Perm.refl account_columns)
  upgrades-model_columns s h audit_log_entry =
      (_, run-columns "audit_log" (upgrades all_revisions) s h, Perm.refl audit_log_columns)
  upgrades-model_columns s h transfer =
      (_, run-columns "transfers" (upgrades all_revisions) s h, transfer_order)
  upgrades-model_columns s h fx_rate_snapshot =
      (_, run-columns "fx_rate_snapshot" (upgrades all_revisions) s h, Perm.refl snapshot_columns)
  upgrades-model_columns s h currency_pair =
      (_, run-columns "currency_pairs" (upgrades all_revisions) s h, Perm.refl pair_columns)
  upgrades-model_columns s h notification =
      (_, run-columns "notifications" (upgrades all_revisions) s h, Perm.refl notification_columns)
