-- ===== src/Migrations/Undoing.antt =====
-- A downgrade undoes its upgrade.
use ai_spec_driven_developme.Prelude.{
  Bool, List, Option, String, [], ap, sym, ◌∙◌, arith, none, refl, some, ◌++◌, ◌∷◌, ◌≡◌,
}
use ai_spec_driven_developme.Migrations.Columns.{
  Column, Operation, add_column, create_index, create_table, drop_column, drop_table, rename_column,
}
use ai_spec_driven_developme.Migrations.{
  Ddl, run, Revision, revision_001, revision_002, revision_003, upgrade, downgrade, upgrades,
  downgrades,
}

-- What a database does that accepts an operation: the operation that takes it back restores the tables.
pub record Reversible {S : Type 0} (db : Ddl S) : Type 0 where
  pub drop_created :
      (n : String) (columns : List Column) (constraints : List (String × List String)) {s t : S}
      → db.execute (create_table n columns constraints) s ≡ some t
      → db.execute (drop_table n) t ≡ some s
  -- The indexes of a table go with it.
  pub drop_indexed :
      (i n : String) (columns : List String) (unique : Bool) {s t : S}
      → db.execute (create_index i n columns unique) s ≡ some t
      → db.execute (drop_table n) t ≡ db.execute (drop_table n) s
  pub drop_added :
      (n : String) (c : Column) {s t : S}
      → db.execute (add_column n c) s ≡ some t
      → db.execute (drop_column n c.name) t ≡ some s
  pub rename_back :
      (n old new : String) {s t : S}
      → db.execute (rename_column n old new) s ≡ some t
      → db.execute (rename_column n new old) t ≡ some s

-- A table's indexes.
pub data Indexes (n : String) : List Operation → Type 0 where
  no_index : Indexes n []
  index :
      (i : String) (columns : List String) (unique : Bool) {ops : List Operation}
      → Indexes n ops
      → Indexes n (create_index i n columns unique ∷ ops)

-- The list of the operations that take back those of a list, the last one first.
pub data Undoing : List Operation → List Operation → Type 0 where
  nothing : Undoing [] []
  table :
      (n : String) (columns : List Column) (constraints : List (String × List String))
      {indexes ups downs : List Operation}
      → Indexes n indexes
      → Undoing ups downs
      → Undoing (create_table n columns constraints ∷ indexes ++ ups) (downs ++ drop_table n ∷ [])
  added :
      (n : String) (c : Column) {ups downs : List Operation}
      → Undoing ups downs
      → Undoing (add_column n c ∷ ups) (downs ++ drop_column n c.name ∷ [])
  renamed :
      (n old new : String) {ups downs : List Operation}
      → Undoing ups downs
      → Undoing (rename_column n old new ∷ ups) (downs ++ rename_column n new old ∷ [])

module _ {S : Type 0} (db : Ddl S) where
  pub first_step :
      (o : Operation) (ops : List Operation) (s : S) {t : S}
      → run db (o ∷ ops) s ≡ some t
      → (x : S) × (db.execute o s ≡ some x) × (run db ops x ≡ some t)
  first_step o ops s {t} h = by_result (db.execute o s) refl h
    where
      by_result :
          (r : Option S)
          → db.execute o s ≡ r
          → elim r as (λ _. Option S) [ none ↦ none | some x ↦ run db ops x ] ≡ some t
          → (x : S) × (db.execute o s ≡ some x) × (run db ops x ≡ some t)
      by_result none p k = absurd (ground arith)
      by_result (some x) p k = (x, p, k)

  after_step :
      (o : Operation) (ops : List Operation) (s : S) {x : S}
      → db.execute o s ≡ some x
      → run db (o ∷ ops) s ≡ run db ops x
  after_step o ops s p = rw (run, p)

  run-append :
      (first second : List Operation) (s : S) {t : S}
      → run db first s ≡ some t
      → run db (first ++ second) s ≡ run db second t
  run-append [] second s h =
      ap (λ r. elim r as (λ _. Option S) [ none ↦ none | some x ↦ run db second x ]) h
  run-append (o ∷ first) second s h =
      let (x, p, q) = first_step o first s h in
      after_step o (first ++ second) s p ∙ run-append first second x q

  -- The state that a run passes between two lists.
  run_halves :
      (first second : List Operation) (s : S) {t : S}
      → run db (first ++ second) s ≡ some t
      → (x : S) × (run db first s ≡ some x) × (run db second x ≡ some t)
  run_halves [] second s h = (s, refl, h)
  run_halves (o ∷ first) second s h =
      let (x, p, q) = first_step o (first ++ second) s h in
      let (y, one, two) = run_halves first second x q in (y, after_step o first s p ∙ one, two)

  last_step :
      (ops : List Operation) (o : Operation) (s : S) {x y : S}
      → run db ops s ≡ some x
      → db.execute o x ≡ some y
      → run db (ops ++ o ∷ []) s ≡ some y
  last_step ops o s {x} h p = run-append ops (o ∷ []) s h ∙ after_step o [] x p

  module _ (laws : Reversible db) where
    Indexes-dropped :
        (n : String) {ops : List Operation} {s t : S}
        → Indexes n ops
        → run db ops s ≡ some t
        → db.execute (drop_table n) t ≡ db.execute (drop_table n) s
    Indexes-dropped n {s = s} {t} no_index h = same s t h
      where
        same :
            (a b : S) → some a ≡ some b → db.execute (drop_table n) b ≡ db.execute (drop_table n) a
        same a b p = cc
    Indexes-dropped n {s = s} (index i columns unique {ops} rest) h =
        let (x, p, q) = first_step (create_index i n columns unique) ops s h in
        Indexes-dropped n rest q ∙ laws.drop_indexed i n columns unique p

    pub undone :
        {ups downs : List Operation} (s : S) {t : S}
        → Undoing ups downs
        → run db ups s ≡ some t
        → run db downs t ≡ some s
    undone s {t} nothing h = sym h
    undone s {t} (table n columns constraints {indexes} {ups} {downs} of_table rest) h =
        let (x, p, q) = first_step (create_table n columns constraints) (indexes ++ ups) s h in
        let (y, one, two) = run_halves indexes ups x q in
        last_step downs (drop_table n) t (undone y rest two)
          (Indexes-dropped n of_table one ∙ laws.drop_created n columns constraints p)
    undone s {t} (added n c {ups} {downs} rest) h =
        let (x, p, q) = first_step (add_column n c) ups s h in
        last_step downs (drop_column n c.name) t (undone x rest q) (laws.drop_added n c p)
    undone s {t} (renamed n old new {ups} {downs} rest) h =
        let (x, p, q) = first_step (rename_column n old new) ups s h in
        last_step downs (rename_column n new old) t (undone x rest q) (laws.rename_back n old new p)

    revision_undone :
        (r : Revision) (s : S) {t : S}
        → run db (upgrade r) s ≡ some t
        → run db (downgrade r) t ≡ some s
    revision_undone revision_001 s h =
        undone s
          (table "accounts" _ [] (index _ _ _ (index _ _ _ (index _ _ _ no_index))) (
            table "audit_log" _ [] (index _ _ _ (index _ _ _ (index _ _ _ (index _ _ _ no_index))))
              nothing))
          h
    revision_undone revision_002 s h =
        undone s
          (table "transfers" _ [] (index _ _ _ (index _ _ _ (index _ _ _ (index _ _ _ no_index))))
            (table "idempotency_keys" _ [] (index _ _ _ no_index) nothing))
          h
    revision_undone revision_003 s h =
        undone s
          (table "fx_rate_snapshot" _ [] (index _ _ _ (index _ _ _ no_index)) (
            table "currency_pairs" _ _ (index _ _ _ no_index) (
              table "notifications" _ [] (index _ _ _ (index _ _ _ no_index)) (
                added _ _ (
                  added _ _ (
                    added _ _ (
                      added _ _ (
                        added _ _
                          (added _ _ (added _ _ (added _ _ (renamed _ _ _ nothing))))))))))))
          h

    -- With a database in which dropping what was created or added, and renaming back, restores the tables:
    -- whatever revisions were applied, one after another, their downgrades, the last one first, go
    -- through and give back the tables as they were before.
    pub downgrades-upgrades :
        (rs : List Revision) (s : S) {t : S}
        → run db (upgrades rs) s ≡ some t
        → run db (downgrades rs) t ≡ some s
    downgrades-upgrades [] s h = sym h
    downgrades-upgrades (r ∷ rs) s {t} h =
        let (x, one, two) = run_halves (upgrade r) (upgrades rs) s h in
        run-append (downgrades rs) (downgrade r) t (downgrades-upgrades rs x two)
        ∙ revision_undone r s one
