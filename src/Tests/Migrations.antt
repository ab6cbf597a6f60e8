-- ===== src/Tests/Migrations.antt =====
-- A catalogue of tables and their columns, and the migrations run on it.
use mathlib.Core.List.{Perm}
use ai_spec_driven_developme.Prelude.{
  Bool-cases, List, Option, String, [], any_of, arith, if◌then◌else◌, inl, inr, map, none, not,
  select, some, str_eq, ◌&&◌, ◌++◌, ◌∷◌, ◌≡◌, Bool, eq_refl, false, refl, true, ap, ap₂, subst, sym,
  eq_iff, fun_ext, ◌∙◌,
}
use ai_spec_driven_developme.Migrations.Columns.{
  renamed, Column, Operation, add_column, create_index, create_table, drop_column, drop_table,
  is_named, rename_column, effect, on_columns, table_of,
}
use ai_spec_driven_developme.Migrations.{Ddl, all_revisions, downgrades, run, upgrades}
use ai_spec_driven_developme.Migrations.Undoing.{Reversible, downgrades-upgrades}
use ai_spec_driven_developme.Migrations.Agreement.{Reads, upgrades-model_columns, without_default}
use ai_spec_driven_developme.Migrations.Models.{model_columns, tablename, transfer}

abbrev Catalogue : Type 0
Catalogue = String → Option (List Column)

abbrev nothing : Catalogue
nothing n = none

-- Whether an operation is accepted, by the columns of its table.
accepts : Operation → Option (List Column) → Bool
unfolding any_of
accepts (create_table n columns constraints) none = true
accepts (create_table n columns constraints) (some l) = false
accepts (create_index i n columns unique) none = false
accepts (create_index i n columns unique) (some l) = true
accepts (add_column n c) none = false
accepts (add_column n c) (some l) = not (any_of (is_named c.name) l)
accepts (drop_column n k) none = false
accepts (drop_column n k) (some l) = any_of (is_named k) l
accepts (rename_column n old new) none = false
accepts (rename_column n old new) (some l) =
    any_of (is_named old) l && not (any_of (is_named new) l)
accepts (drop_table n) none = false
accepts (drop_table n) (some l) = true

execute : Operation → Catalogue → Option Catalogue
unfolding accepts
execute o s = if accepts o (s (table_of o)) then some (λ n. effect n o (s n)) else none

abbrev catalogue : Ddl Catalogue
catalogue = record { execute = execute; columns = λ s n. s n }

-- What an operation that went through says.
executed :
    (o : Operation) (s : Catalogue) {t : Catalogue}
    → execute o s ≡ some t
    → (accepts o (s (table_of o)) ≡ true) × ((λ n. effect n o (s n)) ≡ t)
unfolding execute
executed o s {t} h = by_test (accepts o (s (table_of o))) refl h
  where
    by_test :
        (b : Bool)
        → accepts o (s (table_of o)) ≡ b
        → (if b then some (λ n. effect n o (s n)) else none) ≡ some t
        → (accepts o (s (table_of o)) ≡ true) × ((λ n. effect n o (s n)) ≡ t)
    by_test true p k = (p, same (λ n. effect n o (s n)) t k)
      where
        same : (a b : Catalogue) → ◌≡◌ {A = Option Catalogue} (some a) (some b) → a ≡ b
        same a b q = cc
    by_test false p k = absurd (ground arith)

catalogue-Reads : Reads catalogue
catalogue-Reads = record {
  reads = λ o {s} h n. ap (λ (x : Catalogue). x n) (sym (executed o s h).1);
}

-- An operation that is taken back at its table's columns is taken back.
module _ (o back : Operation) (s : Catalogue) (same : table_of back ≡ table_of o)
    (inverse : (l : Option (List Column))
      → accepts o l ≡ true
      → (accepts back (on_columns o l) ≡ true) × (on_columns back (on_columns o l) ≡ l)) where
  accepted_back :
      accepts o (s (table_of o)) ≡ true
      → accepts back (effect (table_of back) o (s (table_of back))) ≡ true
  accepted_back accepted =
      subst (λ k. accepts back (effect k o (s k)) ≡ true) (sym same)
        (rw (eq_refl (table_of o)) (inverse (s (table_of o)) accepted).0)

  restored :
      accepts o (s (table_of o)) ≡ true → (n : String) → effect n back (effect n o (s n)) ≡ s n
  restored accepted n = elim (Bool-cases (str_eq (table_of o) n)) [
    | inl p ↦
        rw (same, p)
          (subst (λ m. on_columns back (on_columns o (s m)) ≡ s m) ((eq_iff (table_of o) n).0 p)
            (inverse (s (table_of o)) accepted).1)
    | inr p ↦ rw (same, p) refl
  ]

  taken_back : {t : Catalogue} → execute o s ≡ some t → execute back t ≡ some s
  unfolding execute
  taken_back h =
      let (accepted, is_t) = executed o s h in
      subst (λ x. execute back x ≡ some s) is_t
        (rw (accepted_back accepted) (ap some (fun_ext (restored accepted))))

last_named : (c : Column) (l : List Column) → any_of (is_named c.name) (l ++ c ∷ []) ≡ true
unfolding any_of
last_named c [] = rw (eq_refl c.name)
last_named c (d ∷ l) = ground (arith, last_named c l)

last_removed :
    (c : Column) (l : List Column)
    → any_of (is_named c.name) l ≡ false
    → select (λ d. not (is_named c.name d)) (l ++ c ∷ []) ≡ l
unfolding select any_of
last_removed c [] h = rw (eq_refl c.name)
last_removed c (d ∷ l) h = ground (arith, last_removed c l)

renamed_back :
    (old new : String) (c : Column)
    → str_eq c.name new ≡ false
    → renamed new old (renamed old new c) ≡ c
renamed_back old new c other = elim (Bool-cases (str_eq c.name old)) [
  | inl p ↦ rw (p, eq_refl new) (restored ((eq_iff c.name old).0 p))
  | inr p ↦ rw (p, other) refl
]
  where
    restored : c.name ≡ old → record c { name = old } ≡ c
    restored q = ap (λ n. record c { name = n }) (sym q)

map_back :
    (old new : String) (l : List Column)
    → any_of (is_named new) l ≡ false
    → map (renamed new old) (map (renamed old new) l) ≡ l
unfolding any_of
map_back old new [] h = refl
map_back old new (c ∷ l) h = elim (Bool-cases (str_eq c.name new)) [
  | inl p ↦ absurd (ground (arith, rw p at h))
  | inr p ↦ ap₂ (λ x y. x ∷ y) (renamed_back old new c p) (map_back old new l (rw p at h))
]

new_named :
    (old new : String) (l : List Column)
    → any_of (is_named old) l ≡ true
    → any_of (is_named new) (map (renamed old new) l) ≡ true
unfolding any_of
new_named old new [] h = absurd (ground arith)
new_named old new (c ∷ l) h = elim (Bool-cases (str_eq c.name old)) [
  | inl p ↦ rw (p, eq_refl new) refl
  | inr p ↦ let rest = new_named old new l (rw p at h) in ground (arith, rest, p)
]

none_old :
    (old new : String) (l : List Column)
    → str_eq new old ≡ false
    → any_of (is_named old) (map (renamed old new) l) ≡ false
unfolding any_of
none_old old new [] h = refl
none_old old new (c ∷ l) h = elim (Bool-cases (str_eq c.name old)) [
  | inl p ↦ rw (p, h) (none_old old new l h)
  | inr p ↦ rw (p, p) (none_old old new l h)
]

apart :
    (old new : String) (l : List Column)
    → any_of (is_named old) l ≡ true
    → any_of (is_named new) l ≡ false
    → str_eq new old ≡ false
apart old new l h k = elim (Bool-cases (str_eq new old)) [
  | inl p ↦
      let same : any_of (is_named old) l ≡ false =
        subst (λ n. any_of (is_named n) l ≡ false) ((eq_iff new old).0 p) k in
      absurd (ground arith)
  | inr p ↦ p
]

created_inverse :
    (n : String) (columns : List Column) (constraints : List (String × List String))
    (l : Option (List Column))
    → accepts (create_table n columns constraints) l ≡ true
    → (accepts (drop_table n) (some columns) ≡ true) × (none ≡ l)
unfolding accepts
created_inverse n columns constraints none h = (refl, refl)
created_inverse n columns constraints (some l) h = absurd (ground arith)

added_inverse :
    (n : String) (c : Column) (l : Option (List Column))
    → accepts (add_column n c) l ≡ true
    → (accepts (drop_column n c.name) (on_columns (add_column n c) l) ≡ true)
      × (on_columns (drop_column n c.name) (on_columns (add_column n c) l) ≡ l)
unfolding accepts
added_inverse n c none h = absurd (ground arith)
added_inverse n c (some l) h = (last_named c l, ap some (last_removed c l (ground (arith, h))))

renamed_inverse :
    (n old new : String) (l : Option (List Column))
    → accepts (rename_column n old new) l ≡ true
    → (accepts (rename_column n new old) (on_columns (rename_column n old new) l) ≡ true)
      × (on_columns (rename_column n new old) (on_columns (rename_column n old new) l) ≡ l)
unfolding accepts
renamed_inverse n old new none h = absurd (ground arith)
renamed_inverse n old new (some l) h =
    let p : any_of (is_named old) l ≡ true = ground (arith, h) in
    let q : any_of (is_named new) l ≡ false = ground (arith, h) in
    (
      rw (new_named old new l p, none_old old new l (apart old new l p q)) refl,
      ap some (map_back old new l q),
    )

-- An index changes no columns.
indexed_same :
    (i n : String) (columns : List String) (unique : Bool) {s t : Catalogue}
    → execute (create_index i n columns unique) s ≡ some t
    → t ≡ s
indexed_same i n columns unique {s} h =
    sym (executed (create_index i n columns unique) s h).1 ∙ fun_ext still
  where
    still : (m : String) → effect m (create_index i n columns unique) (s m) ≡ s m
    still m = ground arith

catalogue-Reversible : Reversible catalogue
catalogue-Reversible = record {
  drop_created = λ n columns constraints {s} h.
      taken_back (create_table n columns constraints) (drop_table n) s refl
        (created_inverse n columns constraints) h;
  drop_indexed =
      λ i n columns unique h. ap (execute (drop_table n)) (indexed_same i n columns unique h);
  drop_added =
      λ n c {s} h. taken_back (add_column n c) (drop_column n c.name) s refl (added_inverse n c) h;
  rename_back = λ n old new {s} h.
      taken_back (rename_column n old new) (rename_column n new old) s refl
        (renamed_inverse n old new) h;
}

-- What the three upgrades make of an empty catalogue.
migrated : (t : Catalogue) × (run catalogue (upgrades all_revisions) nothing ≡ some t)
unfolding execute accepts any_of select
migrated = (_, refl)

downgrades-upgrades_example : run catalogue (downgrades all_revisions) migrated.0 ≡ some nothing
downgrades-upgrades_example =
    downgrades-upgrades catalogue catalogue-Reversible all_revisions nothing migrated.1

upgrades-model_columns_example :
    (columns : List Column) × (migrated.0 (tablename transfer) ≡ some columns)
    × Perm (map without_default columns) (model_columns transfer)
upgrades-model_columns_example =
    upgrades-model_columns catalogue catalogue-Reads nothing migrated.1 transfer
