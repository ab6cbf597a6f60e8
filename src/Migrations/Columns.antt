-- ===== src/Migrations/Columns.antt =====
-- SQLAlchemy's columns and Alembic's operations, as far as alembic/versions/ calls them.
use ai_spec_driven_developme.Prelude.{
  ℕ, String, Bool, true, false, Option, none, some, List, [], ◌∷◌, ◌++◌, str_eq, not, select, map,
  if◌then◌else◌,
}

pub data ColumnType : Type 0 where
  uuid text timestamp boolean small_integer jsonb array_of_strings : ColumnType
  string char : (length : ℕ) → ColumnType
  numeric : (precision scale : ℕ) → ColumnType

pub record Column : Type 0 where
  pub name : String
  pub column_type : ColumnType
  pub nullable : Bool
  pub primary_key : Bool
  pub unique : Bool
  pub server_default : Option String
  pub foreign_key : Option String

-- sa.Column(name, column_type, nullable=False)
abbrev pub required : String → ColumnType → Column
required name column_type = record {
  name = name;
  column_type = column_type;
  nullable = false;
  primary_key = false;
  unique = false;
  server_default = none;
  foreign_key = none;
}

-- nullable=True
abbrev pub optional : String → ColumnType → Column
optional name column_type = record (required name column_type) { nullable = true }

-- primary_key=True
abbrev pub key : String → ColumnType → Column
key name column_type = record (required name column_type) { primary_key = true }

-- nullable=False, server_default=sa.text("now()")
abbrev pub now : String → Column
now name = record (required name timestamp) { server_default = some "now()" }

abbrev pub defaulted : String → ColumnType → String → Column
defaulted name column_type default = record (required name column_type) {
  server_default = some default;
}

abbrev pub unique_text : String → ℕ → Column
unique_text name length = record (required name (string length)) { unique = true }

pub data Operation : Type 0 where
  create_table :
      (table : String)
      → List Column
      → (unique_constraints : List (String × List String)) → Operation
  create_index : (index table : String) → (columns : List String) → (unique : Bool) → Operation
  add_column : (table : String) → Column → Operation
  drop_column : (table column : String) → Operation
  -- op.alter_column(table, column, new_column_name=new_name)
  rename_column : (table column new_name : String) → Operation
  drop_table : (table : String) → Operation

abbrev pub renamed : String → String → Column → Column
renamed old new c = if str_eq c.name old then record c { name = new } else c

abbrev pub is_named : String → Column → Bool
is_named name c = str_eq c.name name

-- What an operation that a database accepts does to the columns of the table that it names.
abbrev pub on_columns : Operation → Option (List Column) → Option (List Column)
on_columns (create_table n columns constraints) before = some columns
on_columns (drop_table n) before = none
on_columns (create_index i n columns unique) before = before
on_columns (add_column n c) none = none
on_columns (add_column n c) (some columns) = some (columns ++ c ∷ [])
on_columns (drop_column n k) none = none
on_columns (drop_column n k) (some columns) = some (select (λ c. not (is_named k c)) columns)
on_columns (rename_column n old new) none = none
on_columns (rename_column n old new) (some columns) = some (map (renamed old new) columns)

abbrev pub table_of : Operation → String
table_of (create_table n columns constraints) = n
table_of (drop_table n) = n
table_of (create_index i n columns unique) = n
table_of (add_column n c) = n
table_of (drop_column n k) = n
table_of (rename_column n old new) = n

-- And to the columns of a table `n`.
abbrev pub effect : String → Operation → Option (List Column) → Option (List Column)
effect n o before = if str_eq (table_of o) n then on_columns o before else before
