-- ===== src/Driver/Ingest/Modes.antt =====
-- driver/quack/bulk_ingest.go: the statements that the modes of an ingest stand for.
use adbc_driver_quack.Base.{
  ℕ, ◌≡◌, ◌≢◌, refl, ap, sym, ◌∙◌, Bool, true, false, Bool-cases, Result-cases, Option-cases,
  Option, some, List, [], ◌∷◌, ◌++◌, append_assoc, append-nil, ◌⊎◌, inl, inr, if◌then◌else◌,
  is_empty, same_string, same_string_self, same_string_only, not, arith,
}
use adbc_driver_quack.Base.Text.{bytes}
use adbc_driver_quack.Driver.Connection.{Sql, Exec, TransportError}
use adbc_driver_quack.Driver.Ingest.Arrow.{Field, duckdb_type_for_arrow}
use adbc_driver_quack.Driver.Ingest.Execute.{mode_of, ddl_of}
use adbc_driver_quack.Driver.Ingest.Table.{build_create_table_sql, columns_sql, column_sql}
use adbc_driver_quack.Driver.Params.{quote_ident}
use adbc_driver_quack.Driver.Statement.{Statement, IngestNames}
use adbc_driver_quack.Message.Vector.Types.{DataChunk}

-- The modes of ADBC.
pub data IngestMode : Type 0 where
  create_mode : IngestMode
  append_mode : IngestMode
  replace_mode : IngestMode
  create_append_mode : IngestMode

-- The mode that the option names; with none, the table is created.
abbrev pub HasMode : IngestNames → List ℕ → IngestMode → Type 0
HasMode names s create_mode = (s ≡ []) ⊎ (s ≡ names.mode_create)
HasMode names s append_mode = (s ≡ names.mode_append) × (s ≢ [])
HasMode names s replace_mode = (s ≡ names.mode_replace) × (s ≢ [])
HasMode names s create_append_mode = (s ≡ names.mode_create_append) × (s ≢ [])

-- The four names of the package adbc are different.
pub record Distinct (names : IngestNames) : Type 0 where
  pub create_append_differ : names.mode_create ≢ names.mode_append
  pub create_replace_differ : names.mode_create ≢ names.mode_replace
  pub create_both_differ : names.mode_create ≢ names.mode_create_append
  pub append_replace_differ : names.mode_append ≢ names.mode_replace
  pub append_both_differ : names.mode_append ≢ names.mode_create_append
  pub replace_both_differ : names.mode_replace ≢ names.mode_create_append

-- `CREATE TABLE` as each mode wants it, for a table that is temporary or not.
abbrev pub opening : IngestMode → Bool → List ℕ
opening create_mode false = bytes "CREATE TABLE "
opening create_mode true = bytes "CREATE TEMPORARY TABLE "
opening replace_mode false = bytes "CREATE OR REPLACE TABLE "
opening replace_mode true = bytes "CREATE OR REPLACE TEMPORARY TABLE "
opening create_append_mode false = bytes "CREATE TABLE IF NOT EXISTS "
opening create_append_mode true = bytes "CREATE TEMPORARY TABLE IF NOT EXISTS "
opening append_mode temporary = []

-- The table, in its schema if one is named.
abbrev pub target : List ℕ → List ℕ → List ℕ
target [] table = quote_ident table
target (c ∷ s) table = quote_ident (c ∷ s) ++ (bytes "." ++ quote_ident table)

-- A column: its quoted name, its type, and whether it may be null.
abbrev pub Column : Field → List ℕ → Type 0
Column f text =
    (type : List ℕ) × (duckdb_type_for_arrow f.type ≡ some type)
    × (text
        ≡ quote_ident f.name
          ++ (bytes " " ++ (type ++ (if f.nullable then [] else bytes " NOT NULL"))))

abbrev pub Columns : List Field → List (List ℕ) → Type 0
Columns [] [] = Unit {0}
Columns [] (c ∷ cs) = ⊥
Columns (f ∷ fields) [] = ⊥
Columns (f ∷ fields) (c ∷ cs) = Column f c × Columns fields cs

-- Texts with commas between them.
abbrev pub listed : List (List ℕ) → List ℕ
listed [] = []
listed (c ∷ []) = c
listed (c ∷ (d ∷ cs)) = c ++ (bytes ", " ++ listed (d ∷ cs))

-- The statement of a mode that creates a table.
abbrev pub statement_of : IngestMode → Statement → List (List ℕ) → List ℕ
statement_of mode t cs =
    opening mode t.ingest_temporary
    ++ (target t.target_schema t.target_table ++ (bytes " (" ++ (listed cs ++ bytes ")")))

-- What a mode sends for the table: nothing to append to it, else one statement.
abbrev pub Prepares : IngestMode → Statement → List Field → List Sql → Type 0
Prepares append_mode t fields qs = qs ≡ []
Prepares mode t fields qs =
    (cs : List (List ℕ)) × Columns fields cs × (qs ≡ statement_of mode t cs ∷ [])

-- The columns behind the first one.
abbrev behind : List (List ℕ) → List ℕ
behind [] = []
behind (c ∷ cs) = bytes ", " ++ (c ++ behind cs)

listed-behind : (c : List ℕ) (cs : List (List ℕ)) → listed (c ∷ cs) ≡ c ++ behind cs
listed-behind c [] = sym (append-nil c)
listed-behind c (d ∷ cs) = ap (λ u. c ++ (bytes ", " ++ u)) (listed-behind d cs)

column_lem :
    (f : Field) (type : List ℕ)
    → duckdb_type_for_arrow f.type ≡ some type
    → Column f (column_sql f type)
unfolding column_sql
column_lem f type h = (type, h, ground arith)

-- What the loop writes, for the first column and for the others.
abbrev Written : Bool → List Field → List ℕ → Type 0
Written first fields text =
    (cs : List (List ℕ)) × Columns fields cs × (text ≡ (if first then listed cs else behind cs))

joined_column :
    (first : Bool) (c rest : List ℕ) (cs : List (List ℕ))
    → rest ≡ behind cs
    → (if first then [] else bytes ", ") ++ (c ++ rest)
      ≡ (if first then listed (c ∷ cs) else behind (c ∷ cs))
joined_column true c rest cs same = ap (λ u. c ++ u) same ∙ sym (listed-behind c cs)
joined_column false c rest cs same = ap (λ u. bytes ", " ++ (c ++ u)) same

columns_sql-Written :
    (first : Bool) (fields : List Field) (text : List ℕ)
    → columns_sql first fields ≡ inr text
    → Written first fields text
unfolding columns_sql
columns_sql-Written first [] text h = ([], tt, ground (arith, h))
columns_sql-Written first (f ∷ fields) text h = elim (Option-cases (duckdb_type_for_arrow f.type)) [
  | inl none_such ↦ absurd (ground (arith, h, none_such))
  | inr (type, is) ↦ elim (Result-cases (columns_sql false fields)) [
    | inl (e, bad) ↦ absurd (ground (arith, h, is, bad))
    | inr (rest, eq) ↦
        let (cs, columns, same) = columns_sql-Written false fields rest eq in
        (
          column_sql f type ∷ cs,
          (column_lem f type is, columns),
          ground (arith, h, is, eq) ∙ joined_column first (column_sql f type) rest cs same,
        )
  ]
]

target_lem :
    (schema table rest : List ℕ)
    → (if not (is_empty schema) then quote_ident schema ++ (46 ∷ []) else [])
        ++ (quote_ident table ++ rest)
      ≡ target schema table ++ rest
target_lem [] table rest = refl
target_lem (c ∷ s) table rest =
    append_assoc (quote_ident (c ∷ s)) (46 ∷ []) (quote_ident table ++ rest)
    ∙ sym (append_assoc (quote_ident (c ∷ s)) (46 ∷ quote_ident table) rest)

-- The tests of `prepareIngestTarget` on the mode.
abbrev pub is_append : IngestMode → Bool
is_append append_mode = true
is_append _ = false

abbrev is_replace : IngestMode → Bool
is_replace replace_mode = true
is_replace _ = false

abbrev is_create_append : IngestMode → Bool
is_create_append create_append_mode = true
is_create_append _ = false

opening_lem :
    (mode : IngestMode) (temporary : Bool) (rest : List ℕ)
    → is_append mode ≡ false
    → bytes "CREATE "
        ++ ((if is_replace mode then bytes "OR REPLACE " else [])
            ++ ((if temporary then bytes "TEMPORARY " else [])
                ++ (bytes "TABLE "
                    ++ ((if is_create_append mode then bytes "IF NOT EXISTS " else []) ++ rest))))
      ≡ opening mode temporary ++ rest
opening_lem create_mode true rest h = refl
opening_lem create_mode false rest h = refl
opening_lem append_mode temporary rest h = absurd (ground (arith, h))
opening_lem replace_mode true rest h = refl
opening_lem replace_mode false rest h = refl
opening_lem create_append_mode true rest h = refl
opening_lem create_append_mode false rest h = refl

build_lem :
    (mode : IngestMode) (t : Statement) (fields : List Field) (ddl : List ℕ)
    → is_append mode ≡ false
    → build_create_table_sql t.target_schema t.target_table fields
        (is_create_append mode)
        (is_replace mode)
        t.ingest_temporary
      ≡ inr ddl
    → (cs : List (List ℕ)) × Columns fields cs × (ddl ≡ statement_of mode t cs)
unfolding build_create_table_sql
build_lem mode t fields ddl creates h = elim (Bool-cases (is_empty t.target_table)) [
  | inl no_name ↦ absurd (ground (arith, h, no_name))
  | inr named ↦ elim (Result-cases (columns_sql true fields)) [
    | inl (e, bad) ↦ absurd (ground (arith, h, named, bad))
    | inr (text, eq) ↦
        let (cs, columns, same) = columns_sql-Written true fields text eq in
        (
          cs,
          columns,
          ground (arith, h, named, eq)
              ∙ opening_lem mode t.ingest_temporary _ creates
              ∙ ap (λ u. opening mode t.ingest_temporary ++ u)
                  (target_lem t.target_schema t.target_table (bytes " (" ++ (text ++ bytes ")")))
              ∙ ap
                  (λ u.
                    opening mode t.ingest_temporary
                    ++ (target t.target_schema t.target_table ++ (bytes " (" ++ (u ++ bytes ")"))))
                  same,
        )
  ]
]

-- The name of a mode.
abbrev name_of : IngestNames → IngestMode → List ℕ
name_of names create_mode = names.mode_create
name_of names append_mode = names.mode_append
name_of names replace_mode = names.mode_replace
name_of names create_append_mode = names.mode_create_append

mode_of-not_empty : (names : IngestNames) (s : List ℕ) → s ≢ [] → mode_of names s ≡ s
unfolding mode_of
mode_of-not_empty names [] h = absurd (h refl)
mode_of-not_empty names (c ∷ s) h = refl

mode_of-name_of :
    (names : IngestNames) (s : List ℕ) (mode : IngestMode)
    → HasMode names s mode
    → mode_of names s ≡ name_of names mode
unfolding mode_of
mode_of-name_of names s create_mode (inl none_set) = rw none_set refl
mode_of-name_of names [] create_mode (inr h) = refl
mode_of-name_of names (c ∷ s) create_mode (inr h) = h
mode_of-name_of names s append_mode (h, full) = mode_of-not_empty names s full ∙ h
mode_of-name_of names s replace_mode (h, full) = mode_of-not_empty names s full ∙ h
mode_of-name_of names s create_append_mode (h, full) = mode_of-not_empty names s full ∙ h

differ : (s t : List ℕ) → s ≢ t → same_string s t ≡ false
differ s t h = elim (Bool-cases (same_string s t)) [
  | inl e ↦ absurd (h (same_string_only s t e))
  | inr e ↦ e
]

module _ (names : IngestNames) (d : Distinct names) where
  is_append_lem :
      (mode : IngestMode) → same_string (name_of names mode) names.mode_append ≡ is_append mode
  is_append_lem create_mode = differ _ _ d.create_append_differ
  is_append_lem append_mode = same_string_self names.mode_append
  is_append_lem replace_mode = differ _ _ λ e. d.append_replace_differ (sym e)
  is_append_lem create_append_mode = differ _ _ λ e. d.append_both_differ (sym e)

  is_replace_lem :
      (mode : IngestMode) → same_string (name_of names mode) names.mode_replace ≡ is_replace mode
  is_replace_lem create_mode = differ _ _ d.create_replace_differ
  is_replace_lem append_mode = differ _ _ d.append_replace_differ
  is_replace_lem replace_mode = same_string_self names.mode_replace
  is_replace_lem create_append_mode = differ _ _ λ e. d.replace_both_differ (sym e)

  is_create_append_lem :
      (mode : IngestMode)
      → same_string (name_of names mode) names.mode_create_append ≡ is_create_append mode
  is_create_append_lem create_mode = differ _ _ d.create_both_differ
  is_create_append_lem append_mode = differ _ _ d.append_both_differ
  is_create_append_lem replace_mode = differ _ _ d.replace_both_differ
  is_create_append_lem create_append_mode = same_string_self names.mode_create_append

  -- The test for `append`.
  pub mode_of-is_append :
      (s : List ℕ) (mode : IngestMode)
      → HasMode names s mode
      → same_string (mode_of names s) names.mode_append ≡ is_append mode
  mode_of-is_append s mode has =
      ap (λ n. same_string n names.mode_append) (mode_of-name_of names s mode has)
      ∙ is_append_lem mode

  -- The statement that `prepareIngestTarget` makes.
  pub ddl_of-statement_of :
      {S Q : Type 0} (exec : Exec S)
      (append : List ℕ → List ℕ → DataChunk Q → S → Option TransportError × S) (mode : IngestMode)
      (t : Statement) (fields : List Field) (ddl : List ℕ)
      → HasMode names t.ingest_mode mode
      → is_append mode ≡ false
      → ddl_of exec append names fields t ≡ inr ddl
      → (cs : List (List ℕ)) × Columns fields cs × (ddl ≡ statement_of mode t cs)
  unfolding ddl_of
  ddl_of-statement_of exec append mode t fields ddl has creates h =
      let name = mode_of-name_of names t.ingest_mode mode has in
      build_lem mode t fields ddl creates (
        ap
          (λ b.
            build_create_table_sql t.target_schema t.target_table fields b (is_replace mode)
              t.ingest_temporary)
          (sym (ap (λ n. same_string n names.mode_create_append) name ∙ is_create_append_lem mode))
        ∙ ap
            (λ b.
              build_create_table_sql t.target_schema t.target_table fields
                (same_string (mode_of names t.ingest_mode) names.mode_create_append) b
                t.ingest_temporary)
            (sym (ap (λ n. same_string n names.mode_replace) name ∙ is_replace_lem mode))
        ∙ h)
