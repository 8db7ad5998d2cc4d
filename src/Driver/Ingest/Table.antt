-- ===== src/Driver/Ingest/Table.antt =====
-- driver/quack/bulk_ingest.go: the CREATE TABLE statement.
use adbc_driver_quack.Base.{
  ℕ, Bool, true, false, not, none, some, List, [], ◌∷◌, ◌++◌, ◌⊎◌, inl, inr, if◌then◌else◌,
  is_empty,
}
use adbc_driver_quack.Base.Text.{bytes}
use adbc_driver_quack.Driver.Ingest.Arrow.{Field, duckdb_type_for_arrow}
use adbc_driver_quack.Driver.Params.{quote_ident}

-- An empty table name, or a column of a type that SQL has no name for here.
pub data DdlError : Type 0 where
  no_target_table : DdlError
  unsupported_type : List ℕ → DdlError

-- One column.
unfoldable pub column_sql : Field → List ℕ → List ℕ
column_sql f col_type =
    quote_ident f.name ++ (32 ∷ (col_type ++ (if not f.nullable then bytes " NOT NULL" else [])))

-- The loop over `s.Fields()`, with `first` for `i == 0`.
unfoldable pub columns_sql : Bool → List Field → DdlError ⊎ List ℕ
columns_sql first [] = inr []
columns_sql first (f ∷ fields) =
    let rest = columns_sql false fields in
    elim (duckdb_type_for_arrow f.type) [
      | none ↦ inl (unsupported_type f.name)
      | some col_type ↦ elim rest [
        | inl e ↦ inl e
        | inr text ↦ inr ((if first then [] else bytes ", ") ++ (column_sql f col_type ++ text))
      ]
    ]

-- `buildCreateTableSQL`
unfoldable pub build_create_table_sql :
    List ℕ → List ℕ → List Field → Bool → Bool → Bool → DdlError ⊎ List ℕ
unfolding columns_sql
build_create_table_sql schema table fields if_not_exists or_replace temporary =
    if is_empty table then inl no_target_table else elim (columns_sql true fields) [
      | inl e ↦ inl e
      | inr columns ↦ inr (
          bytes "CREATE "
          ++ ((if or_replace then bytes "OR REPLACE " else [])
              ++ ((if temporary then bytes "TEMPORARY " else [])
                  ++ (bytes "TABLE "
                      ++ ((if if_not_exists then bytes "IF NOT EXISTS " else [])
                          ++ ((if not (is_empty schema)
                                then quote_ident schema ++ (46 ∷ [])
                                else [])
                              ++ (quote_ident table ++ (bytes " (" ++ (columns ++ bytes ")")))))))))
    ]
