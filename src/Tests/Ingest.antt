-- ===== src/Tests/Ingest.antt =====
-- driver/quack/bulk_ingest.go at a concrete record.
use adbc_driver_quack.Base.{
  ℕ, ◌%◌, ◌^◌, ◌≡◌, refl, ap, sym, true, false, Option, some, none, List, map, same_string_apart,
  inl, [], ◌∷◌, ◌++◌, inr, arith,
}
use adbc_driver_quack.Base.Text.{bytes}
use adbc_driver_quack.Driver.Connection.{TransportError, Exec}
use adbc_driver_quack.Driver.Ingest.Arrow.{
  ArrowRecord, Field, ArrowArray, primitive, primitives, int32, duckdb_type_for_arrow,
  logical_type_for_arrow, count_nulls, null_flags,
}
use adbc_driver_quack.Driver.Ingest.Chunk.{chunk_from_record, decoded_vector_for_arrow, first_rows}
use adbc_driver_quack.Driver.Ingest.Effects.{
  Entry, ran, appended, Logs, Converted, rows_of, appends, records_of, IsSchema,
  execute_ingest_logs,
}
use adbc_driver_quack.Driver.Ingest.Modes.{Distinct, Prepares, create_mode}
use adbc_driver_quack.Driver.Ingest.Execute.{
  Bound, execute_ingest, prepare_ingest_target, mode_of, ddl_of, run_ddl, pump_all, pump_stream,
  pump_records,
}
use adbc_driver_quack.Driver.Ingest.Rows.{object_at, decoded_vector_for_arrow-rows}
use adbc_driver_quack.Driver.Ingest.Table.{build_create_table_sql}
use adbc_driver_quack.Message.Validity.{validity_set_null, validity_all_valid}
use adbc_driver_quack.Driver.Statement.{Statement, IngestNames, clear_bound}
use adbc_driver_quack.Message.Vector.Types.{DataChunk, DecodedVector, get_object}
use adbc_driver_quack.QuackType.Types.{logical_type, nil_info}

-- A session that writes down what it is told.
abbrev Log : Type 0
Log = List (Entry ℕ)

abbrev run : Exec Log
run q s = (inr [], s ++ (ran q ∷ []))

abbrev append : List ℕ → List ℕ → DataChunk ℕ → Log → Option TransportError × Log
append schema table chunk s = (none, s ++ (appended schema table chunk ∷ []))

abbrev names : IngestNames
names = record {
  key_target_table = bytes "table";
  key_target_schema = bytes "schema";
  key_mode = bytes "mode";
  key_temporary = bytes "temporary";
  mode_create = bytes "create";
  mode_append = bytes "append";
  mode_replace = bytes "replace";
  mode_create_append = bytes "create_append";
}

abbrev same_log : Log → Log
same_log s = s

writes : Logs run append names same_log
writes = record {
  exec_logs = λ q s s' counts h. sym (ap (λ r. r.1) h);
  append_logs = λ schema table chunk s s' h. sym (ap (λ r. r.1) h);
}

-- One column with a null in its second row.
abbrev numbers : ArrowArray
numbers = primitives int32 (some 7 ∷ (none ∷ []))

abbrev two_rows : ArrowRecord
two_rows = record {
  fields = record { name = bytes "n"; type = primitive int32; nullable = true } ∷ [];
  columns = numbers ∷ [];
  num_rows = 2;
}

abbrev bound : Bound
bound = record { batch = some two_rows; stream = none }

abbrev statement : Statement
statement = record {
  sql = [];
  closed = false;
  target_table = bytes "t";
  target_schema = [];
  ingest_mode = [];
  ingest_temporary = false;
  has_bound = true;
  has_bound_stream = false;
}

abbrev log_after : Log
log_after = (execute_ingest run append names bound statement []).1.1

ingests :
    execute_ingest run append names bound statement [] ≡ (inr 2, (clear_bound statement, log_after))
unfolding execute_ingest prepare_ingest_target mode_of ddl_of build_create_table_sql
    duckdb_type_for_arrow run_ddl pump_all pump_stream pump_records chunk_from_record
    logical_type_for_arrow decoded_vector_for_arrow count_nulls first_rows null_flags
    validity_set_null validity_all_valid
ingests = refl

names-Distinct : Distinct names
names-Distinct = record {
  create_append_differ = same_string_apart _ _ refl;
  create_replace_differ = same_string_apart _ _ refl;
  create_both_differ = same_string_apart _ _ refl;
  append_replace_differ = same_string_apart _ _ refl;
  append_both_differ = same_string_apart _ _ refl;
  replace_both_differ = same_string_apart _ _ refl;
}

execute_ingest_logs_example :
    (fields : List Field) × (qs : List (List ℕ)) × (cs : List (DataChunk ℕ)) × IsSchema bound fields
    × Prepares create_mode statement fields qs
    × Converted (records_of bound) cs
    × (log_after ≡ map ran qs ++ appends run append names same_log statement cs)
    × (2 ≡ rows_of (records_of bound) % 2 ^ 64)
    × (clear_bound statement ≡ clear_bound statement)
execute_ingest_logs_example =
    execute_ingest_logs run append names same_log writes names-Distinct bound statement
      (clear_bound statement) [] log_after 2 create_mode (inl refl) ingests

decoded_vector_for_arrow-rows_example :
    (v : DecodedVector ℕ) × (decoded_vector_for_arrow
        (bytes "n")
        (logical_type 13 nil_info)
        numbers
        2
      ≡ inr v)
    × (get_object v 1 ≡ object_at numbers 1)
unfolding null_flags
decoded_vector_for_arrow-rows_example =
    decoded_vector_for_arrow-rows (bytes "n") (logical_type 13 nil_info) numbers 2 1 refl refl
      (omega arith) (omega arith)
