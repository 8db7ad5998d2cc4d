-- ===== src/Driver/Ingest/Execute.antt =====
-- driver/quack/bulk_ingest.go: `executeIngest`. The session is a parameter, as for other statements, with
-- its `appendChunk`; a bound stream is the records that it yields and the error that ends it, if any.
use adbc_driver_quack.Base.{
  ℕ, ◌+◌, ◌%◌, ◌^◌, Bool, ◌&&◌, ◌||◌, not, Option, none, some, is_some, List, [], ◌∷◌, ◌⊎◌, inl,
  inr, if◌then◌else◌, is_empty, same_string,
}
use adbc_driver_quack.Base.Text.{bytes, contains, to_lower}
use adbc_driver_quack.Driver.Connection.{
  TransportError, server_error, other_error, AdbcError, invalid_state, invalid_argument, io,
  already_exists, other_kind, from_transport_error, Exec,
}
use adbc_driver_quack.Driver.Ingest.Arrow.{Field, ArrowRecord}
use adbc_driver_quack.Driver.Ingest.Chunk.{chunk_from_record}
use adbc_driver_quack.Driver.Ingest.Table.{DdlError, build_create_table_sql}
use adbc_driver_quack.Driver.Statement.{Statement, IngestNames, Run, clear_bound}
use adbc_driver_quack.Message.Vector.Types.{DataChunk}

-- `array.RecordReader`
pub record Stream : Type 0 where
  pub schema : List Field
  pub records : List ArrowRecord
  pub failure : Option (List ℕ)

-- `bound` and `boundStream` of the statement
pub record Bound : Type 0 where
  pub batch : Option ArrowRecord
  pub stream : Option Stream

abbrev pub is_bound : Bound → Bool
is_bound b = is_some b.batch || is_some b.stream

-- The schema for the table.
abbrev pub ddl_schema : Bound → List Field
ddl_schema b = elim b.batch [
  | some rec ↦ rec.fields
  | none ↦ elim b.stream [ some stream ↦ stream.schema | none ↦ [] ]
]

-- What a failed CREATE is reported as.
unfoldable pub create_error : Bool → TransportError → AdbcError
unfolding from_transport_error contains to_lower
create_error creating (server_error message) =
    if creating && contains (to_lower message) (bytes "already exists")
    then already_exists message
    else from_transport_error (server_error message)
create_error creating (other_error message) = from_transport_error (other_error message)

-- `mode`
unfoldable pub mode_of : IngestNames → List ℕ → List ℕ
mode_of names mode = if is_empty mode then names.mode_create else mode

module _ {S Q : Type 0} (exec : Exec S)
    (append : List ℕ → List ℕ → DataChunk Q → S → Option TransportError × S)
    (names : IngestNames) where
  -- The statement of the mode, and its run in `prepareIngestTarget`.
  unfoldable pub ddl_of : List Field → Statement → DdlError ⊎ List ℕ
  ddl_of fields t =
      let mode = mode_of names t.ingest_mode in
      build_create_table_sql t.target_schema t.target_table fields
        (same_string mode names.mode_create_append) (same_string mode names.mode_replace)
        t.ingest_temporary

  unfoldable pub run_ddl : Bool → List ℕ → S → Option AdbcError × S
  run_ddl creating ddl s =
      let (result, s') = exec ddl s in
      elim result [ inl e ↦ (some (create_error creating e), s') | inr counts ↦ (none, s') ]

  -- `prepareIngestTarget`
  unfoldable pub prepare_ingest_target : List Field → Statement → S → Option AdbcError × S
  prepare_ingest_target fields t s =
      let mode = mode_of names t.ingest_mode in
      if same_string mode names.mode_append then (none, s) else elim (ddl_of fields t) [
        | inl e ↦ (some invalid_argument, s)
        | inr ddl ↦ run_ddl (same_string mode names.mode_create) ddl s
      ]

  -- `pump` on each of some records.
  unfoldable pub pump_records : Statement → List ArrowRecord → ℕ → S → (AdbcError ⊎ ℕ) × S
  pump_records t [] total s = (inr total, s)
  pump_records t (rec ∷ recs) total s = elim (chunk_from_record rec) [
    | inl e ↦ (inl other_kind, s)
    | inr chunk ↦
        let (err, s') = append t.target_schema t.target_table chunk s in
        elim err [
          | some e ↦ (inl (from_transport_error e), s')
          | none ↦ pump_records t recs ((total + rec.num_rows) % 2 ^ 64) s'
        ]
  ]

  -- The loop over the stream and its error.
  unfoldable pub pump_stream : Statement → Option Stream → ℕ → S → (AdbcError ⊎ ℕ) × S
  pump_stream t none total s = (inr total, s)
  pump_stream t (some stream) total s =
      let (result, s') = pump_records t stream.records total s in
      elim result [
        | inl e ↦ (inl e, s')
        | inr total' ↦ elim stream.failure [
          | some message ↦ (inl (io message), s')
          | none ↦ (inr total', s')
        ]
      ]

  -- The batch, then the stream.
  unfoldable pub pump_all : Statement → Bound → S → (AdbcError ⊎ ℕ) × S
  pump_all t b s = elim b.batch [
    | none ↦ pump_stream t b.stream 0 s
    | some rec ↦
        let (result, s') = pump_records t (rec ∷ []) 0 s in
        elim result [ inl e ↦ (inl e, s') | inr total ↦ pump_stream t b.stream total s' ]
  ]

  -- `executeIngest`
  unfoldable pub execute_ingest : Bound → Run S ℕ
  execute_ingest b t s =
      if is_empty t.target_table
      then (inl invalid_state, (t, s))
      else if not (is_bound b)
      then (inl invalid_state, (t, s))
      else (let (err, s') = prepare_ingest_target (ddl_schema b) t s in
          elim err [
            | some e ↦ (inl e, (clear_bound t, s'))
            | none ↦ let (result, s'') = pump_all t b s' in (result, (clear_bound t, s''))
          ])
