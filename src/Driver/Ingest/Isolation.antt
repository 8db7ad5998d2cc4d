-- ===== src/Driver/Ingest/Isolation.antt =====
-- driver/quack/bulk_ingest.go: an ingest and the transaction of its connection.
use adbc_driver_quack.Base.{
  ℕ, Option-cases, none, some, ◌⊎◌, ◌+◌, ◌%◌, ◌^◌, ◌≡◌, refl, Bool, Bool-cases, Result-cases,
  Option, List, [], ◌∷◌, inl, inr, same_string, arith,
}
use adbc_driver_quack.Driver.Connection.{TransportError, AdbcError, Exec}
use adbc_driver_quack.Driver.Ingest.Arrow.{Field, ArrowRecord}
use adbc_driver_quack.Driver.Ingest.Chunk.{chunk_from_record}
use adbc_driver_quack.Driver.Ingest.Execute.{
  Bound, ddl_schema, mode_of, ddl_of, run_ddl, prepare_ingest_target, pump_records, pump_stream,
  Stream, pump_all, execute_ingest,
}
use adbc_driver_quack.Driver.Statement.{Statement, IngestNames}
use adbc_driver_quack.Driver.Transactions.{Server, Keeps, neither}
use adbc_driver_quack.Message.Vector.Types.{DataChunk}

module _ {S Q : Type 0} (exec : Exec S) (server : Server S exec)
    (append : List ℕ → List ℕ → DataChunk Q → S → Option TransportError × S)
    (names : IngestNames) where
  -- The server takes no CREATE TABLE for the begin or the end of a transaction, and an append neither begins nor ends a transaction.
  pub record Appends : Type 0 where
    pub append_keeps :
        (schema table : List ℕ) (chunk : DataChunk Q) (s : S)
        → server.has_tx (append schema table chunk s).1 ≡ server.has_tx s
    pub ddl_effect :
        (fields : List Field) (t : Statement) (ddl : List ℕ)
        → ddl_of exec append names fields t ≡ inr ddl
        → server.effect ddl ≡ neither

  run_ddl_keeps :
      (creating : Bool) (ddl : List ℕ) (s : S)
      → server.effect ddl ≡ neither
      → server.has_tx (run_ddl exec append names creating ddl s).1 ≡ server.has_tx s
  unfolding run_ddl
  run_ddl_keeps creating ddl s plain = ground (arith, plain, server.tracks ddl s)

  prepare_keeps :
      (laws : Appends) (fields : List Field) (t : Statement) (s : S)
      → server.has_tx (prepare_ingest_target exec append names fields t s).1 ≡ server.has_tx s
  unfolding prepare_ingest_target
  prepare_keeps laws fields t s =
      elim (Bool-cases (same_string (mode_of names t.ingest_mode) names.mode_append)) [
        | inl on ↦ rw on refl
        | inr off ↦ elim (Result-cases (ddl_of exec append names fields t)) [
          | inl (e, eq) ↦ rw (off, eq) refl
          | inr (ddl, eq) ↦
              rw (off, eq)
                (run_ddl_keeps (same_string (mode_of names t.ingest_mode) names.mode_create) ddl s
                  (laws.ddl_effect fields t ddl eq))
        ]
      ]

  pump_keeps :
      (laws : Appends) (t : Statement) (recs : List ArrowRecord) (total : ℕ) (s : S)
      → server.has_tx (pump_records exec append names t recs total s).1 ≡ server.has_tx s
  unfolding pump_records
  pump_keeps laws t [] total s = refl
  pump_keeps laws t (rec ∷ recs) total s = elim (Result-cases (chunk_from_record {Q = Q} rec)) [
    | inl (e, eq) ↦ ground (arith, eq)
    | inr (c, eq) ↦
        let s1 = (append t.target_schema t.target_table c s).1 in
        ground (
          arith,
          eq,
          laws.append_keeps t.target_schema t.target_table c s,
          pump_keeps laws t recs ((total + rec.num_rows) % 2 ^ 64) s1,
        )
  ]

  stream_keeps :
      (laws : Appends) (t : Statement) (o : Option Stream) (total : ℕ) (s : S)
      → server.has_tx (pump_stream exec append names t o total s).1 ≡ server.has_tx s
  unfolding pump_stream
  stream_keeps laws t none total s = refl
  stream_keeps laws t (some stream) total s =
      ground (arith, pump_keeps laws t stream.records total s)

  batch_keeps :
      (laws : Appends) (t : Statement) (b : Bound) (s : S)
      → server.has_tx (pump_all exec append names t b s).1 ≡ server.has_tx s
  unfolding pump_all
  batch_keeps laws t b s = elim (Option-cases b.batch) [
    | inl e ↦ ground (arith, e, stream_keeps laws t b.stream 0 s)
    | inr (rec, e) ↦ go rec e (pump_records exec append names t (rec ∷ []) 0 s) refl
  ]
    where
      go :
          (rec : ArrowRecord)
          → b.batch ≡ some rec
          → (x : (AdbcError ⊎ ℕ) × S) → pump_records exec append names t (rec ∷ []) 0 s ≡ x
          → server.has_tx (pump_all exec append names t b s).1 ≡ server.has_tx s
      go rec e (inl err, s1) eq = ground (arith, e, eq, pump_keeps laws t (rec ∷ []) 0 s)
      go rec e (inr total, s1) eq =
          ground
            (arith, e, eq, pump_keeps laws t (rec ∷ []) 0 s, stream_keeps laws t b.stream total s1)

  -- An ingest neither begins nor ends a transaction, whatever it reports, when the appends do not.
  pub execute_ingest-Keeps :
      (laws : Appends) (b : Bound) → Keeps exec server (execute_ingest exec append names b)
  unfolding execute_ingest
  execute_ingest-Keeps laws b t s = ground (
    arith,
    prepare_keeps laws (ddl_schema b) t s,
    batch_keeps laws t b (prepare_ingest_target exec append names (ddl_schema b) t s).1,
  )
