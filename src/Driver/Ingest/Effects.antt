-- ===== src/Driver/Ingest/Effects.antt =====
-- driver/quack/bulk_ingest.go: what a successful `executeIngest` has sent to the server.
use adbc_driver_quack.Base.{
  ℕ, Option-cases, true, false, ◌+◌, ◌%◌, ◌^◌, ◌<◌, ◌≡◌, refl, ap, sym, ◌∙◌, Bool, Result-cases,
  Option, none, some, List, [], ◌∷◌, ◌++◌, map, append_assoc, append-nil, ◌⊎◌, inl, inr,
  same_string, arith,
}
use adbc_driver_quack.Driver.Connection.{TransportError, AdbcError, Sql, Exec}
use adbc_driver_quack.Driver.Ingest.Arrow.{Field, ArrowRecord}
use adbc_driver_quack.Driver.Ingest.Chunk.{chunk_from_record}
use adbc_driver_quack.Driver.Ingest.Execute.{
  Bound, Stream, is_bound, ddl_schema, mode_of, ddl_of, run_ddl, prepare_ingest_target,
  pump_records, pump_stream, pump_all, execute_ingest,
}
use adbc_driver_quack.Driver.Ingest.Modes.{
  IngestMode, create_mode, append_mode, replace_mode, create_append_mode, HasMode, Distinct,
  Columns, statement_of, Prepares, is_append, mode_of-is_append, ddl_of-statement_of,
}
use adbc_driver_quack.Driver.Statement.{Statement, IngestNames, clear_bound}
use adbc_driver_quack.Message.Vector.Types.{DataChunk}

-- What a server has carried out: a statement, or the append of a chunk to a table of a schema.
pub data Entry (Q : Type 0) : Type 0 where
  ran : Sql → Entry Q
  appended : List ℕ → List ℕ → DataChunk Q → Entry Q

-- The chunks of some records, in order.
abbrev pub Converted : {Q : Type 0} → List ArrowRecord → List (DataChunk Q) → Type 0
Converted [] [] = Unit {0}
Converted [] (c ∷ cs) = ⊥
Converted (rec ∷ recs) [] = ⊥
Converted (rec ∷ recs) (c ∷ cs) = (chunk_from_record rec ≡ inr c) × Converted recs cs

-- The rows of some records.
abbrev pub rows_of : List ArrowRecord → ℕ
rows_of [] = 0
rows_of (rec ∷ recs) = rec.num_rows + rows_of recs

Converted-append :
    {Q : Type 0} (recs recs' : List ArrowRecord) (cs cs' : List (DataChunk Q))
    → Converted recs cs
    → Converted recs' cs'
    → Converted (recs ++ recs') (cs ++ cs')
Converted-append [] recs' [] cs' h h' = h'
Converted-append [] recs' (c ∷ cs) cs' h h' = absurd h
Converted-append (rec ∷ recs) recs' [] cs' h h' = absurd h
Converted-append (rec ∷ recs) recs' (c ∷ cs) cs' (e, h) h' =
    (e, Converted-append recs recs' cs cs' h h')

rows_of-append :
    (recs recs' : List ArrowRecord) → rows_of (recs ++ recs') ≡ rows_of recs + rows_of recs'
rows_of-append [] recs' = omega arith
rows_of-append (rec ∷ recs) recs' = omega (arith, rows_of-append recs recs')

map-append : {A B : Type 0} (f : A → B) (xs ys : List A) → map f (xs ++ ys) ≡ map f xs ++ map f ys
map-append f [] ys = refl
map-append f (x ∷ xs) ys = ap (λ zs. f x ∷ zs) (map-append f xs ys)

-- The records that are bound: the batch, then those of the stream.
abbrev pub records_of : Bound → List ArrowRecord
records_of b =
    (elim b.batch [ none ↦ [] | some rec ↦ rec ∷ [] ])
    ++ (elim b.stream [ none ↦ [] | some stream ↦ stream.records ])

-- Their schema: that of the batch, and of the stream where there is no batch.
abbrev pub IsSchema : Bound → List Field → Type 0
IsSchema b fields =
    ((rec : ArrowRecord) × (b.batch ≡ some rec) × (fields ≡ rec.fields))
    ⊎ ((stream : Stream) × (b.batch ≡ none) × (b.stream ≡ some stream) × (fields ≡ stream.schema))

module _ {S Q : Type 0} (exec : Exec S)
    (append : List ℕ → List ℕ → DataChunk Q → S → Option TransportError × S) (names : IngestNames)
    (log : S → List (Entry Q)) where
  -- A session writes down what succeeds.
  pub record Logs : Type 0 where
    pub exec_logs :
        (q : Sql) (s s' : S) (counts : List ℕ)
        → exec q s ≡ (inr counts, s')
        → log s' ≡ log s ++ (ran q ∷ [])
    pub append_logs :
        (schema table : List ℕ) (chunk : DataChunk Q) (s s' : S)
        → append schema table chunk s ≡ (none, s')
        → log s' ≡ log s ++ (appended schema table chunk ∷ [])

  joined :
      (first rest : List (Entry Q)) (s s1 s' : S)
      → log s1 ≡ log s ++ first
      → log s' ≡ log s1 ++ rest
      → log s' ≡ log s ++ (first ++ rest)
  joined first rest s s1 s' e e' = e' ∙ ap (λ l. l ++ rest) e ∙ append_assoc (log s) first rest

  run_ddl_logs :
      (laws : Logs) (creating : Bool) (ddl : List ℕ) (s s' : S)
      → run_ddl exec append names creating ddl s ≡ (none, s')
      → log s' ≡ log s ++ (ran ddl ∷ [])
  unfolding run_ddl
  run_ddl_logs laws creating ddl s s' h = go (exec ddl s) refl
    where
      go : (r : (TransportError ⊎ List ℕ) × S) → exec ddl s ≡ r → log s' ≡ log s ++ (ran ddl ∷ [])
      go (inl e, s1) eq = absurd (ground (arith, h, eq))
      go (inr counts, s1) eq =
          laws.exec_logs ddl s s' counts (eq ∙ ap (λ x. (inr counts, x)) (ground (arith, h, eq)))

  create_logs :
      (laws : Logs) (distinct : Distinct names) (fields : List Field) (t : Statement) (s s' : S)
      (mode : IngestMode)
      → HasMode names t.ingest_mode mode
      → is_append mode ≡ false
      → prepare_ingest_target exec append names fields t s ≡ (none, s')
      → (cs : List (List ℕ)) × Columns fields cs
        × (log s' ≡ log s ++ (ran (statement_of mode t cs) ∷ []))
  unfolding prepare_ingest_target
  create_logs laws distinct fields t s s' mode has creates h =
      let off = mode_of-is_append names distinct t.ingest_mode mode has ∙ creates in
      elim (Result-cases (ddl_of exec append names fields t)) [
        | inl (e, eq) ↦ absurd (ground (arith, h, off, eq))
        | inr (ddl, eq) ↦
            let (cs, columns, same) =
              ddl_of-statement_of names distinct exec append mode t fields ddl has creates eq in
            (
              cs,
              columns,
              run_ddl_logs laws (same_string (mode_of names t.ingest_mode) names.mode_create) ddl s
                    s' (ground (arith, h, off, eq))
                  ∙ ap (λ q. log s ++ (ran q ∷ [])) same,
            )
      ]

  prepare_logs :
      (laws : Logs) (distinct : Distinct names) (fields : List Field) (t : Statement) (s s' : S)
      (mode : IngestMode)
      → HasMode names t.ingest_mode mode
      → prepare_ingest_target exec append names fields t s ≡ (none, s')
      → (qs : List Sql) × Prepares mode t fields qs × (log s' ≡ log s ++ map ran qs)
  unfolding prepare_ingest_target
  prepare_logs laws distinct fields t s s' append_mode has h =
      let on = mode_of-is_append names distinct t.ingest_mode append_mode has in
      ([], refl, ap log (ground (arith, h, on)) ∙ sym (append-nil (log s)))
  prepare_logs laws distinct fields t s s' create_mode has h =
      let (cs, columns, logged) = create_logs laws distinct fields t s s' create_mode has refl h in
      ((statement_of create_mode t cs ∷ []), (cs, columns, refl), logged)
  prepare_logs laws distinct fields t s s' replace_mode has h =
      let (cs, columns, logged) = create_logs laws distinct fields t s s' replace_mode has refl h in
      ((statement_of replace_mode t cs ∷ []), (cs, columns, refl), logged)
  prepare_logs laws distinct fields t s s' create_append_mode has h =
      let (cs, columns, logged) =
        create_logs laws distinct fields t s s' create_append_mode has refl h in
      ((statement_of create_append_mode t cs ∷ []), (cs, columns, refl), logged)

  -- The entries of some chunks.
  abbrev pub appends : Statement → List (DataChunk Q) → List (Entry Q)
  appends t cs = map (appended t.target_schema t.target_table) cs

  -- From one state to another the chunks of some records were appended and their rows counted.
  abbrev Pumped : Statement → List ArrowRecord → ℕ → ℕ → S → S → Type 0
  Pumped t recs total n s s' =
      (cs : List (DataChunk Q)) × Converted recs cs
      × (log s' ≡ log s ++ appends t cs)
      × (n ≡ (total + rows_of recs) % 2 ^ 64)

  pump_logs :
      (laws : Logs) (t : Statement) (recs : List ArrowRecord) (total n : ℕ) (s s' : S)
      → total < 2 ^ 64
      → pump_records exec append names t recs total s ≡ (inr n, s')
      → Pumped t recs total n s s'
  unfolding pump_records
  pump_logs laws t [] total n s s' lt h =
      ([], tt, ap log (ground (arith, h)) ∙ sym (append-nil (log s)), ground (arith, h, lt))
  pump_logs laws t (rec ∷ recs) total n s s' lt h =
      elim (Result-cases (chunk_from_record {Q = Q} rec)) [
        | inl (e, eq) ↦ absurd (ground (arith, h, eq))
        | inr (c, eq) ↦ go c eq (append t.target_schema t.target_table c s) refl (λ s1 h1.
            pump_logs laws t recs ((total + rec.num_rows) % 2 ^ 64) n s1 s' (omega arith) h1)
      ]
    where
      go :
          (c : DataChunk Q)
          → chunk_from_record rec ≡ inr c
          → (r : Option TransportError × S) → append t.target_schema t.target_table c s ≡ r
          → ((s1 : S)
              → pump_records exec append names t recs ((total + rec.num_rows) % 2 ^ 64) s1
                ≡ (inr n, s')
              → Pumped t recs ((total + rec.num_rows) % 2 ^ 64) n s1 s')
          → Pumped t (rec ∷ recs) total n s s'
      go c eq (some e, s1) sent ih = absurd (ground (arith, h, eq, sent))
      go c eq (none, s1) sent ih =
          let (cs, converted, logged, count) = ih s1 (ground (arith, h, eq, sent)) in
          (
            c ∷ cs,
            (eq, converted),
            joined (appended t.target_schema t.target_table c ∷ []) (appends t cs) s s1 s'
                (laws.append_logs t.target_schema t.target_table c s s1 sent) logged,
            count ∙ omega arith,
          )

  two_Pumped :
      (t : Statement) (recs recs' : List ArrowRecord) (total n n' : ℕ) (s s1 s' : S)
      → Pumped t recs total n s s1
      → Pumped t recs' n n' s1 s'
      → Pumped t (recs ++ recs') total n' s s'
  two_Pumped t recs recs' total n n' s s1 s' (cs, converted, logged, count)
        (cs', converted', logged', count') =
      (
        cs ++ cs',
        Converted-append recs recs' cs cs' converted converted',
        joined (appends t cs) (appends t cs') s s1 s' logged logged'
            ∙ ap (λ es. log s ++ es)
                (sym (map-append (appended t.target_schema t.target_table) cs cs')),
        count'
            ∙ ap (λ m. (m + rows_of recs') % 2 ^ 64) count
            ∙ omega (arith, rows_of-append recs recs'),
      )

  -- The records of a stream.
  abbrev stream_records : Option Stream → List ArrowRecord
  stream_records o = elim o [ none ↦ [] | some stream ↦ stream.records ]

  stream_logs :
      (laws : Logs) (t : Statement) (o : Option Stream) (total n : ℕ) (s s' : S)
      → total < 2 ^ 64
      → pump_stream exec append names t o total s ≡ (inr n, s')
      → Pumped t (stream_records o) total n s s'
  unfolding pump_stream
  stream_logs laws t none total n s s' lt h =
      ([], tt, ap log (ground (arith, h)) ∙ sym (append-nil (log s)), ground (arith, h, lt))
  stream_logs laws t (some stream) total n s s' lt h =
      pump_logs laws t stream.records total n s s' lt (ground (arith, h))

  batch_logs :
      (laws : Logs) (t : Statement) (batch : Option ArrowRecord) (stream : Option Stream) (n : ℕ)
      (s s' : S)
      → pump_all exec append names t (record { batch = batch; stream = stream }) s ≡ (inr n, s')
      → Pumped t (records_of (record { batch = batch; stream = stream })) 0 n s s'
  unfolding pump_all
  batch_logs laws t none stream n s s' h = stream_logs laws t stream 0 n s s' (omega arith) h
  batch_logs laws t (some rec) stream n s s' h =
      go (pump_records exec append names t (rec ∷ []) 0 s) refl
    where
      go :
          (x : (AdbcError ⊎ ℕ) × S)
          → pump_records exec append names t (rec ∷ []) 0 s ≡ x
          → Pumped t ((rec ∷ []) ++ stream_records stream) 0 n s s'
      go (inl e, s1) eq = absurd (ground (arith, h, eq))
      go (inr total, s1) eq =
          let first = pump_logs laws t (rec ∷ []) 0 total s s1 (omega arith) eq in
          two_Pumped t (rec ∷ []) (stream_records stream) 0 total n s s1 s' first
            (stream_logs laws t stream total n s1 s' (below first) (ground (arith, h, eq)))
        where
          below : Pumped t (rec ∷ []) 0 total s s1 → total < 2 ^ 64
          below (cs, converted, logged, count) = omega (arith, count)

  -- The schema that the table is made of.
  ddl_schema-IsSchema : (b : Bound) → is_bound b ≡ true → IsSchema b (ddl_schema b)
  ddl_schema-IsSchema b h = elim (Option-cases b.batch) [
    | inr (rec, e) ↦ inl (rec, e, ground (arith, e))
    | inl e ↦ elim (Option-cases b.stream) [
      | inr (stream, e') ↦ inr (stream, e, e', ground (arith, e, e'))
      | inl e' ↦ absurd (ground (arith, h, e, e'))
    ]
  ]

  -- On a session that writes down what it carries out, a successful ingest has sent what its mode stands
  -- for, and then appended the chunk of each bound record, the batch before the records of the stream, in
  -- their order and each once; it reports the number of their rows, modulo 2 ^ 64, and the statement has
  -- nothing bound any more. A mode stands for one statement, CREATE TABLE, CREATE OR REPLACE TABLE or
  -- CREATE TABLE IF NOT EXISTS, with TEMPORARY where that is set, for the target table with the bound
  -- columns; no mode is the mode to create, and to append no statement is sent. The four names of the
  -- modes in the package adbc are different.
  pub execute_ingest_logs :
      (laws : Logs) (distinct : Distinct names) (b : Bound) (t t' : Statement) (s s' : S) (n : ℕ)
      (mode : IngestMode)
      → HasMode names t.ingest_mode mode
      → execute_ingest exec append names b t s ≡ (inr n, (t', s'))
      → (fields : List Field) × (qs : List Sql) × (cs : List (DataChunk Q)) × IsSchema b fields
        × Prepares mode t fields qs
        × Converted (records_of b) cs
        × (log s' ≡ log s ++ (map ran qs ++ appends t cs))
        × (n ≡ rows_of (records_of b) % 2 ^ 64)
        × (t' ≡ clear_bound t)
  unfolding execute_ingest
  execute_ingest_logs laws distinct b t t' s s' n mode has h =
      go (prepare_ingest_target exec append names (ddl_schema b) t s) refl
    where
      bound : is_bound b ≡ true
      bound = ground (arith, h)

      go :
          (r : Option AdbcError × S)
          → prepare_ingest_target exec append names (ddl_schema b) t s ≡ r
          → (fields : List Field) × (qs : List Sql) × (cs : List (DataChunk Q)) × IsSchema b fields
            × Prepares mode t fields qs
            × Converted (records_of b) cs
            × (log s' ≡ log s ++ (map ran qs ++ appends t cs))
            × (n ≡ rows_of (records_of b) % 2 ^ 64)
            × (t' ≡ clear_bound t)
      go (some e, s1) eq = absurd (ground (arith, h, eq))
      go (none, s1) eq =
          let pumped : pump_all exec append names t b s1 ≡ (inr n, s') = ground (arith, h, eq) in
          let (qs, prepared, logged) =
            prepare_logs laws distinct (ddl_schema b) t s s1 mode has eq in
          let (cs, converted, logged', count) = batch_logs laws t b.batch b.stream n s1 s' pumped in
          (
            ddl_schema b,
            qs,
            cs,
            ddl_schema-IsSchema b bound,
            prepared,
            converted,
            joined (map ran qs) (appends t cs) s s1 s' logged logged',
            count ∙ omega arith,
            ground (arith, h, eq),
          )
