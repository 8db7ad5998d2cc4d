-- ===== src/Driver/Statement.antt =====
-- driver/quack/driver.go: `statementImpl`, its options and the routes of its executions. The
-- bulk ingest and the bound executions, which run through the session, are parameters.
use adbc_driver_quack.Base.{
  same_string, ℕ, ◌+◌, ◌%◌, ◌^◌, Bool, true, false, ◌&&◌, ◌||◌, not, Option, none, some, List, [],
  ◌∷◌, if◌then◌else◌, ◌⊎◌, inl, inr, is_empty,
}
use adbc_driver_quack.Driver.Connection.{
  AdbcError, invalid_state, invalid_argument, from_transport_error, Exec, State, begin_tx_if_needed,
  OptionNames,
}

-- `statementImpl` without its connection: of the bound record and the bound stream, only whether
-- they are there.
pub record Statement : Type 0 where
  pub sql : List ℕ
  pub closed : Bool
  pub target_table : List ℕ
  pub target_schema : List ℕ
  pub ingest_mode : List ℕ
  pub ingest_temporary : Bool
  pub has_bound : Bool
  pub has_bound_stream : Bool

-- `NewStatement`
unfoldable pub new_statement : Statement
new_statement = record {
  sql = [];
  closed = false;
  target_table = [];
  target_schema = [];
  ingest_mode = [];
  ingest_temporary = false;
  has_bound = false;
  has_bound_stream = false;
}

-- `clearBound`
unfoldable pub clear_bound : Statement → Statement
clear_bound t = record t { has_bound = false; has_bound_stream = false }

-- `Close` of a statement
unfoldable pub close_statement : Statement → Statement
unfolding clear_bound
close_statement t = clear_bound (record t { closed = true })

-- `SetSqlQuery`, `Bind`, `BindStream`
unfoldable pub set_sql_query : List ℕ → Statement → Statement
set_sql_query sql t = record t { sql = sql }

unfoldable pub bind_batch : Statement → Statement
bind_batch t = record t { has_bound = true }

unfoldable pub bind_stream : Statement → Statement
bind_stream t = record t { has_bound_stream = true }

-- The option names of the package adbc for statements.
pub record IngestNames : Type 0 where
  pub key_target_table : List ℕ
  pub key_target_schema : List ℕ
  pub key_mode : List ℕ
  pub key_temporary : List ℕ
  pub mode_create : List ℕ
  pub mode_append : List ℕ
  pub mode_replace : List ℕ
  pub mode_create_append : List ℕ

-- `SetOption` of a statement
unfoldable pub set_statement_option :
    IngestNames → OptionNames → List ℕ → List ℕ → Statement → Option AdbcError × Statement
set_statement_option names values key value t =
    if same_string key names.key_target_table
    then (none, record t { target_table = value })
    else if same_string key names.key_target_schema
    then (none, record t { target_schema = value })
    else if same_string key names.key_mode
    then (if same_string value names.mode_create
          || same_string value names.mode_append
          || same_string value names.mode_replace
          || same_string value names.mode_create_append
        then (none, record t { ingest_mode = value })
        else (some invalid_argument, t))
    else if same_string key names.key_temporary
    then (if same_string value values.value_enabled
        then (none, record t { ingest_temporary = true })
        else if same_string value values.value_disabled
        then (none, record t { ingest_temporary = false })
        else (some invalid_argument, t))
    else (none, t)

-- `rows += int64(c.RowCount)` over the chunks
unfoldable pub sum_rows : List ℕ → ℕ
sum_rows [] = 0
sum_rows (n ∷ ns) = (n + sum_rows ns) % 2 ^ 64

-- A run of a statement on a session: a result or an error, the statement and the session after it.
abbrev pub Run : Type 0 → Type 0 → Type 0
Run S B = Statement → S → (AdbcError ⊎ B) × (Statement × S)

-- The same with the connection.
abbrev pub Execution : Type 0 → Type 0 → Type 0
Execution S B = Statement → State S → (AdbcError ⊎ B) × (Statement × State S)

module _ {S : Type 0} (exec : Exec S) where
  -- `if err := s.conn.beginTxIfNeeded(ctx); err != nil { return … }`, then `k` on the session.
  unfoldable pub after_begin : {B : Type 0} → Run S B → Execution S B
  after_begin k t x =
      let (err, (c, s)) = begin_tx_if_needed exec x in
      elim err [
        | some e ↦ (inl e, (t, (c, s)))
        | none ↦ let (result, (t', s')) = k t s in (result, (t', (c, s')))
      ]

  -- The call of `drainPrepared` at the end of `ExecuteUpdate`.
  unfoldable pub run_update : Run S ℕ
  unfolding sum_rows
  run_update t s =
      let (result, s') = exec t.sql s in
      elim result [
        | inl e ↦ (inl (from_transport_error e), (t, s'))
        | inr counts ↦ (inr (sum_rows counts), (t, s'))
      ]

  -- `ExecuteUpdate` behind `beginTxIfNeeded`, with `executeIngest` and `executeBoundUpdate`.
  unfoldable pub update_route : Run S ℕ → Run S ℕ → Run S ℕ
  unfolding run_update
  update_route execute_ingest execute_bound_update t s =
      if not (is_empty t.target_table) && (t.has_bound || t.has_bound_stream)
      then execute_ingest t s
      else if is_empty t.sql
      then (inl invalid_state, (t, s))
      else if t.has_bound || t.has_bound_stream
      then execute_bound_update t s
      else run_update t s

  -- `ExecuteUpdate`
  unfoldable pub execute_update : Run S ℕ → Run S ℕ → Execution S ℕ
  unfolding after_begin update_route
  execute_update execute_ingest execute_bound_update =
      after_begin (update_route execute_ingest execute_bound_update)

  -- `ExecuteQuery` behind `beginTxIfNeeded`, with `executeBoundQuery` and what opens a reader on a
  -- cursor.
  unfoldable pub query_route : {B : Type 0} → Run S B → Run S B → Run S B
  query_route execute_bound_query open_reader t s =
      if t.has_bound || t.has_bound_stream then execute_bound_query t s else open_reader t s

  -- `ExecuteQuery`
  unfoldable pub execute_query : {B : Type 0} → Run S B → Run S B → Execution S B
  unfolding after_begin query_route
  execute_query execute_bound_query open_reader t x =
      if is_empty t.sql
      then (inl invalid_state, (t, x))
      else after_begin (query_route execute_bound_query open_reader) t x
