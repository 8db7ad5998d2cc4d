-- ===== src/Driver/Transactions.antt =====
-- driver/quack/driver.go: the connection's flags and the server's transaction.
use adbc_driver_quack.Base.{
  ℕ, Bool, true, false, ◌&&◌, not, none, List, Option, ◌⊎◌, inl, inr, ◌≡◌, arith,
}
use adbc_driver_quack.Driver.Connection.{
  Sql, begin_transaction, commit_sql, rollback_sql, Connection, new_connection, Exec, close,
  TransportError, State, commit, rollback, set_option, begin_tx_if_needed, OptionNames,
}
use adbc_driver_quack.Driver.Statement.{
  Statement, Run, after_begin, run_update, execute_update, execute_query, update_route, query_route,
}

abbrev pub succeeds {ℓ κ} : {A : Type ℓ} {B : Type κ} → A ⊎ B → Bool
succeeds (inl e) = false
succeeds (inr b) = true

-- What the text of a statement does to the transaction of its session, if the server carries it out.
pub data Effect : Type 0 where
  begins : Effect
  ends : Effect
  neither : Effect

-- Whether a transaction is open after a statement: one that fails changes nothing.
abbrev pub next_open : Effect → Bool → Bool → Bool
next_open begins true was = true
next_open ends true was = false
next_open _ _ was = was

-- A transaction is open only in manual mode.
abbrev pub IsManual : Connection → Type 0
IsManual c = (c.auto_commit && c.tx_open) ≡ false

-- The server's side of a session: `has_tx` tells whether it has a transaction open, and `effect` what
-- it takes the text of a statement for, be it the driver's or the user's.
pub record Server (S : Type 0) (exec : Exec S) : Type 0 where
  pub has_tx : S → Bool
  pub effect : Sql → Effect
  pub begin_effect : effect begin_transaction ≡ begins
  pub commit_effect : effect commit_sql ≡ ends
  pub rollback_effect : effect rollback_sql ≡ ends
  pub tracks :
      (q : Sql) (s : S)
      → has_tx (exec q s).1 ≡ next_open (effect q) (succeeds (exec q s).0) (has_tx s)

module _ {S : Type 0} (exec : Exec S) (server : Server S exec) where
  -- The connection knows what the server has open, and it has none in autocommit mode.
  abbrev pub InStep : State S → Type 0
  InStep (c, s) = (c.tx_open ≡ server.has_tx s) × IsManual c

  -- A run that neither begins nor ends a transaction.
  abbrev pub Keeps : {B : Type 0} → Run S B → Type 0
  Keeps run = (t : Statement) (s : S) → server.has_tx (run t s).1.1 ≡ server.has_tx s

  -- The calls on an open connection.
  pub data Step : State S → State S → Type 1 where
    committed : {x : State S} → Step x (commit exec x).1
    rolled_back : {x : State S} → Step x (rollback exec x).1
    option_set :
        {x : State S} (names : OptionNames) (key value : List ℕ)
        → Step x (set_option exec names key value x).1
    updated :
        {x : State S} (t : Statement) (ingest bound : Run S ℕ)
        → server.effect t.sql ≡ neither
        → Keeps ingest
        → Keeps bound
        → Step x (execute_update exec ingest bound t x).1.1
    queried :
        {x : State S} {B : Type 0} (t : Statement) (bound open_reader : Run S B)
        → Keeps bound
        → Keeps open_reader
        → Step x (execute_query exec bound open_reader t x).1.1

  pub data Reachable : State S → Type 1 where
    opened : {s : S} → server.has_tx s ≡ false → Reachable (new_connection, s)
    then_step : {x y : State S} → Reachable x → Step x y → Reachable y

  commit-InStep : (x : State S) → InStep x → InStep (commit exec x).1
  unfolding commit
  commit-InStep (c, s) h = ground (arith, server.commit_effect, server.tracks commit_sql s)

  rollback-InStep : (x : State S) → InStep x → InStep (rollback exec x).1
  unfolding rollback
  rollback-InStep (c, s) h = ground (arith, server.rollback_effect, server.tracks rollback_sql s)

  set_option-InStep :
      (names : OptionNames) (key value : List ℕ) (x : State S)
      → InStep x
      → InStep (set_option exec names key value x).1
  unfolding set_option
  set_option-InStep names key value (c, s) h =
      ground (arith, server.commit_effect, server.tracks commit_sql s)

  begin-InStep : (x : State S) → InStep x → InStep (begin_tx_if_needed exec x).1
  unfolding begin_tx_if_needed
  begin-InStep (c, s) h = ground (arith, server.begin_effect, server.tracks begin_transaction s)

  -- A run that keeps the transaction at one statement.
  abbrev KeepsAt : {B : Type 0} → Run S B → Statement → Type 0
  KeepsAt run t = (s : S) → server.has_tx (run t s).1.1 ≡ server.has_tx s

  after_begin-InStep :
      {B : Type 0} (run : Run S B) (t : Statement) (x : State S)
      → KeepsAt run t
      → InStep x
      → InStep (after_begin exec run t x).1.1
  unfolding after_begin
  after_begin-InStep run t x k h =
      ground (arith, begin-InStep x h, k (begin_tx_if_needed exec x).1.1)

  update_route-KeepsAt :
      (ingest bound : Run S ℕ) (t : Statement)
      → server.effect t.sql ≡ neither
      → Keeps ingest
      → Keeps bound
      → KeepsAt (update_route exec ingest bound) t
  unfolding update_route run_update
  update_route-KeepsAt ingest bound t plain ki kb s =
      ground (arith, ki t s, kb t s, plain, server.tracks t.sql s)

  query_route-Keeps :
      {B : Type 0} (bound open_reader : Run S B)
      → Keeps bound
      → Keeps open_reader
      → Keeps (query_route exec bound open_reader)
  unfolding query_route
  query_route-Keeps bound open_reader kb ko t s = ground (arith, kb t s, ko t s)

  update-InStep :
      (t : Statement) (ingest bound : Run S ℕ) (x : State S)
      → server.effect t.sql ≡ neither
      → Keeps ingest
      → Keeps bound
      → InStep x
      → InStep (execute_update exec ingest bound t x).1.1
  unfolding execute_update
  update-InStep t ingest bound x plain ki kb h =
      after_begin-InStep (update_route exec ingest bound) t x
        (update_route-KeepsAt ingest bound t plain ki kb) h

  query-InStep :
      {B : Type 0} (t : Statement) (bound open_reader : Run S B) (x : State S)
      → Keeps bound
      → Keeps open_reader
      → InStep x
      → InStep (execute_query exec bound open_reader t x).1.1
  unfolding execute_query
  query-InStep t bound open_reader x kb ko h = ground (
    arith,
    after_begin-InStep (query_route exec bound open_reader) t x
        (query_route-Keeps bound open_reader kb ko t) h,
  )

  Step-InStep : (x y : State S) → InStep x → Step x y → InStep y
  Step-InStep x y h committed = commit-InStep x h
  Step-InStep x y h rolled_back = rollback-InStep x h
  Step-InStep x y h (option_set names key value) = set_option-InStep names key value x h
  Step-InStep x y h (updated t ingest bound plain ki kb) =
      update-InStep t ingest bound x plain ki kb h
  Step-InStep x y h (queried t bound open_reader kb ko) = query-InStep t bound open_reader x kb ko h

  -- In every state that calls on a new connection can reach, in any order, whichever statements the
  -- server refuses, the connection's flag for an open transaction is the server's, and no transaction
  -- is open in autocommit mode: unless the user sends a statement whose own text begins or ends a
  -- transaction, which the flag does not see. The server takes the driver's BEGIN, COMMIT and ROLLBACK
  -- for what they are and carries nothing out that it refuses; of the ingests, the bound executions and
  -- the readers that the calls run it is assumed that they neither begin nor end a transaction.
  pub Reachable-InStep : (x : State S) → Reachable x → InStep x
  unfolding new_connection
  Reachable-InStep x (opened h) = ground (arith, h)
  Reachable-InStep x (then_step r s) = Step-InStep _ x (Reachable-InStep _ r) s

  -- In every state that calls on a new connection can reach, when `beginTxIfNeeded` reports no error
  -- the server has a transaction open exactly in manual mode: a statement that runs next is inside
  -- one there and on its own in autocommit mode. In the calls before it no text of the user begins or
  -- ends a transaction, and the ingests, the bound executions and the readers are assumed to do neither.
  pub begin_tx_if_needed_isolates :
      (x : State S)
      → Reachable x
      → (begin_tx_if_needed exec x).0 ≡ none
      → server.has_tx (begin_tx_if_needed exec x).1.1 ≡ not x.0.auto_commit
  unfolding begin_tx_if_needed
  begin_tx_if_needed_isolates (c, s) r e =
      ground
        (arith, Reachable-InStep (c, s) r, server.begin_effect, server.tracks begin_transaction s)

  -- `Close` leaves no transaction open on the server in any state that calls on a new connection can
  -- reach: it rolls back one that is open before it closes the session. The server carries the ROLLBACK
  -- out, and closing the session begins no transaction; in the calls before it no text of the user begins
  -- or ends one, and the ingests, the bound executions and the readers are assumed to do neither.
  pub close_ends_tx :
      (close_session : S → Option TransportError × S) (x : State S)
      → Reachable x
      → ((s : S) → server.has_tx s ≡ true → succeeds (exec rollback_sql s).0 ≡ true)
      → ((s : S) → server.has_tx s ≡ false → server.has_tx (close_session s).1 ≡ false)
      → server.has_tx (close exec close_session x).1.1 ≡ false
  unfolding close
  close_ends_tx close_session (c, s) r rolls shut = ground (
    arith,
    Reachable-InStep (c, s) r,
    rolls s,
    server.rollback_effect,
    server.tracks rollback_sql s,
    shut s,
    shut (exec rollback_sql s).1,
  )
