-- ===== src/Driver/Connection.antt =====
-- driver/quack/driver.go: `connectionImpl`, its options and its transactions. The session, which
-- takes statements to the server, is a parameter; what a call leaves of it is passed on.
use adbc_driver_quack.Base.{
  same_string, ℕ, Bool, true, false, ◌||◌, not, Option, none, some, List, if◌then◌else◌, ◌⊎◌, inl,
  inr,
}
use adbc_driver_quack.Base.Text.{bytes}

-- What the transport reports: an error response of the server or any other error, with its text.
pub data TransportError : Type 0 where
  server_error : List ℕ → TransportError
  other_error : List ℕ → TransportError

-- The `adbc.Error`s of the driver by their status, and an error that is none; texts that the driver makes
-- itself are left out.
pub data AdbcError : Type 0 where
  invalid_state : AdbcError
  invalid_argument : AdbcError
  internal : List ℕ → AdbcError
  io : List ℕ → AdbcError
  already_exists : List ℕ → AdbcError
  other_kind : AdbcError

-- `fromTransportError` of an error that is not nil
unfoldable pub from_transport_error : TransportError → AdbcError
from_transport_error (server_error message) = internal message
from_transport_error (other_error message) = io message

-- The text of a statement, and those that the driver sends by itself.
abbrev pub Sql : Type 0
Sql = List ℕ

unfoldable pub begin_transaction : Sql
begin_transaction = bytes "BEGIN TRANSACTION"

unfoldable pub commit_sql : Sql
commit_sql = bytes "COMMIT"

unfoldable pub rollback_sql : Sql
rollback_sql = bytes "ROLLBACK"

-- The option names of the package adbc.
pub record OptionNames : Type 0 where
  pub key_auto_commit : List ℕ
  pub value_enabled : List ℕ
  pub value_disabled : List ℕ

-- `autoCommit` and `txOpen` of `connectionImpl`
pub record Connection : Type 0 where
  pub auto_commit : Bool
  pub tx_open : Bool

-- What `Open` returns.
unfoldable pub new_connection : Connection
new_connection = record { auto_commit = true; tx_open = false }

-- `sess.drainPrepared`: an error, or the row counts of the chunks of the result.
abbrev pub Exec : Type 0 → Type 0
Exec S = Sql → S → (TransportError ⊎ List ℕ) × S

-- A connection with its session; an operation returns an error or nil.
abbrev pub State : Type 0 → Type 0
State S = Connection × S

abbrev pub Op : Type 0 → Type 0
Op S = State S → Option AdbcError × State S

module _ {S : Type 0} (exec : Exec S) where
  -- `if err := c.execNoResult(ctx, sql); err != nil { return … }`, then `k` on the connection.
  unfoldable pub exec_then : Sql → (Connection → Connection) → Op S
  exec_then sql k (c, s) =
      let (result, s') = exec sql s in
      elim result [
        | inl e ↦ (some (from_transport_error e), (c, s'))
        | inr counts ↦ (none, (k c, s'))
      ]

  abbrev close_tx : Connection → Connection
  close_tx c = record c { tx_open = false }

  -- `Commit`
  unfoldable pub commit : Op S
  unfolding exec_then
  commit (c, s) =
      if c.auto_commit
      then (some invalid_state, (c, s))
      else if not c.tx_open
      then (none, (c, s))
      else exec_then commit_sql close_tx (c, s)

  -- `Rollback`
  unfoldable pub rollback : Op S
  unfolding exec_then
  rollback (c, s) =
      if c.auto_commit
      then (some invalid_state, (c, s))
      else if not c.tx_open
      then (none, (c, s))
      else exec_then rollback_sql close_tx (c, s)

  -- `SetOption`
  unfoldable pub set_option : OptionNames → List ℕ → List ℕ → Op S
  unfolding exec_then
  set_option names key value (c, s) =
      if not (same_string key names.key_auto_commit)
      then (none, (c, s))
      else if same_string value names.value_enabled
      then (if c.auto_commit
          then (none, (c, s))
          else if c.tx_open
          then exec_then commit_sql (λ c'. record c' { auto_commit = true; tx_open = false }) (c, s)
          else (none, (record c { auto_commit = true }, s)))
      else if same_string value names.value_disabled
      then (if not c.auto_commit
          then (none, (c, s))
          else (none, (record c { auto_commit = false }, s)))
      else (some invalid_argument, (c, s))

  -- `beginTxIfNeeded`
  unfoldable pub begin_tx_if_needed : Op S
  unfolding exec_then
  begin_tx_if_needed (c, s) =
      if c.auto_commit || c.tx_open
      then (none, (c, s))
      else exec_then begin_transaction (λ c'. record c' { tx_open = true }) (c, s)

  -- `Close`, around `c.sess.close`: the error of the rollback is dropped.
  unfoldable pub close : (S → Option TransportError × S) → State S → Option TransportError × State S
  close close_session (c, s) =
      if c.tx_open
      then (let (err, s') = close_session (exec rollback_sql s).1 in
          (err, (record c { tx_open = false }, s')))
      else (let (err, s') = close_session s in (err, (c, s')))
