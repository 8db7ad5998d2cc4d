-- ===== src/Driver/Calls.antt =====
-- driver/quack/driver.go: what each call of a connection leaves behind.
use adbc_driver_quack.Base.{false, none, some, List, ℕ, ◌≡◌, arith}
use adbc_driver_quack.Driver.Connection.{
  AdbcError, Exec, State, Op, exec_then, commit, rollback, set_option, begin_tx_if_needed,
  OptionNames,
}

-- The calls of a connection that can fail.
pub data Call : Type 0 where
  commit_call : Call
  rollback_call : Call
  option_call : OptionNames → List ℕ → List ℕ → Call
  begin_call : Call

-- `Commit` or `Rollback`
pub data Ending : Type 0 where
  with_commit : Ending
  with_rollback : Ending

module _ {S : Type 0} (exec : Exec S) where
  abbrev pub call : Call → Op S
  call commit_call = commit exec
  call rollback_call = rollback exec
  call (option_call names key value) = set_option exec names key value
  call begin_call = begin_tx_if_needed exec

  abbrev pub end_tx : Ending → Op S
  end_tx with_commit = commit exec
  end_tx with_rollback = rollback exec

  -- A call of a connection that reports an error leaves its flags as they were, so that it can be
  -- tried again: `Commit`, `Rollback`, `SetOption` with any key and value, and `beginTxIfNeeded`.
  pub call_keeps_connection :
      (o : Call) (x : State S) (e : AdbcError) → (call o x).0 ≡ some e → (call o x).1.0 ≡ x.0
  unfolding commit rollback set_option begin_tx_if_needed exec_then
  call_keeps_connection commit_call (c, s) e h = ground arith
  call_keeps_connection rollback_call (c, s) e h = ground arith
  call_keeps_connection (option_call names key value) (c, s) e h = ground arith
  call_keeps_connection begin_call (c, s) e h = ground arith

  -- `Commit` and `Rollback` that report no error leave no transaction open, and to call either of
  -- them then reports no error, sends nothing to the server and changes nothing.
  pub end_tx_again :
      (first second : Ending) (x : State S)
      → (end_tx first x).0 ≡ none
      → ((end_tx first x).1.0.tx_open ≡ false)
        × (end_tx second (end_tx first x).1 ≡ (none, (end_tx first x).1))
  unfolding commit rollback exec_then
  end_tx_again with_commit with_commit (c, s) h = ground arith
  end_tx_again with_commit with_rollback (c, s) h = ground arith
  end_tx_again with_rollback with_commit (c, s) h = ground arith
  end_tx_again with_rollback with_rollback (c, s) h = ground arith
