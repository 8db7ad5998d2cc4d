-- ===== src/Tests/Connections.antt =====
-- driver/quack at concrete connections, statements and strings.
use adbc_driver_quack.Base.{
  ℕ, ◌≡◌, refl, if◌then◌else◌, same_string, ◌||◌, Bool, true, false, none, some, List, [], ◌∷◌,
  ◌++◌, map, inl, inr, arith,
}
use adbc_driver_quack.Driver.Calls.{
  commit_call, with_commit, with_rollback, call, end_tx, call_keeps_connection, end_tx_again,
}
use adbc_driver_quack.Driver.Connection.{
  from_transport_error, invalid_state, server_error, internal, Sql, begin_transaction, commit_sql,
  rollback_sql, Connection, new_connection, Exec, begin_tx_if_needed, commit, set_option, close,
  OptionNames,
}
use adbc_driver_quack.Driver.Markers.{scan, byte}
use adbc_driver_quack.Driver.Pieces.{
  Piece, plain, literal, line_note, block_note, parameter, written, IsStatement, expected,
  substitute_params-written,
}
use adbc_driver_quack.Driver.Params.{
  substitute_params, string_value, quote, double_quote, quote_ident, quote_string, top,
}
use adbc_driver_quack.Driver.Quoting.{read_token, read_token-quote, scan-quote}
use adbc_driver_quack.Driver.Statement.{Run, Statement, new_statement, execute_update}
use adbc_driver_quack.Driver.Transactions.{
  Server, next_open, updated, Keeps, Effect, begins, ends, neither, close_ends_tx, succeeds,
  Reachable, opened, then_step, option_set, InStep, Reachable-InStep, begin_tx_if_needed_isolates,
}

-- A server that knows whether it has a transaction open, and refuses what does not fit.
unfoldable serve : Exec Bool
serve q b =
    if same_string q begin_transaction
    then (if b then (inl (server_error []), true) else (inr [], true))
    else if same_string q commit_sql || same_string q rollback_sql
    then (if b then (inr [], false) else (inl (server_error []), false))
    else (inr (1 ∷ []), b)

abbrev effect_of : Sql → Effect
effect_of q =
    if same_string q begin_transaction
    then begins
    else if same_string q commit_sql || same_string q rollback_sql
    then ends
    else neither

serve-next_open :
    (q : Sql) (b : Bool) → (serve q b).1 ≡ next_open (effect_of q) (succeeds (serve q b).0) b
unfolding serve
serve-next_open q b = ground arith

unfoldable serve-Server : Server Bool serve
unfolding begin_transaction commit_sql rollback_sql
serve-Server = record {
  has_tx = λ b. b;
  effect = effect_of;
  begin_effect = refl;
  commit_effect = refl;
  rollback_effect = refl;
  tracks = serve-next_open;
}

abbrev names : OptionNames
names = record { key_auto_commit = 97 ∷ []; value_enabled = 116 ∷ []; value_disabled = 102 ∷ [] }

abbrev manual : Connection × Bool
manual = (record { auto_commit = false; tx_open = false }, false)

manual-Reachable : Reachable serve serve-Server manual
unfolding set_option new_connection serve-Server
manual-Reachable = then_step (opened refl) (option_set names (97 ∷ []) (102 ∷ []))

Reachable-InStep_example : InStep serve serve-Server manual
Reachable-InStep_example = Reachable-InStep serve serve-Server manual manual-Reachable

begin_succeeds : (begin_tx_if_needed serve manual).0 ≡ none
unfolding begin_tx_if_needed serve begin_transaction
begin_succeeds = refl

begin_tx_if_needed_isolates_example : (begin_tx_if_needed serve manual).1.1 ≡ true
unfolding begin_tx_if_needed serve-Server
begin_tx_if_needed_isolates_example =
    begin_tx_if_needed_isolates serve serve-Server manual manual-Reachable begin_succeeds

-- A server that has lost the transaction.
abbrev lost : Connection × Bool
lost = (record { auto_commit = false; tx_open = true }, false)

commit_fails : (call serve commit_call lost).0 ≡ some (internal [])
unfolding serve commit from_transport_error commit_sql begin_transaction
commit_fails = refl

call_keeps_connection_example : (call serve commit_call lost).1.0 ≡ lost.0
call_keeps_connection_example =
    call_keeps_connection serve commit_call lost (internal []) commit_fails

abbrev in_tx : Connection × Bool
in_tx = (record { auto_commit = false; tx_open = true }, true)

commits : (end_tx serve with_commit in_tx).0 ≡ none
unfolding serve commit commit_sql begin_transaction
commits = refl

end_tx_again_example :
    ((end_tx serve with_commit in_tx).1.0.tx_open ≡ false)
    × (end_tx serve with_rollback (end_tx serve with_commit in_tx).1
        ≡ (none, (end_tx serve with_commit in_tx).1))
end_tx_again_example = end_tx_again serve with_commit with_rollback in_tx commits

-- `"x'y"` and `'x'y'` as the driver quotes them, in front of a space.
abbrev tricky : List ℕ
tricky = 120 ∷ (39 ∷ (121 ∷ (63 ∷ [])))

read_token-quote_example :
    (read_token double_quote (quote_ident tricky ++ (32 ∷ [])) ≡ some (tricky, 32 ∷ []))
    × (read_token quote (quote_string tricky ++ (32 ∷ [])) ≡ some (tricky, 32 ∷ []))
read_token-quote_example = read_token-quote tricky (32 ∷ []) refl refl

scan-quote_example :
    (scan top (quote_string tricky ++ (63 ∷ []))
      ≡ map byte (quote_string tricky) ++ scan top (63 ∷ []))
    × (scan top (quote_ident tricky ++ (63 ∷ []))
        ≡ map byte (quote_ident tricky) ++ scan top (63 ∷ []))
scan-quote_example = scan-quote tricky (63 ∷ [])

-- A marker, a string with a question mark, a comment with one, and a minus.
abbrev pieces : List Piece
pieces = parameter ∷ (literal tricky ∷ (block_note tricky ∷ (line_note tricky ∷ (plain 45 ∷ []))))

pieces-IsStatement : IsStatement pieces
unfolding written
pieces-IsStatement = (
  tt,
  (
    tt,
    (
      (λ e. refl, (λ e. refl, (λ e. refl, (λ e. refl, (λ e. refl, tt))))),
      (
        (
          λ e. omega (arith, e),
          (λ e. omega (arith, e), (λ e. omega (arith, e), (λ e. omega (arith, e), tt))),
        ),
        (
          (
            λ e. omega (arith, e),
            λ e. omega (arith, e),
            λ e. omega (arith, e),
            λ e. refl,
            λ e. refl,
          ),
          tt,
        ),
      ),
    ),
  ),
)

substitute_params-written_example :
    substitute_params (written pieces) (string_value tricky ∷ [])
    ≡ expected pieces (string_value tricky ∷ [])
substitute_params-written_example =
    substitute_params-written pieces (string_value tricky ∷ []) pieces-IsStatement

rolls_back : (b : Bool) → b ≡ true → succeeds (serve rollback_sql b).0 ≡ true
unfolding serve begin_transaction commit_sql rollback_sql
rolls_back b h = ground (arith, h)

-- An update of this server, in a transaction that the driver has begun for it.
abbrev refused : Run Bool ℕ
refused t b = (inl invalid_state, (t, b))

abbrev update : Statement
update = record new_statement { sql = 88 ∷ [] }

abbrev updated_state : Connection × Bool
updated_state = (execute_update serve refused refused update manual).1.1

update_effect : serve-Server.effect update.sql ≡ neither
unfolding serve-Server begin_transaction commit_sql rollback_sql new_statement
update_effect = refl

refused-Keeps : Keeps serve serve-Server refused
refused-Keeps t b = refl

updated_state-Reachable : Reachable serve serve-Server updated_state
updated_state-Reachable =
    then_step manual-Reachable
      (updated update refused refused update_effect refused-Keeps refused-Keeps)

shut_session : (b : Bool) → b ≡ false → b ≡ false
shut_session b h = h

close_ends_tx_example : (close serve (λ b. (none, b)) updated_state).1.1 ≡ false
unfolding serve-Server
close_ends_tx_example =
    close_ends_tx serve serve-Server (λ b. (none, b)) updated_state updated_state-Reachable
      rolls_back shut_session
