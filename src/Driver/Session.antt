-- ===== src/Driver/Session.antt =====
-- driver/quack/session.go: sessions and the cursors on their results. The transport, which posts a
-- message and decodes the answer, is a parameter with a state of its own.
use adbc_driver_quack.Base.{
  ℕ, zero, suc, ◌+◌, ◌%◌, ◌^◌, Bool, true, false, ◌&&◌, Option, none, some, List, [], ◌∷◌, ◌++◌,
  ◌⊎◌, inl, inr, if◌then◌else◌, is_empty,
}
use adbc_driver_quack.Driver.Connection.{TransportError}
use adbc_driver_quack.Message.Types.{
  MessageHeader, HugeIntParts, QuackMessage, prepare_request, prepare_response, fetch_request,
  fetch_response, append_request, success_response, disconnect_message, connection_request,
  connection_response,
}
use adbc_driver_quack.QuackType.Types.{LogicalType}

-- The errors of a session: a failed send, a response of another type than the one expected, a
-- handshake without a connection id. The last is no error of Go: the fuel of the model ran out.
pub data SessionError : Type 0 where
  send_failed : TransportError → SessionError
  unexpected_response : ℕ → SessionError
  no_connection_id : SessionError
  drain_out_of_fuel : SessionError

-- `session`, with the state of its transport.
pub record Session (S : Type 0) : Type 0 where
  pub transport : S
  pub query_id_seq : ℕ
  pub connection_id : List ℕ
  pub closed : Bool

-- `cursor`, without its session.
pub record Cursor (D : Type 0) : Type 0 where
  pub column_names : List (List ℕ)
  pub column_types : List LogicalType
  pub result_uuid : HugeIntParts
  pub buffered : List D
  pub needs_more : Bool
  pub cursor_closed : Bool

-- `nextQueryID`
unfoldable pub next_query_id : {S : Type 0} → Session S → ℕ × Session S
next_query_id s = (s.query_id_seq, record s { query_id_seq = (s.query_id_seq + 1) % 2 ^ 64 })

-- `resp.(message.…)`: the fields that the session uses, if the response has the type.
unfoldable pub as_connection_response : {D : Type 0} → Option (QuackMessage D) → Option (List ℕ)
as_connection_response (some (connection_response h version platform quack has)) =
    some h.connection_id
as_connection_response _ = none

unfoldable pub as_prepare_response : {D : Type 0} → Option (QuackMessage D) → Option (Cursor D)
as_prepare_response (some (prepare_response h types names more results uuid)) = some (record {
  column_names = names;
  column_types = types;
  result_uuid = uuid;
  buffered = results;
  needs_more = more;
  cursor_closed = false;
})
as_prepare_response _ = none

unfoldable pub as_fetch_response : {D : Type 0} → Option (QuackMessage D) → Option (List D × Bool)
as_fetch_response (some (fetch_response h results batch has)) = some (results, has)
as_fetch_response _ = none

unfoldable pub as_success_response : {D : Type 0} → Option (QuackMessage D) → Option (Unit {0})
as_success_response (some (success_response h)) = some tt
as_success_response _ = none

-- The header of a request of type `mt`.
abbrev pub request_header : ℕ → List ℕ → ℕ → MessageHeader
request_header mt id q = record { type = mt; connection_id = id; client_query_id = q }

-- `s.transport.Send`: an error, or the message of the server, if any.
abbrev pub Send : Type 0 → Type 0 → Type 0
Send S D = QuackMessage D → S → (TransportError ⊎ Option (QuackMessage D)) × S

module _ {S D : Type 0} (send : Send S D) where
  -- A request with the next query id, and the response by one of the `as` functions.
  unfoldable pub ask :
      {B : Type 0}
      → (ℕ → QuackMessage D)
      → ℕ
      → (Option (QuackMessage D) → Option B)
      → Session S
      → (SessionError ⊎ B) × Session S
  unfolding next_query_id
  ask request expected as_type s =
      let (q, s1) = next_query_id s in
      let (response, t) = send (request q) s1.transport in
      let s2 = record s1 { transport = t } in
      elim response [
        | inl e ↦ (inl (send_failed e), s2)
        | inr m ↦ elim (as_type m) [
          | none ↦ (inl (unexpected_response expected), s2)
          | some b ↦ (inr b, s2)
        ]
      ]

  -- `handshake`, with the token, the version and the platform that it sends.
  unfoldable pub handshake : List ℕ → List ℕ → List ℕ → Session S → Option SessionError × Session S
  unfolding ask as_connection_response
  handshake token version platform s =
      let (result, s') =
        ask (λ q. connection_request (request_header 1 [] q) token version platform 1 1) 2
          as_connection_response s in
      elim result [
        | inl e ↦ (some e, s')
        | inr id ↦
            if is_empty id
            then (some no_connection_id, s')
            else (none, record s' { connection_id = id })
      ]

  -- `cursor`
  unfoldable pub open_cursor : List ℕ → Session S → (SessionError ⊎ Cursor D) × Session S
  unfolding ask as_prepare_response
  open_cursor sql s =
      ask (λ q. prepare_request (request_header 3 s.connection_id q) sql) 4 as_prepare_response s

  -- `fetchMore`: an error or nil, the cursor and the session.
  unfoldable pub fetch_more : Cursor D → Session S → Option SessionError × (Cursor D × Session S)
  unfolding ask as_fetch_response
  fetch_more c s =
      let (result, s') =
        ask (λ q. fetch_request (request_header 7 s.connection_id q) c.result_uuid) 8
          as_fetch_response s in
      elim result [
        | inl e ↦ (some e, (c, s'))
        | inr r ↦ (none, (record c { buffered = c.buffered ++ r.0; needs_more = r.1 }, s'))
      ]

  -- The end of `nextChunk`: the first chunk of the buffer.
  unfoldable pub take_chunk :
      Cursor D → Session S → (SessionError ⊎ Option D) × (Cursor D × Session S)
  take_chunk c s = elim c.buffered [
    | [] ↦ (inr none, (c, s))
    | d ∷ ds ↦ (inr (some d), (record c { buffered = ds }, s))
  ]

  -- `nextChunk`
  unfoldable pub next_chunk :
      Cursor D → Session S → (SessionError ⊎ Option D) × (Cursor D × Session S)
  unfolding fetch_more take_chunk
  next_chunk c s =
      if c.cursor_closed
      then (inr none, (c, s))
      else if is_empty c.buffered && c.needs_more
      then (let (err, (c', s')) = fetch_more c s in
          elim err [ some e ↦ (inl e, (c', s')) | none ↦ take_chunk c' s' ])
      else take_chunk c s

  -- The loop of `drainAll` on fuel: the server may always promise more.
  unfoldable pub drain_loop :
      ℕ → List D → Cursor D → Session S → (SessionError ⊎ List D) × (Cursor D × Session S)
  drain_loop zero out c s =
      if c.needs_more then (inl drain_out_of_fuel, (c, s)) else (inr out, (c, s))
  drain_loop (suc fuel) out c s =
      let (err, (c', s')) = fetch_more c s in
      let more = drain_loop fuel (out ++ c'.buffered) (record c' { buffered = [] }) s' in
      if c.needs_more
      then elim err [ some e ↦ (inl e, (c', s')) | none ↦ more ]
      else (inr out, (c, s))

  -- `drainAll`
  unfoldable pub drain_all :
      ℕ → Cursor D → Session S → (SessionError ⊎ List D) × (Cursor D × Session S)
  unfolding drain_loop
  drain_all fuel c s = drain_loop fuel c.buffered (record c { buffered = [] }) s

  -- `appendChunk`
  unfoldable pub append_chunk :
      List ℕ → List ℕ → D → Session S → (SessionError ⊎ Unit {0}) × Session S
  unfolding ask as_success_response
  append_chunk schema table chunk s =
      ask (λ q. append_request (request_header 9 s.connection_id q) schema table chunk) 10
        as_success_response s

  -- `close` of a session: the outcome of the disconnect is dropped.
  unfoldable pub close_session : Session S → Session S
  unfolding next_query_id
  close_session s =
      if s.closed
      then s
      else if is_empty s.connection_id
      then record s { closed = true }
      else (let (q, s1) = next_query_id (record s { closed = true }) in
          record s1 {
            transport =
                (send (disconnect_message (request_header 11 s.connection_id q)) s1.transport).1;
          })

-- `close` of a cursor
unfoldable pub close_cursor : {D : Type 0} → Cursor D → Cursor D
close_cursor c = record c { cursor_closed = true; buffered = [] }
