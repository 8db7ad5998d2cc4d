-- ===== src/Driver/Draining.antt =====
-- driver/quack/session.go: `drainAll` ends when the server does.
use adbc_driver_quack.Base.{
  ℕ, zero, suc, ◌+◌, ◌%◌, ◌^◌, ◌<◌, ◌≡◌, ◌≢◌, refl, ap, sym, ◌∙◌, Bool, true, false, Bool-cases,
  Option-cases, Option, none, some, List, [], ◌++◌, ◌⊎◌, inl, inr, arith,
}
use mathlib.Core.Path.{subst}
use adbc_driver_quack.Driver.Connection.{TransportError}
use adbc_driver_quack.Driver.Session.{
  SessionError, send_failed, unexpected_response, drain_out_of_fuel, Session, Cursor, Send,
  next_query_id, as_fetch_response, request_header, ask, fetch_more, drain_loop, drain_all,
}
use adbc_driver_quack.Message.Types.{QuackMessage, fetch_request}

module _ {S D : Type 0} (send : Send S D) where
  -- A server that has a number of further batches to promise: each response that promises one uses up at
  -- least one of them.
  pub record EndsAfter (left : S → ℕ) : Type 0 where
    pub shrinks :
        (m : QuackMessage D) (t : S) (response : Option (QuackMessage D)) (results : List D)
        → (send m t).0 ≡ inr response
        → as_fetch_response response ≡ some (results, true)
        → left (send m t).1 < left t

  -- A fetch ends in an error, with no more to come, or with less to come.
  abbrev Fetched : (S → ℕ) → Cursor D → Session S → Type 0
  Fetched left c s =
      ((e : SessionError) × (x : Cursor D × Session S) × (fetch_more send c s ≡ (some e, x))
        × (e ≢ drain_out_of_fuel))
      ⊎ ((c' : Cursor D) × (s' : Session S) × (fetch_more send c s ≡ (none, (c', s')))
          × ((c'.needs_more ≡ false) ⊎ (left s'.transport < left s.transport)))

  -- The request of a fetch, and the session after its answer.
  abbrev pub request : Cursor D → Session S → QuackMessage D
  request c s = fetch_request (request_header 7 s.connection_id s.query_id_seq) c.result_uuid

  abbrev pub after : Session S → S → Session S
  after s t = record s { query_id_seq = (s.query_id_seq + 1) % 2 ^ 64; transport = t }

  -- `fetchMore` as a function of what the transport returns.
  abbrev pub outcome :
      Cursor D
      → Session S
      → (TransportError ⊎ Option (QuackMessage D)) × S
      → Option SessionError × (Cursor D × Session S)
  outcome c s r = elim r.0 [
    | inl e ↦ (some (send_failed e), (c, after s r.1))
    | inr m ↦ elim (as_fetch_response m) [
      | none ↦ (some (unexpected_response 8), (c, after s r.1))
      | some b ↦ (none, (record c { buffered = c.buffered ++ b.0; needs_more = b.1 }, after s r.1))
    ]
  ]

  pub fetch_more-outcome :
      (c : Cursor D) (s : Session S)
      → fetch_more send c s ≡ outcome c s (send (request c s) s.transport)
  unfolding fetch_more ask next_query_id
  fetch_more-outcome c s = ground (arith)

  further :
      (left : S → ℕ) (m : Option (QuackMessage D)) (t : S) (results : List D) (more : Bool) (t0 : S)
      (q : QuackMessage D)
      → EndsAfter left
      → send q t0 ≡ (inr m, t)
      → as_fetch_response m ≡ some (results, more)
      → (more ≡ false) ⊎ (left t < left t0)
  further left m t results true t0 q law eq e = inr (
      subst (λ u. left u < left t0) (ap (λ r. r.1) eq)
        (law.shrinks q t0 m results (ap (λ r. r.0) eq) e))
  further left m t results false t0 q law eq e = inl refl

  fetch_more-Fetched :
      (left : S → ℕ) (c : Cursor D) (s : Session S) → EndsAfter left → Fetched left c s
  fetch_more-Fetched left c s law = go (send (request c s) s.transport) refl
    where
      go :
          (r : (TransportError ⊎ Option (QuackMessage D)) × S)
          → send (request c s) s.transport ≡ r
          → Fetched left c s
      go (inl e, t) eq =
          inl (send_failed e, (c, after s t), fetch_more-outcome c s ∙ ap (outcome c s) eq, (cc))
      go (inr m, t) eq = elim (Option-cases (as_fetch_response m)) [
        | inl e ↦ inl (
          unexpected_response 8,
          (c, after s t),
          fetch_more-outcome c s ∙ ap (outcome c s) eq ∙ ground (arith, e),
          (cc),
        )
        | inr ((results, more), e) ↦ inr (
          record c { buffered = c.buffered ++ results; needs_more = more },
          after s t,
          fetch_more-outcome c s ∙ ap (outcome c s) eq ∙ ground (arith, e),
          further left m t results more (s.transport) (request c s) law eq e,
        )
      ]

  loop_done :
      (fuel : ℕ) (out : List D) (c : Cursor D) (s : Session S)
      → c.needs_more ≡ false
      → drain_loop send fuel out c s ≡ (inr out, (c, s))
  unfolding drain_loop
  loop_done zero out c s e = ground (arith, e)
  loop_done (suc fuel) out c s e = ground (arith, e)

  loop_failed :
      (fuel : ℕ) (out : List D) (c : Cursor D) (s : Session S) (e : SessionError)
      (x : Cursor D × Session S)
      → c.needs_more ≡ true
      → fetch_more send c s ≡ (some e, x)
      → drain_loop send (suc fuel) out c s ≡ (inl e, x)
  unfolding drain_loop
  loop_failed fuel out c s e x m f = ground (arith, m, f)

  loop_fetched :
      (fuel : ℕ) (out : List D) (c c' : Cursor D) (s s' : Session S)
      → c.needs_more ≡ true
      → fetch_more send c s ≡ (none, (c', s'))
      → drain_loop send (suc fuel) out c s
        ≡ drain_loop send fuel (out ++ c'.buffered) (record c' { buffered = [] }) s'
  unfolding drain_loop
  loop_fetched fuel out c c' s s' m f = ground (arith, m, f)

  -- The result of draining is not that the fuel ran out.
  abbrev Ends : (SessionError ⊎ List D) × (Cursor D × Session S) → Type 0
  Ends r = r.0 ≢ inl drain_out_of_fuel

  drain_loop-Ends :
      (left : S → ℕ) (fuel : ℕ) (out : List D) (c : Cursor D) (s : Session S)
      → EndsAfter left
      → (c.needs_more ≡ false) ⊎ (left s.transport < fuel)
      → Ends (drain_loop send fuel out c s)
  drain_loop-Ends left fuel out c s law (inl done) =
      subst Ends (sym (loop_done fuel out c s done)) (cc)
  drain_loop-Ends left zero out c s law (inr h) = absurd (omega arith)
  drain_loop-Ends left (suc fuel) out c s law (inr h) = elim (Bool-cases c.needs_more) [
    | inl m ↦ elim (fetch_more-Fetched left c s law) [
      | inl (e, x, fetched, other) ↦
          subst Ends (sym (loop_failed fuel out c s e x m fetched)) (ground (arith, other))
      | inr (c', s', fetched, less) ↦ subst Ends (sym (loop_fetched fuel out c c' s s' m fetched)) (
          drain_loop-Ends left fuel (out ++ c'.buffered) (record c' { buffered = [] }) s' law
            (below c' s' less))
    ]
    | inr done ↦ subst Ends (sym (loop_done (suc fuel) out c s done)) (cc)
  ]
    where
      below :
          (c' : Cursor D) (s' : Session S)
          → (c'.needs_more ≡ false) ⊎ (left s'.transport < left s.transport)
          → (c'.needs_more ≡ false) ⊎ (left s'.transport < fuel)
      below c' s' (inl done) = inl done
      below c' s' (inr lt) = inr (omega arith)

  -- Where the server promises a further batch only finitely often, `drainAll` ends, after one fetch more
  -- than there are batches left at most: it returns the chunks, or an error of a fetch.
  pub drain_all_ends :
      (left : S → ℕ) (fuel : ℕ) (c : Cursor D) (s : Session S)
      → EndsAfter left
      → left s.transport < fuel
      → (drain_all send fuel c s).0 ≢ inl drain_out_of_fuel
  unfolding drain_all
  drain_all_ends left fuel c s law h =
      drain_loop-Ends left fuel c.buffered (record c { buffered = [] }) s law (inr h)
