-- ===== src/Driver/Reading.antt =====
-- driver/quack/record_reader.go: every call of `Next` ends.
use adbc_driver_quack.Base.{
  ℕ, zero, suc, ◌+◌, ◌<◌, ◌≤◌, ◌≡◌, ◌≢◌, refl, ap, sym, ◌∙◌, Bool, true, false, Bool-cases,
  Result-cases, Option-cases, Option, none, some, List, [], ◌∷◌, ◌++◌, length, length-append, ◌⊎◌,
  inl, inr, ◌==◌, arith,
}
use mathlib.Core.Path.{subst}
use adbc_driver_quack.Driver.Connection.{TransportError}
use adbc_driver_quack.Driver.Draining.{request, after, outcome, fetch_more-outcome}
use adbc_driver_quack.Driver.RecordReader.{
  RecordReader, session_error, conversion_error, next_loop, next,
}
use adbc_driver_quack.Driver.Session.{
  SessionError, Session, Cursor, Send, as_fetch_response, fetch_more, take_chunk, next_chunk,
}
use adbc_driver_quack.Message.Types.{QuackMessage}

module _ {S D : Type 0} (send : Send S D) (left : S → ℕ) where
  -- A server that has a number of chunks left: each response takes its chunks off.
  pub record Delivers : Type 0 where
    pub delivers :
        (m : QuackMessage D) (t : S) (response : Option (QuackMessage D)) (results : List D)
        (more : Bool)
        → (send m t).0 ≡ inr response
        → as_fetch_response response ≡ some (results, more)
        → length results + left (send m t).1 ≤ left t

  -- The chunks that a cursor may still return.
  abbrev pub chunks_left : Cursor D → Session S → ℕ
  chunks_left c s = length c.buffered + left s.transport

  fetch_more_keeps :
      (c c' : Cursor D) (s s' : Session S)
      → Delivers
      → fetch_more send c s ≡ (none, (c', s'))
      → chunks_left c' s' ≤ chunks_left c s
  fetch_more_keeps c c' s s' law h = go (send (request send c s) s.transport) refl
    where
      go :
          (r : (TransportError ⊎ Option (QuackMessage D)) × S)
          → send (request send c s) s.transport ≡ r
          → chunks_left c' s' ≤ chunks_left c s
      go (inl e, t) eq =
          absurd (ground (arith, sym h ∙ fetch_more-outcome send c s ∙ ap (outcome send c s) eq))
      go (inr m, t) eq = elim (Option-cases (as_fetch_response m)) [
        | inl e ↦
            absurd
              (ground (arith, sym h ∙ fetch_more-outcome send c s ∙ ap (outcome send c s) eq, e))
        | inr ((results, more), e) ↦
            let same : (
              record c { buffered = c.buffered ++ results; needs_more = more },
              after send s t,
            )
                ≡ (c', s') =
              ground (arith, sym h ∙ fetch_more-outcome send c s ∙ ap (outcome send c s) eq, e) in
            let fits : length results + left t ≤ left s.transport =
              subst (λ u. length results + left u ≤ left s.transport) (ap (λ r. r.1) eq)
                (law.delivers (request send c s) s.transport m results more (ap (λ r. r.0) eq) e) in
            subst (λ (x : Cursor D × Session S). chunks_left x.0 x.1 ≤ chunks_left c s) same
              (omega (arith, length-append c.buffered results))
      ]

  take_chunk-fewer :
      (c c' : Cursor D) (s s' : Session S) (d : D)
      → take_chunk send c s ≡ (inr (some d), (c', s'))
      → chunks_left c' s' < chunks_left c s
  unfolding take_chunk
  take_chunk-fewer c c' s s' d h = go c.buffered refl
    where
      go : (b : List D) → c.buffered ≡ b → chunks_left c' s' < chunks_left c s
      go [] e = absurd (ground (arith, h, e))
      go (x ∷ ds) e =
          let same : (record c { buffered = ds }, s) ≡ (c', s') = ground (arith, h, e) in
          subst (λ (y : Cursor D × Session S). chunks_left y.0 y.1 < chunks_left c s) same
            (omega (arith, ap length e))

  next_chunk-fewer :
      (c c' : Cursor D) (s s' : Session S) (d : D)
      → Delivers
      → next_chunk send c s ≡ (inr (some d), (c', s'))
      → chunks_left c' s' < chunks_left c s
  unfolding next_chunk
  next_chunk-fewer c c' s s' d law h = go (fetch_more send c s) refl
    where
      go :
          (x : Option SessionError × (Cursor D × Session S))
          → fetch_more send c s ≡ x
          → chunks_left c' s' < chunks_left c s
      go (err, (c1, s1)) eq = ground (
        arith,
        h,
        eq,
        take_chunk-fewer c c' s s' d,
        take_chunk-fewer c1 c' s1 s' d,
        fetch_more_keeps c c1 s s1 law,
      )

module _ {S E D R : Type 0} (send : Send S D) (row_count : D → ℕ) (convert : D → E ⊎ R) where
  -- Reads of a cursor that return chunks without rows, one after the other.
  pub data Skips : Cursor D → Session S → Cursor D → Session S → Type 0 where
    here : {c : Cursor D} {s : Session S} → Skips c s c s
    skip :
        {c c1 c' : Cursor D} {s s1 s' : Session S} (d : D)
        → next_chunk send c s ≡ (inr (some d), (c1, s1))
        → row_count d ≡ 0
        → Skips c1 s1 c' s'
        → Skips c s c' s'

  -- How a call of `Next` ends behind the chunks that it skips: with a chunk that has rows and its record,
  -- with the error of that chunk's conversion, with no chunk, or with the error of the session.
  pub data Ending (c : Cursor D) (s : Session S)
      : Bool → RecordReader E D R → Session S → Type 0 where
    took :
        {r' : RecordReader E D R} {s' : Session S} (d : D) (made : R)
        → next_chunk send c s ≡ (inr (some d), (r'.cursor, s'))
        → row_count d ≢ 0
        → convert d ≡ inr made
        → r'.current ≡ some made
        → Ending c s true r' s'
    spoiled :
        {r' : RecordReader E D R} {s' : Session S} (d : D) (e : E)
        → next_chunk send c s ≡ (inr (some d), (r'.cursor, s'))
        → row_count d ≢ 0
        → convert d ≡ inl e
        → r'.failure ≡ some (conversion_error e)
        → Ending c s false r' s'
    over :
        {r' : RecordReader E D R} {s' : Session S}
        → next_chunk send c s ≡ (inr none, (r'.cursor, s'))
        → r'.done ≡ true
        → Ending c s false r' s'
    broke :
        {r' : RecordReader E D R} {s' : Session S} (e : SessionError)
        → next_chunk send c s ≡ (inl e, (r'.cursor, s'))
        → r'.failure ≡ some (session_error e)
        → Ending c s false r' s'

  -- A call from one state to another with its result.
  abbrev pub Call : Cursor D → Session S → Bool × (RecordReader E D R × Session S) → Type 0
  Call c s x = (c1 : Cursor D) × (s1 : Session S) × Skips c s c1 s1 × Ending c1 s1 x.0 x.1.0 x.1.1

  later :
      (d : D) (c c1 : Cursor D) (s s1 : Session S) (x : Bool × (RecordReader E D R × Session S))
      → next_chunk send c s ≡ (inr (some d), (c1, s1))
      → row_count d ≡ 0
      → Call c1 s1 x
      → Call c s x
  later d c c1 s s1 x eq empty (c2, s2, skips, ending) = (c2, s2, skip d eq empty skips, ending)

  next_loop-Call :
      (left : S → ℕ) (fuel : ℕ) (r : RecordReader E D R) (s : Session S)
      → Delivers send left
      → chunks_left send left r.cursor s < fuel
      → Call r.cursor s (next_loop send row_count convert fuel r s)
  unfolding next_loop
  next_loop-Call left zero r s law lt = absurd (omega arith)
  next_loop-Call left (suc fuel) r s law lt =
      go (next_chunk send r.cursor s) refl
        (λ c1 s1 lt1. next_loop-Call left fuel (record r { cursor = c1 }) s1 law lt1)
    where
      go :
          (x : (SessionError ⊎ Option D) × (Cursor D × Session S))
          → next_chunk send r.cursor s ≡ x
          → ((c1 : Cursor D) (s1 : Session S)
              → chunks_left send left c1 s1 < fuel
              → Call c1 s1 (next_loop send row_count convert fuel (record r { cursor = c1 }) s1))
          → Call r.cursor s (next_loop send row_count convert (suc fuel) r s)
      go (inl e, (c, s1)) eq ih =
          subst (λ x. Call r.cursor s x) (ground (arith, eq))
            (
              r.cursor,
              s,
              here,
              broke {r' = record r { cursor = c; failure = some (session_error e) }} {s' = s1} e eq
                  refl,
            )
      go (inr none, (c, s1)) eq ih =
          subst (λ x. Call r.cursor s x) (ground (arith, eq))
            (r.cursor, s, here, over {r' = record r { cursor = c; done = true }} {s' = s1} eq refl)
      go (inr (some d), (c, s1)) eq ih = elim (Bool-cases (row_count d == 0)) [
        | inl empty ↦
            subst (λ x. Call r.cursor s x) (ground (arith, eq, empty))
              (later d r.cursor c s s1 _ eq (ground (arith, empty))
                (ih c s1 (omega (arith, next_chunk-fewer send left r.cursor c s s1 d law eq))))
        | inr rows ↦ elim (Result-cases (convert d)) [
          | inl (e, bad) ↦
              subst (λ x. Call r.cursor s x) (ground (arith, eq, rows, bad))
                (
                  r.cursor,
                  s,
                  here,
                  spoiled {r' = record r { cursor = c; failure = some (conversion_error e) }}
                      {s' = s1} d e eq (λ z. ground (arith, rows, z)) bad refl,
                )
          | inr (made, converts) ↦
              subst (λ x. Call r.cursor s x) (ground (arith, eq, rows, converts))
                (
                  r.cursor,
                  s,
                  here,
                  took {r' = record r { cursor = c; current = some made }} {s' = s1} d made eq
                      (λ z. ground (arith, rows, z)) converts refl,
                )
        ]
      ]

  -- `Next` of a reader that is not done and has no error ends, after at most one read of the cursor more
  -- than the chunks that the server and the buffer have left, where each response of the server takes its
  -- chunks off this number. It reads chunks of the cursor, in order, and skips those without rows; at the
  -- first read that gives something else it returns: true with the record of a chunk that has rows, false
  -- with the error of its conversion or of the read, or false and done where the read gives no chunk. A
  -- response that holds no chunk and promises more gives none, too, and ends the reader early.
  pub next_outcome :
      (left : S → ℕ) (fuel : ℕ) (r : RecordReader E D R) (s : Session S)
      → Delivers send left
      → chunks_left send left r.cursor s < fuel
      → r.failure ≡ none
      → r.done ≡ false
      → Call r.cursor s (next send row_count convert fuel r s)
  unfolding next
  next_outcome left fuel r s law lt fine on =
      subst (λ x. Call r.cursor s x) (ground (arith, fine, on))
        (next_loop-Call left fuel (record r { current = none }) s law lt)
