-- ===== src/Tests/Cursors.antt =====
-- driver/quack/session.go at a concrete cursor.
use adbc_driver_quack.Base.{
  ℕ, zero, suc, ◌+◌, ◌-◌, ◌<◌, ◌≤◌, ◌≡◌, ◌≢◌, refl, ap, Bool, length, true, false, Option, some,
  List, [], ◌∷◌, inl, inr, ltb, arith,
}
use adbc_driver_quack.Driver.Draining.{EndsAfter, drain_all_ends}
use adbc_driver_quack.Driver.RecordReader.{RecordReader, new_record_reader, next}
use adbc_driver_quack.Driver.Reading.{Delivers, Call, next_outcome}
use adbc_driver_quack.Driver.Session.{
  drain_out_of_fuel, as_fetch_response, Session, Cursor, Send, request_header, next_chunk,
  drain_all,
}
use adbc_driver_quack.Driver.Streaming.{prepend_chunk, fuel_left, drain_all-next_chunk}
use adbc_driver_quack.Message.Types.{QuackMessage, fetch_response}

-- A server whose response holds one chunk, the number of the request, and promises no more.
abbrev one_more : Send ℕ ℕ
one_more m n = (inr (some (fetch_response (request_header 8 [] 0) (n ∷ []) 0 false)), n + 1)

abbrev session_before : Session ℕ
session_before = record { transport = 5; query_id_seq = 1; connection_id = 99 ∷ []; closed = false }

abbrev session_after : Session ℕ
session_after = record session_before { transport = 6; query_id_seq = 2 }

abbrev cursor_before : Cursor ℕ
cursor_before = record {
  column_names = [];
  column_types = [];
  result_uuid = record { upper = 0; lower = 7 };
  buffered = [];
  needs_more = true;
  cursor_closed = false;
}

abbrev cursor_after : Cursor ℕ
cursor_after = record cursor_before { needs_more = false }

fetches :
    next_chunk one_more cursor_before session_before ≡ (inr (some 5), (cursor_after, session_after))
unfolding next_chunk
fetches = refl

drain_all-next_chunk_example :
    drain_all one_more 2 cursor_before session_before
    ≡ prepend_chunk 5
        (drain_all one_more (fuel_left one_more cursor_before 1) cursor_after session_after)
drain_all-next_chunk_example =
    drain_all-next_chunk one_more 1 cursor_before cursor_after session_before session_after 5
      fetches

-- A server that promises a further batch as many times as its state says.
abbrev few : Send ℕ ℕ
few m n = (inr (some (fetch_response (request_header 8 [] 0) (n ∷ []) 0 (ltb 0 n))), n - 1)

few_promises :
    (m : QuackMessage ℕ) (t : ℕ) (response : Option (QuackMessage ℕ)) (results : List ℕ)
    → (few m t).0 ≡ inr response
    → as_fetch_response response ≡ some (results, true)
    → 0 < t
unfolding as_fetch_response
few_promises m t response results sent more = ground (arith, sent, more)

few_ends : EndsAfter few (λ n. n)
few_ends = record { shrinks = shrinks }
  where
    shrinks :
        (m : QuackMessage ℕ) (t : ℕ) (response : Option (QuackMessage ℕ)) (results : List ℕ)
        → (few m t).0 ≡ inr response
        → as_fetch_response response ≡ some (results, true)
        → (few m t).1 < t
    shrinks m t response results sent more =
        ground (arith, sent, few_promises m t response results sent more)

drain_all_ends_example :
    (drain_all few 9 cursor_before (record session_before { transport = 8 })).0
    ≢ inl drain_out_of_fuel
drain_all_ends_example =
    drain_all_ends few (λ n. n) 9 cursor_before (record session_before { transport = 8 }) few_ends
      (omega arith)

abbrev reader_before : RecordReader ℕ ℕ ℕ
reader_before = new_record_reader cursor_before

-- A server with as many chunks as its state says, each in its own response; the last one has no rows.
abbrev stocked : ℕ → List ℕ
stocked zero = []
stocked (suc n) = n ∷ []

abbrev stock : Send ℕ ℕ
stock m n = (inr (some (fetch_response (request_header 8 [] 0) (stocked n) 0 (ltb 1 n))), n - 1)

stocked_results :
    (m : QuackMessage ℕ) (t : ℕ) (response : Option (QuackMessage ℕ)) (results : List ℕ)
    (more : Bool)
    → (stock m t).0 ≡ inr response
    → as_fetch_response response ≡ some (results, more)
    → results ≡ stocked t
unfolding as_fetch_response
stocked_results m t response results more sent got = ground (arith, sent, got)

stock_law :
    (m : QuackMessage ℕ) (t : ℕ) (response : Option (QuackMessage ℕ)) (results : List ℕ)
    (more : Bool)
    → (stock m t).0 ≡ inr response
    → as_fetch_response response ≡ some (results, more)
    → length results + (stock m t).1 ≤ t
stock_law m zero response results more sent got =
    omega (arith, ap length (stocked_results m zero response results more sent got))
stock_law m (suc t) response results more sent got =
    omega (arith, ap length (stocked_results m (suc t) response results more sent got))

stock_delivers : Delivers stock (λ n. n)
stock_delivers = record { delivers = stock_law }

abbrev session_of_two : Session ℕ
session_of_two = record session_before { transport = 2 }

next_outcome_example :
    Call stock
      (λ d. d)
      inr
      reader_before.cursor
      session_of_two
      (next stock (λ d. d) inr 3 reader_before session_of_two)
unfolding new_record_reader
next_outcome_example =
    next_outcome stock (λ d. d) inr (λ n. n) 3 reader_before session_of_two stock_delivers
      (omega arith) refl refl
