-- ===== src/Driver/RecordReader.antt =====
-- driver/quack/record_reader.go: `streamingRecordReader`. What makes a record of a chunk, and the row
-- count of a chunk, are parameters; a record is released by dropping it.
use adbc_driver_quack.Base.{
  ℕ, zero, suc, ◌+◌, Bool, true, false, ◌||◌, not, Option, none, some, is_some, ◌⊎◌, inl, inr, ◌==◌,
  if◌then◌else◌,
}
use adbc_driver_quack.Base.Int.{ℤ, pos, negsuc, add_nat}
use adbc_driver_quack.Driver.Session.{SessionError, Session, Cursor, Send, next_chunk, close_cursor}

-- The errors of a reader: of the session or of the conversion. The last is no error of Go: the fuel of
-- the model ran out.
pub data ReaderError (E : Type 0) : Type 0 where
  session_error : SessionError → ReaderError E
  conversion_error : E → ReaderError E
  reader_out_of_fuel : ReaderError E

-- `streamingRecordReader`, without its schema, context and allocator
pub record RecordReader (E D R : Type 0) : Type 0 where
  pub cursor : Cursor D
  pub current : Option R
  pub failure : Option (ReaderError E)
  pub refs : ℤ
  pub done : Bool

-- `newStreamingRecordReader`
unfoldable pub new_record_reader : {E D R : Type 0} → Cursor D → RecordReader E D R
new_record_reader cur = record {
  cursor = cur;
  current = none;
  failure = none;
  refs = pos 1;
  done = false;
}

-- `r.refs.Add(-1)`
unfoldable pub less_one : ℤ → ℤ
less_one (pos zero) = negsuc 0
less_one (pos (suc n)) = pos n
less_one (negsuc n) = negsuc (n + 1)

abbrev is_zero : ℤ → Bool
is_zero (pos n) = n == 0
is_zero (negsuc n) = false

module _ {E D R : Type 0} where
  -- `Retain`
  unfoldable pub retain : RecordReader E D R → RecordReader E D R
  unfolding add_nat
  retain r = record r { refs = add_nat r.refs 1 }

  -- `Release`
  unfoldable pub release : RecordReader E D R → RecordReader E D R
  unfolding less_one close_cursor
  release r =
      let left = less_one r.refs in
      if not (is_zero left)
      then record r { refs = left }
      else record r { refs = left; current = none; cursor = close_cursor r.cursor }

module _ {S E D R : Type 0} (send : Send S D) (row_count : D → ℕ) (convert : D → E ⊎ R) where
  -- The loop of `Next`, on fuel: it skips empty chunks.
  unfoldable pub next_loop :
      ℕ → RecordReader E D R → Session S → Bool × (RecordReader E D R × Session S)
  next_loop zero r s = (false, (record r { failure = some reader_out_of_fuel }, s))
  next_loop (suc fuel) r s =
      let (result, (c, s')) = next_chunk send r.cursor s in
      let r' = record r { cursor = c } in
      let more = next_loop fuel r' s' in
      elim result [
        | inl e ↦ (false, (record r' { failure = some (session_error e) }, s'))
        | inr none ↦ (false, (record r' { done = true }, s'))
        | inr (some chunk) ↦ if row_count chunk == 0 then more else elim (convert chunk) [
          | inl e ↦ (false, (record r' { failure = some (conversion_error e) }, s'))
          | inr rec ↦ (true, (record r' { current = some rec }, s'))
        ]
      ]

  -- `Next`
  unfoldable pub next : ℕ → RecordReader E D R → Session S → Bool × (RecordReader E D R × Session S)
  next fuel r s =
      if is_some r.failure || r.done
      then (false, (r, s))
      else next_loop fuel (record r { current = none }) s
