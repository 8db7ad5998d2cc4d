-- ===== src/Codec/Reader.antt =====
-- internal/codec/binary_reader.go: the reader, its errors sticky. Bytes and words are numbers; an
-- `int` is its 64-bit pattern. Of the slice `bytes` the record keeps `bytes[offset:]`, all that is
-- read again; its length is `offset + length rest`.
use adbc_driver_quack.Base.{
  ℕ, zero, suc, ◌+◌, ◌-◌, ◌*◌, ◌%◌, ◌^◌, bit_and, bit_or, Bool, true, false, ◌&&◌, ◌||◌, not,
  Option, none, some, List, [], ◌∷◌, ◌++◌, length, take, drop, ltb, leb, ◌==◌, if◌then◌else◌,
  is_some,
}
use adbc_driver_quack.Codec.Fault.{
  Error, Cause, trailing_bytes, end_of_input, not_end_of_object, unexpected_field, negative_length,
  invalid_bool, too_long, exceeds_max_int, panicked, field_end, max_int,
}

pub record Reader : Type 0 where
  pub offset : ℕ
  pub rest : List ℕ
  pub err : Option Error

-- A read returns its value and the reader after it.
abbrev pub R {ℓ} : Type ℓ → Type ℓ
R A = Reader → A × Reader

unfoldable pub pure {ℓ} : {A : Type ℓ} → A → R A
pure a r = (a, r)

infixl 5 ◌>>=◌ ◌>>◌
unfoldable pub ◌>>=◌ {ℓ κ} : {A : Type ℓ} {B : Type κ} → R A → (A → R B) → R B
◌>>=◌ m f r = f (m r).0 (m r).1

abbrev pub ◌>>◌ {ℓ κ} : {A : Type ℓ} {B : Type κ} → R A → R B → R B
m >> k = m >>= λ _. k

-- `NewBinaryReader`
unfoldable pub new_binary_reader : List ℕ → Reader
new_binary_reader bytes = record { offset = 0; rest = bytes; err = none }

-- `r.err = newError(…, at)`
abbrev pub fail : Cause → ℕ → Reader → Reader
fail c at r = record r { err = some (record { cause = c; offset = at }) }

-- `if r.err != nil { return zero }`, then the rest of the function
unfoldable pub unless_failed {ℓ} : {A : Type ℓ} → A → R A → R A
unless_failed zero_value k r = elim r.err [ none ↦ k r | some e ↦ (zero_value, r) ]

-- `Position`, `Remaining`, `EOF`
unfoldable pub position : Reader → ℕ
position r = r.offset

unfoldable pub remaining : Reader → ℕ
remaining r = length r.rest

unfoldable pub at_eof : Reader → Bool
at_eof r = length r.rest == 0

-- `AssertEOF`
unfoldable pub assert_eof : Reader → Reader
unfolding at_eof remaining
assert_eof r = elim r.err [
  | some e ↦ r
  | none ↦ if not (at_eof r) then fail (trailing_bytes (remaining r)) r.offset r else r
]

-- The signed test `offset + n > len(bytes)` on 64-bit patterns: the sum may wrap to a negative.
unfoldable pub past_end : ℕ → Reader → Bool
past_end n r =
    let sum = (r.offset + n) % 2 ^ 64 in ltb sum (2 ^ 63) && ltb (r.offset + length r.rest) sum

unfoldable pub ensure : ℕ → R Bool
unfolding past_end remaining
ensure n r = elim r.err [
  | some e ↦ (false, r)
  | none ↦
      if past_end n r then (false, fail (end_of_input n (remaining r)) r.offset r) else (true, r)
]

-- `r.offset += n`
abbrev pub advance : ℕ → Reader → Reader
advance n r = record r { offset = r.offset + n; rest = drop n r.rest }

-- The little-endian number in the first `k` bytes.
abbrev pub le_value : ℕ → List ℕ → ℕ
le_value zero bs = 0
le_value (suc k) [] = 0
le_value (suc k) (b ∷ bs) = b + 256 * le_value k bs

-- The body that the fixed-width reads share: `ensure`, `binary.LittleEndian`, the new offset.
unfoldable pub read_le : ℕ → R ℕ
unfolding ensure
read_le k = do fits ← ensure k; λ r. if fits then (le_value k r.rest, advance k r) else (0, r)

-- `ReadFieldID`, `PeekFieldID`
unfoldable pub read_field_id : R ℕ
unfolding read_le
read_field_id = read_le 2

unfoldable pub peek_field_id : R ℕ
unfolding ensure
peek_field_id = do fits ← ensure 2; λ r. if fits then (le_value 2 r.rest, r) else (0, r)

-- `ReadEndObject`
unfoldable pub read_end_object : Reader → Reader
unfolding read_field_id
read_end_object r =
    let (id, r') = read_field_id r in
    elim r'.err [
      | some e ↦ r'
      | none ↦ if id == field_end then r' else fail (not_end_of_object id) (r'.offset - 2) r'
    ]

-- `ReadObject`; its second result is the error that the reader keeps.
unfoldable pub read_object {ℓ} : {A : Type ℓ} → A → R A → R A
unfolding read_end_object
read_object zero_value body = do
  v ← body
  unless_failed zero_value λ r. unless_failed zero_value (pure v) (read_end_object r)

-- `ReadRequiredField`
unfoldable pub read_required_field {ℓ} : {A : Type ℓ} → A → ℕ → R A → R A
unfolding read_field_id
read_required_field zero_value field_id read = do
  actual ← read_field_id
  unless_failed zero_value λ r.
      if actual == field_id
      then read r
      else (zero_value, fail (unexpected_field field_id actual) (r.offset - 2) r)

-- `ReadOptionalField`
unfoldable pub read_optional_field {ℓ} : {A : Type ℓ} → ℕ → R A → A → R A
unfolding at_eof peek_field_id read_field_id
read_optional_field field_id read default r =
    if is_some r.err || at_eof r
    then (default, r)
    else let (id, r') = peek_field_id r in
      if id == field_id then read (read_field_id r').1 else (default, r')

-- `readByte`: `b := r.bytes[r.offset]` behind `ensure(1)`
unfoldable pub read_byte : R ℕ
unfolding read_le
read_byte = read_le 1

-- `ReadBytes`. Where `ensure` lets a length pass that the input does not have (its sum wrapped),
-- `make([]byte, n)` panics: such an `n` is above 2 ^ 63 - len(bytes).
unfoldable pub read_bytes : ℕ → R (List ℕ)
unfolding ensure
read_bytes n r =
    if leb (2 ^ 63) n
    then ([], fail (negative_length n) r.offset r)
    else let (fits, r') = ensure n r in
      if fits
      then if ltb (length r'.rest) n
        then ([], fail panicked r'.offset r')
        else (take n r'.rest, advance n r')
      else ([], r')

-- `ReadBool`
unfoldable pub read_bool : R Bool
unfolding read_byte
read_bool = do
  b ← read_byte
  unless_failed false λ r.
      if not (b == 0) && not (b == 1)
      then (false, fail (invalid_bool b) (r.offset - 1) r)
      else (b == 1, r)

-- The loop of `ReadULEB128`, with the rounds left. A shift by `uint64` keeps 64 bits.
unfoldable pub uleb128_loop : ℕ → ℕ → ℕ → R ℕ
unfolding read_byte
uleb128_loop zero result shift r = (0, fail too_long r.offset r)
uleb128_loop (suc rounds) result shift r =
    let (b, r') = read_byte r in
    let result' = bit_or result (bit_and b 0x7F * 2 ^ shift % 2 ^ 64) in
    let more = uleb128_loop rounds result' (shift + 7) r' in
    unless_failed 0 (λ r''. if bit_and b 0x80 == 0 then (result', r'') else more) r'

-- `ReadULEB128`
unfoldable pub read_uleb128 : R ℕ
unfolding uleb128_loop
read_uleb128 = uleb128_loop 10 0 0

-- `ReadULEB128Int`
unfoldable pub read_uleb128_int : R ℕ
unfolding read_uleb128
read_uleb128_int = do
  v ← read_uleb128
  unless_failed 0 λ r. if ltb max_int v then (0, fail (exceeds_max_int v) r.offset r) else (v, r)

-- The loop of `ReadSLEB128`; the result is the pattern of an int64.
unfoldable pub sleb128_loop : ℕ → ℕ → ℕ → R ℕ
unfolding read_byte
sleb128_loop zero result shift r = (0, fail too_long r.offset r)
sleb128_loop (suc rounds) result shift r =
    let (b, r') = read_byte r in
    let result' = bit_or result (bit_and b 0x7F * 2 ^ shift % 2 ^ 64) in
    let shift' = shift + 7 in
    let more = sleb128_loop rounds result' shift' r' in
    unless_failed 0
      (λ r''.
        if bit_and b 0x80 == 0
        then if ltb shift' 64 && not (bit_and b 0x40 == 0)
          then (bit_or result' ((2 ^ 64 - 1) * 2 ^ shift' % 2 ^ 64), r'')
          else (result', r'')
        else more)
      r'

-- `ReadSLEB128`
unfoldable pub read_sleb128 : R ℕ
unfolding sleb128_loop
read_sleb128 = sleb128_loop 10 0 0

-- `ReadString`, `ReadStringBytes` and `ReadBlob`: one body, and a string is its bytes.
unfoldable pub read_string : R (List ℕ)
unfolding read_uleb128_int read_bytes
read_string = do n ← read_uleb128_int; unless_failed [] (read_bytes n)

-- The loop of `ReadList`: `left` elements are still to be read, `i` are in `out`.
unfoldable pub list_loop {ℓ} : {A : Type ℓ} → (ℕ → R A) → ℕ → ℕ → List A → R (List A)
list_loop read zero i out = pure out
list_loop read (suc left) i out = do
  v ← read i
  unless_failed [] (λ r. list_loop read left (i + 1) (out ++ (v ∷ [])) r)

-- `ReadList`. The capacity that it asks for is taken to be given.
unfoldable pub read_list {ℓ} : {A : Type ℓ} → (ℕ → R A) → R (List A)
unfolding read_uleb128_int list_loop
read_list read = do n ← read_uleb128_int; unless_failed [] (list_loop read n 0 [])

-- `ReadNullable`
unfoldable pub read_nullable {ℓ} : {A : Type ℓ} → A → R A → R (A × Bool)
unfolding read_bool
read_nullable zero_value read r =
    let (present, r') = read_bool r in
    if is_some r'.err || not present
    then ((zero_value, false), r')
    else let (v, r'') = read r' in ((v, true), r'')

-- `ReadULEB128BigInt`; a nil pointer where the read fails.
unfoldable pub read_uleb128_big_int : R (Option ℕ)
unfolding read_uleb128
read_uleb128_big_int = do v ← read_uleb128; unless_failed none (pure (some v))
