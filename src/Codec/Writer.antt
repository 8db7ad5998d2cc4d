-- ===== src/Codec/Writer.antt =====
-- internal/codec/binary_writer.go: the writer, its errors sticky.
use adbc_driver_quack.Base.{
  ℕ, zero, suc, ◌+◌, ◌-◌, ◌/◌, ◌%◌, ◌^◌, bit_and, bit_or, Bool, true, false, ◌&&◌, ◌||◌, not,
  Option, none, some, List, [], ◌∷◌, ◌++◌, length, ltb, ◌==◌, if◌then◌else◌,
}
use adbc_driver_quack.Codec.Fault.{Error, out_of_fuel, field_end}

pub record Writer : Type 0 where
  pub buf : List ℕ
  pub err : Option Error

-- `NewBinaryWriter`; the capacity shows nowhere.
unfoldable pub new_binary_writer : Writer
new_binary_writer = record { buf = []; err = none }

-- `WriteBytes`; with one byte it is `writeByte`, with `le_bytes k v` each fixed-width write.
unfoldable pub write_bytes : List ℕ → Writer → Writer
write_bytes bs w = elim w.err [ none ↦ record w { buf = w.buf ++ bs } | some e ↦ w ]

-- The `k` bytes of `v`, the lowest first.
abbrev pub le_bytes : ℕ → ℕ → List ℕ
le_bytes zero v = []
le_bytes (suc k) v = (v % 256) ∷ le_bytes k (v / 256)

-- `PutUint16`, `PutUint32`, `PutUint64` and the append behind them
unfoldable pub write_le : ℕ → ℕ → Writer → Writer
unfolding write_bytes
write_le k v = write_bytes (le_bytes k v)

-- `WriteFieldID`
unfoldable pub write_field_id : ℕ → Writer → Writer
unfolding write_le
write_field_id id = write_le 2 id

-- `WriteObject`, `WriteField`
unfoldable pub write_object : (Writer → Writer) → Writer → Writer
unfolding write_field_id
write_object body w = write_field_id field_end (body w)

unfoldable pub write_field : ℕ → (Writer → Writer) → Writer → Writer
unfolding write_field_id
write_field id body w = body (write_field_id id w)

-- `WriteBool`
unfoldable pub write_bool : Bool → Writer → Writer
unfolding write_bytes
write_bool v = if v then write_bytes (1 ∷ []) else write_bytes (0 ∷ [])

-- `for value & ^uint64(0x7F) != 0` of `WriteULEB128` on fuel, with the last append; the list is
-- what is appended to `w.buf`.
unfoldable pub uleb128_groups : ℕ → ℕ → Option (List ℕ)
uleb128_groups zero value = none
uleb128_groups (suc fuel) value =
    let more = uleb128_groups fuel (value / 128) in
    if not (bit_and value (2 ^ 64 - 1 - 0x7F) == 0)
    then elim more [ none ↦ none | some bs ↦ some (bit_or (bit_and value 0x7F) 0x80 ∷ bs) ]
    else some (bit_and value 0x7F ∷ [])

-- `if w.err != nil { return }`, then a loop that appends `bs`; fuel that runs out is an error of
-- the model.
unfoldable pub append_groups : Option (List ℕ) → Writer → Writer
unfolding write_bytes
append_groups (some bs) w = write_bytes bs w
append_groups none w = elim w.err [
  | some e ↦ w
  | none ↦ record w { err = some (record { cause = out_of_fuel; offset = length w.buf }) }
]

-- `WriteULEB128`; ten rounds are enough for 64 bits.
unfoldable pub write_uleb128 : ℕ → Writer → Writer
unfolding uleb128_groups append_groups
write_uleb128 value = append_groups (uleb128_groups 10 value)

-- `value >>= 7` on the pattern of an int64: the sign bit is copied.
abbrev pub shift_right_seven : ℕ → ℕ
shift_right_seven value =
    if ltb value (2 ^ 63) then value / 128 else value / 128 + (2 ^ 64 - 2 ^ 57)

-- The loop of `WriteSLEB128` on fuel.
unfoldable pub sleb128_groups : ℕ → ℕ → Option (List ℕ)
sleb128_groups zero value = none
sleb128_groups (suc fuel) value =
    let b = bit_and value 0x7F in
    let value' = shift_right_seven value in
    let sign_bit_set = not (bit_and b 0x40 == 0) in
    let more = sleb128_groups fuel value' in
    if (value' == 0 && not sign_bit_set) || (value' == 2 ^ 64 - 1 && sign_bit_set)
    then some (b ∷ [])
    else elim more [ none ↦ none | some bs ↦ some (bit_or b 0x80 ∷ bs) ]

-- `WriteSLEB128`
unfoldable pub write_sleb128 : ℕ → Writer → Writer
unfolding sleb128_groups append_groups
write_sleb128 value = append_groups (sleb128_groups 10 value)

-- `WriteString`, `WriteStringBytes` and `WriteBlob`: one body, and a string is its bytes.
unfoldable pub write_string : List ℕ → Writer → Writer
unfolding write_uleb128 write_bytes
write_string s w = write_bytes s (write_uleb128 (length s) w)

-- `if w.err != nil { return }`, then the rest of the loop
unfoldable pub unless_failed : (Writer → Writer) → Writer → Writer
unless_failed k w = elim w.err [ none ↦ k w | some e ↦ w ]

-- `WriteList`
unfoldable pub write_items {ℓ} :
    {A : Type ℓ} → (ℕ → A → Writer → Writer) → ℕ → List A → Writer → Writer
unfolding unless_failed
write_items write_item i [] w = w
write_items write_item i (x ∷ xs) w =
    unless_failed (λ w'. write_items write_item (i + 1) xs w') (write_item i x w)

unfoldable pub write_list {ℓ} : {A : Type ℓ} → List A → (ℕ → A → Writer → Writer) → Writer → Writer
unfolding write_uleb128 write_items
write_list items write_item w = write_items write_item 0 items (write_uleb128 (length items) w)

-- `WriteNullable`
unfoldable pub write_nullable {ℓ} :
    {A : Type ℓ} → Option A → (A → Writer → Writer) → Writer → Writer
unfolding write_bool
write_nullable none write_value w = write_bool false w
write_nullable (some v) write_value w = write_value v (write_bool true w)
