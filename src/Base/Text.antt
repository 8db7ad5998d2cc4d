-- ===== src/Base/Text.antt =====
-- The functions of Go's packages strings and strconv that the driver calls, on strings of bytes.
use Prim.Native.Char.{code}
use Prim.Native.Nat.{ℕ, zero, suc, ◌+◌, ◌-◌, ◌*◌, ◌^◌}
use Prim.Native.String.{String}
use mathlib.Core.Bool.{Bool, true, false, ◌&&◌, ◌||◌}
use mathlib.Core.List.{List, [], ◌∷◌, reverse}
use mathlib.Core.Option.{Option, none, some}
use adbc_driver_quack.Base.Int.{ℤ, pos, neg}
use adbc_driver_quack.Base.Tests.{ltb, leb, ◌==◌, if◌then◌else◌, is_empty}

-- The bytes of a text that is ASCII.
abbrev pub bytes : String → List ℕ
bytes String.[] = []
bytes (String.◌∷◌ c s) = code c ∷ bytes s

-- `strings.HasPrefix(s, prefix)`
unfoldable pub has_prefix : List ℕ → List ℕ → Bool
has_prefix s [] = true
has_prefix [] (d ∷ t) = false
has_prefix (c ∷ s) (d ∷ t) = (c == d) && has_prefix s t

-- `strings.TrimPrefix(s, prefix)` for a prefix of one byte
unfoldable pub trim_byte : ℕ → List ℕ → List ℕ
trim_byte d [] = []
trim_byte d (c ∷ s) = if c == d then s else c ∷ s

-- `strings.Contains(s, text)`
unfoldable pub contains : List ℕ → List ℕ → Bool
unfolding has_prefix
contains [] text = is_empty text
contains (c ∷ s) text = has_prefix (c ∷ s) text || contains s text

-- `strings.ContainsAny(s, chars)` for ASCII characters
unfoldable pub contains_byte : List ℕ → ℕ → Bool
contains_byte [] c = false
contains_byte (d ∷ s) c = (d == c) || contains_byte s c

unfoldable pub contains_any : List ℕ → List ℕ → Bool
unfolding contains_byte
contains_any [] chars = false
contains_any (c ∷ s) chars = contains_byte chars c || contains_any s chars

-- The bytes that encode a white space (`unicode.IsSpace`) at the start of a string, if there are any.
abbrev is_space : ℕ → Bool
is_space c = (leb 9 c && leb c 13) || (c == 32)

abbrev is_space_2 : ℕ → ℕ → Bool
is_space_2 c d = (c == 0xC2) && ((d == 0x85) || (d == 0xA0))

abbrev is_space_3 : ℕ → ℕ → ℕ → Bool
is_space_3 c d e =
    ((c == 0xE1) && ((d == 0x9A) && (e == 0x80)))
    || ((c == 0xE2)
        && ((d == 0x80)
              && ((leb 0x80 e && leb e 0x8A) || ((e == 0xA8) || ((e == 0xA9) || (e == 0xAF))))
            || ((d == 0x81) && (e == 0x9F))))
    || ((c == 0xE3) && ((d == 0x80) && (e == 0x80)))

unfoldable pub space_length : List ℕ → ℕ
space_length [] = 0
space_length (c ∷ []) = if is_space c then 1 else 0
space_length (c ∷ (d ∷ [])) = if is_space c then 1 else if is_space_2 c d then 2 else 0
space_length (c ∷ (d ∷ (e ∷ s))) =
    if is_space c then 1 else if is_space_2 c d then 2 else if is_space_3 c d e then 3 else 0

-- The same at the end of a string, given in reverse.
unfoldable pub space_length_back : List ℕ → ℕ
space_length_back [] = 0
space_length_back (c ∷ []) = if is_space c then 1 else 0
space_length_back (d ∷ (c ∷ [])) = if is_space d then 1 else if is_space_2 c d then 2 else 0
space_length_back (e ∷ (d ∷ (c ∷ s))) =
    if is_space e then 1 else if is_space_2 d e then 2 else if is_space_3 c d e then 3 else 0

-- White space off the front; the number counts bytes of it that are still to go.
unfoldable pub trim_front : (List ℕ → ℕ) → ℕ → List ℕ → List ℕ
trim_front length_of k [] = []
trim_front length_of (suc k) (c ∷ s) = trim_front length_of k s
trim_front length_of zero (c ∷ s) = elim (length_of (c ∷ s)) [
  | zero ↦ c ∷ s
  | suc k ↦ trim_front length_of k s
]

-- `strings.TrimSpace`
unfoldable pub trim_space : List ℕ → List ℕ
unfolding trim_front space_length space_length_back
trim_space s = reverse (trim_front space_length_back 0 (reverse (trim_front space_length 0 s)))

abbrev lower : ℕ → ℕ
lower c = if leb b'A' c && leb c b'Z' then c + 32 else c

-- `strings.ToLower` of a string that is then compared with an ASCII text. A letter outside ASCII stays,
-- but for the two that have an ASCII letter in lower case: a capital I with a dot and the Kelvin sign.
unfoldable pub to_lower : List ℕ → List ℕ
to_lower [] = []
to_lower (c ∷ []) = lower c ∷ []
to_lower (c ∷ (d ∷ [])) = if (c == 0xC4) && (d == 0xB0) then b'i' ∷ [] else lower c ∷ (lower d ∷ [])
to_lower (c ∷ (d ∷ (e ∷ s))) =
    let rest = to_lower (e ∷ s) in
    let kelvin = to_lower s in
    let next = to_lower (d ∷ (e ∷ s)) in
    if (c == 0xC4) && (d == 0xB0)
    then b'i' ∷ rest
    else if (c == 0xE2) && ((d == 0x84) && (e == 0xAA))
    then b'k' ∷ kelvin
    else lower c ∷ next

-- The number that decimal digits write, behind those that are read, if the string holds only digits.
unfoldable pub digits_value : ℕ → List ℕ → Option ℕ
digits_value acc [] = some acc
digits_value acc (c ∷ s) =
    let rest = digits_value (acc * 10 + (c - b'0')) s in
    if leb b'0' c && leb c b'9' then rest else none

-- `strconv.ParseInt(s, 10, 64)` and `strconv.Atoi(s)`, with `none` for their errors
unfoldable pub parse_digits : Bool → List ℕ → Option ℤ
unfolding digits_value
parse_digits negative [] = none
parse_digits negative (c ∷ s) = elim (digits_value 0 (c ∷ s)) [
  | none ↦ none
  | some n ↦
      if negative
      then (if leb n (2 ^ 63) then some (neg n) else none)
      else if ltb n (2 ^ 63)
      then some (pos n)
      else none
]

unfoldable pub parse_int : List ℕ → Option ℤ
unfolding parse_digits
parse_int [] = none
parse_int (c ∷ s) =
    if c == b'-'
    then parse_digits true s
    else if c == b'+'
    then parse_digits false s
    else parse_digits false (c ∷ s)
