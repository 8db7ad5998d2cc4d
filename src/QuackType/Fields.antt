-- ===== src/QuackType/Fields.antt =====
-- internal/quacktype/codec.go: the optional fields and the payloads with no type inside read back.
use adbc_driver_quack.Base.{
  ℕ, zero, suc, ◌+◌, ◌%◌, ◌^◌, ◌<◌, ◌≤◌, ◌≡◌, refl, none, some, List, [], ◌∷◌, ◌++◌, append_assoc,
  length, length-append, arith, true, false, Bool, ◌⊎◌, inl, inr, All, ap, sym, ◌∙◌, not, ◌==◌,
  ==_refl, if◌then◌else◌,
}
use adbc_driver_quack.Codec.Lists.{Reads-list, concat_map}
use adbc_driver_quack.Codec.Leb.{uleb}
use adbc_driver_quack.Codec.Leb.Unsigned.{
  read_uleb128-Reads, read_uleb128_int-Reads, read_string-Reads,
}
use adbc_driver_quack.Codec.Reader.{read_string, read_optional_field, read_uleb128_big_int}
use adbc_driver_quack.Codec.Reads.{
  Reads, Reads-bind, Reads-map, Reads-end, pure-Reads, Reads-required_field, Reads-unless_failed,
}
use adbc_driver_quack.Codec.Optional.{
  ReadsBefore, Leads, Leads-append, Leads-optional, Reads-optional_field, Optional-field,
  Before-map, Before-then, Before-object,
}
use adbc_driver_quack.QuackType.Types.{decimal, enum_info, unbound}
use adbc_driver_quack.QuackType.Decode.{
  decode_crs, assert_eof_if, decode_enum, decode_unbound, decode_decimal,
}
use adbc_driver_quack.QuackType.Wire.{string_bytes, Short, IsInt, optional_string, object, field}

pub length-append_bytes : (xs ys : List ℕ) → length (xs ++ ys) ≡ length xs + length ys
length-append_bytes = length-append

pub ruleset lengths = (arith, length-append_bytes)

pub Optional-string :
    (id : ℕ) (s : List ℕ)
    → id < 2 ^ 16
    → Short s
    → ReadsBefore id (read_optional_field id read_string []) (optional_string id s) s
Optional-string id s h k =
    Optional-field id s (string_bytes s) read_string [] s h (λ e. e) (read_string-Reads s k)

pub decode_crs-Reads : (c : List ℕ) → Short c → Reads decode_crs (object (optional_string 100 c)) c
unfolding decode_crs
decode_crs-Reads c h = Before-object [] 100 (omega arith) (Optional-string 100 c (omega arith) h)

pub decode_unbound-Before :
    (n c s a : List ℕ)
    → Short n
    → Short c
    → Short s
    → ReadsBefore 202
        (decode_unbound a)
        ((optional_string 200 n ++ optional_string 201 c) ++ optional_string 202 s)
        (unbound n c s a)
unfolding decode_unbound
decode_unbound-Before n c s a hn hc hs =
    let next : Leads 201 202 (optional_string 202 s) =
      Leads-optional 201 202 202 s (string_bytes s) (omega arith) (omega arith) (omega arith) in
    let first : Leads 200 201 (optional_string 201 c) =
      Leads-optional 200 201 201 c (string_bytes c) (omega arith) (omega arith) (omega arith) in
    rw (append_assoc (optional_string 200 n) (optional_string 201 c) (optional_string 202 s)) (
      Before-then 200 202 _ (Leads-append 200 202 201 _ _ first next)
        (Optional-string 200 n (omega arith) hn)
        (Before-then 201 202 _ next (Optional-string 201 c (omega arith) hc)
          (Before-map (λ x. unbound n c x a) (Optional-string 202 s (omega arith) hs))))

pub decode_decimal-Reads :
    (w s : ℕ) (a : List ℕ)
    → IsInt w
    → IsInt s
    → Reads (decode_decimal a) (field 200 (uleb w) ++ field 201 (uleb s)) (decimal w s a)
unfolding decode_decimal
decode_decimal-Reads w s a hw hs =
    Reads-bind _ (Reads-optional_field 200 0 (omega arith) (read_uleb128_int-Reads w hw)) (
      Reads-map (λ x. decimal w x a)
        (Reads-optional_field 201 0 (omega arith) (read_uleb128_int-Reads s hs)))

assert_eof_if-Reads : Reads (assert_eof_if false) [] tt
unfolding assert_eof_if
assert_eof_if-Reads = record { run = λ off rest fits. ground arith }

pub decode_enum-Reads :
    (vs : List (List ℕ)) (a : List ℕ)
    → Short vs
    → All Short vs
    → Reads
        (decode_enum a)
        (field 200 (uleb (length vs)) ++ field 201 (uleb (length vs) ++ concat_map string_bytes vs))
        (enum_info vs a)
unfolding decode_enum
decode_enum-Reads vs a h hs =
    Reads-bind _ (Reads-required_field 0 200 (omega arith) (read_uleb128_int-Reads (length vs) h)) (
      Reads-end _
        (Reads-required_field [] 201 (omega arith) (
          Reads-list Short string_bytes (λ i. read_string) (λ i s k. read_string-Reads s k) vs h
            hs))
        (rw (==_refl (length vs)) (Reads-bind _ assert_eof_if-Reads (pure-Reads (enum_info vs a)))))

pub big_int-Reads : (n : ℕ) → n < 2 ^ 64 → Reads read_uleb128_big_int (uleb n) (some n)
unfolding read_uleb128_big_int
big_int-Reads n h =
    Reads-end _ (read_uleb128-Reads n h) (Reads-unless_failed none (pure-Reads (some n)))
