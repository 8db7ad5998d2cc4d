-- ===== src/Codec/Safe.antt =====
-- internal/codec/binary_reader.go: what every read keeps, whatever the input is. A reader that has not
-- failed does not gain bytes, and the fuel of a nested read lasts as long as there are bytes.
pub mod Bytes
pub mod Fields
pub mod Values
use adbc_driver_quack.Base.{
  ℕ, zero, suc, ◌+◌, ◌-◌, ◌%◌, ◌^◌, ◌≤◌, ◌<◌, ◌≡◌, refl, ap, sym, ◌∙◌, Bool, true, false,
  Bool-cases, not, ◌||◌, Option, none, some, is_some, List, [], ◌∷◌, ◌++◌, length, length-drop,
  drop, take, ◌⊎◌, inl, inr, ltb, leb, ◌==◌, if◌then◌else◌, arith, bit_and, bit_or, ◌*◌,
}
use mathlib.Core.Path.{subst}
use adbc_driver_quack.Codec.Fault.{
  Error, Cause, out_of_fuel, end_of_input, not_end_of_object, trailing_bytes, panicked, field_end,
  max_int,
}
use adbc_driver_quack.Codec.Reader.{
  Reader, R, pure, ◌>>=◌, fail, unless_failed, past_end, ensure, advance, read_le, le_value,
  read_field_id, peek_field_id, read_end_object, read_object, read_required_field,
  read_optional_field, read_byte, read_bytes, read_bool, uleb128_loop, read_uleb128,
  read_uleb128_int, read_string, list_loop, read_list, read_nullable, read_uleb128_big_int,
  assert_eof, at_eof, remaining,
}

abbrev pub is_out_of_fuel : Cause → Bool
is_out_of_fuel out_of_fuel = true
is_out_of_fuel _ = false

-- A reader with fewer than `n` bytes left, in an input that is at least 16 bytes shorter than the
-- largest `int`; or one that has failed but not for want of fuel: with an error of the source, or with
-- `panicked`, which stands for a panic of Go.
pub data Within (n : ℕ) (r : Reader) : Type 0 where
  healthy : r.err ≡ none → length r.rest < n → r.offset + length r.rest + 16 < 2 ^ 63 → Within n r
  failed : (e : Error) → r.err ≡ some e → is_out_of_fuel e.cause ≡ false → Within n r

-- Reads that keep this, for readers with at most `m` bytes.
pub record Safe {ℓ} {A : Type ℓ} (m : ℕ) (p : R A) : Type ℓ where
  pub keeps : (n : ℕ) (r : Reader) → n ≤ m → Within n r → Within n (p r).1

-- Reads that take a byte at least, where they do not fail.
pub record Eats {ℓ} {A : Type ℓ} (m : ℕ) (p : R A) : Type ℓ where
  pub eats : (n : ℕ) (r : Reader) → n ≤ suc m → Within n r → Within (n - 1) (p r).1

pub Within-mono : {n k : ℕ} {r : Reader} → n ≤ k → Within n r → Within k r
Within-mono le (healthy e lt fits) = healthy e (omega arith) fits
Within-mono le (failed e h c) = failed e h c

pub pure-Safe {ℓ} : {A : Type ℓ} {m : ℕ} (a : A) → Safe m (pure a)
unfolding pure
pure-Safe a = record { keeps = λ n r le w. w }

pub bind-Safe {ℓ κ} :
    {A : Type ℓ} {B : Type κ} {m : ℕ} {p : R A} {f : A → R B}
    → Safe m p
    → ((a : A) → Safe m (f a))
    → Safe m (p >>= f)
unfolding ◌>>=◌
bind-Safe {p} {f} hp hf = record {
  keeps = λ n r le w. (hf (p r).0).keeps n (p r).1 le (hp.keeps n r le w);
}

unless_failed_open {ℓ} :
    {A : Type ℓ} (z : A) (p : R A) (r : Reader) → r.err ≡ none → unless_failed z p r ≡ p r
unfolding unless_failed
unless_failed_open {A} z p r h =
    ap (λ o. elim o as (λ _. A × Reader) [ none ↦ p r | some e ↦ (z, r) ]) h

unless_failed_shut {ℓ} :
    {A : Type ℓ} (z : A) (p : R A) (r : Reader) (e : Error)
    → r.err ≡ some e
    → unless_failed z p r ≡ (z, r)
unfolding unless_failed
unless_failed_shut {A} z p r e h =
    ap (λ o. elim o as (λ _. A × Reader) [ none ↦ p r | some e' ↦ (z, r) ]) h

pub moved {ℓ} : {A : Type ℓ} {n : ℕ} {x y : A × Reader} → x ≡ y → Within n y.1 → Within n x.1
moved {n} e w = subst (λ (z : _ × Reader). Within n z.1) (sym e) w

pub unless_failed-Within {ℓ} :
    {A : Type ℓ} (n : ℕ) (z : A) (p : R A) (r : Reader)
    → Within n r
    → Within n (p r).1
    → Within n (unless_failed z p r).1
unless_failed-Within n z p r (healthy e lt fits) hp = moved (unless_failed_open z p r e) hp
unless_failed-Within n z p r (failed e h c) hp = moved (unless_failed_shut z p r e h) (failed e h c)

pub unless_failed-Safe {ℓ} :
    {A : Type ℓ} {m : ℕ} (z : A) {p : R A} → Safe m p → Safe m (unless_failed z p)
unless_failed-Safe z {p} hp = record {
  keeps = λ n r le w. unless_failed-Within n z p r w (hp.keeps n r le w);
}

-- A failure that is not for want of fuel.
pub fail-Within :
    (n : ℕ) (c : Cause) (at : ℕ) (r : Reader) → is_out_of_fuel c ≡ false → Within n (fail c at r)
fail-Within n c at r h = failed (record { cause = c; offset = at }) refl h

pub Eats-Safe {ℓ} : {A : Type ℓ} {m : ℕ} {p : R A} → Eats m p → Safe m p
Eats-Safe h = record { keeps = λ n r le w. Within-mono (omega arith) (h.eats n r (omega arith) w) }

pub fail_if-Within {ℓ} :
    {A : Type ℓ} (n : ℕ) (b : Bool) (x : A × Reader) (y : A × Reader)
    → Within n x.1
    → Within n y.1
    → Within n (if b then x else y).1
fail_if-Within n true x y hx hy = hx
fail_if-Within n false x y hx hy = hy

pub if_reader-Within :
    (n : ℕ) (b : Bool) (x y : Reader) → Within n x → Within n y → Within n (if b then x else y)
if_reader-Within n true x y hx hy = hx
if_reader-Within n false x y hx hy = hy

pub err_case-Within :
    (n : ℕ) (o : Option Error) (r x : Reader)
    → Within n r
    → Within n x
    → Within n (elim o as (λ _. Reader) [ some e ↦ r | none ↦ x ])
err_case-Within n none r x hr hx = hx
err_case-Within n (some e) r x hr hx = hr

pub if-Safe {ℓ} :
    {A : Type ℓ} {m : ℕ} (b : Bool) {p q : R A} → Safe m p → Safe m q → Safe m (if b then p else q)
if-Safe true hp hq = hp
if-Safe false hp hq = hq

pub bind-Eats {ℓ κ} :
    {A : Type ℓ} {B : Type κ} {m : ℕ} {p : R A} {f : A → R B}
    → Eats m p
    → ((a : A) → Safe m (f a))
    → Safe (suc m) (p >>= f)
unfolding ◌>>=◌
bind-Eats {p} {f} hp hf = record {
  keeps = λ n r le w.
      Within-mono (omega arith)
        ((hf (p r).0).keeps (n - 1) (p r).1 (omega arith) (hp.eats n r le w));
}
