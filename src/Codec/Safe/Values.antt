-- ===== src/Codec/Safe/Values.antt =====
-- internal/codec/binary_reader.go: what the reads of numbers, strings and lists keep.
use adbc_driver_quack.Base.{
  ℕ, zero, suc, ◌+◌, ◌*◌, ◌%◌, ◌^◌, ◌≡◌, ◌-◌, Bool, true, false, not, ◌&&◌, ◌||◌, none, some,
  is_some, List, [], ◌∷◌, ◌++◌, ltb, ◌==◌, if◌then◌else◌, bit_and, bit_or, refl,
}
use adbc_driver_quack.Codec.Fault.{Cause, invalid_bool, too_long, exceeds_max_int, max_int}
use adbc_driver_quack.Codec.Reader.{
  Reader, R, fail, read_byte, read_bool, uleb128_loop, read_uleb128, read_uleb128_int, read_string,
  list_loop, read_list, read_nullable, read_uleb128_big_int,
}
use adbc_driver_quack.Codec.Safe.{
  is_out_of_fuel, Safe, pure-Safe, bind-Safe, unless_failed-Safe, unless_failed-Within,
  fail_if-Within, fail-Within,
}
use adbc_driver_quack.Codec.Safe.Bytes.{read_byte-Safe, read_bytes-Safe}

module _ {m : ℕ} where
  -- A failure where a test holds.
  fail_if-Safe {ℓ} :
      {A : Type ℓ} (b : Bool) (z a : A) (c : Cause) (at : Reader → ℕ)
      → is_out_of_fuel c ≡ false
      → Safe m (λ r. if b then (z, fail c (at r) r) else (a, r))
  fail_if-Safe b z a c at h = record {
    keeps =
        λ n r le w. fail_if-Within n b (z, fail c (at r) r) (a, r) (fail-Within n c (at r) r h) w;
  }

  pub read_bool-Safe : Safe m read_bool
  unfolding read_bool
  read_bool-Safe = bind-Safe read_byte-Safe λ b. unless_failed-Safe false (
      fail_if-Safe (not (b == 0) && not (b == 1)) false (b == 1) (invalid_bool b)
        (λ r. r.offset - 1) refl)

  uleb128_loop-Safe : (rounds result shift : ℕ) → Safe m (uleb128_loop rounds result shift)
  unfolding uleb128_loop
  uleb128_loop-Safe zero result shift = record {
    keeps = λ n r le w. fail-Within n too_long r.offset r refl;
  }
  uleb128_loop-Safe (suc rounds) result shift = record {
    keeps = λ n r le w.
        let b = (read_byte r).0 in
        let result' = bit_or result (bit_and b 0x7F * 2 ^ shift % 2 ^ 64) in
        let w' = read_byte-Safe.keeps n r le w in
        unless_failed-Within n 0 _ (read_byte r).1 w' (
          fail_if-Within n (bit_and b 0x80 == 0) (result', (read_byte r).1)
            (uleb128_loop rounds result' (shift + 7) (read_byte r).1) w'
            ((uleb128_loop-Safe rounds result' (shift + 7)).keeps n (read_byte r).1 le w'));
  }

  pub read_uleb128-Safe : Safe m read_uleb128
  unfolding read_uleb128
  read_uleb128-Safe = uleb128_loop-Safe 10 0 0

  pub read_uleb128_int-Safe : Safe m read_uleb128_int
  unfolding read_uleb128_int
  read_uleb128_int-Safe = bind-Safe read_uleb128-Safe λ v.
      unless_failed-Safe 0
        (fail_if-Safe (ltb max_int v) 0 v (exceeds_max_int v) (λ r. r.offset) refl)

  pub read_uleb128_big_int-Safe : Safe m read_uleb128_big_int
  unfolding read_uleb128_big_int
  read_uleb128_big_int-Safe =
      bind-Safe read_uleb128-Safe λ v. unless_failed-Safe none (pure-Safe (some v))

  pub read_string-Safe : Safe m read_string
  unfolding read_string
  read_string-Safe = bind-Safe read_uleb128_int-Safe λ k. unless_failed-Safe [] (read_bytes-Safe k)

  list_loop-Safe {ℓ} :
      {A : Type ℓ} {read : ℕ → R A}
      → ((i : ℕ) → Safe m (read i))
      → (left i : ℕ) (out : List A) → Safe m (list_loop read left i out)
  unfolding list_loop
  list_loop-Safe h zero i out = pure-Safe out
  list_loop-Safe h (suc left) i out =
      bind-Safe (h i) λ v. unless_failed-Safe [] (list_loop-Safe h left (i + 1) (out ++ (v ∷ [])))

  pub read_list-Safe {ℓ} :
      {A : Type ℓ} {read : ℕ → R A} → ((i : ℕ) → Safe m (read i)) → Safe m (read_list read)
  unfolding read_list
  read_list-Safe h =
      bind-Safe read_uleb128_int-Safe λ n. unless_failed-Safe [] (list_loop-Safe h n 0 [])

  pub read_nullable-Safe {ℓ} :
      {A : Type ℓ} (z : A) {p : R A} → Safe m p → Safe m (read_nullable z p)
  unfolding read_nullable
  read_nullable-Safe z {p} hp = record {
    keeps = λ n r le w.
        let w' = read_bool-Safe.keeps n r le w in
        fail_if-Within n (is_some (read_bool r).1.err || not (read_bool r).0)
          ((z, false), (read_bool r).1) (((p (read_bool r).1).0, true), (p (read_bool r).1).1) w'
          (hp.keeps n (read_bool r).1 le w');
  }
