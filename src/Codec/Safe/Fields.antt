-- ===== src/Codec/Safe/Fields.antt =====
-- internal/codec/binary_reader.go: what the reads of objects and their fields keep.
use adbc_driver_quack.Base.{ℕ, ◌-◌, refl, not, ◌||◌, is_some, ◌==◌, if◌then◌else◌, arith}
use adbc_driver_quack.Codec.Fault.{not_end_of_object, trailing_bytes, field_end}
use adbc_driver_quack.Codec.Reader.{
  Reader, R, ◌>>=◌, fail, read_field_id, peek_field_id, read_end_object, read_object,
  read_required_field, read_optional_field, assert_eof, at_eof, remaining,
}
use adbc_driver_quack.Codec.Safe.{
  Within, Safe, Eats, pure-Safe, bind-Safe, unless_failed-Safe, fail-Within, Eats-Safe,
  fail_if-Within, if_reader-Within, err_case-Within,
}
use adbc_driver_quack.Codec.Safe.Bytes.{read_field_id-Eats, peek_field_id-Within}

pub read_required_field-Eats {ℓ} :
    {A : Type ℓ} {m : ℕ} (z : A) (id : ℕ) {p : R A} → Safe m p → Eats m (read_required_field z id p)
unfolding read_required_field ◌>>=◌
read_required_field-Eats {m} z id {p} hp = record {
  eats = λ n r le w.
      (unless_failed-Safe {m = m} z (record {
        keeps = λ n' r' le' w'.
            fail_if-Within n' _ _ _ (hp.keeps n' r' le' w') (fail-Within n' _ _ r' refl);
      })).keeps
        (n - 1) (read_field_id r).1 (omega arith) (read_field_id-Eats.eats n r le w);
}

pub read_optional_field-Safe {ℓ} :
    {A : Type ℓ} {m : ℕ} (id : ℕ) {p : R A} (default : A)
    → Safe m p
    → Safe m (read_optional_field id p default)
unfolding read_optional_field
read_optional_field-Safe id {p} default hp = record {
  keeps = λ n r le w.
      let peeked = peek_field_id-Within n r w in
      fail_if-Within n (is_some r.err || at_eof r) (default, r)
        (if (peek_field_id r).0 == id
          then p (read_field_id (peek_field_id r).1).1
          else (default, (peek_field_id r).1))
        w
        (fail_if-Within n ((peek_field_id r).0 == id) (p (read_field_id (peek_field_id r).1).1)
          (default, (peek_field_id r).1)
          (hp.keeps n (read_field_id (peek_field_id r).1).1 le
            ((Eats-Safe read_field_id-Eats).keeps n (peek_field_id r).1 le peeked))
          peeked);
}

read_end_object-Within : (n : ℕ) (r : Reader) → Within n r → Within n (read_end_object r)
unfolding read_end_object
read_end_object-Within n r w =
    let ended = (Eats-Safe {m = n} read_field_id-Eats).keeps n r (omega arith) w in
    let r' = (read_field_id r).1 in
    let bad = fail (not_end_of_object (read_field_id r).0) (r'.offset - 2) r' in
    err_case-Within n r'.err r' (if (read_field_id r).0 == field_end then r' else bad) ended (
      if_reader-Within n ((read_field_id r).0 == field_end) r' bad ended
        (fail-Within n (not_end_of_object (read_field_id r).0) (r'.offset - 2) r' refl))

pub read_object-Safe {ℓ} :
    {A : Type ℓ} {m : ℕ} (z : A) {p : R A} → Safe m p → Safe m (read_object z p)
unfolding read_object
read_object-Safe z hp = bind-Safe hp λ v. unless_failed-Safe z (record {
  keeps = λ n r le w.
      (unless_failed-Safe z (pure-Safe v)).keeps n (read_end_object r) le
        (read_end_object-Within n r w);
})

pub assert_eof-Within : (n : ℕ) (r : Reader) → Within n r → Within n (assert_eof r)
unfolding assert_eof
assert_eof-Within n r w = err_case-Within n r.err r _ w (
    if_reader-Within n (not (at_eof r)) (fail (trailing_bytes (remaining r)) r.offset r) r
      (fail-Within n (trailing_bytes (remaining r)) r.offset r refl) w)

pub read_required_field-Safe {ℓ} :
    {A : Type ℓ} {m : ℕ} (z : A) (id : ℕ) {p : R A} → Safe m p → Safe m (read_required_field z id p)
read_required_field-Safe z id hp = Eats-Safe (read_required_field-Eats z id hp)
