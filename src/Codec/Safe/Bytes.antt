-- ===== src/Codec/Safe/Bytes.antt =====
-- internal/codec/binary_reader.go: what the reads of bytes keep.
use adbc_driver_quack.Base.{
  ℕ, ◌+◌, ◌-◌, ◌^◌, ◌≤◌, ◌<◌, ◌≡◌, refl, ap, ◌∙◌, Bool, true, false, Bool-cases, none, some, List,
  [], length, length-drop, take, ◌⊎◌, inl, inr, ltb, leb, if◌then◌else◌, arith,
}
use adbc_driver_quack.Codec.Fault.{Error, end_of_input, panicked}
use adbc_driver_quack.Codec.Reader.{
  Reader, ◌>>=◌, fail, past_end, ensure, advance, read_le, le_value, read_field_id, peek_field_id,
  read_byte, read_bytes, remaining,
}
use adbc_driver_quack.Codec.Safe.{
  Within, healthy, failed, Safe, Eats, Within-mono, moved, fail-Within, fail_if-Within,
}

ensure-cases :
    (k : ℕ) (r : Reader)
    → k ≤ 16
    → r.err ≡ none
    → r.offset + length r.rest + 16 < 2 ^ 63
    → ((ensure k r ≡ (true, r)) × (k ≤ length r.rest))
      ⊎ (ensure k r ≡ (false, fail (end_of_input k (remaining r)) r.offset r))
unfolding ensure past_end
ensure-cases k r small h fits = elim (Bool-cases (past_end k r)) [
  | inl past ↦ inr (ground (arith, h, past))
  | inr inside ↦ inl (ground (arith, h, inside), ground (arith, inside))
]

-- `readLE` behind its `ensure`
abbrev taken : ℕ → Bool × Reader → ℕ × Reader
taken k x = if x.0 then (le_value k x.1.rest, advance k x.1) else (0, x.1)

ensure_failed : (k : ℕ) (r : Reader) (e : Error) → r.err ≡ some e → ensure k r ≡ (false, r)
unfolding ensure
ensure_failed k r e h = ground (arith, h)

read_le-taken : (k : ℕ) (r : Reader) → read_le k r ≡ taken k (ensure k r)
unfolding read_le ◌>>=◌
read_le-taken k r = refl

advance-Within :
    (k n : ℕ) (r : Reader)
    → r.err ≡ none
    → length r.rest < n
    → r.offset + length r.rest + 16 < 2 ^ 63
    → k ≤ length r.rest
    → Within (n - k) (advance k r)
advance-Within k n r h lt fits le =
    healthy h (omega (arith, length-drop {0} k r.rest)) (omega (arith, length-drop {0} k r.rest))

read_le-eats : (k n : ℕ) (r : Reader) → k ≤ 16 → Within n r → Within (n - k) (read_le k r).1
read_le-eats k n r small (failed e h c) =
    moved (read_le-taken k r ∙ ap (taken k) (ensure_failed k r e h)) (failed e h c)
read_le-eats k n r small (healthy h lt fits) = elim (ensure-cases k r small h fits) [
  | inl (e, le) ↦ moved (read_le-taken k r ∙ ap (taken k) e) (advance-Within k n r h lt fits le)
  | inr e ↦ moved (read_le-taken k r ∙ ap (taken k) e) (fail-Within (n - k) _ _ r refl)
]

-- Where all is read with a length that may wrap, the reader is as it was or fails.
ensure-any :
    (k : ℕ) (r : Reader)
    → r.err ≡ none
    → (ensure k r ≡ (true, r))
      ⊎ (ensure k r ≡ (false, fail (end_of_input k (remaining r)) r.offset r))
unfolding ensure
ensure-any k r h = elim (Bool-cases (past_end k r)) [
  | inl past ↦ inr (ground (arith, h, past))
  | inr inside ↦ inl (ground (arith, h, inside))
]

pub read_field_id-Eats : {m : ℕ} → Eats m read_field_id
unfolding read_field_id
read_field_id-Eats = record {
  eats = λ n r le w. Within-mono (omega arith) (read_le-eats 2 n r (omega arith) w);
}

pub read_byte-Safe : {m : ℕ} → Safe m read_byte
unfolding read_byte
read_byte-Safe = record {
  keeps = λ n r le w. Within-mono (omega arith) (read_le-eats 1 n r (omega arith) w);
}

-- `PeekFieldID` behind its `ensure`
abbrev peeked : Bool × Reader → ℕ × Reader
peeked x = if x.0 then (le_value 2 x.1.rest, x.1) else (0, x.1)

pub peek_field_id-Within : (n : ℕ) (r : Reader) → Within n r → Within n (peek_field_id r).1
unfolding peek_field_id ◌>>=◌
peek_field_id-Within n r (failed e h c) = moved (ap peeked (ensure_failed 2 r e h)) (failed e h c)
peek_field_id-Within n r (healthy h lt fits) = elim (ensure-any 2 r h) [
  | inl e ↦ moved (ap peeked e) (healthy h lt fits)
  | inr e ↦ moved (ap peeked e) (fail-Within n _ _ r refl)
]

-- `ReadBytes`: also where its test wraps.
pub read_bytes-Safe : {m : ℕ} (k : ℕ) → Safe m (read_bytes k)
unfolding read_bytes
read_bytes-Safe k = record {
  keeps =
      λ n r le w. fail_if-Within n (leb (2 ^ 63) k) _ _ (fail-Within n _ _ r refl) (behind n r w);
}
  where
    after : Bool × Reader → List ℕ × Reader
    after x =
        if x.0
        then if ltb (length x.1.rest) k
          then ([], fail panicked x.1.offset x.1)
          else (take k x.1.rest, advance k x.1)
        else ([], x.1)

    behind : (n : ℕ) (r : Reader) → Within n r → Within n (after (ensure k r)).1
    behind n r (failed e h c) = moved (ap after (ensure_failed k r e h)) (failed e h c)
    behind n r (healthy h lt fits) = elim (ensure-any k r h) [
      | inl e ↦ moved (ap after e) (elim (Bool-cases (ltb (length r.rest) k)) [
        | inl short ↦
            moved
              (ap (λ b. if b then ([], fail panicked r.offset r) else (take k r.rest, advance k r))
                short)
              (fail-Within n _ _ r refl)
        | inr long ↦
            moved
              (ap (λ b. if b then ([], fail panicked r.offset r) else (take k r.rest, advance k r))
                long)
              (Within-mono (omega arith) (advance-Within k n r h lt fits (ground (arith, long))))
      ])
      | inr e ↦ moved (ap after e) (fail-Within n _ _ r refl)
    ]
