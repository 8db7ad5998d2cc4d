-- ===== src/Codec/Writes.antt =====
-- What each write appends, whatever the writer holds; a writer with an error is left alone.
use adbc_driver_quack.Base.{
  ℕ, ◌^◌, ◌<◌, ◌≡◌, refl, ap, ◌∙◌, sym, none, List, [], ◌∷◌, ◌++◌, append_assoc, append-nil, length,
  Bool, true, false, if◌then◌else◌, arith,
}
use adbc_driver_quack.Codec.Fault.{field_end}
use adbc_driver_quack.Codec.Writer.{
  Writer, write_bytes, le_bytes, write_field_id, write_object, write_field, write_bool,
  write_uleb128, write_sleb128, write_string, append_groups, new_binary_writer,
}
use adbc_driver_quack.Codec.Leb.{uleb, sleb, uleb128_groups_lem, sleb128_groups_lem}

-- `f` appends `bs`.
pub record Writes (f : Writer → Writer) (bs : List ℕ) : Type 0 where
  pub run : (w : Writer) → f w ≡ write_bytes bs w

pub write_bytes-append :
    (bs cs : List ℕ) (w : Writer) → write_bytes cs (write_bytes bs w) ≡ write_bytes (bs ++ cs) w
unfolding write_bytes
write_bytes-append bs cs w = ground (arith, append_assoc w.buf bs cs)

pub write_bytes-nil : (w : Writer) → write_bytes [] w ≡ w
unfolding write_bytes
write_bytes-nil w = ground (arith, append-nil w.buf)

-- A new writer holds nothing, and no error.
pub Writes-new :
    {f : Writer → Writer} {bs : List ℕ}
    → Writes f bs
    → f new_binary_writer ≡ record { buf = bs; err = none }
unfolding write_bytes new_binary_writer
Writes-new h = h.run new_binary_writer

pub Writes-bytes : (bs : List ℕ) → Writes (write_bytes bs) bs
Writes-bytes bs = record { run = λ w. refl }

pub Writes-skip : Writes (λ w. w) []
Writes-skip = record { run = λ w. sym (write_bytes-nil w) }

-- One write after another.
pub Writes-then :
    {f g : Writer → Writer} {bs cs : List ℕ}
    → Writes f bs
    → Writes g cs
    → Writes (λ w. g (f w)) (bs ++ cs)
Writes-then {g} {bs} {cs} hf hg = record {
  run = λ w. ap g (hf.run w) ∙ (hg.run (write_bytes bs w) ∙ write_bytes-append bs cs w);
}

pub Writes-field_id : (id : ℕ) → Writes (write_field_id id) (le_bytes 2 id)
unfolding write_field_id
Writes-field_id id = record { run = λ w. refl }

pub Writes-field :
    (id : ℕ) {f : Writer → Writer} {bs : List ℕ}
    → Writes f bs
    → Writes (write_field id f) (le_bytes 2 id ++ bs)
unfolding write_field
Writes-field id h = Writes-then (Writes-field_id id) h

pub Writes-object :
    {f : Writer → Writer} {bs : List ℕ}
    → Writes f bs
    → Writes (write_object f) (bs ++ le_bytes 2 field_end)
unfolding write_object
Writes-object h = Writes-then h (Writes-field_id field_end)

pub Writes-bool : (b : Bool) → Writes (write_bool b) (if b then 1 ∷ [] else 0 ∷ [])
unfolding write_bool
Writes-bool true = Writes-bytes (1 ∷ [])
Writes-bool false = Writes-bytes (0 ∷ [])

pub Writes-uleb128 : (v : ℕ) → v < 2 ^ 64 → Writes (write_uleb128 v) (uleb v)
unfolding write_uleb128 uleb
Writes-uleb128 v h = record {
  run = λ w. ap (λ g. append_groups g w) (uleb128_groups_lem 9 v h (omega arith));
}

pub Writes-sleb128 : (v : ℕ) → v < 2 ^ 64 → Writes (write_sleb128 v) (sleb v)
unfolding write_sleb128 sleb
Writes-sleb128 v h = record {
  run = λ w. ap (λ g. append_groups g w) (sleb128_groups_lem 9 v h (omega arith) (ground arith));
}

pub Writes-string :
    (s : List ℕ) → length s < 2 ^ 64 → Writes (write_string s) (uleb (length s) ++ s)
unfolding write_string
Writes-string s h = Writes-then (Writes-uleb128 (length s) h) (Writes-bytes s)
