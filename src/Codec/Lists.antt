-- ===== src/Codec/Lists.antt =====
-- Length-prefixed lists: `WriteList` and `ReadList` over any elements that are written and read.
use adbc_driver_quack.Base.{
  ℕ, ◌+◌, ◌^◌, ◌<◌, ◌≡◌, List, [], ◌∷◌, ◌++◌, append_assoc, append-nil, length, All, arith,
}
use adbc_driver_quack.Codec.Reader.{R, list_loop, read_list}
use adbc_driver_quack.Codec.Reads.{Reads, Reads-bind, Reads-unless_failed, pure-Reads}
use adbc_driver_quack.Codec.Writer
use adbc_driver_quack.Codec.Writer.{Writer, write_bytes, write_items, write_list}
use adbc_driver_quack.Codec.Writes.{Writes, Writes-skip, Writes-then, Writes-uleb128}
use adbc_driver_quack.Codec.Leb.{uleb}
use adbc_driver_quack.Codec.Leb.Unsigned.{read_uleb128_int-Reads}

-- The encodings of the elements, one after the other.
abbrev pub concat_map {ℓ} : {A : Type ℓ} → (A → List ℕ) → List A → List ℕ
concat_map wire [] = []
concat_map wire (x ∷ xs) = wire x ++ concat_map wire xs

continue_at :
    (f : Writer → Writer) (bs : List ℕ) (w : Writer)
    → f w ≡ write_bytes bs w
    → Writer.unless_failed f w ≡ write_bytes bs w
unfolding Writer.unless_failed write_bytes
continue_at f bs w e = ground arith

pub Writes-unless_failed :
    {f : Writer → Writer} {bs : List ℕ} → Writes f bs → Writes (Writer.unless_failed f) bs
Writes-unless_failed {f} {bs} h = record { run = λ w. continue_at f bs w (h.run w) }

module _ {ℓ κ} {A : Type ℓ} (P : A → Type κ) (wire : A → List ℕ) where
  module _ (write_item : ℕ → A → Writer → Writer)
      (writes : (i : ℕ) (x : A) → P x → Writes (write_item i x) (wire x)) where
    Writes-items :
        (i : ℕ) (xs : List A) → All P xs → Writes (write_items write_item i xs) (concat_map wire xs)
    unfolding write_items
    Writes-items i [] h = Writes-skip
    Writes-items i (x ∷ xs) (p, ps) =
        Writes-then (writes i x p) (Writes-unless_failed (Writes-items (i + 1) xs ps))

    -- A list whose elements are written is written behind its length.
    pub Writes-list :
        (xs : List A)
        → length xs < 2 ^ 64
        → All P xs
        → Writes (write_list xs write_item) (uleb (length xs) ++ concat_map wire xs)
    unfolding write_list
    Writes-list xs h ps = Writes-then (Writes-uleb128 (length xs) h) (Writes-items 0 xs ps)

  module _ (read : ℕ → R A) (reads : (i : ℕ) (x : A) → P x → Reads (read i) (wire x) x) where
    Reads-items :
        (i : ℕ) (xs out : List A)
        → All P xs
        → Reads (list_loop read (length xs) i out) (concat_map wire xs) (out ++ xs)
    unfolding list_loop
    Reads-items i [] out h = rw (append-nil out) (pure-Reads out)
    Reads-items i (x ∷ xs) out (p, ps) = Reads-bind _ (reads i x p) (
        Reads-unless_failed []
          (rw (← append_assoc out (x ∷ []) xs) (Reads-items (i + 1) xs (out ++ (x ∷ [])) ps)))

    -- A list whose elements are read is read behind its length.
    pub Reads-list :
        (xs : List A)
        → length xs < 2 ^ 63
        → All P xs
        → Reads (read_list read) (uleb (length xs) ++ concat_map wire xs) xs
    unfolding read_list
    Reads-list xs h ps =
        Reads-bind _ (read_uleb128_int-Reads (length xs) h)
          (Reads-unless_failed [] (Reads-items 0 xs [] ps))
