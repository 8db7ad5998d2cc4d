-- ===== src/Driver/Streaming.antt =====
-- driver/quack/session.go: reading a result chunk by chunk against draining it.
use adbc_driver_quack.Base.{
  ℕ, zero, suc, ◌≡◌, refl, ap, sym, ◌∙◌, true, none, some, List, [], ◌∷◌, ◌++◌, ◌⊎◌, inl, inr,
  if◌then◌else◌, is_empty, arith,
}
use adbc_driver_quack.Driver.Session.{
  SessionError, Session, Cursor, Send, fetch_more, take_chunk, next_chunk, drain_loop, drain_all,
}

-- What is left of draining, with a chunk in front of its chunks.
abbrev pub prepend_chunk :
    {S D : Type 0}
    → D
    → (SessionError ⊎ List D) × (Cursor D × Session S)
    → (SessionError ⊎ List D) × (Cursor D × Session S)
prepend_chunk d (inl e, rest) = (inl e, rest)
prepend_chunk d (inr ds, rest) = (inr (d ∷ ds), rest)

module _ {S D : Type 0} (send : Send S D) where
  loop-prepend_chunk :
      (fuel : ℕ) (d : D) (out : List D) (c : Cursor D) (s : Session S)
      → drain_loop send fuel (d ∷ out) c s ≡ prepend_chunk d (drain_loop send fuel out c s)
  unfolding drain_loop
  loop-prepend_chunk zero d out c s = ground arith
  loop-prepend_chunk (suc fuel) d out c s =
      let (err, (c', s')) = fetch_more send c s in
      ground
        (arith, loop-prepend_chunk fuel d (out ++ c'.buffered) (record c' { buffered = [] }) s')

  -- A chunk that is in the buffer.
  drain-buffered :
      (fuel : ℕ) (c : Cursor D) (s : Session S) (d : D) (ds : List D)
      → c.buffered ≡ d ∷ ds
      → drain_all send fuel c s
        ≡ prepend_chunk d (drain_all send fuel (record c { buffered = ds }) s)
  unfolding drain_all
  drain-buffered fuel c s d ds e =
      rw e (loop-prepend_chunk fuel d ds (record c { buffered = [] }) s)

  -- The buffer is empty and the server has more.
  drain-fetched :
      (fuel : ℕ) (c c' : Cursor D) (s s' : Session S)
      → c.buffered ≡ []
      → c.needs_more ≡ true
      → fetch_more send c s ≡ (none, (c', s'))
      → drain_all send (suc fuel) c s ≡ drain_all send fuel c' s'
  unfolding drain_all drain_loop
  drain-fetched fuel c c' s s' e m f =
      let fetched : fetch_more send (record c { buffered = [] }) s ≡ (none, (c', s')) =
        ap (λ b. fetch_more send (record c { buffered = b }) s) (sym e) ∙ f in
      ground (arith, m, fetched)

  take-drains :
      (fuel : ℕ) (c c' : Cursor D) (s s' : Session S) (d : D)
      → take_chunk send c s ≡ (inr (some d), (c', s'))
      → drain_all send fuel c s ≡ prepend_chunk d (drain_all send fuel c' s')
  unfolding take_chunk
  take-drains fuel c c' s s' d h = go c.buffered refl
    where
      go :
          (b : List D)
          → c.buffered ≡ b
          → drain_all send fuel c s ≡ prepend_chunk d (drain_all send fuel c' s')
      go [] e = ground (arith, h, e)
      go (x ∷ ds) e = ground (arith, h, e, drain-buffered fuel c s x ds e)

  -- The fuel that is left when `nextChunk` has returned: a fetch takes one.
  abbrev pub fuel_left : Cursor D → ℕ → ℕ
  fuel_left c fuel = if is_empty c.buffered then fuel else suc fuel

  -- Where `nextChunk` returns a chunk, `drainAll` from the same state returns that chunk first, and
  -- then what it returns from the state that `nextChunk` leaves, errors included. Where `nextChunk`
  -- returns none this says nothing: after a response that holds no chunk and promises more, `drainAll`
  -- goes on and `nextChunk` does not.
  pub drain_all-next_chunk :
      (fuel : ℕ) (c c' : Cursor D) (s s' : Session S) (d : D)
      → next_chunk send c s ≡ (inr (some d), (c', s'))
      → drain_all send (suc fuel) c s ≡ prepend_chunk d (drain_all send (fuel_left c fuel) c' s')
  unfolding next_chunk
  drain_all-next_chunk fuel c c' s s' d h =
      let (err, (c1, s1)) = fetch_more send c s in
      ground (
        arith,
        take-drains (suc fuel) c c' s s' d,
        take-drains fuel c1 c' s1 s' d,
        drain-fetched fuel c c1 s s1,
      )
