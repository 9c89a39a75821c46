-- ===== src/Parallel/Writer/Rounds.antt =====
-- The loop with one thread over a file in src/zupt_format.c: rounds that follow each other, and its end.
use libvuptsdk.Common.{
  ℕ, zero, suc, ◌+◌, ◌-◌, ◌<◌, ◌≤◌, ◌≡◌, refl, sym, ap, ◌∙◌, arith, List, Bool, true, false, Option,
  some, none, ◌>>=◌, ◌==◌, ltb, Bool-cases, inl, inr, after_some, some-injective, if◌then◌else◌,
}
use libvuptsdk.Archive.Trailer.{Digests}
use libvuptsdk.Archive.Cipher.{Cipher}
use libvuptsdk.Wire.Stream.{fread}
use libvuptsdk.Parallel.Worker.{Compressors}
use libvuptsdk.Parallel.Writer.{
  ZuptOptions, Reading, Writing, logical_aad_seq, read_chunk, serial_frame, serial_block,
  serial_loop,
}

module _ (d : Digests) (cipher : Cipher) (comp : Compressors) (xxh64 : List ℕ → ℕ → ℕ)
    (opts : ZuptOptions) (fi : ℕ) where
  -- The loop with one thread, and a loop of its result.
  abbrev pub loop : ℕ → Reading → Writing → Option (Reading × Writing)
  loop = serial_loop d cipher comp xxh64 opts fi

  abbrev pub then_loop : ℕ → Option (Reading × Writing) → Option (Reading × Writing)
  then_loop fuel o = o >>= λ (next : Reading × Writing). loop fuel next.0 next.1

  pub loop_over :
      (fuel : ℕ) (r : Reading) (w : Writing)
      → (r.remaining == 0) ≡ true
      → loop fuel r w ≡ some (r, w)
  unfolding serial_loop
  loop_over zero r w over = refl
  loop_over (suc fuel) r w over = rw over refl

  pub loop_more :
      (fuel : ℕ) (r : Reading) (w : Writing)
      → (r.remaining == 0) ≡ false
      → loop (suc fuel) r w ≡ then_loop fuel (serial_block d cipher comp xxh64 opts fi r w)
  unfolding serial_loop
  loop_more fuel r w more = rw more refl

  -- What holds of the rounds from every state holds behind a first round.
  through :
      (n m : ℕ)
      → ((r : Reading) (w : Writing) → then_loop m (loop n r w) ≡ loop (n + m) r w)
      → (o : Option (Reading × Writing)) → then_loop m (then_loop n o) ≡ then_loop (n + m) o
  through n m rest none = refl
  through n m rest (some x) = rest x.0 x.1

  -- Rounds that follow rounds.
  pub loop_join :
      (n m : ℕ) (r : Reading) (w : Writing) → then_loop m (loop n r w) ≡ loop (n + m) r w
  unfolding serial_loop
  loop_join zero m r w = ap (λ (k : ℕ). loop k r w) (omega arith)
  loop_join (suc n) m r w =
      let total : suc n + m ≡ suc (n + m) = omega arith in
      elim (Bool-cases (r.remaining == 0)) [
        | inl over ↦ rw (total, over) (loop_over m r w over)
        | inr more ↦
            rw (total, more)
              (through n m (loop_join n m) (serial_block d cipher comp xxh64 opts fi r w))
      ]

  read_chunk_shrinks :
      (r r' : Reading) (rbuf : List ℕ)
      → 0 < opts.block_size
      → (r.remaining == 0) ≡ false
      → read_chunk xxh64 opts r ≡ some (rbuf, r')
      → r'.remaining < r.remaining
  unfolding read_chunk
  read_chunk_shrinks r r' rbuf h more e =
      let chunk = if ltb r.remaining opts.block_size then r.remaining else opts.block_size in
      after_some (fread chunk r.inf) _ e λ read e1 k1.
        let same : r.remaining - chunk ≡ r'.remaining =
          ap (λ (x : List ℕ × Reading). x.1.remaining) (some-injective k1) in
        let some_chunk : 0 < chunk = ground arith in
        let there : 0 < r.remaining = ground arith in omega arith

  serial_block_shrinks :
      (r : Reading) (w : Writing) (next : Reading × Writing)
      → 0 < opts.block_size
      → (r.remaining == 0) ≡ false
      → serial_block d cipher comp xxh64 opts fi r w ≡ some next
      → next.0.remaining < r.remaining
  unfolding serial_block
  serial_block_shrinks r w next h more e = after_some (read_chunk xxh64 opts r) _ e λ chunk e1 k1.
      after_some (serial_frame d cipher opts comp chunk.0 (logical_aad_seq fi r.block_seq)) _ k1
        λ b e2 k2.
          let same : chunk.1.remaining ≡ next.0.remaining =
            ap (λ (x : Reading × Writing). x.0.remaining) (some-injective k2) in
          let less = read_chunk_shrinks r chunk.1 chunk.0 h more e1 in omega arith

  -- A state from which any two numbers of rounds that are enough give the same.
  then_same :
      (f g : ℕ) (o : Option (Reading × Writing))
      → ((next : Reading × Writing) → o ≡ some next → loop f next.0 next.1 ≡ loop g next.0 next.1)
      → then_loop f o ≡ then_loop g o
  then_same f g none same = refl
  then_same f g (some next) same = same next refl

  -- Enough rounds end the loop, and more of them change nothing.
  pub enough_rounds :
      (f g : ℕ) (r : Reading) (w : Writing)
      → 0 < opts.block_size
      → r.remaining ≤ f
      → r.remaining ≤ g
      → loop f r w ≡ loop g r w
  enough_rounds zero g r w h p q =
      loop_over zero r w (ground arith) ∙ sym (loop_over g r w (ground arith))
  enough_rounds (suc f) zero r w h p q =
      loop_over (suc f) r w (ground arith) ∙ sym (loop_over zero r w (ground arith))
  enough_rounds (suc f) (suc g) r w h p q = elim (Bool-cases (r.remaining == 0)) [
    | inl over ↦ loop_over (suc f) r w over ∙ sym (loop_over (suc g) r w over)
    | inr more ↦
        loop_more f r w more
        ∙ then_same f g (serial_block d cipher comp xxh64 opts fi r w) (λ next e.
          let less = serial_block_shrinks r w next h more e in
          enough_rounds f g next.0 next.1 h (omega arith) (omega arith))
        ∙ sym (loop_more g r w more)
  ]

  -- An archive that is given up, or one where nothing of the file remains.
  abbrev pub has_ended : Option (Reading × Writing) → Bool
  has_ended none = true
  has_ended (some (r, w)) = r.remaining == 0

  then_ended :
      (fuel : ℕ) (o : Option (Reading × Writing))
      → ((next : Reading × Writing) → o ≡ some next → has_ended (loop fuel next.0 next.1) ≡ true)
      → has_ended (then_loop fuel o) ≡ true
  then_ended fuel none ended = refl
  then_ended fuel (some next) ended = ended next refl

  pub loop_ends :
      (fuel : ℕ) (r : Reading) (w : Writing)
      → 0 < opts.block_size
      → r.remaining ≤ fuel
      → has_ended (loop fuel r w) ≡ true
  loop_ends zero r w h p =
      let over : (r.remaining == 0) ≡ true = ground arith in rw (loop_over zero r w over) over
  loop_ends (suc fuel) r w h p = elim (Bool-cases (r.remaining == 0)) [
    | inl over ↦ rw (loop_over (suc fuel) r w over) over
    | inr more ↦ rw (loop_more fuel r w more) (
        then_ended fuel (serial_block d cipher comp xxh64 opts fi r w) (λ next e.
          let less = serial_block_shrinks r w next h more e in
          loop_ends fuel next.0 next.1 h (omega arith)))
  ]
