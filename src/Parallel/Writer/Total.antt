-- ===== src/Parallel/Writer/Total.antt =====
-- The loop with one thread in zupt_compress_files of src/zupt_format.c ends well where the input is
-- there and the cipher answers.
use mathlib.Core.Path.{subst}
use libvuptsdk.Common.{
  ℕ, zero, suc, ◌+◌, ◌-◌, ◌≤◌, ◌≡◌, refl, ap, arith, List, false, ◌&&◌, Option, some, none, ◌>>=◌,
  ◌==◌, ltb, if◌then◌else◌, if-elim, length, length-append, take, drop, after_some, some-injective,
  ◌∙◌,
}
use libvuptsdk.Wire.Stream.{fread, fread-split, length-fread}
use libvuptsdk.Archive.Trailer.{Digests}
use libvuptsdk.Archive.Cipher.{Cipher}
use libvuptsdk.Parallel.Worker.{Compressors}
use libvuptsdk.Parallel.Writer.{
  ZuptOptions, Reading, Writing, logical_aad_seq, read_chunk, serial_payload, serial_seal,
  serial_frame, serial_block, serial_loop,
}

abbrev pub IsGiven {ℓ} : {A : Type ℓ} → Option A → Type ℓ
IsGiven {A = A} o = (a : A) × (o ≡ some a)

bind-IsGiven {ℓ κ} :
    {A : Type ℓ} {B : Type κ} (o : Option A) (f : A → Option B)
    → IsGiven o
    → ((a : A) → o ≡ some a → IsGiven (f a))
    → IsGiven (o >>= f)
bind-IsGiven none f (a, e) k = cc
bind-IsGiven (some a) f h k = k a refl

-- Encryption with the keys in use gives a message.
abbrev pub IsAnswering : Cipher → ZuptOptions → Type 0
IsAnswering cipher opts =
    (message : List ℕ) (seq : ℕ) (aad : Option (List ℕ))
    → IsGiven (cipher.encrypt opts.keyring message seq aad)

read_chunk-IsGiven :
    (xxh64 : List ℕ → ℕ → ℕ) (opts : ZuptOptions) (r : Reading)
    → r.remaining ≤ length r.inf
    → IsGiven (read_chunk xxh64 opts r)
unfolding read_chunk fread
read_chunk-IsGiven xxh64 opts r there =
    let chunk = if ltb r.remaining opts.block_size then r.remaining else opts.block_size in
    let enough : ltb (length r.inf) chunk ≡ false = ground arith in
    bind-IsGiven (fread chunk r.inf) _ ((take chunk r.inf, drop chunk r.inf), rw enough refl)
      (λ read e. (_, refl))

read_chunk_left :
    (xxh64 : List ℕ → ℕ → ℕ) (opts : ZuptOptions) (r : Reading) (x : List ℕ × Reading)
    → r.remaining ≤ length r.inf
    → read_chunk xxh64 opts r ≡ some x
    → x.1.remaining ≤ length x.1.inf
unfolding read_chunk
read_chunk_left xxh64 opts r x there e =
    let chunk = if ltb r.remaining opts.block_size then r.remaining else opts.block_size in
    after_some (fread chunk r.inf) _ e λ read e1 k1.
      let same = some-injective k1 in
      let behind : read.1 ≡ x.1.inf = ap (λ (x : List ℕ × Reading). x.1.inf) same in
      let rest : r.remaining - chunk ≡ x.1.remaining =
        ap (λ (x : List ℕ × Reading). x.1.remaining) same in
      let total : length r.inf ≡ length read.0 + length read.1 =
        ap (λ (l : List ℕ). length l) (fread-split chunk r.inf read.0 read.1 e1)
        ∙ length-append read.0 read.1 in
      omega (
        arith,
        total,
        rest,
        ap (λ (l : List ℕ). length l) behind,
        length-fread chunk r.inf read.0 read.1 e1,
      )

module _ (d : Digests) (cipher : Cipher) (comp : Compressors) (xxh64 : List ℕ → ℕ → ℕ)
    (opts : ZuptOptions) (fi : ℕ) (answers : IsAnswering cipher opts) where
  serial_seal-IsGiven :
      (codec : ℕ) (payload : List ℕ) (nread checksum seq : ℕ)
      → IsGiven (serial_seal d cipher opts codec payload nread checksum seq)
  unfolding serial_seal
  serial_seal-IsGiven codec payload nread checksum seq =
      if-elim IsGiven (opts.encrypt && opts.keyring.active)
        (λ on.
          bind-IsGiven (cipher.encrypt opts.keyring payload seq _) _ (answers payload seq _)
            (λ enc e. (_, refl)))
        (λ off. (_, refl))

  serial_frame-IsGiven :
      (rbuf : List ℕ) (seq : ℕ) → IsGiven (serial_frame d cipher opts comp rbuf seq)
  unfolding serial_frame
  serial_frame-IsGiven rbuf seq =
      let chosen = serial_payload comp opts.codec_id rbuf opts.level in
      bind-IsGiven (serial_seal d cipher opts chosen.0 chosen.1 (length rbuf) (d.xxh64 rbuf) seq) _
        (serial_seal-IsGiven chosen.0 chosen.1 (length rbuf) (d.xxh64 rbuf) seq)
        (λ sealed e. (_, refl))

  serial_block-IsGiven :
      (r : Reading) (w : Writing)
      → r.remaining ≤ length r.inf
      → IsGiven (serial_block d cipher comp xxh64 opts fi r w)
  unfolding serial_block
  serial_block-IsGiven r w there =
      bind-IsGiven (read_chunk xxh64 opts r) _ (read_chunk-IsGiven xxh64 opts r there) λ x e.
        bind-IsGiven (serial_frame d cipher opts comp x.0 (logical_aad_seq fi r.block_seq)) _
          (serial_frame-IsGiven x.0 (logical_aad_seq fi r.block_seq)) (λ b e'. (_, refl))

  block_left :
      (r : Reading) (w : Writing) (next : Reading × Writing)
      → r.remaining ≤ length r.inf
      → serial_block d cipher comp xxh64 opts fi r w ≡ some next
      → next.0.remaining ≤ length next.0.inf
  unfolding serial_block
  block_left r w next there e = after_some (read_chunk xxh64 opts r) _ e λ x e1 k1.
      after_some (serial_frame d cipher opts comp x.0 (logical_aad_seq fi r.block_seq)) _ k1
        λ b e2 k2.
          subst (λ (n : Reading × Writing). n.0.remaining ≤ length n.0.inf) (some-injective k2)
            (read_chunk_left xxh64 opts r x there e1)

  -- No round fails.
  pub serial_loop-IsGiven :
      (fuel : ℕ) (r : Reading) (w : Writing)
      → r.remaining ≤ length r.inf
      → IsGiven (serial_loop d cipher comp xxh64 opts fi fuel r w)
  unfolding serial_loop
  serial_loop-IsGiven zero r w there = (_, refl)
  serial_loop-IsGiven (suc fuel) r w there =
      if-elim IsGiven (r.remaining == 0) (λ over. (_, refl))
        (λ more.
          bind-IsGiven (serial_block d cipher comp xxh64 opts fi r w) _
            (serial_block-IsGiven r w there)
            (λ next e. serial_loop-IsGiven fuel next.0 next.1 (block_left r w next there e)))
