-- ===== src/Parallel/Writer/Chunk.antt =====
-- What reading a chunk does to the counters of zupt_compress_files in src/zupt_format.c.
use libvuptsdk.Common.{
  ℕ, zero, suc, ◌+◌, ◌-◌, ◌*◌, ◌%◌, ◌^◌, ◌<◌, ◌≤◌, ◌≡◌, sym, ap, ap₂, ◌∙◌, arith, List, ◌++◌, false,
  some, ltb, ◌==◌, if◌then◌else◌, ◌⊎◌, inl, inr, length, after_some, some-injective,
}
use libvuptsdk.Wire.Stream.{fread, fread-split, length-fread}
use libvuptsdk.Parallel.Writer.{ZuptOptions, Reading, read_chunk}

-- What read_chunk does to the counters.
pub record IsRead (xxh64 : List ℕ → ℕ → ℕ) (opts : ZuptOptions) (r r' : Reading) (rbuf : List ℕ)
    : Type 0 where
  pub split : r.inf ≡ rbuf ++ r'.inf
  pub left : length rbuf + r'.remaining ≡ r.remaining
  pub small : length rbuf ≤ opts.block_size
  pub there : 0 < length rbuf
  pub whole : (r'.remaining ≡ 0) ⊎ (length rbuf ≡ opts.block_size)
  pub seq : r'.block_seq ≡ (r.block_seq + 1) % 2 ^ 64
  pub hash : r'.file_hash_state ≡ xxh64 rbuf r.file_hash_state

pub read_chunk-IsRead :
    (xxh64 : List ℕ → ℕ → ℕ) (opts : ZuptOptions) (r r' : Reading) (rbuf : List ℕ)
    → 0 < opts.block_size
    → (r.remaining == 0) ≡ false
    → read_chunk xxh64 opts r ≡ some (rbuf, r')
    → IsRead xxh64 opts r r' rbuf
unfolding read_chunk
read_chunk-IsRead xxh64 opts r r' rbuf h more e =
    let chunk = if ltb r.remaining opts.block_size then r.remaining else opts.block_size in
    after_some (fread chunk r.inf) _ e λ read e1 k1.
      let same = some-injective k1 in
      let bytes : read.0 ≡ rbuf = ap (λ (x : List ℕ × Reading). x.0) same in
      let behind : read.1 ≡ r'.inf = ap (λ (x : List ℕ × Reading). x.1.inf) same in
      let rest : r.remaining - chunk ≡ r'.remaining =
        ap (λ (x : List ℕ × Reading). x.1.remaining) same in
      let size : length rbuf ≡ chunk =
        ap (λ (l : List ℕ). length l) (sym bytes) ∙ length-fread chunk r.inf read.0 read.1 e1 in
      let there : 0 < r.remaining = ground arith in
      record {
        split =
            fread-split chunk r.inf read.0 read.1 e1 ∙ ap₂ (λ (a b : List ℕ). a ++ b) bytes behind;
        left = ground arith;
        small = ground arith;
        there = ground arith;
        whole = ground arith;
        seq = sym (ap (λ (x : List ℕ × Reading). x.1.block_seq) same);
        hash =
            sym (ap (λ (x : List ℕ × Reading). x.1.file_hash_state) same)
            ∙ ap (λ (l : List ℕ). xxh64 l r.file_hash_state) bytes;
      }

-- Few enough blocks are left for their sequence numbers to be different.
abbrev pub HasFew : ZuptOptions → Reading → Type 0
HasFew opts r = (k : ℕ) × (r.remaining ≤ k * opts.block_size) × (r.block_seq + k ≤ 2 ^ 32)

pub read_chunk-HasFew :
    (xxh64 : List ℕ → ℕ → ℕ) (opts : ZuptOptions) (r r' : Reading) (rbuf : List ℕ)
    → 0 < opts.block_size
    → (r.remaining == 0) ≡ false
    → read_chunk xxh64 opts r ≡ some (rbuf, r')
    → HasFew opts r
    → HasFew opts r' × (r.block_seq < 2 ^ 32) × (r'.block_seq ≡ r.block_seq + 1)
read_chunk-HasFew xxh64 opts r r' rbuf h more e (zero, left, few) =
    let nothing : 0 * opts.block_size ≡ 0 = omega arith in absurd (ground (arith, nothing))
read_chunk-HasFew xxh64 opts r r' rbuf h more e (suc k, left, few) =
    let read = read_chunk-IsRead xxh64 opts r r' rbuf h more e in
    let product : suc k * opts.block_size ≡ k * opts.block_size + opts.block_size = omega arith in
    let fewer : r'.remaining ≤ k * opts.block_size = elim read.whole [
      | inl last ↦ omega (arith, last)
      | inr full ↦ omega (arith, full, read.left, product)
    ] in
    let small : (r.block_seq + 1) % 2 ^ 64 ≡ r.block_seq + 1 = omega arith in
    ((k, fewer, omega (arith, read.seq, small)), omega arith, read.seq ∙ small)
