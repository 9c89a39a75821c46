-- ===== src/Archive/Unpack/RoundTrip.antt =====
-- A block that was packed with the Zupt-LZ codec, encrypted or not, is unpacked to its source.
use libvuptsdk.Common.{
  ℕ, ◌+◌, ◌≤◌, ◌≡◌, refl, ap, arith, List, true, false, Option, some, none, Bool-cases, inl, inr,
  ltb, ◌==◌, ==_iff, length,
}
use libvuptsdk.Lz.{lz_compress, lz_decompress}
use libvuptsdk.Lz.Encode.RoundTrip.{decompress-compress}
use libvuptsdk.Archive.Error.{ok}
use libvuptsdk.Archive.Trailer.{Keyring, Digests, is_active}
use libvuptsdk.Archive.Cipher.{Cipher}
use libvuptsdk.Archive.Block.{Block, max_block_sz}
use libvuptsdk.Archive.Unpack.{
  Codecs, codec_zupt_lz, decode, verified, unpack, open_payload, block_preface, decompress_block,
  is_encrypted,
}

-- The fields of a frame around compressed bytes: as they are, or sealed under the keyring in use.
pub record IsPacked (d : Digests) (cipher : Cipher) (src bytes : List ℕ) (b : Block)
    (kr : Option Keyring) (seq : ℕ) : Type 0 where
  pub codec : b.codec_id ≡ codec_zupt_lz
  pub size : b.uncompressed_size ≡ length src
  pub digest : b.checksum ≡ d.xxh64 src
  pub limit : b.compressed_size ≤ max_block_sz + 1024
  pub flag : is_encrypted b ≡ is_active kr
  pub plain : is_active kr ≡ false → b.payload ≡ bytes
  pub sealed :
      (k : Keyring)
      → kr ≡ some k
      → k.active ≡ true
      → cipher.encrypt k bytes seq (block_preface cipher k b) ≡ some b.payload

module _ (d : Digests) (cipher : Cipher) (codecs : Codecs) (src bytes : List ℕ) (b : Block)
    (seq : ℕ) where
  opens :
      (kr : Option Keyring)
      → IsPacked d cipher src bytes b kr seq
      → open_payload cipher b kr seq ≡ ok bytes
  unfolding open_payload
  opens none p = rw p.flag (ap ok (p.plain refl))
  opens (some k) p = elim (Bool-cases k.active) [
    | inl on ↦
        simp
          (
            p.flag,
            on,
            cipher.decrypt-encrypt k bytes seq (block_preface cipher k b) b.payload
                (p.sealed k refl on),
          )
          refl
    | inr off ↦ simp (p.flag, off) (ap ok (p.plain off))
  ]

  unpacks :
      (kr : Option Keyring)
      → IsPacked d cipher src bytes b kr seq
      → 1 ≤ length src
      → lz_decompress bytes (length src) ≡ some src
      → unpack d cipher codecs b bytes ≡ ok src
  unfolding unpack verified decode
  unpacks kr p some_there back =
      let something : length src == 0 ≡ false = ground arith in
      let all : length src == length src ≡ true = (==_iff (length src) (length src)).1 refl in
      let right : d.xxh64 src == d.xxh64 src ≡ true = (==_iff (d.xxh64 src) (d.xxh64 src)).1 refl in
      rw (p.size, p.codec, p.digest, something, back, all, right) refl

-- For a source of at least one byte and within the block limit: decompress_block of a frame around
-- what zupt_lz_compress wrote, as it is or encrypted under the keyring in use, gives the source.
pub decompress_block-packed :
    (d : Digests) (cipher : Cipher) (codecs : Codecs) (src bytes : List ℕ) (b : Block)
    (kr : Option Keyring) (seq dst_cap level : ℕ)
    → 1 ≤ length src
    → length src ≤ max_block_sz
    → lz_compress src dst_cap level ≡ some bytes
    → IsPacked d cipher src bytes b kr seq
    → decompress_block d cipher codecs b kr seq ≡ ok src
unfolding decompress_block
decompress_block-packed d cipher codecs src bytes b kr seq dst_cap level some_there small packed p =
    let back = decompress-compress src dst_cap level bytes (omega arith) packed in
    let low : ltb max_block_sz b.uncompressed_size ≡ false = ground (arith, p.size) in
    let low' : ltb (max_block_sz + 1024) b.compressed_size ≡ false = ground (arith, p.limit) in
    rw (low, low', opens d cipher codecs src bytes b seq kr p)
      (unpacks d cipher codecs src bytes b seq kr p some_there back)
