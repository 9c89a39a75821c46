-- ===== src/Archive/Unpack.antt =====
-- decompress_block of src/zupt_format.c: from a block that was read to the bytes of the file. The
-- digests, the cipher and the two larger codecs are arguments; allocation does not fail.
pub mod Sound
pub mod RoundTrip
use libvuptsdk.Common.{
  ℕ, ◌+◌, ◌*◌, ◌≤◌, ◌<◌, List, [], ◌∷◌, Bool, true, false, ◌&&◌, ◌||◌, not, Option, some, none, ltb,
  leb, ◌==◌, if◌then◌else◌, length, get_or, take, drop, bit_and,
}
use libvuptsdk.Lz.{lz_decompress}
use libvuptsdk.Predict.{predict_decode}
use libvuptsdk.Archive.Error.{
  Result, ok, err, corrupt, overflow, auth_fail, unsupported, bad_checksum, ◌>>=◌, ◌>>◌, fail_if,
  or_fail,
}
use libvuptsdk.Archive.Trailer.{Keyring, Digests, is_active}
use libvuptsdk.Archive.Cipher.{Cipher, bflag_encrypted}
use libvuptsdk.Archive.Block.{Block, max_block_sz, serialize_preface_aad}

abbrev pub codec_store : ℕ
codec_store = 0x0000

abbrev pub codec_zupt_lz : ℕ
codec_zupt_lz = 0x0008

abbrev pub codec_zupt_lzh : ℕ
codec_zupt_lzh = 0x0009

abbrev pub codec_zupt_lzhp : ℕ
codec_zupt_lzhp = 0x000a

abbrev pub codec_vaptvupt : ℕ
codec_vaptvupt = 0x0010

abbrev pub vv_decode_slack : ℕ
vv_decode_slack = 64

-- zupt_lzh_decompress and vvz_decompress of a source and a capacity; none is a failure.
pub record Codecs : Type 0 where
  pub lzh : List ℕ → ℕ → Option (List ℕ)
  pub vaptvupt : List ℕ → ℕ → Option (List ℕ)

abbrev pub is_encrypted : Block → Bool
is_encrypted b = not (bit_and b.block_flags bflag_encrypted == 0)

-- if (r != *olen) result = ZUPT_ERR_CORRUPT;
abbrev pub sized : ℕ → Option (List ℕ) → Result (List ℕ)
sized olen none = err corrupt
sized olen (some out) = if length out == olen then ok out else err corrupt

module _ (cipher : Cipher) where
  abbrev pub block_preface : Keyring → Block → Option (List ℕ)
  block_preface k b = if k.use_preface_aad then some (serialize_preface_aad b) else none

  abbrev pub open_sealed : Block → Option Keyring → ℕ → Result (List ℕ)
  open_sealed b none seq = err auth_fail
  open_sealed b (some k) seq =
      if k.active
      then or_fail (cipher.decrypt k b.payload seq (block_preface k b)) auth_fail
      else err auth_fail

  -- The compressed bytes. With a keyring in use every block must be encrypted.
  unfoldable pub open_payload : Block → Option Keyring → ℕ → Result (List ℕ)
  open_payload b kr seq =
      if is_active kr && not (is_encrypted b)
      then err auth_fail
      else (if is_encrypted b then open_sealed b kr seq else ok b.payload)

module _ (codecs : Codecs) where
  -- The codec with a prediction table of 256 bytes behind its first byte.
  unfoldable pub decode_lzhp : List ℕ → ℕ → Result (List ℕ)
  decode_lzhp comp olen =
      let predicted = not (bit_and (get_or comp 0 0) 0x01 == 0) in
      let header = if predicted then 257 else 1 in
      if length comp == 0
      then err corrupt
      else (if predicted && ltb (length comp) 257
          then err corrupt
          else (if leb (length comp) header
              then err corrupt
              else (sized olen (codecs.lzh (drop header comp) olen) >>= λ plain. ok (
                  if predicted
                  then predict_decode plain (λ c. get_or (take 256 (drop 1 comp)) c 0)
                  else plain))))

  unfoldable pub decode : ℕ → List ℕ → ℕ → Result (List ℕ)
  decode codec comp olen =
      if codec == codec_store
      then (if ltb (length comp) olen then err corrupt else ok (take olen comp))
      else (if codec == codec_zupt_lz
          then sized olen (lz_decompress comp olen)
          else (if codec == codec_zupt_lzh
              then sized olen (codecs.lzh comp olen)
              else (if codec == codec_zupt_lzhp
                  then decode_lzhp comp olen
                  else (if codec == codec_vaptvupt
                      then sized olen (codecs.vaptvupt comp (olen + vv_decode_slack))
                      else err unsupported))))

module _ (d : Digests) (cipher : Cipher) (codecs : Codecs) where
  -- The digest of the whole output against the frame's.
  unfoldable pub verified : Block → List ℕ → Result (List ℕ)
  verified b out = if d.xxh64 out == b.checksum then ok out else err bad_checksum

  -- A block of length 0 is empty whatever its codec and its checksum say.
  unfoldable pub unpack : Block → List ℕ → Result (List ℕ)
  unpack b comp =
      if b.uncompressed_size == 0
      then ok []
      else (decode codecs b.codec_id comp b.uncompressed_size >>= verified b)

  unfoldable pub decompress_block : Block → Option Keyring → ℕ → Result (List ℕ)
  decompress_block b kr seq =
      fail_if (ltb max_block_sz b.uncompressed_size) overflow
      >> (fail_if (ltb (max_block_sz + 1024) b.compressed_size) overflow
          >> (open_payload cipher b kr seq >>= unpack b))
