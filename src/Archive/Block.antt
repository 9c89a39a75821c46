-- ===== src/Archive/Block.antt =====
-- Block frames: read_block of src/zupt_format.c, the sequence of writes that every frame writer
-- makes, and the preface that an encrypted frame authenticates.
pub mod Frame
pub mod Preface
use libvuptsdk.Common.{
  ℕ, zero, suc, ◌+◌, ◌*◌, ◌/◌, ◌%◌, ◌^◌, ◌<◌, ◌≤◌, ◌≡◌, List, [], ◌∷◌, ◌++◌, Bool, true, false,
  ◌||◌, not, length, get_or, ◌==◌, ltb, bit_and, All, IsByte,
}
use libvuptsdk.Wire.Stream.{fread}
use libvuptsdk.Wire.Fixed.{le16_put, le64_put, r16le, r64le}
use libvuptsdk.Wire.Varint.{encode_varint, read_varint}
use libvuptsdk.Archive.Error.{Result, ok, err, io, corrupt, overflow, ◌>>=◌, ◌>>◌, fail_if, or_fail}

abbrev pub max_block_sz : ℕ
max_block_sz = 256 * 1024 * 1024

abbrev pub block_magic_0 : ℕ
block_magic_0 = 0xbb

abbrev pub block_magic_1 : ℕ
block_magic_1 = 0x01

pub record Block : Type 0 where
  pub block_type : ℕ
  pub codec_id : ℕ
  pub block_flags : ℕ
  pub uncompressed_size : ℕ
  pub compressed_size : ℕ
  pub checksum : ℕ
  pub payload : List ℕ

-- What the C types say, the two limits, and a payload of the size that is announced.
pub record IsFrame (b : Block) : Type 0 where
  pub type_range : b.block_type < 256
  pub codec_range : b.codec_id < 2 ^ 16
  pub flags_range : b.block_flags < 2 ^ 16
  pub checksum_range : b.checksum < 2 ^ 64
  pub uncompressed_limit : b.uncompressed_size ≤ max_block_sz
  pub compressed_limit : b.compressed_size ≤ max_block_sz + 4096
  pub payload_size : length b.payload ≡ b.compressed_size

-- zupt_w8 of the magic and the type, zupt_w16le, zupt_write_varint, zupt_w64le, fwrite.
unfoldable pub write_frame : Block → List ℕ
write_frame b =
    block_magic_0
    ∷ block_magic_1
    ∷ b.block_type
    ∷ (le16_put b.codec_id
        ++ (le16_put b.block_flags
            ++ (encode_varint b.uncompressed_size
                ++ (encode_varint b.compressed_size ++ (le64_put b.checksum ++ b.payload)))))

-- The two magic bytes and the type.
unfoldable pub read_start : List ℕ → Result (ℕ × List ℕ)
read_start f = do
  (m, f) ← or_fail (fread 2 f) io
  fail_if (not (get_or m 0 0 == block_magic_0) || not (get_or m 1 0 == block_magic_1)) corrupt
  (t, f) ← or_fail (fread 1 f) io
  ok (get_or t 0 0, f)

-- The limits, before the payload is allocated. Allocation does not fail in the model.
unfoldable pub read_payload : ℕ → ℕ → List ℕ → Result (List ℕ × List ℕ)
read_payload uncompressed compressed f = do
  fail_if (ltb (max_block_sz + 4096) compressed) overflow
  fail_if (ltb max_block_sz uncompressed) overflow
  or_fail (fread compressed f) io

-- read_block on a stream: the block and the stream behind it.
unfoldable pub read_block : List ℕ → Result (Block × List ℕ)
read_block f = do
  (t, f) ← read_start f
  (codec, f) ← or_fail (r16le f) io
  (flags, f) ← or_fail (r16le f) io
  (uncompressed, _, f) ← or_fail (read_varint f) io
  (compressed, _, f) ← or_fail (read_varint f) io
  (sum, f) ← or_fail (r64le f) io
  (payload, f) ← read_payload uncompressed compressed f
  ok (
    record {
      block_type = t;
      codec_id = codec;
      block_flags = flags;
      uncompressed_size = uncompressed;
      compressed_size = compressed;
      checksum = sum;
      payload = payload;
    },
    f,
  )

-- The loop `for (i = 0; i < 8; i++) out[i] = (uint8_t)(v >> (i * 8))` with `left` rounds to go.
pub shift_loop : ℕ → ℕ → ℕ → List ℕ
shift_loop zero i v = []
shift_loop (suc left) i v = (v / 2 ^ (i * 8) % 256) ∷ shift_loop left (i + 1) v

-- zupt_serialize_preface_aad_scalars: 29 bytes from what the writer knows.
unfoldable pub serialize_preface_aad_scalars : ℕ → ℕ → ℕ → ℕ → ℕ → ℕ → List ℕ
serialize_preface_aad_scalars block_type codec_id block_flags uncompressed compressed checksum =
    block_type
    ∷ (bit_and codec_id 0xff % 256)
    ∷ (bit_and (codec_id / 2 ^ 8) 0xff % 256)
    ∷ (bit_and block_flags 0xff % 256)
    ∷ (bit_and (block_flags / 2 ^ 8) 0xff % 256)
    ∷ (shift_loop 8 0 uncompressed ++ (shift_loop 8 0 compressed ++ shift_loop 8 0 checksum))

-- zupt_serialize_preface_aad: the reader's, from the block that it read.
unfoldable pub serialize_preface_aad : Block → List ℕ
serialize_preface_aad b =
    (b.block_type % 256)
    ∷ (bit_and b.codec_id 0xff % 256)
    ∷ (bit_and (b.codec_id / 2 ^ 8) 0xff % 256)
    ∷ (bit_and b.block_flags 0xff % 256)
    ∷ (bit_and (b.block_flags / 2 ^ 8) 0xff % 256)
    ∷ (shift_loop 8 0 b.uncompressed_size
        ++ (shift_loop 8 0 b.compressed_size ++ shift_loop 8 0 b.checksum))
