-- ===== src/Dedup/Link.antt =====
-- Reference blocks: zupt_dedup_write_ref, zupt_dedup_write_ref_secure and zupt_dedup_read_ref of
-- src/zupt_dedup.c. Encryption is an argument. `none` is a result of -1; pointers are not null, and
-- writes to the file do not fail.
pub mod RoundTrip
use libvuptsdk.Common.{
  ℕ, ◌+◌, ◌^◌, ◌<◌, ◌≤◌, ◌≡◌, List, [], ◌∷◌, ◌++◌, Bool, true, false, ◌&&◌, ◌||◌, not, Option, some,
  none, ◌>>=◌, ltb, ◌==◌, if◌then◌else◌, length, drop, bit_and,
}
use libvuptsdk.Wire.Fixed.{le64_put, le64_get}
use libvuptsdk.Archive.Cipher.{Cipher, bflag_encrypted}
use libvuptsdk.Archive.Error.{Result, ok, err, corrupt, auth_fail}
use libvuptsdk.Archive.Trailer.{Keyring, is_active}
use libvuptsdk.Archive.Block.{Block, write_frame, serialize_preface_aad_scalars}

abbrev pub block_dedup_ref : ℕ
block_dedup_ref = 0x04

abbrev pub codec_store : ℕ
codec_store = 0x0000

abbrev pub reference_frame : ℕ → ℕ → ℕ → List ℕ → Block
reference_frame flags size checksum payload = record {
  block_type = block_dedup_ref;
  codec_id = codec_store;
  block_flags = flags;
  uncompressed_size = size;
  compressed_size = length payload;
  checksum = checksum;
  payload = payload;
}

unfoldable pub dedup_write_ref : ℕ → ℕ → ℕ → List ℕ
dedup_write_ref ref_offset size checksum =
    write_frame (reference_frame 0 size checksum (le64_put ref_offset))

module _ (cipher : Cipher) where
  -- The preface that the writer predicts: 16 + 16 + 32 bytes of payload.
  abbrev pub write_preface : Keyring → ℕ → ℕ → Option (List ℕ)
  write_preface k size checksum =
      if k.use_preface_aad
      then some (
          serialize_preface_aad_scalars block_dedup_ref codec_store bflag_encrypted size
            (16 + 16 + 32) checksum)
      else none

  abbrev pub sealed_frame : Keyring → ℕ → ℕ → ℕ → ℕ → ℕ → Option Block
  sealed_frame k ref_offset size checksum seq ref_seq =
      cipher.encrypt k (le64_put ref_offset ++ le64_put ref_seq) seq (write_preface k size checksum)
      >>= λ payload. some (reference_frame bflag_encrypted size checksum payload)

  abbrev pub frame_of : Option Keyring → ℕ → ℕ → ℕ → ℕ → ℕ → Option Block
  frame_of none ref_offset size checksum seq ref_seq =
      some (reference_frame 0 size checksum (le64_put ref_offset))
  frame_of (some k) ref_offset size checksum seq ref_seq =
      if k.active
      then sealed_frame k ref_offset size checksum seq ref_seq
      else some (reference_frame 0 size checksum (le64_put ref_offset))

  unfoldable pub dedup_write_ref_secure : ℕ → ℕ → ℕ → ℕ → ℕ → Option Keyring → Option (List ℕ)
  dedup_write_ref_secure ref_offset size checksum seq ref_seq kr =
      frame_of kr ref_offset size checksum seq ref_seq >>= λ b. some (write_frame b)

  abbrev pub read_preface : Keyring → Block → Option (List ℕ)
  read_preface k b =
      if k.use_preface_aad
      then some (
          serialize_preface_aad_scalars b.block_type b.codec_id b.block_flags b.uncompressed_size
            b.compressed_size b.checksum)
      else none

  -- The payload of a reference that was opened: 16 bytes.
  abbrev pub opened : Option (List ℕ) → Result (ℕ × ℕ)
  opened none = err auth_fail
  opened (some plain) =
      if length plain == 16 then ok (le64_get plain, le64_get (drop 8 plain)) else err corrupt

  abbrev pub open_ref : Block → Option Keyring → ℕ → Result (ℕ × ℕ)
  open_ref b none seq = err auth_fail
  open_ref b (some k) seq =
      if bit_and b.block_flags bflag_encrypted == 0 || not k.active
      then err auth_fail
      else opened (cipher.decrypt k b.payload seq (read_preface k b))

  -- The offset and the sequence number of the block that is referenced.
  unfoldable pub dedup_read_ref : Block → Option Keyring → Bool → ℕ → Result (ℕ × ℕ)
  dedup_read_ref b kr require_authentication seq =
      if not (b.block_type == block_dedup_ref) || not (b.codec_id == codec_store)
      then err corrupt
      else (if require_authentication
          then open_ref b kr seq
          else (if not (b.block_flags == 0) || not (b.compressed_size == 8)
              then err corrupt
              else ok (le64_get b.payload, 0)))
