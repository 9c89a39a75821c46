-- ===== src/Examples/Frames.antt =====
-- Archive structures, src/zupt_format.c.
use libvuptsdk.Common.{
  ℕ, ◌%◌, ◌^◌, ◌≡◌, ◌≢◌, ◌↔◌, refl, arith, List, [], ◌∷◌, ◌++◌, true, some, length, replicate,
  length-replicate, if◌then◌else◌,
}
use libvuptsdk.Wire.Stream.{fread}
use libvuptsdk.Wire.Fixed.{r16le, r64le, le16_get, le64_get}
use libvuptsdk.Wire.Varint.{read_varint}
use libvuptsdk.Archive.Error.{ok, err, auth_fail, bad_checksum}
use libvuptsdk.Archive.Header.{
  ArchiveHeader, Footer, IsHeader, IsFooter, serialize_archive_header, deserialize_archive_header,
  serialize_footer, deserialize_footer,
}
use libvuptsdk.Archive.Header.RoundTrip.{deserialize-serialize_header, deserialize-serialize_footer}
use libvuptsdk.Archive.Locate.{is_zend, locate_footer_v15}
use libvuptsdk.Archive.Locate.Layouts.{locate_footer-written, locate_footer-checked}
use libvuptsdk.Archive.Trailer.{Digests, Keyring, is_active, ait_write, ait_verify}
use libvuptsdk.Archive.Trailer.Integrity.{ait_verify-exact, mac_input-injective}
use libvuptsdk.Archive.Block.{
  Block, IsFrame, write_frame, read_block, read_start, read_payload, serialize_preface_aad,
}
use libvuptsdk.Archive.Block.Frame.{read_block-write_frame, read_block-canonical}
use libvuptsdk.Archive.Block.Preface.{SameFrame, preface-injective}

abbrev sample : Block
sample = record {
  block_type = 1;
  codec_id = 8;
  block_flags = 0;
  uncompressed_size = 300;
  compressed_size = 2;
  checksum = 5;
  payload = 7 ∷ 9 ∷ [];
}

sample-IsFrame : IsFrame sample
sample-IsFrame = record {
  type_range = omega arith;
  codec_range = omega arith;
  flags_range = omega arith;
  checksum_range = omega arith;
  uncompressed_limit = omega arith;
  compressed_limit = omega arith;
  payload_size = refl;
}

abbrev sample_bytes : List ℕ
sample_bytes =
    0xbb ∷ 0x01 ∷ 1 ∷ 8 ∷ 0 ∷ 0 ∷ 0 ∷ 0xac ∷ 0x02 ∷ 2 ∷ 5 ∷ 0 ∷ 0 ∷ 0 ∷ 0 ∷ 0 ∷ 0 ∷ 0 ∷ 7 ∷ 9 ∷ []

reads_sample : read_block sample_bytes ≡ ok (sample, [])
unfolding read_block read_start fread r16le read_varint r64le read_payload le16_get le64_get
reads_sample = refl

read_block-write_frame_example : read_block (write_frame sample ++ (1 ∷ [])) ≡ ok (sample, 1 ∷ [])
read_block-write_frame_example = read_block-write_frame sample (1 ∷ []) sample-IsFrame

read_block-canonical_example : (sample_bytes ≡ write_frame sample ++ []) × IsFrame sample
read_block-canonical_example =
    read_block-canonical sample_bytes [] sample (omega arith) reads_sample

-- The same frame around other bytes.
abbrev other : Block
other = record sample { payload = 1 ∷ 1 ∷ [] }

other-IsFrame : IsFrame other
other-IsFrame = record {
  type_range = omega arith;
  codec_range = omega arith;
  flags_range = omega arith;
  checksum_range = omega arith;
  uncompressed_limit = omega arith;
  compressed_limit = omega arith;
  payload_size = refl;
}

preface-injective_example : SameFrame sample other
unfolding serialize_preface_aad
preface-injective_example = preface-injective sample other sample-IsFrame other-IsFrame refl

abbrev header : ArchiveHeader
header = record {
  magic = 0x5a ∷ 0x55 ∷ 0x50 ∷ 0x54 ∷ 0x1a ∷ 0x00 ∷ [];
  version_major = 1;
  version_minor = 5;
  global_flags = 1;
  creation_time = 1700000000;
  archive_id = replicate 16 9;
  encryption_header_off = 64;
  comment_offset = 0;
  reserved = replicate 12 0;
}

header-IsHeader : IsHeader header
header-IsHeader = record {
  magic_size = refl;
  id_size = refl;
  reserved_size = refl;
  flags_range = omega arith;
  time_range = omega arith;
  encryption_range = omega arith;
  comment_range = omega arith;
}

abbrev footer : Footer
footer = record {
  index_offset = 500;
  total_blocks = 3;
  archive_checksum = 17;
  footer_magic = 90 ∷ 69 ∷ 78 ∷ 68 ∷ [];
  footer_version = 1;
}

footer-IsFooter : IsFooter footer
footer-IsFooter = record {
  magic_size = refl;
  index_range = omega arith;
  blocks_range = omega arith;
  checksum_range = omega arith;
  version_range = omega arith;
}

zend : is_zend footer.footer_magic ≡ true
unfolding is_zend
zend = refl

deserialize-serialize_header_example :
    (length (serialize_archive_header header) ≡ 64)
    × (deserialize_archive_header (serialize_archive_header header) ≡ header)
deserialize-serialize_header_example = deserialize-serialize_header header header-IsHeader

deserialize-serialize_footer_example :
    (length (serialize_footer footer) ≡ 32)
    × (deserialize_footer (serialize_footer footer) ≡ footer)
deserialize-serialize_footer_example = deserialize-serialize_footer footer footer-IsFooter

abbrev trailer : List ℕ
trailer = replicate 32 4

locate_footer-written_example :
    locate_footer_v15 ((1 ∷ 2 ∷ []) ++ (serialize_footer footer ++ trailer))
    ≡ ok (footer, some trailer)
locate_footer-written_example =
    locate_footer-written (1 ∷ 2 ∷ []) trailer footer footer-IsFooter zend refl refl

locate_footer-checked_example :
    (is_zend footer.footer_magic ≡ true)
    × (footer.footer_version ≡ 1)
    × ((t : List ℕ) → some trailer ≡ some t → length t ≡ 32)
locate_footer-checked_example =
    locate_footer-checked ((1 ∷ 2 ∷ []) ++ (serialize_footer footer ++ trailer)) footer
      (some trailer) locate_footer-written_example

-- Digests that depend on the length of the message.
abbrev pub toy_digests : Digests
toy_digests = record {
  hmac_sha256 = λ key message. replicate 32 (length message % 256);
  xxh64 = λ message. length message % 2 ^ 64;
  hmac_size = λ key message. length-replicate 32 (length message % 256);
  hmac_bytes = λ key message. omega arith;
  xxh64_range = λ message. omega arith;
}

abbrev keys : Keyring
keys = record { enc_key = 1 ∷ []; mac_key = 2 ∷ []; active = true; use_preface_aad = true }

ait_verify-exact_example :
    ((ait_verify toy_digests header footer trailer (some keys) ≡ ok tt)
      ↔ (trailer ≡ ait_write toy_digests header footer (some keys)))
    × (trailer ≢ ait_write toy_digests header footer (some keys)
        → ait_verify toy_digests header footer trailer (some keys)
          ≡ err (if is_active (some keys) then auth_fail else bad_checksum))
ait_verify-exact_example =
    ait_verify-exact toy_digests header footer (some keys) trailer refl (omega arith)

mac_input-injective_example :
    (header ≡ header)
    × (footer.index_offset ≡ footer.index_offset)
    × (footer.total_blocks ≡ footer.total_blocks)
    × (footer.archive_checksum ≡ footer.archive_checksum)
mac_input-injective_example =
    mac_input-injective header header footer footer header-IsHeader header-IsHeader footer-IsFooter
      footer-IsFooter refl
