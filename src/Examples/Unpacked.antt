-- ===== src/Examples/Unpacked.antt =====
-- decompress_block of src/zupt_format.c on the packed bytes of the codec's tests.
use libvuptsdk.Common.{◌≡◌, refl, arith, ◌++◌, some, none, replicate}
use libvuptsdk.Archive.Error.{ok}
use libvuptsdk.Archive.Block.{Block}
use libvuptsdk.Archive.Unpack.{Codecs, decompress_block}
use libvuptsdk.Archive.Unpack.Sound.{Accepted, decompress_block-Accepted}
use libvuptsdk.Archive.Unpack.RoundTrip.{IsPacked, decompress_block-packed}
use libvuptsdk.Examples.Codec.{abcd_twice, abcd_packed, compresses_abcd}
use libvuptsdk.Examples.Frames.{toy_digests}
use libvuptsdk.Examples.Links.{toy_cipher, toy_encrypt, link_keys}

-- The other codecs refuse everything.
abbrev no_codecs : Codecs
no_codecs = record { lzh = λ source capacity. none; vaptvupt = λ source capacity. none }

abbrev plain_block : Block
plain_block = record {
  block_type = 0;
  codec_id = 8;
  block_flags = 0;
  uncompressed_size = 12;
  compressed_size = 8;
  checksum = 12;
  payload = abcd_packed;
}

abbrev sealed_block : Block
sealed_block = record plain_block {
  block_flags = 1;
  compressed_size = 56;
  payload = abcd_packed ++ replicate 48 0;
}

plain_block-IsPacked : IsPacked toy_digests toy_cipher abcd_twice abcd_packed plain_block none 3
plain_block-IsPacked = record {
  codec = refl;
  size = refl;
  digest = refl;
  limit = omega arith;
  flag = refl;
  plain = λ off. refl;
  sealed = λ k same on. cc;
}

sealed_block-IsPacked :
    IsPacked toy_digests toy_cipher abcd_twice abcd_packed sealed_block (some link_keys) 3
unfolding toy_encrypt
sealed_block-IsPacked = record {
  codec = refl;
  size = refl;
  digest = refl;
  limit = omega arith;
  flag = refl;
  plain = λ off. cc;
  sealed = λ k same on. refl;
}

decompress_block-packed_example :
    decompress_block toy_digests toy_cipher no_codecs plain_block none 3 ≡ ok abcd_twice
decompress_block-packed_example =
    decompress_block-packed toy_digests toy_cipher no_codecs abcd_twice abcd_packed plain_block none
      3 64 5 (omega arith) (omega arith) compresses_abcd plain_block-IsPacked

unpacks_sealed :
    decompress_block toy_digests toy_cipher no_codecs sealed_block (some link_keys) 3
    ≡ ok abcd_twice
unpacks_sealed =
    decompress_block-packed toy_digests toy_cipher no_codecs abcd_twice abcd_packed sealed_block
      (some link_keys) 3 64 5 (omega arith) (omega arith) compresses_abcd sealed_block-IsPacked

decompress_block-Accepted_example :
    Accepted toy_digests toy_cipher no_codecs sealed_block (some link_keys) 3 abcd_twice
decompress_block-Accepted_example =
    decompress_block-Accepted toy_digests toy_cipher no_codecs sealed_block (some link_keys) 3
      abcd_twice unpacks_sealed
