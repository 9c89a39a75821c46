-- ===== src/Extract.antt =====
-- The blocks of one file in zupt_extract_archive of src/zupt_format.c, on the path with one thread,
-- and zupt_write_verified_chunk. The archive is a list of bytes, and a position is the length of what
-- stands before it. `none` is a file that is given up; fwrite does not fail.
pub mod Frame
pub mod RoundTrip
use libvuptsdk.Common.{
  ℕ, zero, suc, ◌+◌, ◌-◌, ◌^◌, List, [], ◌++◌, Bool, true, false, ◌&&◌, ◌||◌, not, Option, some,
  none, ◌>>=◌, ◌>>◌, require, ltb, leb, ◌==◌, if◌then◌else◌, length, drop, bit_and,
}
use libvuptsdk.Archive.Error.{Result, ok, err}
use libvuptsdk.Archive.Trailer.{Keyring, Digests}
use libvuptsdk.Archive.Cipher.{Cipher}
use libvuptsdk.Archive.Block.{Block, read_block}
use libvuptsdk.Archive.Unpack.{Codecs, decompress_block}
use libvuptsdk.Archive.Index.{IndexEntry}
use libvuptsdk.Archive.Sequence.{
  AadEntry, archive_data_aad_seq, aad_map_lookup, flag_disk_image, flag_auth_dedup_refs,
}
use libvuptsdk.Dedup.Link.{block_dedup_ref, dedup_read_ref}
use libvuptsdk.Parallel.Worker.{block_data}

-- The stream behind what was read, the output file, and its counters.
pub record Extraction : Type 0 where
  pub f : List ℕ
  pub of : List ℕ
  pub file_extracted : ℕ
  pub file_hash : ℕ

abbrev pub flag_disk_content_hash : ℕ
flag_disk_content_hash = 2 ^ 11

-- `err != ZUPT_OK` ends the file.
abbrev pub succeeded {ℓ} : {A : Type ℓ} → Result A → Option A
succeeded (ok a) = some a
succeeded (err e) = none

-- Nothing is written past the size that the index announces.
unfoldable pub write_verified_chunk : (List ℕ → ℕ → ℕ) → List ℕ → ℕ → Extraction → Option Extraction
write_verified_chunk xxh64 chunk expected_size x =
    if ltb expected_size x.file_extracted || ltb (expected_size - x.file_extracted) (length chunk)
    then none
    else some (record x {
      of = x.of ++ chunk;
      file_extracted = x.file_extracted + length chunk;
      file_hash = if ltb 0 (length chunk) then xxh64 chunk x.file_hash else x.file_hash;
    })

module _ (d : Digests) (cipher : Cipher) (codecs : Codecs) (xxh64 : List ℕ → ℕ → ℕ)
    (archive : List ℕ) (global_flags : ℕ) (keyring : Keyring) (legacy_map : Option (List AadEntry))
    (i : ℕ) where
  abbrev pub require_authentication : Bool
  require_authentication = not (bit_and global_flags flag_auth_dedup_refs == 0)

  -- The sequence number of a block that is referenced: from the map for encrypted disk archives of
  -- older versions.
  abbrev pub referenced_seq : Option (List AadEntry) → ℕ → ℕ → Option ℕ
  referenced_seq none ref_off seq = some seq
  referenced_seq (some entries) ref_off seq = aad_map_lookup entries ref_off

  -- The block that a reference frame names, which stands before the position `cur`.
  unfoldable pub extract_ref : Block → ℕ → ℕ → Option (List ℕ)
  extract_ref blk b cur = do
    (ref_off, seq) ← succeeded (
        dedup_read_ref cipher blk (some keyring) require_authentication
          (if require_authentication then archive_data_aad_seq global_flags i b else 0))
    referenced_aad_seq ← referenced_seq legacy_map ref_off seq
    require (ltb ref_off cur)
    (ref_blk, _) ← succeeded (read_block (drop ref_off archive))
    require (
        ref_blk.block_type == block_data
        && ref_blk.uncompressed_size == blk.uncompressed_size
        && ref_blk.checksum == blk.checksum)
    succeeded (decompress_block d cipher codecs ref_blk (some keyring) referenced_aad_seq)

  unfoldable pub extract_data : Block → ℕ → ℕ → Option (List ℕ)
  extract_data blk b cur =
      if blk.block_type == block_dedup_ref
      then extract_ref blk b cur
      else (if blk.block_type == block_data
          then succeeded (
              decompress_block d cipher codecs blk (some keyring)
                (archive_data_aad_seq global_flags i b))
          else none)

  -- Block `b` of a file of `expected_size` bytes.
  unfoldable pub extract_block : ℕ → ℕ → Extraction → Option Extraction
  extract_block expected_size b x = do
    (blk, rest) ← succeeded (read_block x.f)
    dec ← extract_data blk b (length archive - length rest)
    write_verified_chunk xxh64 dec expected_size (record x { f = rest })

  -- The loop from block `b` on, with `left` to go.
  unfoldable pub extract_loop : ℕ → ℕ → ℕ → Extraction → Option Extraction
  extract_loop expected_size zero b x = some x
  extract_loop expected_size (suc left) b x =
      extract_block expected_size b x >>= λ x'. extract_loop expected_size left (b + 1) x'

  abbrev pub require_content_hash : Bool
  require_content_hash =
      bit_and global_flags flag_disk_image == 0
      || not (bit_and global_flags flag_disk_content_hash == 0)

  -- The file that is put in place.
  unfoldable pub extract_file : IndexEntry → Option (List ℕ)
  extract_file e = do
    x ← extract_loop e.uncompressed_size e.block_count 0 (record {
      f = drop e.first_block_offset archive;
      of = [];
      file_extracted = 0;
      file_hash = 0;
    })
    require (x.file_extracted == e.uncompressed_size)
    require (not require_content_hash || x.file_hash == e.content_hash)
    some x.of
