-- ===== src/Examples/Writers.antt =====
-- The two paths of zupt_compress_files in src/zupt_format.c on twelve bytes in blocks of five, and
-- zupt_extract_archive on what they write.
use libvuptsdk.Common.{
  ℕ, ◌+◌, ◌≡◌, refl, arith, List, [], ◌∷◌, ◌++◌, Option, none, some, true, false, replicate,
}
use libvuptsdk.Archive.Index.{IndexEntry}
use libvuptsdk.Parallel.Writer.Total.{IsAnswering}
use libvuptsdk.Extract.{extract_file}
use libvuptsdk.Extract.RoundTrip.Whole.{
  opened_input, before_file, entry_of, extract_file-serial_loop,
}
use libvuptsdk.Parallel.Pipeline.{fresh_slot, blocked}
use libvuptsdk.Parallel.Writer.{
  ZuptOptions, Reading, Writing, serial_loop, parallel_loop, batch, fill_batch, read_chunk,
  logical_aad_seq,
}
use libvuptsdk.Wire.Stream.{fread}
use libvuptsdk.Examples.Codec.{abcd_twice}
use libvuptsdk.Examples.Frames.{toy_digests}
use libvuptsdk.Examples.Links.{toy_cipher, toy_encrypt, link_keys}
use libvuptsdk.Examples.Workers.{toy_compressors, toy_decompressors, toy_codecs, toy-IsInverse}

abbrev toy_options : ZuptOptions
toy_options = record {
  level = 5;
  codec_id = 8;
  block_size = 5;
  encrypt = true;
  keyring = link_keys;
}

abbrev toy_hash : List ℕ → ℕ → ℕ
toy_hash bytes seed = seed + 1

abbrev toy_input : Reading
toy_input = record { inf = abcd_twice; remaining = 12; block_seq = 0; file_hash_state = 0 }

abbrev toy_output : Writing
toy_output = record { out = []; file_comp = 0; block_count = 0 }

-- 65 threads have 64 slots: block 64 goes to the slot of block 0, which is not released before the
-- batch is full.
abbrev many_blocks : Reading
many_blocks = record { inf = replicate 65 7; remaining = 65; block_seq = 0; file_hash_state = 0 }

blocks_for_ever :
    parallel_loop toy_digests toy_cipher toy_compressors toy_hash
      (record toy_options { block_size = 1; codec_id = 0 })
      0
      toy_decompressors
      (λ seq. fresh_slot)
      (λ seq. false)
      65
      65
      many_blocks
      toy_output
    ≡ blocked
unfolding parallel_loop batch fill_batch read_chunk fread logical_aad_seq
blocks_for_ever = refl

abbrev some_entry : IndexEntry
some_entry = record {
  path = 0x61 ∷ [];
  uncompressed_size = 0;
  compressed_size = 0;
  modification_time = 0;
  content_hash = 0;
  first_block_offset = 0;
  block_count = 0;
  attributes = 0;
}

abbrev extracted_from : List ℕ → Reading × Writing → Option (List ℕ)
extracted_from content end =
    extract_file toy_digests toy_cipher toy_codecs toy_hash (end.1.out ++ (9 ∷ [])) 0 link_keys none
      0 (entry_of some_entry content (1 ∷ 2 ∷ []) end)

toy-IsAnswering : IsAnswering toy_cipher toy_options
unfolding toy_encrypt
toy-IsAnswering message seq aad = (_, refl)

extract_file-serial_loop_example :
    (end : Reading × Writing) × (serial_loop toy_digests toy_cipher toy_compressors toy_hash
        toy_options 0 12
        (opened_input abcd_twice)
        (before_file (1 ∷ 2 ∷ []))
      ≡ some end)
    × (extracted_from abcd_twice end ≡ some abcd_twice)
extract_file-serial_loop_example =
    extract_file-serial_loop toy_digests toy_cipher toy_compressors toy_codecs toy_hash toy_options
      0 0 none abcd_twice (1 ∷ 2 ∷ []) (9 ∷ []) some_entry (λ source room level large. refl)
      toy-IsInverse toy-IsAnswering refl (omega arith) (omega arith) (omega arith) refl refl
      (omega arith) (omega arith)
