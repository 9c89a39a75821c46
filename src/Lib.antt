-- ===== src/Lib.antt =====
-- Verification of libvuptsdk: the archive format and its index, the parallel pipeline, the
-- deduplication index, the Zupt-LZ codec, the byte prediction, the file types and the path checks of
-- the C library.
--
-- The program. An archive is a 64-byte header, a sequence of block frames, an index, a 32-byte
-- footer and a 32-byte trailer. Writers compress a file block by block with one of several codecs,
-- predict bytes where that helps, replace a repeated block by a reference to the first one, and
-- encrypt and authenticate each frame where a keyring is in use. Readers locate the footer from the
-- end, verify the trailer, parse the index, check every path before a file is made of it, and take
-- the frames apart again.
--
-- The files, and the code that each is about:
--   Common: Boolean tests, lists, bit operations at variables, chains of fallible steps.
--   Wire/Stream: fread on the bytes that are left of a file.
--   Wire/Fixed: zupt_le16_put to zupt_le64_get of include/zupt.h; r16le and r64le of
--     src/zupt_format.c.
--   Wire/Varint: zupt_encode_varint, zupt_decode_varint, zupt_read_varint of src/zupt_format.c.
--   Archive/Error: zupt_error_t of include/zupt.h as the error of a result.
--   Archive/Header: zupt_archive_header_t and zupt_footer_t, their serialisation, read_header.
--   Archive/Locate: locate_footer_v15. Archive/Trailer: ait_serialize_mac_input,
--     zupt_format_ait_write, ait_verify.
--   Archive/Block: read_block, the writes that make a frame, zupt_serialize_preface_aad and its
--     _scalars version. Archive/Cipher: what the archive code asks of zupt_encrypt_buffer and
--     zupt_decrypt_buffer. Archive/Unpack: decompress_block, with each codec's branch.
--     Archive/Sequence: archive_data_aad_seq, zupt_legacy_disk_aad_map_lookup.
--   Archive/Destinations: zupt_validate_archive_destinations. Archive/Index: the loop of
--     zupt_compress_files that writes the index, parse_index, parse_legacy_disk_index.
--   Parallel: the slots and the two workers of src/zupt_parallel.c. Parallel/Pipeline: zpar_create,
--     zpar_submit_compress, zpar_submit_decompress, zpar_wait_slot, zpar_release_slot and
--     worker_entry, as steps of threads that interleave in any way.
--   Parallel/Writer: the blocks of one file in zupt_compress_files of src/zupt_format.c, with one
--     thread and in batches through the slots. A submission blocks where the slot is in use, and a
--     worker may give its slot up once another has failed.
--   Extract: the blocks of one file in zupt_extract_archive of src/zupt_format.c, with one thread, and
--     zupt_write_verified_chunk.
--   Filetype: zupt_detect_filetype of src/zupt_filetype.c.
--   Compare: zupt_ct_memeq of src/zupt_ct.c, and memcmp against 0.
--   Predict: zupt_predict_build, _encode and _decode of src/zupt_predict.c.
--   Dedup: the index of src/zupt_dedup.c, one function per call. Dedup/Link: the reference blocks,
--     zupt_dedup_write_ref, zupt_dedup_write_ref_secure and zupt_dedup_read_ref.
--   Lz: the whole of src/zupt_lz.c (zupt_lz_bound stands in Parallel/Worker), one function per helper
--     and per part of the loops of zupt_lz_compress and zupt_lz_decompress.
--   Text: zupt_decode_utf8_scalar, zupt_codepoint_is_display_control, zupt_path_has_unsafe_text,
--     zupt_path_is_safe with its helpers, zupt_normalize_archive_path of src/zupt_format.c.
--   Examples: tests, and the theorems at concrete inputs.
--
-- How state is modelled. A file that is read is the list of the bytes that are left, and a reader
-- returns the list behind what it took; a buffer that is written is the list of what was written.
-- A C structure is a record. A table that is indexed by hash is a function from indices, with an
-- update for each store. The error codes are the errors of a result type; a function that answers
-- -1, 0 or NULL for a failure returns an Option. Numbers are natural numbers with the wrap-around
-- written out where the C type can wrap; int32_t positions of the match finder are Options, as only
-- their being negative is ever tested.
--
-- Bounds and fuel. The varint encoder recurs on the well-founded order of its argument. Loops of a
-- fixed number of rounds (the ten bytes of a varint, the 64 probes of the index, the chain of the
-- match finder) recur on the rounds that are left. The compressor has one round more than the source
-- has bytes, as each round moves its position by one at least, and the decompressor and the UTF-8
-- scan have one round per byte, as each round takes one at least. The binary search has one round per
-- entry, as each round shortens its range. The index has one round per entry that it counts. A worker
-- needs three steps for a slot, and the liveness theorem counts them. The loops over a file have one
-- round per byte that remains, as each round reads one at least.
--
-- Arguments of the model. The digests HMAC-SHA256 and XXH64 (record Digests), the block cipher
-- (record Cipher) and the decoders of Zupt-LZH and VaptVupt (record Codecs) are interfaces: what is
-- asked of them is the size of a tag, the size of a sealed message, and that decryption undoes
-- encryption under the same key, sequence number and preface; nothing is asked of the decoders. The
-- workers' theorem of the round trip asks that the encoders of the two larger codecs (record
-- Compressors) are undone by the decoders, and the comparison of a worker with the serial reader
-- that what vv_decompress accepts, which verifies a digest, vvz_decompress decodes to the same, which
-- skips that test. The two ways to write a file take XXH64 with a
-- seed as one more function, of which nothing is asked, and their comparison asks that the VaptVupt
-- encoder does not look at how much larger its buffer is than its own bound. The round trip of a file
-- asks this, that the codecs are undone, and that the cipher answers.
--
-- Not modelled: the opening of archives in src/zupt_format.c, extraction in batches, the
-- deduplication branch of the writer, the codecs VaptVupt (src/vv_*.c) and Zupt-LZH
-- (src/zupt_lzh.c), disk images, the SDK entry points, AES and SHA-256; failures of memory allocation
-- and of the device, the wiping of secrets, the entropy estimate in floating point
-- (zupt_predict_benefit), and code of other projects
-- (xxHash, Kyber, curve25519, the x86 branch filter).
pub mod Common
pub mod Wire
pub mod Archive
pub mod Compare
pub mod Predict
pub mod Dedup
pub mod Lz
pub mod Text
pub mod Extract
pub mod Filetype
pub mod Parallel
pub mod Examples
