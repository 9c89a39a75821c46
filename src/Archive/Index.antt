-- ===== src/Archive/Index.antt =====
-- The central index of an archive, src/zupt_format.c: the loop that writes it, parse_index, and
-- parse_legacy_disk_index for disk archives through v5.2.1. `buf + p` is the list of the bytes from
-- there on, so that `blen - p` is its length; a path is the list of its bytes before the NUL.
-- size_t has 64 bits, and allocation does not fail.
pub mod Fields
pub mod RoundTrip
pub mod Canonical
pub mod Legacy
use libvuptsdk.Common.{
  ℕ, zero, suc, ◌+◌, ◌-◌, ◌*◌, ◌/◌, ◌^◌, List, [], ◌∷◌, ◌++◌, false, ◌&&◌, ◌||◌, not, ltb, leb,
  ◌==◌, if◌then◌else◌, length, take, drop, map,
}
use libvuptsdk.Wire.Fixed.{le32_put, le32_get, le64_put, le64_get}
use libvuptsdk.Wire.Varint.{encode_varint, decode_varint}
use libvuptsdk.Text.{has_byte, path_has_unsafe_text, max_path}
use libvuptsdk.Archive.Error.{Result, ok, err, corrupt, overflow, ◌>>=◌, ◌>>◌, fail_if, or_fail}
use libvuptsdk.Archive.Destinations.{validate_archive_destinations}

pub record IndexEntry : Type 0 where
  pub path : List ℕ
  pub uncompressed_size : ℕ
  pub compressed_size : ℕ
  pub modification_time : ℕ
  pub content_hash : ℕ
  pub first_block_offset : ℕ
  pub block_count : ℕ
  pub attributes : ℕ

abbrev pub max_files : ℕ
max_files = 2000000

abbrev pub max_index_alloc_bytes : ℕ
max_index_alloc_bytes = 256 * 1024 * 1024

abbrev pub min_index_entry_bytes : ℕ
min_index_entry_bytes = 47

-- sizeof(zupt_index_entry_t): the path, five numbers of 8 bytes and two of 4.
abbrev pub sizeof_index_entry : ℕ
sizeof_index_entry = max_path + 5 * 8 + 2 * 4

unfoldable pub index_put_u64 : ℕ → List ℕ
index_put_u64 v = le64_put v

unfoldable pub index_put_u32 : ℕ → List ℕ
index_put_u32 v = le32_put v

unfoldable pub index_get_u64 : List ℕ → ℕ
index_get_u64 buf = le64_get buf

unfoldable pub index_get_u32 : List ℕ → ℕ
index_get_u32 buf = le32_get buf

unfoldable pub write_entry : IndexEntry → List ℕ
write_entry e =
    encode_varint (length e.path)
    ++ (e.path
        ++ (index_put_u64 e.uncompressed_size
            ++ (index_put_u64 e.compressed_size
                ++ (index_put_u64 e.modification_time
                    ++ (index_put_u64 e.content_hash
                        ++ (index_put_u64 e.first_block_offset
                            ++ (encode_varint e.block_count ++ index_put_u32 e.attributes)))))))

-- An entry whose path was never set is passed over.
unfoldable pub write_loop : List IndexEntry → List ℕ
write_loop [] = []
write_loop (e ∷ index) =
    let rest = write_loop index in if length e.path == 0 then rest else write_entry e ++ rest

unfoldable pub write_index : List IndexEntry → List ℕ
write_index index = encode_varint (length index) ++ write_loop index

-- The path of an entry, with the bytes behind it.
unfoldable pub parse_path : List ℕ → Result (List ℕ × List ℕ)
parse_path buf = do
  plen ← or_fail (decode_varint buf) corrupt
  fail_if (ltb (length buf - plen.1) plen.0) corrupt
  fail_if (plen.0 == 0 || (leb max_path plen.0 || has_byte 0 (take plen.0 (drop plen.1 buf))))
      corrupt
  fail_if (path_has_unsafe_text (take plen.0 (drop plen.1 buf))) corrupt
  ok (take plen.0 (drop plen.1 buf), drop plen.0 (drop plen.1 buf))

-- The numbers of an entry from `buf` on, with the bytes behind it.
unfoldable pub parse_numbers : List ℕ → List ℕ → Result (IndexEntry × List ℕ)
parse_numbers path buf =
    let buf1 = drop 8 buf in
    let buf2 = drop 8 buf1 in
    let buf3 = drop 8 buf2 in
    let buf4 = drop 8 buf3 in
    let buf5 = drop 8 buf4 in
    do
      fail_if (ltb (length buf) 44) corrupt
      bc ← or_fail (decode_varint buf5) corrupt
      fail_if (ltb (2 ^ 32 - 1) bc.0) corrupt
      fail_if (ltb (length (drop bc.1 buf5)) 4) corrupt
      ok (
        record {
          path = path;
          uncompressed_size = index_get_u64 buf;
          compressed_size = index_get_u64 buf1;
          modification_time = index_get_u64 buf2;
          content_hash = index_get_u64 buf3;
          first_block_offset = index_get_u64 buf4;
          block_count = bc.0;
          attributes = index_get_u32 (drop bc.1 buf5);
        },
        drop 4 (drop bc.1 buf5),
      )

unfoldable pub parse_entry : List ℕ → Result (IndexEntry × List ℕ)
parse_entry buf = do path ← parse_path buf; parse_numbers path.0 path.1

-- `count` rounds of the loop.
unfoldable pub parse_loop : ℕ → List ℕ → Result (List IndexEntry × List ℕ)
parse_loop zero buf = ok ([], buf)
parse_loop (suc count) buf = do
  entry ← parse_entry buf
  rest ← parse_loop count entry.1
  ok (entry.0 ∷ rest.0, rest.1)

abbrev pub paths_of : List IndexEntry → List (List ℕ)
paths_of index = map (λ e. IndexEntry.path e) index

-- What follows the tests of the count.
unfoldable pub parse_entries : ℕ → List ℕ → Result (List IndexEntry)
parse_entries count buf =
    if count == 0
    then (if length buf == 0 then ok [] else err corrupt)
    else (parse_loop count buf >>= λ parsed.
        fail_if (not (length parsed.1 == 0)) corrupt
        >> (validate_archive_destinations (paths_of parsed.0) false >> ok parsed.0))

unfoldable pub parse_index : List ℕ → Result (List IndexEntry)
parse_index buf = do
  count ← or_fail (decode_varint buf) corrupt
  fail_if (ltb max_files count.0) overflow
  fail_if (ltb ((length buf - count.1) / min_index_entry_bytes) count.0) corrupt
  fail_if (ltb ((2 ^ 64 - 1) / sizeof_index_entry) count.0) overflow
  fail_if (ltb (max_index_alloc_bytes / sizeof_index_entry) count.0) overflow
  parse_entries count.0 (drop count.1 buf)

-- One entry, its count and its number of blocks as fixed numbers of four bytes.
unfoldable pub parse_legacy_path : List ℕ → Result (List ℕ × List ℕ)
parse_legacy_path buf = do
  plen ← or_fail (decode_varint buf) corrupt
  fail_if (plen.0 == 0 || (leb max_path plen.0 || ltb (length buf - plen.1) plen.0)) corrupt
  fail_if (has_byte 0 (take plen.0 (drop plen.1 buf)) || not (length buf - plen.1 - plen.0 == 48))
      corrupt
  fail_if (path_has_unsafe_text (take plen.0 (drop plen.1 buf))) corrupt
  ok (take plen.0 (drop plen.1 buf), drop plen.0 (drop plen.1 buf))

unfoldable pub legacy_entry : List ℕ → List ℕ → IndexEntry
legacy_entry path buf =
    let buf1 = drop 8 buf in
    let buf2 = drop 8 buf1 in
    let buf3 = drop 8 buf2 in
    let buf4 = drop 8 buf3 in
    let buf5 = drop 8 buf4 in
    record {
      path = path;
      uncompressed_size = index_get_u64 buf;
      compressed_size = index_get_u64 buf1;
      modification_time = index_get_u64 buf2;
      content_hash = index_get_u64 buf3;
      first_block_offset = index_get_u64 buf4;
      block_count = index_get_u32 buf5;
      attributes = index_get_u32 (drop 4 buf5);
    }

unfoldable pub parse_legacy_disk_index : List ℕ → Result (List IndexEntry)
parse_legacy_disk_index buf =
    if ltb (length buf) 4 || not (index_get_u32 buf == 1) then err corrupt else do
      path ← parse_legacy_path (drop 4 buf)
      fail_if (not (length (drop 48 path.1) == 0)) corrupt
      ok (legacy_entry path.0 path.1 ∷ [])
