-- ===== src/Archive/Index/RoundTrip.antt =====
-- parse_index of src/zupt_format.c reads back the index that the compressor wrote.
use libvuptsdk.Common.{
  ℕ, ◌+◌, ◌-◌, ◌*◌, ◌/◌, ◌^◌, ◌≤◌, ◌<◌, ◌≡◌, refl, arith, List, [], ◌∷◌, ◌++◌, true, false, ltb,
  leb, ◌==◌, length, All, length-append, take-append, drop-append, append_assoc, append-nil,
}
use libvuptsdk.Wire.Varint.{encode_varint}
use libvuptsdk.Wire.Varint.RoundTrip.{decode_varint-encode_varint}
use libvuptsdk.Text.{has_byte, path_has_unsafe_text, path_is_safe, max_path}
use libvuptsdk.Archive.Error.{ok}
use libvuptsdk.Archive.Destinations.{validate_archive_destinations}
use libvuptsdk.Archive.Destinations.Distinct.{
  IsSafe, validate_archive_destinations-Distinct, validate_archive_destinations_unasked,
}
use libvuptsdk.Archive.Index.{
  IndexEntry, max_index_alloc_bytes, sizeof_index_entry, min_index_entry_bytes, max_files,
  index_put_u64, index_put_u32, write_entry, write_loop, write_index, parse_path, parse_numbers,
  parse_entry, parse_loop, parse_entries, parse_index, paths_of,
}
use libvuptsdk.Archive.Index.Fields.{
  u64_written, u64_behind, u32_written, u32_behind, length_u64, length_u32, length-encode_varint,
}

-- A path that a reader accepts.
pub record IsPath (path : List ℕ) : Type 0 where
  pub some_there : 1 ≤ length path
  pub short : length path < max_path
  pub no_nul : has_byte 0 path ≡ false
  pub safe_text : path_has_unsafe_text path ≡ false

-- An entry that a reader accepts, with the ranges of the numbers' types.
pub record IsEntry (e : IndexEntry) : Type 0 where
  pub is_path : IsPath e.path
  pub size_range : e.uncompressed_size < 2 ^ 64
  pub compressed_range : e.compressed_size < 2 ^ 64
  pub time_range : e.modification_time < 2 ^ 64
  pub hash_range : e.content_hash < 2 ^ 64
  pub offset_range : e.first_block_offset < 2 ^ 64
  pub count_range : e.block_count < 2 ^ 32
  pub attributes_range : e.attributes < 2 ^ 32

parse_path-written :
    (path rest : List ℕ)
    → IsPath path
    → parse_path (encode_varint (length path) ++ (path ++ rest)) ≡ ok (path, rest)
unfolding parse_path
parse_path-written path rest h =
    let size = encode_varint (length path) in
    let read = decode_varint-encode_varint (length path) (path ++ rest) (omega (arith, h.short)) in
    let fits : ltb (length (size ++ (path ++ rest)) - length size) (length path) ≡ false =
      ground (arith, length-append size (path ++ rest), length-append path rest) in
    let some_there : length path == 0 ≡ false = ground (arith, h.some_there) in
    let short : leb max_path (length path) ≡ false = ground (arith, h.short) in
    rw
      (
        read,
        drop-append size (path ++ rest) (length size) refl,
        take-append path rest (length path) refl,
        drop-append path rest (length path) refl,
        fits,
        some_there,
        short,
        h.no_nul,
        h.safe_text,
      )
      refl

-- The numbers of an entry with the rest of the index behind them.
abbrev pub numbers : IndexEntry → List ℕ → List ℕ
numbers e rest =
    index_put_u64 e.uncompressed_size
    ++ (index_put_u64 e.compressed_size
        ++ (index_put_u64 e.modification_time
            ++ (index_put_u64 e.content_hash
                ++ (index_put_u64 e.first_block_offset
                    ++ (encode_varint e.block_count ++ (index_put_u32 e.attributes ++ rest))))))

pub write_entry-parts :
    (e : IndexEntry) (rest : List ℕ)
    → write_entry e ++ rest ≡ encode_varint (length e.path) ++ (e.path ++ numbers e rest)
unfolding write_entry
write_entry-parts e rest = simp append_assoc

length-numbers : (e : IndexEntry) (rest : List ℕ) → 45 + length rest ≤ length (numbers e rest)
length-numbers e rest = omega (
  arith,
  length-append {0},
  length_u64,
  length_u32 e.attributes,
  length-encode_varint e.block_count,
)

parse_numbers-written :
    (e : IndexEntry) (rest : List ℕ)
    → IsEntry e
    → parse_numbers e.path (numbers e rest) ≡ ok (e, rest)
unfolding parse_numbers
parse_numbers-written e rest h =
    let behind = index_put_u32 e.attributes ++ rest in
    let count = encode_varint e.block_count in
    let f5 = count ++ behind in
    let f4 = index_put_u64 e.first_block_offset ++ f5 in
    let f3 = index_put_u64 e.content_hash ++ f4 in
    let f2 = index_put_u64 e.modification_time ++ f3 in
    let f1 = index_put_u64 e.compressed_size ++ f2 in
    let long : ltb (length (numbers e rest)) 44 ≡ false = ground (arith, length-numbers e rest) in
    let read = decode_varint-encode_varint e.block_count behind (omega (arith, h.count_range)) in
    let small : ltb (2 ^ 32 - 1) e.block_count ≡ false = ground (arith, h.count_range) in
    let four : ltb (length behind) 4 ≡ false =
      ground (arith, length-append (index_put_u32 e.attributes) rest, length_u32 e.attributes) in
    simp
      (
        long,
        u64_behind e.uncompressed_size f1,
        u64_behind e.compressed_size f2,
        u64_behind e.modification_time f3,
        u64_behind e.content_hash f4,
        u64_behind e.first_block_offset f5,
        read,
        drop-append count behind (length count) refl,
        small,
        four,
        u64_written e.uncompressed_size f1 h.size_range,
        u64_written e.compressed_size f2 h.compressed_range,
        u64_written e.modification_time f3 h.time_range,
        u64_written e.content_hash f4 h.hash_range,
        u64_written e.first_block_offset f5 h.offset_range,
        u32_written e.attributes rest h.attributes_range,
        u32_behind e.attributes rest,
      )
      refl

parse_entry-write_entry :
    (e : IndexEntry) (rest : List ℕ)
    → IsEntry e
    → parse_entry (write_entry e ++ rest) ≡ ok (e, rest)
unfolding parse_entry
parse_entry-write_entry e rest h =
    rw (write_entry-parts e rest, parse_path-written e.path (numbers e rest) h.is_path)
      (parse_numbers-written e rest h)

parse_loop-write_loop :
    (index : List IndexEntry) (rest : List ℕ)
    → All IsEntry index
    → parse_loop (length index) (write_loop index ++ rest) ≡ ok (index, rest)
unfolding parse_loop write_loop
parse_loop-write_loop [] rest h = refl
parse_loop-write_loop (e ∷ index) rest (he, h) =
    let there : length e.path == 0 ≡ false = ground (arith, he.is_path.some_there) in
    rw
      (
        there,
        append_assoc (write_entry e) (write_loop index) rest,
        parse_entry-write_entry e (write_loop index ++ rest) he,
        parse_loop-write_loop index rest h,
      )
      refl

length-write_loop :
    (index : List IndexEntry) → All IsEntry index → 47 * length index ≤ length (write_loop index)
unfolding write_loop write_entry
length-write_loop [] h = omega arith
length-write_loop (e ∷ index) (he, h) =
    let there : length e.path == 0 ≡ false = ground (arith, he.is_path.some_there) in
    rw there (
      omega (
        arith,
        length-append {0},
        length_u64,
        length_u32 e.attributes,
        length-encode_varint e.block_count,
        length-encode_varint (length e.path),
        he.is_path.some_there,
        length-write_loop index h,
      ))

parse_entries-write_loop :
    (index : List IndexEntry)
    → All IsEntry index
    → validate_archive_destinations (paths_of index) false ≡ ok tt
    → parse_entries (length index) (write_loop index) ≡ ok index
unfolding parse_entries
parse_entries-write_loop [] h k = unfold write_loop in refl
parse_entries-write_loop (e ∷ index) h k =
    let all =
      rw (append-nil (write_loop (e ∷ index))) at (parse_loop-write_loop (e ∷ index) [] h) in
    let many : length (e ∷ index) == 0 ≡ false = ground arith in rw (many, all, k) refl

parses :
    (index : List IndexEntry)
    → All IsEntry index
    → length index ≤ max_index_alloc_bytes / sizeof_index_entry
    → validate_archive_destinations (paths_of index) false ≡ ok tt
    → parse_index (write_index index) ≡ ok index
unfolding parse_index write_index
parses index h few k =
    let count = encode_varint (length index) in
    let n = length index in
    let read = decode_varint-encode_varint n (write_loop index) (omega arith) in
    let low1 : ltb max_files n ≡ false = ground arith in
    let low2 : ltb ((2 ^ 64 - 1) / sizeof_index_entry) n ≡ false = ground arith in
    let low3 : ltb (max_index_alloc_bytes / sizeof_index_entry) n ≡ false = ground arith in
    let room : ltb ((length (count ++ write_loop index) - length count) / min_index_entry_bytes) n
        ≡ false =
      lt_false (omega (arith, length-append count (write_loop index), length-write_loop index h)) in
    rw (read, low1, room, low2, low3, drop-append count (write_loop index) (length count) refl)
      (parse_entries-write_loop index h k)
  where
    lt_false : {a b : ℕ} → b ≤ a → ltb a b ≡ false
    lt_false h = ground arith

path_is_safe-IsPath :
    (path : List ℕ) → has_byte 0 path ≡ false → path_is_safe path ≡ true → IsPath path
unfolding path_is_safe
path_is_safe-IsPath path no_nul safe = record {
  some_there = ground arith;
  short = ground arith;
  no_nul = no_nul;
  safe_text = ground arith;
}

-- An entry as the compressor makes it: a C string, and numbers of their types.
pub record IsWritten (e : IndexEntry) : Type 0 where
  pub no_nul : has_byte 0 e.path ≡ false
  pub size_range : e.uncompressed_size < 2 ^ 64
  pub compressed_range : e.compressed_size < 2 ^ 64
  pub time_range : e.modification_time < 2 ^ 64
  pub hash_range : e.content_hash < 2 ^ 64
  pub offset_range : e.first_block_offset < 2 ^ 64
  pub count_range : e.block_count < 2 ^ 32
  pub attributes_range : e.attributes < 2 ^ 32

All-IsEntry :
    (index : List IndexEntry)
    → All IsWritten index
    → All (IsSafe true) (paths_of index)
    → All IsEntry index
All-IsEntry [] h s = tt
All-IsEntry (e ∷ index) (he, h) (se, s) = (
  record {
    is_path = path_is_safe-IsPath e.path he.no_nul (se refl);
    size_range = he.size_range;
    compressed_range = he.compressed_range;
    time_range = he.time_range;
    hash_range = he.hash_range;
    offset_range = he.offset_range;
    count_range = he.count_range;
    attributes_range = he.attributes_range;
  },
  All-IsEntry index h s,
)

-- Let the files be few enough for the compressor's limit on the index and their paths pass its
-- test of the destinations. Then parse_index reads back, entry for entry, the index that the
-- compressor's loop writes for entries with C strings for paths and numbers of their types.
pub parse_index-write_index :
    (index : List IndexEntry)
    → All IsWritten index
    → length index ≤ max_index_alloc_bytes / sizeof_index_entry
    → validate_archive_destinations (paths_of index) true ≡ ok tt
    → parse_index (write_index index) ≡ ok index
parse_index-write_index index h few k =
    let (_, safe) = validate_archive_destinations-Distinct (paths_of index) true k in
    parses index (All-IsEntry index h safe) few
      (validate_archive_destinations_unasked (paths_of index) k)
