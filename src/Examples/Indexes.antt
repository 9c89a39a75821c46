-- ===== src/Examples/Indexes.antt =====
-- The central index of src/zupt_format.c and its destinations on small inputs.
use libvuptsdk.Common.{
  ℕ, ◌≤◌, ◌/◌, ◌≡◌, refl, arith, List, [], ◌∷◌, ◌++◌, replicate, length, true, false, map, All,
}
use libvuptsdk.Wire.Fixed.{le64_get, le32_get}
use libvuptsdk.Wire.Varint.{decode_varint}
use libvuptsdk.Text.{
  has_byte, path_has_unsafe_text, unsafe_loop, decode_utf8_scalar, codepoint_is_display_control,
  path_is_safe, component_scan, component_is_safe, is_reserved_dos_name, ascii_equal_ci, base_of,
  has_control, normalize_archive_path, normalize_loop,
}
use libvuptsdk.Archive.Error.{ok, err, corrupt}
use libvuptsdk.Archive.Destinations.{
  validate_archive_destinations, collides, keys_loop, sort_keys, insert_key, strcmp, collision_loop,
  is_prefix,
}
use libvuptsdk.Archive.Destinations.Distinct.{
  Distinct, destination, IsSafe, validate_archive_destinations-Distinct,
}
use libvuptsdk.Archive.Destinations.Missed.{validate_archive_destinations_missed}
use libvuptsdk.Archive.Index.{
  IndexEntry, max_index_alloc_bytes, sizeof_index_entry, write_index, parse_index,
  parse_legacy_disk_index, parse_entries, parse_loop, parse_entry, parse_path, parse_numbers,
  index_get_u64, index_get_u32, parse_legacy_path, legacy_entry,
}
use libvuptsdk.Archive.Index.RoundTrip.{IsEntry, IsWritten, parse_index-write_index}
use libvuptsdk.Archive.Index.Canonical.{IsIndex, parse_index-canonical}
use libvuptsdk.Archive.Index.Legacy.{
  old_index, parse_index-old_index, parse_legacy_disk_index-canonical,
}

-- The paths "a" and "b/c".
abbrev path_a : List ℕ
path_a = 0x61 ∷ []

abbrev path_bc : List ℕ
path_bc = 0x62 ∷ 0x2f ∷ 0x63 ∷ []

abbrev entry_a : IndexEntry
entry_a = record {
  path = path_a;
  uncompressed_size = 0;
  compressed_size = 0;
  modification_time = 0;
  content_hash = 0;
  first_block_offset = 0;
  block_count = 1;
  attributes = 420;
}

abbrev entry_bc : IndexEntry
entry_bc = record entry_a { path = path_bc; uncompressed_size = 300 }

abbrev two_entries : List IndexEntry
two_entries = entry_a ∷ entry_bc ∷ []

abbrev two_paths : List (List ℕ)
two_paths = path_a ∷ path_bc ∷ []

two_paths_fine : validate_archive_destinations two_paths true ≡ ok tt
unfolding validate_archive_destinations keys_loop path_is_safe has_byte path_has_unsafe_text
    unsafe_loop decode_utf8_scalar codepoint_is_display_control component_scan component_is_safe
    is_reserved_dos_name ascii_equal_ci base_of has_control sort_keys insert_key strcmp
    normalize_archive_path normalize_loop collides collision_loop is_prefix
two_paths_fine = refl

validate_archive_destinations-Distinct_example :
    Distinct (map destination two_paths) × All (IsSafe true) two_paths
validate_archive_destinations-Distinct_example =
    validate_archive_destinations-Distinct two_paths true two_paths_fine

-- "a", "a.b" and "a/c".
validate_archive_destinations_missed_example :
    (validate_archive_destinations
        (path_a ∷ (path_a ++ (0x2e ∷ 0x62 ∷ [])) ∷ (path_a ++ (0x2f ∷ 0x63 ∷ [])) ∷ [])
        false
      ≡ ok tt)
    × (collides path_a (path_a ++ (0x2f ∷ 0x63 ∷ [])) ≡ true)
validate_archive_destinations_missed_example =
    validate_archive_destinations_missed path_a (0x62 ∷ []) (0x63 ∷ []) ((refl, refl), tt)
      ((refl, refl), tt) ((refl, refl), tt)

two_entries-IsWritten : All IsWritten two_entries
unfolding has_byte
two_entries-IsWritten = ground arith

parse_index-write_index_example : parse_index (write_index two_entries) ≡ ok two_entries
parse_index-write_index_example =
    parse_index-write_index two_entries two_entries-IsWritten (omega arith) two_paths_fine

-- One entry in the new layout and in the old.
abbrev index_bytes : List ℕ
index_bytes = 1 ∷ 1 ∷ 0x61 ∷ (replicate 40 0 ++ (1 ∷ 0xa4 ∷ 1 ∷ 0 ∷ 0 ∷ []))

abbrev old_bytes : List ℕ
old_bytes = 1 ∷ 0 ∷ 0 ∷ 0 ∷ 1 ∷ 0x61 ∷ (replicate 40 0 ++ (1 ∷ 0 ∷ 0 ∷ 0 ∷ 0xa4 ∷ 1 ∷ 0 ∷ 0 ∷ []))

parses_bytes : parse_index index_bytes ≡ ok (entry_a ∷ [])
unfolding parse_index decode_varint parse_entries parse_loop parse_entry parse_path has_byte
    path_has_unsafe_text unsafe_loop decode_utf8_scalar codepoint_is_display_control parse_numbers
    validate_archive_destinations index_get_u64 index_get_u32 le64_get le32_get
parses_bytes = refl

parses_old : parse_legacy_disk_index old_bytes ≡ ok (entry_a ∷ [])
unfolding parse_legacy_disk_index index_get_u32 le32_get parse_legacy_path decode_varint has_byte
    path_has_unsafe_text unsafe_loop decode_utf8_scalar codepoint_is_display_control legacy_entry
    index_get_u64 le64_get
parses_old = refl

parse_index-canonical_example :
    (index_bytes ≡ write_index (entry_a ∷ []))
    × IsIndex (entry_a ∷ [])
    × (length (entry_a ∷ []) ≤ max_index_alloc_bytes / sizeof_index_entry)
parse_index-canonical_example =
    parse_index-canonical index_bytes (entry_a ∷ []) (omega arith) parses_bytes

parse_legacy_disk_index-canonical_example :
    (e : IndexEntry) × (entry_a ∷ [] ≡ e ∷ []) × (old_bytes ≡ old_index e) × IsEntry e
parse_legacy_disk_index-canonical_example =
    parse_legacy_disk_index-canonical old_bytes (entry_a ∷ []) (omega arith) parses_old

entry_bc-IsEntry : IsEntry entry_bc
unfolding has_byte path_has_unsafe_text unsafe_loop decode_utf8_scalar codepoint_is_display_control
entry_bc-IsEntry = ground arith

parse_index-old_index_example : parse_index (old_index entry_bc) ≡ err corrupt
parse_index-old_index_example = parse_index-old_index entry_bc entry_bc-IsEntry
