-- ===== src/Archive/Header/RoundTrip.antt =====
-- The header and the footer are read back as they were written.
use libvuptsdk.Common.{
  ℕ, ◌+◌, ◌≡◌, refl, ap, ◌∙◌, arith, List, [], ◌∷◌, ◌++◌, length, take, drop, get_or, length-append,
  take-append, drop-append, drop-skip, get_or-skip, take_all,
}
use libvuptsdk.Wire.Fixed.{le32_put, le32_get, le64_put, le64_get}
use libvuptsdk.Wire.Fixed.RoundTrip.{le32_get-le32_put, le64_get-le64_put}
use libvuptsdk.Archive.Header.{
  ArchiveHeader, Footer, IsHeader, IsFooter, serialize_archive_header, serialize_footer,
  deserialize_archive_header, deserialize_footer,
}

-- The parts of a serialised header behind the magic number, and behind the archive id.
abbrev behind_id : ArchiveHeader → List ℕ
behind_id h = le64_put h.encryption_header_off ++ (le64_put h.comment_offset ++ h.reserved)

abbrev behind_magic : ArchiveHeader → List ℕ
behind_magic h =
    h.version_major
    ∷ h.version_minor
    ∷ (le32_put h.global_flags ++ (le64_put h.creation_time ++ (h.archive_id ++ behind_id h)))

module _ (h : ArchiveHeader) (valid : IsHeader h) where
  skip_magic : (k : ℕ) → drop (6 + k) (serialize_archive_header h) ≡ drop k (behind_magic h)
  unfolding serialize_archive_header
  skip_magic k = drop-skip 6 k h.magic (behind_magic h) valid.magic_size

  -- 14 bytes stand between the magic number and the id.
  skip_id : (k : ℕ) → drop (14 + (16 + k)) (behind_magic h) ≡ drop k (behind_id h)
  unfolding le32_put le64_put
  skip_id k =
      drop-skip 14 (16 + k) (front ++ []) (h.archive_id ++ behind_id h) refl
      ∙ drop-skip 16 k h.archive_id (behind_id h) valid.id_size
    where
      front : List ℕ
      front =
          h.version_major ∷ h.version_minor ∷ (le32_put h.global_flags ++ le64_put h.creation_time)

  magic_field : take 6 (serialize_archive_header h) ≡ h.magic
  unfolding serialize_archive_header
  magic_field = take-append h.magic (behind_magic h) 6 valid.magic_size

  major_field : get_or (serialize_archive_header h) 6 0 ≡ h.version_major
  unfolding serialize_archive_header
  major_field = get_or-skip 6 0 h.magic (behind_magic h) 0 valid.magic_size

  minor_field : get_or (serialize_archive_header h) 7 0 ≡ h.version_minor
  unfolding serialize_archive_header
  minor_field = get_or-skip 6 1 h.magic (behind_magic h) 0 valid.magic_size

  flags_field : le32_get (drop 8 (serialize_archive_header h)) ≡ h.global_flags
  flags_field = ap le32_get (skip_magic 2) ∙ le32_get-le32_put h.global_flags _ valid.flags_range

  time_field : le64_get (drop 12 (serialize_archive_header h)) ≡ h.creation_time
  unfolding le32_put
  time_field = ap le64_get (skip_magic 6) ∙ le64_get-le64_put h.creation_time _ valid.time_range

  id_field : take 16 (drop 20 (serialize_archive_header h)) ≡ h.archive_id
  unfolding le32_put le64_put
  id_field = ap (take 16) (skip_magic 14) ∙ take-append h.archive_id (behind_id h) 16 valid.id_size

  encryption_field : le64_get (drop 36 (serialize_archive_header h)) ≡ h.encryption_header_off
  encryption_field =
      ap le64_get (skip_magic 30 ∙ skip_id 0)
      ∙ le64_get-le64_put h.encryption_header_off _ valid.encryption_range

  comment_field : le64_get (drop 44 (serialize_archive_header h)) ≡ h.comment_offset
  unfolding le64_put
  comment_field =
      ap le64_get (skip_magic 38 ∙ skip_id 8)
      ∙ le64_get-le64_put h.comment_offset h.reserved valid.comment_range

  reserved_field : take 12 (drop 52 (serialize_archive_header h)) ≡ h.reserved
  unfolding le64_put
  reserved_field =
      ap (take 12) (skip_magic 46 ∙ skip_id 16) ∙ take_all 12 h.reserved valid.reserved_size

  pub length-serialize_archive_header : length (serialize_archive_header h) ≡ 64
  unfolding serialize_archive_header le32_put le64_put
  length-serialize_archive_header = omega (
    arith,
    valid.magic_size,
    valid.id_size,
    valid.reserved_size,
    length-append h.magic (behind_magic h),
    length-append h.archive_id (behind_id h),
  )

-- zupt_serialize_archive_header writes 64 bytes, and deserialize_archive_header reads the same
-- header back from them.
pub deserialize-serialize_header :
    (h : ArchiveHeader)
    → IsHeader h
    → (length (serialize_archive_header h) ≡ 64)
      × (deserialize_archive_header (serialize_archive_header h) ≡ h)
unfolding deserialize_archive_header
deserialize-serialize_header h valid = (
  length-serialize_archive_header h valid,
  λ i. record {
    magic = magic_field h valid i;
    version_major = major_field h valid i;
    version_minor = minor_field h valid i;
    global_flags = flags_field h valid i;
    creation_time = time_field h valid i;
    archive_id = id_field h valid i;
    encryption_header_off = encryption_field h valid i;
    comment_offset = comment_field h valid i;
    reserved = reserved_field h valid i;
  },
)

module _ (t : Footer) (valid : IsFooter t) where
  footer_magic_field : take 4 (drop 24 (serialize_footer t)) ≡ t.footer_magic
  unfolding serialize_footer le64_put
  footer_magic_field = take-append t.footer_magic (le32_put t.footer_version) 4 valid.magic_size

  index_field : le64_get (serialize_footer t) ≡ t.index_offset
  unfolding serialize_footer
  index_field = le64_get-le64_put t.index_offset _ valid.index_range

  blocks_field : le64_get (drop 8 (serialize_footer t)) ≡ t.total_blocks
  unfolding serialize_footer le64_put
  blocks_field = le64_get-le64_put t.total_blocks _ valid.blocks_range

  checksum_field : le64_get (drop 16 (serialize_footer t)) ≡ t.archive_checksum
  unfolding serialize_footer le64_put
  checksum_field = le64_get-le64_put t.archive_checksum _ valid.checksum_range

  version_field : le32_get (drop 28 (serialize_footer t)) ≡ t.footer_version
  unfolding serialize_footer le64_put le32_put
  version_field =
      ap le32_get (drop-append t.footer_magic (le32_put t.footer_version) 4 valid.magic_size)
      ∙ le32_get-le32_put t.footer_version [] valid.version_range

  pub length-serialize_footer : length (serialize_footer t) ≡ 32
  unfolding serialize_footer le64_put le32_put
  length-serialize_footer =
      omega (arith, valid.magic_size, length-append t.footer_magic (le32_put t.footer_version))

-- zupt_serialize_footer writes 32 bytes, and deserialize_footer reads the same footer back.
pub deserialize-serialize_footer :
    (t : Footer)
    → IsFooter t
    → (length (serialize_footer t) ≡ 32) × (deserialize_footer (serialize_footer t) ≡ t)
unfolding deserialize_footer
deserialize-serialize_footer t valid = (
  length-serialize_footer t valid,
  λ i. record {
    index_offset = index_field t valid i;
    total_blocks = blocks_field t valid i;
    archive_checksum = checksum_field t valid i;
    footer_magic = footer_magic_field t valid i;
    footer_version = version_field t valid i;
  },
)
