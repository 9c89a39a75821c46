-- ===== src/Archive/Header.antt =====
-- zupt_archive_header_t and zupt_footer_t of include/zupt.h, and their serialisation in
-- src/zupt_format.c. The functions fill a zeroed buffer at the offsets 0, 6, 7, 8, 12, ...; each
-- field ends where the next begins and the last ends the buffer, so that the buffer is their
-- concatenation. A byte array of a fixed size is a list with that length.
pub mod RoundTrip
use libvuptsdk.Common.{
  ℕ, ◌^◌, ◌<◌, ◌≡◌, List, [], ◌∷◌, ◌++◌, Bool, ◌||◌, not, length, take, drop, get_or, ◌==◌, All,
  IsByte,
}
use libvuptsdk.Wire.Stream.{fread}
use libvuptsdk.Wire.Fixed.{le32_put, le32_get, le64_put, le64_get}
use libvuptsdk.Archive.Error.{Result, ok, io, bad_magic, bad_version, ◌>>=◌, ◌>>◌, fail_if, or_fail}

abbrev pub archive_header_size : ℕ
archive_header_size = 64

abbrev pub footer_size : ℕ
footer_size = 32

abbrev pub format_major : ℕ
format_major = 1

pub record ArchiveHeader : Type 0 where
  pub magic : List ℕ
  pub version_major : ℕ
  pub version_minor : ℕ
  pub global_flags : ℕ
  pub creation_time : ℕ
  pub archive_id : List ℕ
  pub encryption_header_off : ℕ
  pub comment_offset : ℕ
  pub reserved : List ℕ

pub record Footer : Type 0 where
  pub index_offset : ℕ
  pub total_blocks : ℕ
  pub archive_checksum : ℕ
  pub footer_magic : List ℕ
  pub footer_version : ℕ

-- What the C types say of the fields.
pub record IsHeader (h : ArchiveHeader) : Type 0 where
  pub magic_size : length h.magic ≡ 6
  pub id_size : length h.archive_id ≡ 16
  pub reserved_size : length h.reserved ≡ 12
  pub flags_range : h.global_flags < 2 ^ 32
  pub time_range : h.creation_time < 2 ^ 64
  pub encryption_range : h.encryption_header_off < 2 ^ 64
  pub comment_range : h.comment_offset < 2 ^ 64

pub record IsFooter (t : Footer) : Type 0 where
  pub magic_size : length t.footer_magic ≡ 4
  pub index_range : t.index_offset < 2 ^ 64
  pub blocks_range : t.total_blocks < 2 ^ 64
  pub checksum_range : t.archive_checksum < 2 ^ 64
  pub version_range : t.footer_version < 2 ^ 32

unfoldable pub serialize_archive_header : ArchiveHeader → List ℕ
serialize_archive_header h =
    h.magic
    ++ (h.version_major
        ∷ h.version_minor
        ∷ (le32_put h.global_flags
            ++ (le64_put h.creation_time
                ++ (h.archive_id
                    ++ (le64_put h.encryption_header_off
                        ++ (le64_put h.comment_offset ++ h.reserved))))))

unfoldable pub serialize_footer : Footer → List ℕ
serialize_footer t =
    le64_put t.index_offset
    ++ (le64_put t.total_blocks
        ++ (le64_put t.archive_checksum ++ (t.footer_magic ++ le32_put t.footer_version)))

unfoldable pub deserialize_archive_header : List ℕ → ArchiveHeader
deserialize_archive_header b = record {
  magic = take 6 b;
  version_major = get_or b 6 0;
  version_minor = get_or b 7 0;
  global_flags = le32_get (drop 8 b);
  creation_time = le64_get (drop 12 b);
  archive_id = take 16 (drop 20 b);
  encryption_header_off = le64_get (drop 36 b);
  comment_offset = le64_get (drop 44 b);
  reserved = take 12 (drop 52 b);
}

unfoldable pub deserialize_footer : List ℕ → Footer
deserialize_footer b = record {
  index_offset = le64_get b;
  total_blocks = le64_get (drop 8 b);
  archive_checksum = le64_get (drop 16 b);
  footer_magic = take 4 (drop 24 b);
  footer_version = le32_get (drop 28 b);
}

-- h->magic[i] != value, at one place
abbrev pub differs : List ℕ → ℕ → ℕ → Bool
differs b i value = not (get_or b i 0 == value)

unfoldable pub read_header : List ℕ → Result (ArchiveHeader × List ℕ)
read_header f = do
  (b, rest) ← or_fail (fread archive_header_size f) io
  let h = deserialize_archive_header b
  fail_if
      (differs h.magic 0 0x5a
        || differs h.magic 1 0x55
        || differs h.magic 2 0x50
        || differs h.magic 3 0x54
        || differs h.magic 4 0x1a
        || differs h.magic 5 0x00)
      bad_magic
  fail_if (not (h.version_major == format_major)) bad_version
  ok (h, rest)
