-- ===== src/Examples/Filetypes.antt =====
-- zupt_detect_filetype of src/zupt_filetype.c on the header of a WEBP file.
use libvuptsdk.Common.{ℕ, ◌≡◌, refl, arith, List, [], ◌∷◌, if◌then◌else◌}
use libvuptsdk.Filetype.{
  detect_filetype, store_only, medium, text_level, default_level, table_loop, memcmp_eq, bytes_of,
  count_text,
}
use libvuptsdk.Filetype.Exact.{
  any_of, compressed_kinds, partly_compressed_kinds, detect_filetype-any_of,
}

-- RIFF, a size, and WEBP.
abbrev webp_header : List ℕ
webp_header = 0x52 ∷ 0x49 ∷ 0x46 ∷ 0x46 ∷ 0x24 ∷ 0 ∷ 0 ∷ 0 ∷ 0x57 ∷ 0x45 ∷ 0x42 ∷ 0x50 ∷ []

detect_filetype-any_of_example : detect_filetype webp_header ≡ (
    if any_of compressed_kinds webp_header
    then store_only
    else (if any_of partly_compressed_kinds webp_header then medium else text_level webp_header))
detect_filetype-any_of_example = detect_filetype-any_of webp_header (omega arith)

webp_is_not_stored : detect_filetype webp_header ≡ default_level
unfolding detect_filetype table_loop memcmp_eq bytes_of text_level count_text
webp_is_not_stored = refl
