-- ===== src/Filetype/Exact.antt =====
-- zupt_detect_filetype of src/zupt_filetype.c looks for fourteen magics and nothing else.
use libvuptsdk.Common.{
  ℕ, ◌≤◌, ◌≡◌, refl, arith, List, [], ◌∷◌, ◌++◌, Bool, true, false, ◌&&◌, ltb, leb, ◌==◌,
  if◌then◌else◌, Bool-cases, inl, inr, length, map, All,
}
use libvuptsdk.Filetype.{
  Magic, jpeg, png, gif, zip, gzip, zstd, xz, seven_zip, bz2, lz4, flac, ogg, pdf, elf, bytes_of,
  is_mp4_1, is_webp, Level, store_only, medium, MagicEntry, entry, magic_table, memcmp_eq,
  entry_level, table_loop, text_level, detect_filetype,
}

unfoldable pub begins_with : List ℕ → List ℕ → Bool
begins_with [] header = true
begins_with (x ∷ m) [] = false
begins_with (x ∷ m) (y ∷ header) = let rest = begins_with m header in if x == y then rest else false

unfoldable pub any_of : List Magic → List ℕ → Bool
any_of [] header = false
any_of (m ∷ ms) header =
    let rest = any_of ms header in if begins_with (bytes_of m) header then true else rest

-- The files that are stored, and those that get medium effort.
abbrev pub compressed_kinds : List Magic
compressed_kinds =
    jpeg ∷ png ∷ gif ∷ zip ∷ gzip ∷ zstd ∷ xz ∷ seven_zip ∷ bz2 ∷ lz4 ∷ flac ∷ ogg ∷ []

abbrev pub partly_compressed_kinds : List Magic
partly_compressed_kinds = pdf ∷ elf ∷ []

memcmp_eq-begins_with :
    (m header : List ℕ)
    → (leb (length m) (length header) && memcmp_eq header m (length m)) ≡ begins_with m header
unfolding memcmp_eq begins_with
memcmp_eq-begins_with [] header = ground arith
memcmp_eq-begins_with (x ∷ m) [] = ground arith
memcmp_eq-begins_with (x ∷ m) (y ∷ header) = ground (arith, memcmp_eq-begins_with m header)

-- An entry that the special cases do not name, with the length of its magic.
abbrev IsPlain : Magic → Type 0
IsPlain m = (is_mp4_1 m ≡ false) × (is_webp m ≡ false)

abbrev sized_entry : Level → Magic → MagicEntry
sized_entry hint m = entry m (length (bytes_of m)) hint

table_loop-append :
    (header : List ℕ) (heuristic hint : Level) (ms : List Magic) (table : List MagicEntry)
    → All IsPlain ms
    → table_loop header heuristic (map (sized_entry hint) ms ++ table)
      ≡ (if any_of ms header then hint else table_loop header heuristic table)
unfolding table_loop any_of entry_level
table_loop-append header heuristic hint [] table h = refl
table_loop-append header heuristic hint (m ∷ ms) table ((no_mp4, no_webp), h) =
    let test = memcmp_eq-begins_with (bytes_of m) header in
    elim (Bool-cases (begins_with (bytes_of m) header)) [
      | inl yes_it ↦ rw (test, yes_it, no_mp4, no_webp) refl
      | inr no_it ↦ rw (test, no_it) (table_loop-append header heuristic hint ms table h)
    ]

magic_table_lem :
    magic_table
    ≡ map (sized_entry store_only) compressed_kinds
      ++ (map (sized_entry medium) partly_compressed_kinds ++ [])
unfolding bytes_of
magic_table_lem = refl

-- For a header of six bytes or more: a file that begins with one of the magics of compressed kinds
-- is stored, one that begins with that of PDF or ELF gets medium effort, and every other is judged
-- by its share of text alone. So files of the kinds MP4 and WEBP are never stored for their magic.
pub detect_filetype-any_of :
    (header : List ℕ)
    → 6 ≤ length header
    → detect_filetype header ≡ (
        if any_of compressed_kinds header
        then store_only
        else (if any_of partly_compressed_kinds header then medium else text_level header))
unfolding detect_filetype
detect_filetype-any_of header long =
    let enough : ltb (length header) 6 ≡ false = ground arith in
    let plain : All IsPlain compressed_kinds = ground arith in
    let plain' : All IsPlain partly_compressed_kinds = ground arith in
    rw
      (
        enough,
        magic_table_lem,
        table_loop-append header (text_level header) store_only compressed_kinds
            (map (sized_entry medium) partly_compressed_kinds ++ []) plain,
        table_loop-append header (text_level header) medium partly_compressed_kinds [] plain',
      )
      (unfold table_loop in refl)
