-- ===== src/Filetype.antt =====
-- zupt_detect_filetype of src/zupt_filetype.c. The header is the list of its bytes; a magic is
-- compared with the table's by its name, as the code compares pointers.
pub mod Exact
use libvuptsdk.Common.{
  ℕ, zero, suc, ◌+◌, ◌*◌, ◌/◌, List, [], ◌∷◌, Bool, true, false, ◌&&◌, ◌||◌, ltb, leb, ◌==◌,
  if◌then◌else◌, min, length, take, drop,
}

pub data Magic : Type 0 where
  jpeg png gif zip gzip zstd xz seven_zip bz2 lz4 mp4_1 webp flac ogg pdf elf : Magic

-- M_JPEG to M_ELF
unfoldable pub bytes_of : Magic → List ℕ
bytes_of jpeg = 0xff ∷ 0xd8 ∷ 0xff ∷ []
bytes_of png = 0x89 ∷ 0x50 ∷ 0x4e ∷ 0x47 ∷ []
bytes_of gif = 0x47 ∷ 0x49 ∷ 0x46 ∷ 0x38 ∷ []
bytes_of zip = 0x50 ∷ 0x4b ∷ 0x03 ∷ 0x04 ∷ []
bytes_of gzip = 0x1f ∷ 0x8b ∷ []
bytes_of zstd = 0x28 ∷ 0xb5 ∷ 0x2f ∷ 0xfd ∷ []
bytes_of xz = 0xfd ∷ 0x37 ∷ 0x7a ∷ 0x58 ∷ 0x5a ∷ 0x00 ∷ []
bytes_of seven_zip = 0x37 ∷ 0x7a ∷ 0xbc ∷ 0xaf ∷ 0x27 ∷ 0x1c ∷ []
bytes_of bz2 = 0x42 ∷ 0x5a ∷ 0x68 ∷ []
bytes_of lz4 = 0x04 ∷ 0x22 ∷ 0x4d ∷ 0x18 ∷ []
bytes_of mp4_1 = 0x00 ∷ 0x00 ∷ 0x00 ∷ []
bytes_of webp = 0x52 ∷ 0x49 ∷ 0x46 ∷ 0x46 ∷ []
bytes_of flac = 0x66 ∷ 0x4c ∷ 0x61 ∷ 0x43 ∷ []
bytes_of ogg = 0x4f ∷ 0x67 ∷ 0x67 ∷ 0x53 ∷ []
bytes_of pdf = 0x25 ∷ 0x50 ∷ 0x44 ∷ 0x46 ∷ []
bytes_of elf = 0x7f ∷ 0x45 ∷ 0x4c ∷ 0x46 ∷ []

abbrev pub is_mp4_1 : Magic → Bool
is_mp4_1 mp4_1 = true
is_mp4_1 _ = false

abbrev pub is_webp : Magic → Bool
is_webp webp = true
is_webp _ = false

-- -1, 0, 5 and 9
pub data Level : Type 0 where
  store_only default_level medium highest : Level

pub record MagicEntry : Type 0 where
  pub magic : Magic
  pub magic_len : ℕ
  pub level_hint : Level

abbrev pub entry : Magic → ℕ → Level → MagicEntry
entry m n hint = record { magic = m; magic_len = n; level_hint = hint }

-- MAGIC_TABLE, without the sentinel
abbrev pub magic_table : List MagicEntry
magic_table =
    entry jpeg 3 store_only
    ∷ entry png 4 store_only
    ∷ entry gif 4 store_only
    ∷ entry zip 4 store_only
    ∷ entry gzip 2 store_only
    ∷ entry zstd 4 store_only
    ∷ entry xz 6 store_only
    ∷ entry seven_zip 6 store_only
    ∷ entry bz2 3 store_only
    ∷ entry lz4 4 store_only
    ∷ entry flac 4 store_only
    ∷ entry ogg 4 store_only
    ∷ entry pdf 4 medium
    ∷ entry elf 4 medium
    ∷ []

-- memcmp(a, b, n) == 0 for buffers of at least n bytes
unfoldable pub memcmp_eq : List ℕ → List ℕ → ℕ → Bool
memcmp_eq a b zero = true
memcmp_eq [] b (suc n) = false
memcmp_eq (x ∷ a) [] (suc n) = false
memcmp_eq (x ∷ a) (y ∷ b) (suc n) = let rest = memcmp_eq a b n in if x == y then rest else false

-- What an entry of the table whose magic fits makes of the header; `rest` goes on in the table.
unfoldable pub entry_level : List ℕ → MagicEntry → Level → Level
entry_level header e rest =
    if is_mp4_1 e.magic && leb 8 (length header)
    then (if memcmp_eq (drop 4 header) (0x66 ∷ 0x74 ∷ 0x79 ∷ 0x70 ∷ []) 4 then store_only else rest)
    else (if is_webp e.magic && leb 12 (length header)
        then (if memcmp_eq (drop 8 header) (0x57 ∷ 0x45 ∷ 0x42 ∷ 0x50 ∷ []) 4
            then store_only
            else rest)
        else e.level_hint)

-- The loop over the table; `heuristic` is what follows it.
unfoldable pub table_loop : List ℕ → Level → List MagicEntry → Level
table_loop header heuristic [] = heuristic
table_loop header heuristic (e ∷ table) =
    let rest = table_loop header heuristic table in
    if leb e.magic_len (length header) && memcmp_eq header (bytes_of e.magic) e.magic_len
    then entry_level header e rest
    else rest

abbrev pub is_text : ℕ → Bool
is_text c = (leb 0x20 c && leb c 0x7e) || (c == 0x0a || (c == 0x0d || c == 0x09))

unfoldable pub count_text : List ℕ → ℕ
count_text [] = 0
count_text (c ∷ cs) = (if is_text c then 1 else 0) + count_text cs

-- The share of text in the first 512 bytes.
unfoldable pub text_level : List ℕ → Level
text_level header =
    let check_len = if ltb 512 (length header) then 512 else length header in
    if ltb 0 check_len && ltb 90 (count_text (take check_len header) * 100 / check_len)
    then highest
    else default_level

unfoldable pub detect_filetype : List ℕ → Level
detect_filetype header =
    if ltb (length header) 6
    then default_level
    else table_loop header (text_level header) magic_table
