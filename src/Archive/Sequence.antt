-- ===== src/Archive/Sequence.antt =====
-- The sequence numbers that frames are authenticated with, src/zupt_format.c: archive_data_aad_seq,
-- and zupt_legacy_disk_aad_map_lookup for disk archives of older versions. A map is the list of its
-- entries; the pointers are not null.
pub mod Search
pub mod Positions
use libvuptsdk.Common.{
  ℕ, zero, suc, ◌+◌, ◌-◌, ◌*◌, ◌/◌, ◌%◌, ◌^◌, List, Bool, true, false, ◌&&◌, ◌||◌, not, Option,
  some, none, ltb, leb, ◌==◌, if◌then◌else◌, length, get_or, bit_and, bit_or,
}

pub record AadEntry : Type 0 where
  pub offset : ℕ
  pub aad_seq : ℕ

abbrev pub no_entry : AadEntry
no_entry = record { offset = 0; aad_seq = 0 }

abbrev pub entry_at : List AadEntry → ℕ → AadEntry
entry_at entries i = get_or entries i no_entry

-- The halving of [left, right). Each round makes it shorter, so as many rounds as it is long are
-- enough.
unfoldable pub search_loop : List AadEntry → ℕ → ℕ → ℕ → ℕ → ℕ
search_loop entries offset zero left right = left
search_loop entries offset (suc fuel) left right =
    let middle = left + (right - left) / 2 in
    elim (ltb left right) [
      | false ↦ left
      | true ↦ elim (ltb (entry_at entries middle).offset offset) [
        | true ↦ search_loop entries offset fuel (middle + 1) right
        | false ↦ search_loop entries offset fuel left middle
      ]
    ]

unfoldable pub aad_map_lookup : List AadEntry → ℕ → Option ℕ
aad_map_lookup entries offset =
    let left = search_loop entries offset (length entries) 0 (length entries) in
    if leb (length entries) left || not ((entry_at entries left).offset == offset)
    then none
    else some (entry_at entries left).aad_seq

abbrev pub flag_disk_image : ℕ
flag_disk_image = 2 ^ 6

abbrev pub flag_dedup : ℕ
flag_dedup = 2 ^ 7

abbrev pub flag_auth_dedup_refs : ℕ
flag_auth_dedup_refs = 2 ^ 10

-- `entry_index` is an int that is not negative.
unfoldable pub archive_data_aad_seq : ℕ → ℕ → ℕ → ℕ
archive_data_aad_seq global_flags entry_index block_index =
    if not (bit_and global_flags flag_disk_image == 0)
    then block_index
    else (if not (bit_and global_flags flag_dedup == 0)
          && bit_and global_flags flag_auth_dedup_refs == 0
        then 0
        else bit_or ((entry_index + 1) * 2 ^ 32 % 2 ^ 64) block_index)
