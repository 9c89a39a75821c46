-- ===== src/Archive/Sequence/Positions.antt =====
-- The sequence numbers of new file archives tell positions apart, src/zupt_format.c.
use libvuptsdk.Common.{
  not-true, and_left, and_right, ℕ, ◌+◌, ◌*◌, ◌%◌, ◌^◌, ◌<◌, ◌≡◌, ◌∙◌, sym, arith, Bool, true,
  false, ◌&&◌, not, ◌==◌, bit_and,
}
use libvuptsdk.Common.Bits.{shifted_or}
use libvuptsdk.Archive.Sequence.{
  archive_data_aad_seq, flag_disk_image, flag_dedup, flag_auth_dedup_refs,
}

-- Not a disk image, and if blocks are deduplicated, with authenticated references.
abbrev pub is_positional : ℕ → Bool
is_positional flags =
    bit_and flags flag_disk_image == 0
    && not (not (bit_and flags flag_dedup == 0) && bit_and flags flag_auth_dedup_refs == 0)

seq-value :
    (flags entry block : ℕ)
    → is_positional flags ≡ true
    → entry < 2 ^ 31
    → block < 2 ^ 32
    → archive_data_aad_seq flags entry block ≡ (entry + 1) * 2 ^ 32 + block
unfolding archive_data_aad_seq
seq-value flags entry block h small low =
    let no_wrap : (entry + 1) * 2 ^ 32 % 2 ^ 64 ≡ (entry + 1) * 2 ^ 32 = omega arith in
    let sum = shifted_or 32 block (entry + 1) low in
    let file : (bit_and flags flag_disk_image == 0) ≡ true =
      and_left (bit_and flags flag_disk_image == 0) _ h in
    let bound : (not (bit_and flags flag_dedup == 0) && bit_and flags flag_auth_dedup_refs == 0)
        ≡ false =
      not-true _ (and_right (bit_and flags flag_disk_image == 0) _ h) in
    simp (file, bound, no_wrap) sum

-- In a file archive whose sequence numbers are positions, two blocks with the same number are the
-- same block of the same file, for less than 2 ^ 31 files and 2 ^ 32 blocks in each.
pub archive_data_aad_seq-injective :
    (flags entry entry' block block' : ℕ)
    → is_positional flags ≡ true
    → entry < 2 ^ 31
    → entry' < 2 ^ 31
    → block < 2 ^ 32
    → block' < 2 ^ 32
    → archive_data_aad_seq flags entry block ≡ archive_data_aad_seq flags entry' block'
    → (entry ≡ entry') × (block ≡ block')
archive_data_aad_seq-injective flags entry entry' block block' h p p' q q' e =
    let same : (entry + 1) * 2 ^ 32 + block ≡ (entry' + 1) * 2 ^ 32 + block' =
      sym (seq-value flags entry block h p q) ∙ e ∙ seq-value flags entry' block' h p' q' in
    (omega arith, omega arith)
