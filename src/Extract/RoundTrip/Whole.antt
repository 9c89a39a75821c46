-- ===== src/Extract/RoundTrip/Whole.antt =====
-- The round trip of a whole file, src/zupt_format.c: zupt_compress_files, then zupt_extract_archive.
use mathlib.Core.Path.{subst}
use libvuptsdk.Common.{
  ℕ, zero, suc, ◌+◌, ◌-◌, ◌*◌, ◌%◌, ◌^◌, ◌<◌, ◌≤◌, ◌≡◌, refl, sym, ap, ◌∙◌, arith, List, [], ◌++◌,
  append-nil, append_assoc, length-append, drop, drop-append, Bool, true, false, ◌||◌, Option, some,
  ◌==◌, ==_iff, Bool-cases, inl, inr, length, All, IsByte, All-append_left, All-append_right,
  some-injective, bit_and,
}
use libvuptsdk.Archive.Trailer.{Digests}
use libvuptsdk.Archive.Cipher.{Cipher}
use libvuptsdk.Archive.Block.{max_block_sz}
use libvuptsdk.Archive.Unpack.{Codecs}
use libvuptsdk.Archive.Index.{IndexEntry}
use libvuptsdk.Archive.Index.Canonical.{length_zero}
use libvuptsdk.Archive.Sequence.{AadEntry, flag_disk_image, flag_dedup}
use libvuptsdk.Parallel.Worker.{Compressors}
use libvuptsdk.Parallel.Worker.Decide.{IsInverse}
use libvuptsdk.Parallel.Worker.Agree.{worker_codecs}
use libvuptsdk.Parallel.Writer.{
  ZuptOptions, Reading, Writing, logical_aad_seq, append_frame, serial_loop,
}
use libvuptsdk.Parallel.Writer.Frames.{IsRoomy}
use libvuptsdk.Parallel.Writer.Total.{IsAnswering, serial_loop-IsGiven}
use libvuptsdk.Parallel.Writer.Rounds.{loop, loop_over, loop_more}
use libvuptsdk.Extract.{Extraction, extract_file}
use libvuptsdk.Extract.Frame.{serial_frame-Readable}
use libvuptsdk.Extract.RoundTrip.{
  split_front, read_chunk-IsRead, after_round, Appended, nothing-Appended, one_more,
}

-- The input of a file's bytes, and the archive before it.
abbrev pub opened_input : List ℕ → Reading
opened_input content = record {
  inf = content;
  remaining = length content;
  block_seq = 0;
  file_hash_state = 0;
}

abbrev pub before_file : List ℕ → Writing
before_file before = record { out = before; file_comp = 0; block_count = 0 }

-- The fields of the file's index entry that extraction reads, as the writer counted them.
abbrev pub entry_of : IndexEntry → List ℕ → List ℕ → Reading × Writing → IndexEntry
entry_of e content before end = record e {
  uncompressed_size = length content;
  first_block_offset = length before;
  block_count = end.1.block_count;
  content_hash = end.0.file_hash_state;
}

or_true : (b : Bool) → (b || true) ≡ true
or_true true = refl
or_true false = refl

module _ (d : Digests) (cipher : Cipher) (comp : Compressors) (codecs : Codecs)
    (xxh64 : List ℕ → ℕ → ℕ) (opts : ZuptOptions) (fi : ℕ) (roomy : IsRoomy comp)
    (inverse : IsInverse comp (worker_codecs codecs codecs.vaptvupt))
    (keys : opts.encrypt ≡ opts.keyring.active) (codec : opts.codec_id < 2 ^ 16)
    (positive : 0 < opts.block_size) (limit : opts.block_size ≤ max_block_sz) (archive : List ℕ)
    (global_flags : ℕ) (map : Option (List AadEntry))
    (file_image : bit_and global_flags flag_disk_image ≡ 0)
    (no_dedup : bit_and global_flags flag_dedup ≡ 0) where
  -- The frames are read as the content, under the section's assumptions.
  abbrev Holds : Reading → Writing → Reading × Writing → List ℕ → Type 0
  Holds =
      Appended d cipher comp codecs xxh64 opts fi roomy inverse keys codec positive limit archive
        global_flags map file_image no_dedup

  over_Appended :
      (r : Reading) (w : Writing) (end : Reading × Writing) (content : List ℕ)
      → length content == 0 ≡ true
      → some (r, w) ≡ some end
      → Holds r w end content
  over_Appended r w end content empty e =
      subst (λ (p : Reading × Writing). Holds r w p content) (some-injective e)
        (subst (λ (c : List ℕ). Holds r w (r, w) c) (sym (length_zero content empty))
          (nothing-Appended d cipher comp codecs xxh64 opts fi roomy inverse keys codec positive
            limit archive global_flags map file_image no_dedup r w))

  -- Blocks are counted by `k`, which is as many as the content can have.
  loop-Appended :
      (fuel k : ℕ) (r : Reading) (w : Writing) (end : Reading × Writing) (content extra : List ℕ)
      → r.inf ≡ content ++ extra
      → length content ≡ r.remaining
      → All IsByte content
      → r.remaining ≤ k * opts.block_size
      → r.block_seq + k < 2 ^ 32
      → w.block_count + k < 2 ^ 32
      → r.remaining ≤ fuel
      → loop d cipher comp xxh64 opts fi fuel r w ≡ some end
      → Holds r w end content
  loop-Appended zero k r w end content extra inf size bytes blocks seqs counts enough e =
      let over : (r.remaining == 0) ≡ true = ground arith in
      over_Appended r w end content (ground (arith, size))
        (sym (loop_over d cipher comp xxh64 opts fi zero r w over) ∙ e)
  loop-Appended (suc fuel) zero r w end content extra inf size bytes blocks seqs counts enough e =
      let over : (r.remaining == 0) ≡ true = ground arith in
      over_Appended r w end content (ground (arith, size))
        (sym (loop_over d cipher comp xxh64 opts fi (suc fuel) r w over) ∙ e)
  loop-Appended (suc fuel) (suc k) r w end content extra inf size bytes blocks seqs counts enough
        e =
      elim (Bool-cases (r.remaining == 0)) [
        | inl over ↦
            over_Appended r w end content (ground (arith, size))
              (sym (loop_over d cipher comp xxh64 opts fi (suc fuel) r w over) ∙ e)
        | inr more ↦
            after_round d cipher comp codecs xxh64 opts fi fuel r w end
              (sym (loop_more d cipher comp xxh64 opts fi fuel r w more) ∙ e)
              λ rbuf r' b e1 e2 rest.
                let read = read_chunk-IsRead xxh64 opts r r' rbuf positive more e1 in
                let (tail, same, left) =
                  split_front rbuf content extra r'.inf (sym inf ∙ read.split)
                    (omega (arith, size, read.left)) in
                let split_bytes = subst (λ (c : List ℕ). All IsByte c) same bytes in
                let parts : length content ≡ length rbuf + length tail =
                  ap (λ (c : List ℕ). length c) same ∙ length-append rbuf tail in
                let readable =
                  serial_frame-Readable d cipher comp codecs opts roomy inverse keys rbuf
                    (logical_aad_seq fi r.block_seq) b
                    (All-append_left IsByte rbuf tail split_bytes) (omega (arith, read.small)) codec
                    e2 in
                let next_seq : (r.block_seq + 1) % 2 ^ 64 ≡ r.block_seq + 1 = omega arith in
                let next_count : (w.block_count + 1) % 2 ^ 32 ≡ w.block_count + 1 = omega arith in
                let product : suc k * opts.block_size ≡ k * opts.block_size + opts.block_size =
                  omega arith in
                let fewer : r'.remaining ≤ k * opts.block_size = elim read.whole [
                  | inl last ↦ omega (arith, last)
                  | inr full ↦ omega (arith, full, read.left, product)
                ] in
                let others =
                  loop-Appended fuel k r' (append_frame b w) end tail extra left
                    (omega (arith, parts, size, read.left))
                    (All-append_right IsByte rbuf tail split_bytes) fewer
                    (omega (arith, read.seq, next_seq)) (omega (arith, next_count))
                    (omega (arith, read.left, read.there)) rest in
                subst (λ (c : List ℕ). Holds r w end c) (sym same)
                  (one_more d cipher comp codecs xxh64 opts fi roomy inverse keys codec positive
                    limit archive global_flags map file_image no_dedup r r' w end rbuf tail b read
                    readable (omega arith) (omega arith) others)
      ]

  -- The whole file, from what was appended.
  file_extracted_whole :
      (content before later : List ℕ) (e : IndexEntry) (end : Reading × Writing)
      → archive ≡ end.1.out ++ later
      → Holds (opened_input content) (before_file before) end content
      → extract_file d cipher codecs xxh64 archive global_flags opts.keyring map fi
          (entry_of e content before end)
        ≡ some content
  unfolding extract_file
  file_extracted_whole content before later e end whole appended =
      let behind : drop (length before) archive ≡ appended.frames ++ later =
        ap (λ (l : List ℕ). drop (length before) l)
          (whole
            ∙ ap (λ (l : List ℕ). l ++ later) appended.out
            ∙ append_assoc before appended.frames later)
        ∙ drop-append before (appended.frames ++ later) (length before) refl in
      let count : end.1.block_count ≡ appended.count = omega (arith, appended.counted) in
      let start : Extraction = record {
        f = appended.frames ++ later;
        of = [];
        file_extracted = 0;
        file_hash = 0;
      } in
      let extracted = appended.extracts (length content) start later refl refl (omega arith) in
      let size : 0 + length content == length content ≡ true =
        (==_iff (0 + length content) (length content)).1 (omega arith) in
      let hash : end.0.file_hash_state == end.0.file_hash_state ≡ true =
        (==_iff end.0.file_hash_state end.0.file_hash_state).1 refl in
      rw (behind, count, extracted, size, hash, or_true) refl

-- The bytes of a file go into the archive and come out of it: the writer's loop ends well, and from
-- the archive that it made, whatever stands before and behind the file's blocks, extraction gives
-- the file byte for byte, encrypted or not and with whatever 16-bit codec number. The index entry
-- has what the writer counted, the reader has the writer's keys, which are active just where
-- encryption is asked for, and the archive is neither a disk image nor deduplicated. The cipher
-- answers, the block size is positive and within the limit, and the file has fewer than 2^32 blocks;
-- the larger codecs give back what they took, and vvz_compress gives the same in every buffer of
-- vvz_compress_bound bytes or more.
pub extract_file-serial_loop :
    (d : Digests) (cipher : Cipher) (comp : Compressors) (codecs : Codecs) (xxh64 : List ℕ → ℕ → ℕ)
    (opts : ZuptOptions) (fi global_flags : ℕ) (map : Option (List AadEntry))
    (content before later : List ℕ) (e : IndexEntry)
    → IsRoomy comp
    → IsInverse comp (worker_codecs codecs codecs.vaptvupt)
    → IsAnswering cipher opts
    → opts.encrypt ≡ opts.keyring.active
    → opts.codec_id < 2 ^ 16
    → 0 < opts.block_size
    → opts.block_size ≤ max_block_sz
    → bit_and global_flags flag_disk_image ≡ 0
    → bit_and global_flags flag_dedup ≡ 0
    → All IsByte content
    → length content ≤ (2 ^ 32 - 1) * opts.block_size
    → (end : Reading × Writing) × (serial_loop d cipher comp xxh64 opts fi
          (length content)
          (opened_input content)
          (before_file before)
        ≡ some end)
      × (extract_file d cipher codecs xxh64
            (end.1.out ++ later)
            global_flags
            opts.keyring
            map
            fi
            (entry_of e content before end)
          ≡ some content)
extract_file-serial_loop d cipher comp codecs xxh64 opts fi global_flags map content before later e
      roomy inverse answers keys codec positive limit file_image no_dedup bytes blocks =
    let (end, written) =
      serial_loop-IsGiven d cipher comp xxh64 opts fi answers (length content)
        (opened_input content) (before_file before) (omega arith) in
    (
      end,
      written,
      file_extracted_whole d cipher comp codecs xxh64 opts fi roomy inverse keys codec positive
          limit (end.1.out ++ later) global_flags map file_image no_dedup content before later e end
          refl
          (loop-Appended d cipher comp codecs xxh64 opts fi roomy inverse keys codec positive limit
            (end.1.out ++ later) global_flags map file_image no_dedup (length content) (2 ^ 32 - 1)
            (opened_input content) (before_file before) end content [] (sym (append-nil content))
            refl bytes blocks (omega arith) (omega arith) (omega arith) written),
    )
