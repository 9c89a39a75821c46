-- ===== src/Extract/RoundTrip.antt =====
-- A file that zupt_compress_files of src/zupt_format.c wrote is extracted.
pub mod Whole
use mathlib.Core.Path.{subst}
use libvuptsdk.Common.{
  ℕ, zero, suc, ◌+◌, ◌-◌, ◌*◌, ◌%◌, ◌^◌, ◌<◌, ◌≤◌, ◌≡◌, refl, sym, ap, ap₂, ◌∙◌, arith, List, [],
  ◌∷◌, ◌++◌, append-nil, append_assoc, length-append, Bool, true, false, ◌||◌, Option, some, none,
  ◌>>=◌, ltb, ◌==◌, ==_iff, if◌then◌else◌, Bool-cases, ◌⊎◌, inl, inr, length, All, IsByte,
  All-append_right, after_some, some-injective, bit_and,
}
use libvuptsdk.Wire.Stream.{fread, fread-split, length-fread}
use libvuptsdk.Archive.Error.{ok}
use libvuptsdk.Archive.Trailer.{Digests}
use libvuptsdk.Archive.Cipher.{Cipher}
use libvuptsdk.Archive.Block.{Block, write_frame, max_block_sz}
use libvuptsdk.Archive.Block.Frame.{read_block-write_frame}
use libvuptsdk.Archive.Unpack.{Codecs}
use libvuptsdk.Archive.Sequence.{AadEntry, archive_data_aad_seq, flag_disk_image, flag_dedup}
use libvuptsdk.Dedup.Link.{block_dedup_ref}
use libvuptsdk.Parallel.Worker.{Compressors, block_data}
use libvuptsdk.Parallel.Worker.Decide.{IsInverse}
use libvuptsdk.Parallel.Worker.Agree.{worker_codecs}
use libvuptsdk.Parallel.Writer.{
  ZuptOptions, Reading, Writing, logical_aad_seq, read_chunk, append_frame, serial_frame,
  serial_block,
}
use libvuptsdk.Parallel.Writer.Chunk.{IsRead, read_chunk-IsRead}
use libvuptsdk.Parallel.Writer.Frames.{IsRoomy}
use libvuptsdk.Parallel.Writer.Rounds.{loop, then_loop, loop_over, loop_more}
use libvuptsdk.Extract.{Extraction, write_verified_chunk, extract_data, extract_block, extract_loop}
use libvuptsdk.Extract.Frame.{Readable, serial_frame-Readable}

-- What was read from the front of a content is the front of the content.
pub split_front :
    (front content extra rest : List ℕ)
    → content ++ extra ≡ front ++ rest
    → length front ≤ length content
    → (tail : List ℕ) × (content ≡ front ++ tail) × (rest ≡ tail ++ extra)
split_front [] content extra rest e h = (content, refl, sym e)
split_front (x ∷ front) [] extra rest e h = absurd (omega arith)
split_front (x ∷ front) (y ∷ content) extra rest e h =
    let head : y ≡ x = cc in
    let behind : content ++ extra ≡ front ++ rest = cc in
    let (tail, same, left) = split_front front content extra rest behind (omega arith) in
    (tail, ap₂ (λ (a : ℕ) (l : List ℕ). a ∷ l) head same, left)

same_extraction :
    (x y : Extraction)
    → x.f ≡ y.f
    → x.of ≡ y.of
    → x.file_extracted ≡ y.file_extracted
    → x.file_hash ≡ y.file_hash
    → x ≡ y
same_extraction x y p q r s =
    λ i. record { f = p i; of = q i; file_extracted = r i; file_hash = s i }

module _ (d : Digests) (cipher : Cipher) (comp : Compressors) (codecs : Codecs)
    (xxh64 : List ℕ → ℕ → ℕ) (opts : ZuptOptions) (fi : ℕ) where
  -- A round that is followed by others, and its parts.
  pub after_round :
      (fuel : ℕ) (r : Reading) (w : Writing) (end : Reading × Writing) {P : Type 0}
      → then_loop d cipher comp xxh64 opts fi fuel (serial_block d cipher comp xxh64 opts fi r w)
        ≡ some end
      → ((rbuf : List ℕ) (r' : Reading) (b : Block)
          → read_chunk xxh64 opts r ≡ some (rbuf, r')
          → serial_frame d cipher opts comp rbuf (logical_aad_seq fi r.block_seq) ≡ some b
          → loop d cipher comp xxh64 opts fi fuel r' (append_frame b w) ≡ some end
          → P)
      → P
  unfolding serial_block
  after_round fuel r w end e k =
      after_some (serial_block d cipher comp xxh64 opts fi r w) _ e λ next e1 k1.
        after_some (read_chunk xxh64 opts r) _ e1 λ chunk e2 k2.
          after_some (serial_frame d cipher opts comp chunk.0 (logical_aad_seq fi r.block_seq)) _ k2
            λ b e3 k3. k chunk.0 chunk.1 b e2 e3 (
              subst
                (λ (n : Reading × Writing).
                  loop d cipher comp xxh64 opts fi fuel n.0 n.1 ≡ some end)
                (sym (some-injective k3)) k1)

  module _ (roomy : IsRoomy comp) (inverse : IsInverse comp (worker_codecs codecs codecs.vaptvupt))
      (keys : opts.encrypt ≡ opts.keyring.active) (codec : opts.codec_id < 2 ^ 16)
      (positive : 0 < opts.block_size) (limit : opts.block_size ≤ max_block_sz) (archive : List ℕ)
      (global_flags : ℕ) (map : Option (List AadEntry))
      (file_image : bit_and global_flags flag_disk_image ≡ 0)
      (no_dedup : bit_and global_flags flag_dedup ≡ 0) where
    -- The extraction with the keys that wrote the archive.
    abbrev loop_from : ℕ → ℕ → ℕ → Extraction → Option Extraction
    loop_from = extract_loop d cipher codecs xxh64 archive global_flags opts.keyring map fi

    -- What the extraction gains from a frame or from several.
    abbrev gained : Extraction → List ℕ → List ℕ → ℕ → Extraction
    gained x rest content hash = record {
      f = rest;
      of = x.of ++ content;
      file_extracted = x.file_extracted + length content;
      file_hash = hash;
    }

    same_seq : (b : ℕ) → archive_data_aad_seq global_flags fi b ≡ logical_aad_seq fi b
    unfolding archive_data_aad_seq logical_aad_seq
    same_seq b = rw (file_image, no_dedup) refl

    chunk_written :
        (rbuf : List ℕ) (expected : ℕ) (x : Extraction)
        → 0 < length rbuf
        → x.file_extracted + length rbuf ≤ expected
        → write_verified_chunk xxh64 rbuf expected x
          ≡ some (gained x x.f rbuf (xxh64 rbuf x.file_hash))
    unfolding write_verified_chunk
    chunk_written rbuf expected x there fits =
        let a : ltb expected x.file_extracted ≡ false = ground arith in
        let b : ltb (expected - x.file_extracted) (length rbuf) ≡ false = ground arith in
        let c : ltb 0 (length rbuf) ≡ true = ground arith in rw (a, b, c) refl

    block_extracted :
        (rbuf : List ℕ) (b : ℕ) (blk : Block) (expected : ℕ) (x : Extraction) (rest : List ℕ)
        → Readable d cipher comp codecs opts roomy inverse keys rbuf (logical_aad_seq fi b) blk
        → x.f ≡ write_frame blk ++ rest
        → 0 < length rbuf
        → x.file_extracted + length rbuf ≤ expected
        → extract_block d cipher codecs xxh64 archive global_flags opts.keyring map fi expected b x
          ≡ some (gained x rest rbuf (xxh64 rbuf x.file_hash))
    unfolding extract_block extract_data
    block_extracted rbuf b blk expected x rest readable at_frame there fits =
        let is_ref : blk.block_type == block_dedup_ref ≡ false =
          ground (arith, readable.block_type) in
        let is_data : blk.block_type == block_data ≡ true = ground (arith, readable.block_type) in
        rw
          (
            at_frame,
            read_block-write_frame blk rest readable.frame,
            is_ref,
            is_data,
            same_seq b,
            readable.opens,
          )
          (chunk_written rbuf expected (record x { f = rest }) there fits)

    -- What the loop of the writer appended is read as the content.
    pub record Appended (r : Reading) (w : Writing) (end : Reading × Writing) (content : List ℕ)
        : Type 0 where
      pub count : ℕ
      pub frames : List ℕ
      pub out : end.1.out ≡ w.out ++ frames
      pub counted : end.1.block_count ≡ w.block_count + count
      pub extracts :
          (expected : ℕ) (x : Extraction) (rest : List ℕ)
          → x.f ≡ frames ++ rest
          → x.file_hash ≡ r.file_hash_state
          → x.file_extracted + length content ≤ expected
          → loop_from expected count r.block_seq x
            ≡ some (gained x rest content end.0.file_hash_state)

    pub nothing-Appended : (r : Reading) (w : Writing) → Appended r w (r, w) []
    unfolding extract_loop
    nothing-Appended r w = record {
      count = 0;
      frames = [];
      out = sym (append-nil w.out);
      counted = omega arith;
      extracts = λ expected x rest at_rest hash fits. ap some (
          same_extraction x (gained x rest [] r.file_hash_state) at_rest (sym (append-nil x.of))
            (omega arith) hash);
    }

    pub one_more :
        (r r' : Reading) (w : Writing) (end : Reading × Writing) (rbuf content : List ℕ)
        (blk : Block)
        → IsRead xxh64 opts r r' rbuf
        → Readable d cipher comp codecs opts roomy inverse keys rbuf
            (logical_aad_seq fi r.block_seq)
            blk
        → r.block_seq + 1 < 2 ^ 32
        → w.block_count + 1 < 2 ^ 32
        → Appended r' (append_frame blk w) end content
        → Appended r w end (rbuf ++ content)
    unfolding extract_loop
    one_more r r' w end rbuf content blk read readable few_seq few_blocks others = record {
      count = suc others.count;
      frames = write_frame blk ++ others.frames;
      out = others.out ∙ append_assoc w.out (write_frame blk) others.frames;
      counted =
          let one : (w.block_count + 1) % 2 ^ 32 ≡ w.block_count + 1 = omega arith in
          omega (arith, others.counted, one);
      extracts = λ expected x rest at_frames hash fits.
          let inside : x.file_extracted + (length rbuf + length content) ≤ expected =
            omega (arith, fits, length-append rbuf content) in
          let next = gained x (others.frames ++ rest) rbuf (xxh64 rbuf x.file_hash) in
          let first =
            block_extracted rbuf r.block_seq blk expected x (others.frames ++ rest) readable
              (at_frames ∙ append_assoc (write_frame blk) others.frames rest) read.there
              (omega arith) in
          let seq : r'.block_seq ≡ r.block_seq + 1 =
            let fits : (r.block_seq + 1) % 2 ^ 64 ≡ r.block_seq + 1 = omega arith in
            read.seq ∙ fits in
          let rest_of =
            others.extracts expected next rest refl
              (ap (λ (n : ℕ). xxh64 rbuf n) hash ∙ sym read.hash) (omega arith) in
          rw first (
            subst
              (λ (n : ℕ).
                loop_from expected others.count n next
                ≡ some (gained next rest content end.0.file_hash_state))
              seq rest_of
            ∙ ap some (
                same_extraction (gained next rest content end.0.file_hash_state)
                  (gained x rest (rbuf ++ content) end.0.file_hash_state) refl
                  (append_assoc x.of rbuf content) (omega (arith, length-append rbuf content))
                  refl));
    }
