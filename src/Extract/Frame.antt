-- ===== src/Extract/Frame.antt =====
-- The frames of zupt_compress_files as zupt_extract_archive of src/zupt_format.c sees them.
use mathlib.Core.Path.{subst}
use libvuptsdk.Common.{
  ℕ, ◌+◌, ◌^◌, ◌<◌, ◌≤◌, ◌≡◌, refl, sym, ap, ◌∙◌, arith, List, false, ◌||◌, Option, some, none, leb,
  ◌==◌, Bool-cases, inl, inr, length, All, IsByte, if-elim, ◌&&◌, after_some, some-injective,
  bit_or,
}
use libvuptsdk.Archive.Error.{ZuptError, ok}
use libvuptsdk.Archive.Trailer.{Digests}
use libvuptsdk.Archive.Cipher.{Cipher, bflag_encrypted}
use libvuptsdk.Archive.Block.{Block, IsFrame, max_block_sz}
use libvuptsdk.Archive.Unpack.{Codecs, decompress_block}
use libvuptsdk.Parallel.{Slot}
use libvuptsdk.Parallel.Worker.{
  Compressors, block_data, decide, compressed, sealed_slot, output_slot, worker_compress,
}
use libvuptsdk.Parallel.Worker.Decide.{IsInverse, decide-IsPayload}
use libvuptsdk.Parallel.Worker.Agree.{block_of, worker_codecs, worker_decompress_same}
use libvuptsdk.Parallel.Worker.RoundTrip.{worker_decompress-worker_compress}
use libvuptsdk.Parallel.Pipeline.{filled_slot, process, fresh_slot}
use libvuptsdk.Parallel.Writer.{
  ZuptOptions, serial_payload, serial_seal, data_frame, serial_frame, slot_frame, slot_frame_of,
  context_keys, worked_slot, submitted_slot,
}
use libvuptsdk.Parallel.Writer.Frames.{IsRoomy, payload_same, slot_frame-worked_slot}

slot_frame_given :
    (s : Slot) (e : Option ZuptError) (b : Block)
    → slot_frame_of s e ≡ some b
    → (e ≡ none) × (data_frame s.actual_codec s.out_bflags (length s.input) s.checksum s.output ≡ b)
slot_frame_given s none b h = (refl, some-injective h)
slot_frame_given s (some e) b h = cc

module _ (d : Digests) (cipher : Cipher) (comp : Compressors) (codecs : Codecs) (opts : ZuptOptions)
    (roomy : IsRoomy comp) (inverse : IsInverse comp (worker_codecs codecs codecs.vaptvupt))
    (keys : opts.encrypt ≡ opts.keyring.active) where
  abbrev taken_slot : List ℕ → ℕ → Slot
  taken_slot rbuf seq = filled_slot fresh_slot rbuf seq opts.level opts.codec_id

  abbrev done_slot : List ℕ → ℕ → Slot
  done_slot rbuf seq = worker_compress d cipher comp (taken_slot rbuf seq) (some opts.keyring)

  -- A context without keys does what one does with keys that are not in use.
  keys_same :
      (slot : Slot)
      → worker_compress d cipher comp slot (context_keys opts)
        ≡ worker_compress d cipher comp slot (some opts.keyring)
  unfolding worker_compress output_slot
  keys_same slot = elim (Bool-cases opts.keyring.active) [
    | inl on ↦ rw (keys, on) refl
    | inr off ↦ rw (keys, off) refl
  ]

  done_frame :
      (rbuf : List ℕ) (seq : ℕ)
      → slot_frame (done_slot rbuf seq) ≡ serial_frame d cipher opts comp rbuf seq
  unfolding worked_slot submitted_slot process filled_slot
  done_frame rbuf seq =
      ap slot_frame (sym (keys_same (taken_slot rbuf seq)))
      ∙ slot_frame-worked_slot d cipher comp (λ l n. 0) opts 0
          (worker_codecs codecs codecs.vaptvupt) (λ n. fresh_slot) (λ n. false) rbuf seq roomy

  sealed_keeps :
      (slot : Slot) (answer : Option (List ℕ))
      → ((sealed_slot d cipher slot answer).input ≡ slot.input)
        × ((sealed_slot d cipher slot answer).block_seq ≡ slot.block_seq)
  sealed_keeps slot none = (refl, refl)
  sealed_keeps slot (some enc) = (refl, refl)

  keeps :
      (slot : Slot)
      → ((worker_compress d cipher comp slot (some opts.keyring)).input ≡ slot.input)
        × ((worker_compress d cipher comp slot (some opts.keyring)).block_seq ≡ slot.block_seq)
  unfolding worker_compress output_slot
  keeps slot = elim (Bool-cases opts.keyring.active) [
    | inl on ↦ rw on (
        sealed_keeps
          (record slot {
            checksum = d.xxh64 slot.input;
            actual_codec = (decide comp slot.codec_id slot.input slot.level).0;
          })
          _)
    | inr off ↦ rw off (refl, refl)
  ]

  -- What was written as a frame is decompressed to the block.
  decompress_serial_frame :
      (rbuf : List ℕ) (seq : ℕ) (b : Block)
      → All IsByte rbuf
      → length rbuf ≤ max_block_sz
      → b.compressed_size ≤ max_block_sz + 1024
      → serial_frame d cipher opts comp rbuf seq ≡ some b
      → decompress_block d cipher codecs b (some opts.keyring) seq ≡ ok rbuf
  unfolding slot_frame filled_slot
  decompress_serial_frame rbuf seq b bytes small limit made =
      let s = done_slot rbuf seq in
      let (fine, same) = slot_frame_given s s.error b (done_frame rbuf seq ∙ made) in
      let kept = keeps (taken_slot rbuf seq) in
      let reader : Slot = record fresh_slot {
        input = s.output;
        codec_id = s.actual_codec;
        block_flags = s.out_bflags;
        stored_checksum = s.checksum;
        uncomp_size = length s.input;
        block_seq = s.block_seq;
      } in
      let read =
        worker_decompress-worker_compress d cipher comp (worker_codecs codecs codecs.vaptvupt)
          (taken_slot rbuf seq) reader (some opts.keyring) inverse bytes small fine
          (record {
            input = refl;
            codec = refl;
            flags = refl;
            digest = refl;
            size = refl;
            seq = refl;
          }) in
      let size : length s.output ≡ b.compressed_size = ap (λ (x : Block). x.compressed_size) same in
      let serial =
        worker_decompress_same d cipher codecs codecs.vaptvupt reader (some opts.keyring)
          (λ vapt source room. refl) (omega arith) in
      subst (λ (x : Block). decompress_block d cipher codecs x (some opts.keyring) seq ≡ ok rbuf)
        same
        (subst
          (λ (n : ℕ).
            decompress_block d cipher codecs (block_of reader) (some opts.keyring) n ≡ ok rbuf)
          kept.1 (sym serial ∙ read))

  payload_fits :
      (rbuf : List ℕ)
      → All IsByte rbuf
      → length rbuf ≤ max_block_sz
      → opts.codec_id < 2 ^ 16
      → (length (serial_payload comp opts.codec_id rbuf opts.level).1 ≤ length rbuf)
        × ((serial_payload comp opts.codec_id rbuf opts.level).0 < 2 ^ 16)
  unfolding decide
  payload_fits rbuf bytes small codec = rw (payload_same comp opts.codec_id rbuf opts.level roomy) (
    (decide-IsPayload comp (worker_codecs codecs codecs.vaptvupt) inverse rbuf bytes opts.level
        opts.codec_id (omega arith)).1,
    if-elim (λ (p : ℕ × List ℕ). p.0 < 2 ^ 16)
        (length (compressed comp opts.codec_id rbuf opts.level) == 0
          || leb (length rbuf) (length (compressed comp opts.codec_id rbuf opts.level)))
        (λ stored. omega arith) (λ packed. codec),
  )

  seal_fits :
      (codec : ℕ) (payload : List ℕ) (nread checksum seq : ℕ) (sealed : ℕ × List ℕ)
      → serial_seal d cipher opts codec payload nread checksum seq ≡ some sealed
      → (sealed.0 < 2 ^ 16) × (length sealed.1 ≤ length payload + 48)
  unfolding serial_seal
  seal_fits codec payload nread checksum seq sealed e =
      elim (Bool-cases (opts.encrypt && opts.keyring.active)) [
        | inl on ↦
            after_some (cipher.encrypt opts.keyring payload seq _) _ (rw on at e) λ enc e1 k1.
              let flags : bit_or 0 bflag_encrypted ≡ sealed.0 =
                ap (λ (x : ℕ × List ℕ). x.0) (some-injective k1) in
              let sent : enc ≡ sealed.1 = ap (λ (x : ℕ × List ℕ). x.1) (some-injective k1) in
              let size = cipher.encrypt_size opts.keyring payload seq _ enc e1 in
              (omega arith, omega (arith, ap (λ (l : List ℕ). length l) sent))
        | inr off ↦
            let same = some-injective (rw off at e) in
            let flags : 0 ≡ sealed.0 = ap (λ (x : ℕ × List ℕ). x.0) same in
            let sent : payload ≡ sealed.1 = ap (λ (x : ℕ × List ℕ). x.1) same in
            (omega arith, omega (arith, ap (λ (l : List ℕ). length l) sent))
      ]

  -- The frame is within the reader's limits.
  pub record Readable (rbuf : List ℕ) (seq : ℕ) (b : Block) : Type 0 where
    pub frame : IsFrame b
    pub block_type : b.block_type ≡ block_data
    pub opens : decompress_block d cipher codecs b (some opts.keyring) seq ≡ ok rbuf

  pub serial_frame-Readable :
      (rbuf : List ℕ) (seq : ℕ) (b : Block)
      → All IsByte rbuf
      → length rbuf ≤ max_block_sz
      → opts.codec_id < 2 ^ 16
      → serial_frame d cipher opts comp rbuf seq ≡ some b
      → Readable rbuf seq b
  unfolding serial_frame
  serial_frame-Readable rbuf seq b bytes small codec made =
      let chosen = serial_payload comp opts.codec_id rbuf opts.level in
      let (short, code) = payload_fits rbuf bytes small codec in
      after_some (serial_seal d cipher opts chosen.0 chosen.1 (length rbuf) (d.xxh64 rbuf) seq) _
        made
        λ sealed e1 k1.
          let (flags, sent) =
            seal_fits chosen.0 chosen.1 (length rbuf) (d.xxh64 rbuf) seq sealed e1 in
          let same : data_frame chosen.0 sealed.0 (length rbuf) (d.xxh64 rbuf) sealed.1 ≡ b =
            some-injective k1 in
          let valid : IsFrame (data_frame chosen.0 sealed.0 (length rbuf) (d.xxh64 rbuf) sealed.1) =
            record {
              type_range = omega arith;
              codec_range = code;
              flags_range = flags;
              checksum_range = d.xxh64_range rbuf;
              uncompressed_limit = small;
              compressed_limit = omega arith;
              payload_size = refl;
            } in
          let size : length sealed.1 ≡ b.compressed_size =
            ap (λ (x : Block). x.compressed_size) same in
          record {
            frame = subst IsFrame same valid;
            block_type = sym (ap (λ (x : Block). x.block_type) same);
            opens = decompress_serial_frame rbuf seq b bytes small (omega arith) made;
          }
