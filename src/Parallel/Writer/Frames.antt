-- ===== src/Parallel/Writer/Frames.antt =====
-- The frame of a block on the two paths of src/zupt_format.c.
use libvuptsdk.Common.{
  ℕ, ◌+◌, ◌≤◌, ◌≡◌, refl, arith, List, Bool, true, ◌&&◌, Option, some, none, ltb, leb, ltb→lt,
  ltb-false, and_right, Bool-cases, inl, inr, length, bit_or, ◌>>=◌,
}
use libvuptsdk.Archive.Trailer.{Digests}
use libvuptsdk.Archive.Cipher.{Cipher, bflag_encrypted}
use libvuptsdk.Parallel.Slots.{Slot}
use libvuptsdk.Parallel.Worker.{
  Compressors, Decompressors, lzh_bound, plain_lzhp, compress_lzhp, smaller, compressed, decide,
  sealed_slot, output_slot, worker_compress,
}
use libvuptsdk.Parallel.Pipeline.{filled_slot, process}
use libvuptsdk.Parallel.Writer.{
  ZuptOptions, serial_plain, serial_lzhp, shorter, serial_vaptvupt, serial_compressed,
  serial_payload, serial_seal, data_frame, serial_frame, slot_frame, worked_slot, submitted_slot,
}

-- vvz_compress gives the same in every buffer that is as large as vvz_compress_bound says.
abbrev pub IsRoomy : Compressors → Type 0
IsRoomy comp =
    (src : List ℕ) (room level : ℕ)
    → comp.vaptvupt_bound (length src) ≤ room
    → comp.vaptvupt src room level ≡ comp.vaptvupt src (comp.vaptvupt_bound (length src)) level

module _ (comp : Compressors) where
  shorter_fits :
      (nread room : ℕ) (packed : Option (List ℕ))
      → nread ≤ room
      → shorter comp nread packed ≡ smaller comp nread room packed
  shorter_fits nread room none h = refl
  shorter_fits nread room (some packed) h =
      elim (Bool-cases (ltb 0 (length packed) && ltb (length packed) nread)) [
        | inl good ↦
            let short = ltb→lt (length packed) nread (and_right (ltb 0 (length packed)) _ good) in
            let fits : leb (length packed) room ≡ true = ground arith in rw (good, fits) refl
        | inr bad ↦ rw bad refl
      ]

  vaptvupt_same :
      (rbuf : List ℕ) (level : ℕ)
      → IsRoomy comp
      → serial_vaptvupt comp rbuf level
        ≡ smaller comp
            (length rbuf)
            (lzh_bound (length rbuf) + 512)
            (comp.vaptvupt rbuf (comp.vaptvupt_bound (length rbuf)) level)
  unfolding serial_vaptvupt lzh_bound
  vaptvupt_same rbuf level roomy =
      let nread = length rbuf in
      let cbuf_cap = lzh_bound nread + 512 in
      let vv_cap = comp.vaptvupt_bound nread in
      elim (Bool-cases (ltb cbuf_cap vv_cap)) [
        | inl large ↦
            rw large (shorter_fits nread cbuf_cap (comp.vaptvupt rbuf vv_cap level) (omega arith))
        | inr small ↦
            rw (small, roomy rbuf cbuf_cap level (ltb-false cbuf_cap vv_cap small))
              (shorter_fits nread cbuf_cap (comp.vaptvupt rbuf vv_cap level) (omega arith))
      ]

  compressed_same :
      (codec : ℕ) (rbuf : List ℕ) (level : ℕ)
      → IsRoomy comp
      → serial_compressed comp codec rbuf level ≡ compressed comp codec rbuf level
  unfolding serial_compressed compressed serial_lzhp compress_lzhp serial_plain plain_lzhp
  compressed_same codec rbuf level roomy = rw (vaptvupt_same rbuf level roomy) refl

  pub payload_same :
      (codec : ℕ) (rbuf : List ℕ) (level : ℕ)
      → IsRoomy comp
      → serial_payload comp codec rbuf level ≡ decide comp codec rbuf level
  unfolding serial_payload decide
  payload_same codec rbuf level roomy = rw (compressed_same codec rbuf level roomy) refl

-- What the cipher answers decides on both paths.
sealed_answer :
    (d : Digests) (cipher : Cipher) (s : Slot) (answer : Option (List ℕ))
    → slot_frame (sealed_slot d cipher s answer) ≡ (do
      (bflags, sent) ← (do enc ← answer; some (bit_or 0 bflag_encrypted, enc))
      some (data_frame s.actual_codec bflags (length s.input) s.checksum sent))
unfolding slot_frame
sealed_answer d cipher s none = refl
sealed_answer d cipher s (some enc) = refl

-- The frame that is written from a worker's slot is the one that the loop with one thread writes.
pub slot_frame-worked_slot :
    (d : Digests) (cipher : Cipher) (comp : Compressors) (xxh64 : List ℕ → ℕ → ℕ)
    (opts : ZuptOptions) (fi : ℕ) (dec : Decompressors) (before : ℕ → Slot) (sees : ℕ → Bool)
    (rbuf : List ℕ) (aad_seq : ℕ)
    → IsRoomy comp
    → slot_frame (
        worked_slot d cipher comp xxh64 opts fi dec before sees
          (submitted_slot d cipher comp xxh64 opts fi dec before sees rbuf aad_seq))
      ≡ serial_frame d cipher opts comp rbuf aad_seq
unfolding slot_frame worked_slot submitted_slot serial_frame serial_seal process filled_slot
    worker_compress output_slot
slot_frame-worked_slot d cipher comp xxh64 opts fi dec before sees rbuf aad_seq roomy =
    let same = payload_same comp opts.codec_id rbuf opts.level roomy in
    let chosen : Slot =
      record (filled_slot (before aad_seq) rbuf aad_seq opts.level opts.codec_id) {
        checksum = d.xxh64 rbuf;
        actual_codec = (decide comp opts.codec_id rbuf opts.level).0;
      } in
    elim (Bool-cases opts.encrypt) [
      | inl on ↦ elim (Bool-cases opts.keyring.active) [
        | inl active ↦ rw (same, on, active) (sealed_answer d cipher chosen _)
        | inr idle ↦ rw (same, on, idle) refl
      ]
      | inr off ↦ rw (same, off) refl
    ]
