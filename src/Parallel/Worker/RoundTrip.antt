-- ===== src/Parallel/Worker/RoundTrip.antt =====
-- What worker_compress of src/zupt_parallel.c puts out is decoded to the block that it took.
use mathlib.Core.Path.{subst}
use libvuptsdk.Common.{
  ℕ, ◌+◌, ◌≤◌, ◌≡◌, refl, ap, sym, arith, List, true, false, Option, some, none, ltb, ◌==◌, ==_iff,
  if◌then◌else◌, Bool-cases, inl, inr, length, All, IsByte,
}
use libvuptsdk.Archive.Error.{ok}
use libvuptsdk.Archive.Trailer.{Keyring, Digests, is_active}
use libvuptsdk.Archive.Cipher.{Cipher}
use libvuptsdk.Archive.Block.{max_block_sz}
use libvuptsdk.Archive.Index.Canonical.{length_zero}
use libvuptsdk.Parallel.Slots.{Slot, outcome}
use libvuptsdk.Parallel.Worker.Decide.{IsInverse, decide-IsPayload}
use libvuptsdk.Parallel.Worker.{
  Compressors, Decompressors, decide, output_slot, worker_compress, worker_decode, decode_slot,
  worker_decompress, predicted_preface, slot_preface, has_flag, sealed_slot,
}

-- The reader's slot holds what the writer's frame carries.
pub record IsSent (reader written : Slot) : Type 0 where
  pub input : reader.input ≡ written.output
  pub codec : reader.codec_id ≡ written.actual_codec
  pub flags : reader.block_flags ≡ written.out_bflags
  pub digest : reader.stored_checksum ≡ written.checksum
  pub size : reader.uncomp_size ≡ length written.input
  pub seq : reader.block_seq ≡ written.block_seq

module _ (d : Digests) (cipher : Cipher) (dec : Decompressors) (reader : Slot)
    (src payload : List ℕ) (size : reader.uncomp_size ≡ length src)
    (digest : reader.stored_checksum ≡ d.xxh64 src) (small : length src ≤ max_block_sz)
    (good : worker_decode dec reader.codec_id payload (length src) ≡ ok src) where
  decode_slot_good : outcome (decode_slot d cipher dec reader payload) ≡ ok src
  unfolding decode_slot
  decode_slot_good = elim (Bool-cases (length src == 0)) [
    | inl nothing ↦ simp (size, nothing) (ap ok (sym (length_zero src nothing)))
    | inr something ↦
        let right : d.xxh64 src == d.xxh64 src ≡ true =
          (==_iff (d.xxh64 src) (d.xxh64 src)).1 refl in
        simp (size, something, good, digest, right) refl
  ]

  -- A reader without a key in use, and a payload in the clear.
  plain_read :
      (kr : Option Keyring)
      → reader.input ≡ payload
      → reader.block_flags ≡ 0
      → is_active kr ≡ false
      → outcome (worker_decompress d cipher dec reader kr) ≡ ok src
  unfolding worker_decompress
  plain_read kr same flags off =
      let fits : ltb max_block_sz reader.uncomp_size ≡ false = ground (arith, size) in
      simp (fits, off, flags, same) decode_slot_good

  sealed_read :
      (k : Keyring)
      → k.active ≡ true
      → has_flag reader ≡ true
      → cipher.encrypt k payload reader.block_seq (slot_preface d cipher k reader)
        ≡ some reader.input
      → outcome (worker_decompress d cipher dec reader (some k)) ≡ ok src
  unfolding worker_decompress
  sealed_read k on flag sealed =
      let fits : ltb max_block_sz reader.uncomp_size ≡ false = ground (arith, size) in
      let opened =
        cipher.decrypt-encrypt k payload reader.block_seq (slot_preface d cipher k reader)
          reader.input sealed in
      simp (fits, on, flag, opened) decode_slot_good

-- The slot that the worker hands to the cipher.
abbrev chosen : Digests → Compressors → Slot → Slot
chosen d comp slot = record slot {
  checksum = d.xxh64 slot.input;
  actual_codec = (decide comp slot.codec_id slot.input slot.level).0;
}

module _ (d : Digests) (cipher : Cipher) (comp : Compressors) (slot : Slot) (k : Keyring) where
  abbrev body : List ℕ
  body = (decide comp slot.codec_id slot.input slot.level).1

  abbrev write_preface : Option (List ℕ)
  write_preface =
      if k.use_preface_aad
      then some (
          predicted_preface (decide comp slot.codec_id slot.input slot.level).0 body
            (length slot.input) (d.xxh64 slot.input))
      else none

  with_key :
      k.active ≡ true
      → worker_compress d cipher comp slot (some k)
        ≡ sealed_slot d cipher
            (chosen d comp slot)
            (cipher.encrypt k body slot.block_seq write_preface)
  unfolding worker_compress output_slot
  with_key on = simp on refl

  without_key :
      k.active ≡ false
      → worker_compress d cipher comp slot (some k)
        ≡ record (chosen d comp slot) { output = body; out_bflags = 0; error = none }
  unfolding worker_compress output_slot
  without_key off = simp off refl

module _ (d : Digests) (cipher : Cipher) (comp : Compressors) (dec : Decompressors)
    (slot reader : Slot) (k : Keyring) (bytes : All IsByte slot.input)
    (small : length slot.input ≤ max_block_sz) (inverse : IsInverse comp dec) where
  body-decodes :
      worker_decode dec
        (decide comp slot.codec_id slot.input slot.level).0
        (body d cipher comp slot k)
        (length slot.input)
      ≡ ok slot.input
  body-decodes =
      (decide-IsPayload comp dec inverse slot.input bytes slot.level slot.codec_id (omega arith)).0

  -- Writer and reader authenticate the same preface.
  same_preface :
      (enc : List ℕ)
      → length enc ≡ length (body d cipher comp slot k) + 48
      → IsSent reader (sealed_slot d cipher (chosen d comp slot) (some enc))
      → slot_preface d cipher k reader ≡ (write_preface d cipher comp slot k)
  same_preface enc size sent =
      let total : 16 + length (body d cipher comp slot k) + 32 ≡ length enc = omega (arith, size) in
      simp (sent.input, sent.codec, sent.flags, sent.size, sent.digest, total) refl

  read_sealed :
      (answer : Option (List ℕ))
      → k.active ≡ true
      → cipher.encrypt k
          (body d cipher comp slot k)
          slot.block_seq
          (write_preface d cipher comp slot k)
        ≡ answer
      → (sealed_slot d cipher (chosen d comp slot) answer).error ≡ none
      → IsSent reader (sealed_slot d cipher (chosen d comp slot) answer)
      → outcome (worker_decompress d cipher dec reader (some k)) ≡ ok slot.input
  read_sealed none on made fine sent = cc
  read_sealed (some enc) on made fine sent =
      let size =
        cipher.encrypt_size k (body d cipher comp slot k) slot.block_seq
          (write_preface d cipher comp slot k) enc made in
      let flag : has_flag reader ≡ true = rw sent.flags refl in
      let enciphered : cipher.encrypt k (body d cipher comp slot k) reader.block_seq
            (slot_preface d cipher k reader)
          ≡ some reader.input =
        rw (same_preface enc size sent, sent.seq, sent.input) made in
      sealed_read d cipher dec reader slot.input (body d cipher comp slot k) sent.size sent.digest
        small (rw sent.codec body-decodes) k on flag enciphered

-- Whatever the codec, with a key in use or without: if the worker that compresses a block reports
-- no error, then a worker that gets the frame's fields in its slot decodes it to the block that
-- was compressed. The block is within the size limit, and the larger codecs give back what they
-- took.
pub worker_decompress-worker_compress :
    (d : Digests) (cipher : Cipher) (comp : Compressors) (dec : Decompressors) (slot reader : Slot)
    (kr : Option Keyring)
    → IsInverse comp dec
    → All IsByte slot.input
    → length slot.input ≤ max_block_sz
    → (worker_compress d cipher comp slot kr).error ≡ none
    → IsSent reader (worker_compress d cipher comp slot kr)
    → outcome (worker_decompress d cipher dec reader kr) ≡ ok slot.input
unfolding worker_compress output_slot
worker_decompress-worker_compress d cipher comp dec slot reader none inverse bytes small fine sent =
    let (decodes, shorter) =
      decide-IsPayload comp dec inverse slot.input bytes slot.level slot.codec_id (omega arith) in
    plain_read d cipher dec reader slot.input (decide comp slot.codec_id slot.input slot.level).1
      sent.size sent.digest small (rw sent.codec decodes) none sent.input sent.flags refl
worker_decompress-worker_compress d cipher comp dec slot reader (some k) inverse bytes small fine
      sent =
    elim (Bool-cases k.active) [
      | inl on ↦
          let same = with_key d cipher comp slot k on in
          read_sealed d cipher comp dec slot reader k bytes small inverse _ on refl
            (subst (λ (w : Slot). w.error ≡ none) same fine) (subst (IsSent reader) same sent)
      | inr off ↦
          let sent' = subst (IsSent reader) (without_key d cipher comp slot k off) sent in
          plain_read d cipher dec reader slot.input
            (decide comp slot.codec_id slot.input slot.level).1 sent'.size sent'.digest small
            (rw sent'.codec (body-decodes d cipher comp dec slot reader k bytes small inverse))
            (some k) sent'.input sent'.flags off
    ]
