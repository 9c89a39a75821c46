-- ===== src/Parallel/Writer.antt =====
-- The blocks of one file in zupt_compress_files of src/zupt_format.c, on both paths: one thread, and
-- batches through the slots of src/zupt_parallel.c. There is no deduplication, which has only the
-- first path; fwrite and allocation do not fail. `none` and `refused` are an archive that is given up,
-- and `blocked` is a call that never returns.
pub mod Chunk
pub mod Frames
pub mod Numbers
pub mod Rounds
pub mod Same
pub mod Total
use libvuptsdk.Common.{
  ℕ, zero, suc, ◌+◌, ◌-◌, ◌*◌, ◌%◌, ◌^◌, List, [], ◌∷◌, ◌++◌, Bool, true, false, ◌&&◌, ◌||◌, Option,
  some, none, ◌>>=◌, ltb, leb, ◌==◌, if◌then◌else◌, length, bit_or,
}
use libvuptsdk.Wire.Stream.{fread}
use libvuptsdk.Lz.{lz_compress}
use libvuptsdk.Predict.{predict_build, predict_encode}
use libvuptsdk.Archive.Error.{ZuptError}
use libvuptsdk.Archive.Trailer.{Keyring, Digests}
use libvuptsdk.Archive.Cipher.{Cipher, bflag_encrypted}
use libvuptsdk.Archive.Block.{Block, write_frame, serialize_preface_aad_scalars}
use libvuptsdk.Archive.Unpack.{
  codec_store, codec_zupt_lz, codec_zupt_lzh, codec_zupt_lzhp, codec_vaptvupt,
}
use libvuptsdk.Parallel.Slots.{Slot}
use libvuptsdk.Parallel.Worker.{
  Compressors, Decompressors, block_data, lz_bound, lzh_bound, table_bytes, or_empty,
}
use libvuptsdk.Parallel.Pipeline.{
  Answer, blocked, refused, given, filled_slot, process, cancelled, clamp_threads,
}

-- A call that blocks or is refused ends the chain.
infixl 5 ◌>>>=◌
abbrev pub ◌>>>=◌ : {B A : Type 0} → Answer A → (A → Answer B) → Answer B
blocked >>>= next = blocked
refused >>>= next = refused
given a >>>= next = next a

abbrev pub answer_of : {A : Type 0} → Option A → Answer A
answer_of none = refused
answer_of (some a) = given a

-- The options that both paths read.
pub record ZuptOptions : Type 0 where
  pub level : ℕ
  pub codec_id : ℕ
  pub block_size : ℕ
  pub encrypt : Bool
  pub keyring : Keyring

-- The open input: its bytes from the position on, and the counters that move with it.
pub record Reading : Type 0 where
  pub inf : List ℕ
  pub remaining : ℕ
  pub block_seq : ℕ
  pub file_hash_state : ℕ

-- The archive so far, and the fields of the file's index entry that grow with it.
pub record Writing : Type 0 where
  pub out : List ℕ
  pub file_comp : ℕ
  pub block_count : ℕ

unfoldable pub logical_aad_seq : ℕ → ℕ → ℕ
logical_aad_seq fi block_seq = bit_or ((fi + 1) * 2 ^ 32 % 2 ^ 64) block_seq

-- The next chunk, with xxh64 of a block and a seed.
unfoldable pub read_chunk : (List ℕ → ℕ → ℕ) → ZuptOptions → Reading → Option (List ℕ × Reading)
read_chunk xxh64 opts r =
    let chunk = if ltb r.remaining opts.block_size then r.remaining else opts.block_size in
    do
      (rbuf, rest) ← fread chunk r.inf
      some (
        rbuf,
        record {
          inf = rest;
          remaining = r.remaining - chunk;
          block_seq = (r.block_seq + 1) % 2 ^ 64;
          file_hash_state = xxh64 rbuf r.file_hash_state;
        },
      )

abbrev pub append_frame : Block → Writing → Writing
append_frame b w = record {
  out = w.out ++ write_frame b;
  file_comp = (w.file_comp + b.compressed_size) % 2 ^ 64;
  block_count = (w.block_count + 1) % 2 ^ 32;
}

module _ (comp : Compressors) where
  unfoldable pub serial_plain : List ℕ → ℕ → List ℕ
  serial_plain rbuf level =
      let plain = comp.lzh rbuf (lzh_bound (length rbuf)) level in
      if ltb 0 (length plain) && ltb (1 + length plain) (length rbuf) then 0x00 ∷ plain else []

  unfoldable pub serial_lzhp : List ℕ → ℕ → List ℕ
  serial_lzhp rbuf level =
      let nread = length rbuf in
      let pred = predict_build true rbuf in
      let packed = comp.lzh (predict_encode rbuf pred) (lzh_bound nread) level in
      if comp.benefits rbuf && ltb 256 nread
      then (if ltb 0 (length packed) && ltb (1 + 256 + length packed) nread
          then 0x01 ∷ (table_bytes 256 0 pred ++ packed)
          else serial_plain rbuf level)
      else serial_plain rbuf level

  -- `if (csz > 0 && (size_t)csz < nread)`
  abbrev pub shorter : ℕ → Option (List ℕ) → List ℕ
  shorter nread none = []
  shorter nread (some packed) =
      if ltb 0 (length packed) && ltb (length packed) nread then packed else []

  -- A buffer of its own only where cbuf is smaller than the bound.
  unfoldable pub serial_vaptvupt : List ℕ → ℕ → List ℕ
  serial_vaptvupt rbuf level =
      let nread = length rbuf in
      let vv_cap = comp.vaptvupt_bound nread in
      let cbuf_cap = lzh_bound nread + 512 in
      if ltb cbuf_cap vv_cap
      then shorter nread (comp.vaptvupt rbuf vv_cap level)
      else shorter nread (comp.vaptvupt rbuf cbuf_cap level)

  -- The bytes cbuf[0..comp_size).
  unfoldable pub serial_compressed : ℕ → List ℕ → ℕ → List ℕ
  serial_compressed codec rbuf level =
      let nread = length rbuf in
      if codec == codec_zupt_lzhp
      then serial_lzhp rbuf level
      else (if codec == codec_zupt_lzh
          then comp.lzh rbuf (lzh_bound nread) level
          else (if codec == codec_zupt_lz
              then or_empty comp (lz_compress rbuf (lz_bound nread) level)
              else (if codec == codec_vaptvupt then serial_vaptvupt rbuf level else [])))

  unfoldable pub serial_payload : ℕ → List ℕ → ℕ → ℕ × List ℕ
  serial_payload codec rbuf level =
      let packed = serial_compressed codec rbuf level in
      if length packed == 0 || leb (length rbuf) (length packed)
      then (codec_store, rbuf)
      else (codec, packed)

abbrev pub data_frame : ℕ → ℕ → ℕ → ℕ → List ℕ → Block
data_frame codec bflags nread checksum payload = record {
  block_type = block_data;
  codec_id = codec;
  block_flags = bflags;
  uncompressed_size = nread;
  compressed_size = length payload;
  checksum = checksum;
  payload = payload;
}

-- `s->error != ZUPT_OK`, and the frame that is written from the slot.
abbrev pub slot_frame_of : Slot → Option ZuptError → Option Block
slot_frame_of s (some e) = none
slot_frame_of s none =
    some (data_frame s.actual_codec s.out_bflags (length s.input) s.checksum s.output)

unfoldable pub slot_frame : Slot → Option Block
slot_frame s = slot_frame_of s s.error

-- The keys of the context.
abbrev pub context_keys : ZuptOptions → Option Keyring
context_keys opts = if opts.encrypt then some opts.keyring else none

module _ (d : Digests) (cipher : Cipher) (opts : ZuptOptions) where
  -- The flags and the payload behind the cipher.
  unfoldable pub serial_seal : ℕ → List ℕ → ℕ → ℕ → ℕ → Option (ℕ × List ℕ)
  serial_seal codec payload nread checksum aad_seq =
      let preface =
        serialize_preface_aad_scalars block_data codec bflag_encrypted nread
          (16 + length payload + 32) checksum in
      if opts.encrypt && opts.keyring.active
      then (do
        enc ←
            cipher.encrypt opts.keyring payload aad_seq
              (if opts.keyring.use_preface_aad then some preface else none)
        some (bit_or 0 bflag_encrypted, enc))
      else some (0, payload)

  unfoldable pub serial_frame : Compressors → List ℕ → ℕ → Option Block
  serial_frame comp rbuf aad_seq =
      let (codec, payload) = serial_payload comp opts.codec_id rbuf opts.level in
      do
        (bflags, sent) ← serial_seal codec payload (length rbuf) (d.xxh64 rbuf) aad_seq
        some (data_frame codec bflags (length rbuf) (d.xxh64 rbuf) sent)

module _ (d : Digests) (cipher : Cipher) (comp : Compressors) (xxh64 : List ℕ → ℕ → ℕ)
    (opts : ZuptOptions) (fi : ℕ) where
  -- One round of the loop with one thread.
  unfoldable pub serial_block : Reading → Writing → Option (Reading × Writing)
  serial_block r w = do
    (rbuf, r') ← read_chunk xxh64 opts r
    b ← serial_frame d cipher opts comp rbuf (logical_aad_seq fi r.block_seq)
    some (r', append_frame b w)

  -- `while (remaining > 0)` for at most `fuel` rounds.
  unfoldable pub serial_loop : ℕ → Reading → Writing → Option (Reading × Writing)
  serial_loop zero r w = some (r, w)
  serial_loop (suc fuel) r w =
      let round =
        serial_block r w >>= λ (next : Reading × Writing). serial_loop fuel next.0 next.1 in
      if r.remaining == 0 then some (r, w) else round

  -- `before` is what a slot held when the block with a sequence number was submitted. `sees` is
  -- whether the worker of a block finds the error flag raised, if a worker has failed.
  module _ (dec : Decompressors) (before : ℕ → Slot) (sees : ℕ → Bool) where
    unfoldable pub submitted_slot : List ℕ → ℕ → Slot
    submitted_slot rbuf aad_seq = filled_slot (before aad_seq) rbuf aad_seq opts.level opts.codec_id

    -- The slot as a worker leaves it.
    unfoldable pub worked_slot : Slot → Slot
    worked_slot sent = process d cipher comp dec 0 (context_keys opts) sent

    abbrev pub has_failed : Option ZuptError → Bool
    has_failed none = false
    has_failed (some e) = true

    unfoldable pub any_failed : List Slot → Bool
    any_failed [] = false
    any_failed (sent ∷ pending) = has_failed (worked_slot sent).error || any_failed pending

    -- What zpar_wait_slot gives: with the flag raised a worker may give its slot up.
    unfoldable pub waited_slot : Bool → Slot → Slot
    waited_slot raised sent =
        if raised && sees sent.block_seq then cancelled d cipher comp dec sent else worked_slot sent

    abbrev pub is_pending : ℕ → List ℕ → Bool
    is_pending idx [] = false
    is_pending idx (p ∷ pending_slots) = (idx == p) || is_pending idx pending_slots

    -- Read and submit up to `room` blocks. The slots in `pending_slots` are not empty until the main
    -- thread itself releases them, so that a submission to one of them blocks for ever.
    unfoldable pub fill_batch : ℕ → ℕ → List ℕ → Reading → Answer (List Slot × Reading)
    fill_batch nslots zero pending_slots r = given ([], r)
    fill_batch nslots (suc room) pending_slots r =
        let aad_seq = logical_aad_seq fi r.block_seq in
        let idx = aad_seq % nslots in
        let submitted = answer_of (read_chunk xxh64 opts r) >>>= λ (x : List ℕ × Reading).
        let rest = fill_batch nslots room (idx ∷ pending_slots) x.1 in
        if is_pending idx pending_slots
        then blocked
        else (rest >>>= λ (f : List Slot × Reading).
            given (submitted_slot x.0 aad_seq ∷ f.0, f.1)) in
        if r.remaining == 0 then given ([], r) else submitted

    -- Write what the slots hold, in the order of submission.
    unfoldable pub collect : Bool → List Slot → Writing → Option Writing
    collect raised [] w = some w
    collect raised (sent ∷ pending) w = do
      b ← slot_frame (waited_slot raised sent)
      collect raised pending (append_frame b w)

    unfoldable pub batch : ℕ → ℕ → Reading → Writing → Answer (Reading × Writing)
    batch nslots effective_threads r w =
        fill_batch nslots effective_threads [] r >>>= λ (f : List Slot × Reading).
        answer_of (collect (any_failed f.0) f.0 w >>= λ (w' : Writing). some (f.1, w'))

    -- `while (remaining > 0)` for at most `fuel` batches. zpar_create has set the number of slots.
    unfoldable pub parallel_loop : ℕ → ℕ → Reading → Writing → Answer (Reading × Writing)
    parallel_loop effective_threads zero r w = given (r, w)
    parallel_loop effective_threads (suc fuel) r w =
        let round =
          batch (clamp_threads effective_threads) effective_threads r w
          >>>= λ (next : Reading × Writing). parallel_loop effective_threads fuel next.0 next.1 in
        if r.remaining == 0 then given (r, w) else round
