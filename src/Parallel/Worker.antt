-- ===== src/Parallel/Worker.antt =====
-- worker_compress and worker_decompress of src/zupt_parallel.c: what a worker does to the slot that
-- it took. Allocation does not fail; the digests, the cipher and the larger codecs are arguments.
pub mod Agree
pub mod Serial
pub mod Decide
pub mod RoundTrip
use libvuptsdk.Common.{
  ℕ, zero, suc, ◌+◌, ◌/◌, ◌<◌, List, [], ◌∷◌, ◌++◌, Bool, true, false, ◌&&◌, ◌||◌, not, Option,
  some, none, ltb, leb, ◌==◌, if◌then◌else◌, length, get_or, take, drop, bit_and, bit_or,
}
use libvuptsdk.Lz.{lz_compress, lz_decompress}
use libvuptsdk.Predict.{Prediction, predict_build, predict_encode, predict_decode}
use libvuptsdk.Archive.Error.{
  ZuptError, nomem, corrupt, overflow, auth_fail, unsupported, bad_checksum, Result, ok, err, ◌>>=◌,
}
use libvuptsdk.Archive.Trailer.{Keyring, Digests, is_active}
use libvuptsdk.Archive.Cipher.{Cipher, bflag_encrypted}
use libvuptsdk.Archive.Block.{max_block_sz, serialize_preface_aad_scalars}
use libvuptsdk.Archive.Unpack.{
  codec_store, codec_zupt_lz, codec_zupt_lzh, codec_zupt_lzhp, codec_vaptvupt, vv_decode_slack,
}
use libvuptsdk.Parallel.Slots.{Slot}

-- zupt_lzh_compress and vvz_compress of a source, a capacity and a level: [] is a size of 0, and
-- none a negative result. vvz_compress_bound, and whether zupt_predict_benefit is above 0.03.
pub record Compressors : Type 0 where
  pub lzh : List ℕ → ℕ → ℕ → List ℕ
  pub vaptvupt : List ℕ → ℕ → ℕ → Option (List ℕ)
  pub vaptvupt_bound : ℕ → ℕ
  pub benefits : List ℕ → Bool

-- zupt_lzh_decompress and vv_decompress of a source and a capacity; none is a failure.
pub record Decompressors : Type 0 where
  pub lzh : List ℕ → ℕ → Option (List ℕ)
  pub vaptvupt : List ℕ → ℕ → Option (List ℕ)

abbrev pub block_data : ℕ
block_data = 0x00

unfoldable pub lz_bound : ℕ → ℕ
lz_bound src_len = src_len + src_len / 255 + 32

unfoldable pub lzh_bound : ℕ → ℕ
lzh_bound slen = slen + slen / 8 + 2048

-- The table as bytes, from byte `c` on, with `left` to go.
unfoldable pub table_bytes : ℕ → ℕ → Prediction → List ℕ
table_bytes zero c pred = []
table_bytes (suc left) c pred = pred c ∷ table_bytes left (c + 1) pred

module _ (comp : Compressors) where
  -- With the flag 0 in front; [] is a size of 0.
  unfoldable pub plain_lzhp : List ℕ → ℕ → List ℕ
  plain_lzhp rbuf level =
      let plain = comp.lzh rbuf (lzh_bound (length rbuf)) level in
      if ltb 0 (length plain) && ltb (1 + length plain) (length rbuf) then 0x00 ∷ plain else []

  unfoldable pub compress_lzhp : List ℕ → ℕ → List ℕ
  compress_lzhp rbuf level =
      let pred = predict_build true rbuf in
      let packed = comp.lzh (predict_encode rbuf pred) (lzh_bound (length rbuf)) level in
      if comp.benefits rbuf && ltb 256 (length rbuf)
      then (if ltb 0 (length packed) && ltb (1 + 256 + length packed) (length rbuf)
          then 0x01 ∷ (table_bytes 256 0 pred ++ packed)
          else plain_lzhp rbuf level)
      else plain_lzhp rbuf level

  -- The result of the VaptVupt codec, if it is smaller and fits the buffer.
  abbrev pub smaller : ℕ → ℕ → Option (List ℕ) → List ℕ
  smaller nread cbuf_cap none = []
  smaller nread cbuf_cap (some packed) =
      if ltb 0 (length packed) && ltb (length packed) nread
      then (if leb (length packed) cbuf_cap then packed else [])
      else []

  abbrev pub or_empty : Option (List ℕ) → List ℕ
  or_empty none = []
  or_empty (some packed) = packed

  -- The bytes cbuf[0..comp_size).
  unfoldable pub compressed : ℕ → List ℕ → ℕ → List ℕ
  compressed codec rbuf level =
      let nread = length rbuf in
      if codec == codec_zupt_lzhp
      then compress_lzhp rbuf level
      else (if codec == codec_zupt_lzh
          then comp.lzh rbuf (lzh_bound nread) level
          else (if codec == codec_zupt_lz
              then or_empty (lz_compress rbuf (lz_bound nread) level)
              else (if codec == codec_vaptvupt
                  then smaller nread (lzh_bound nread + 512)
                      (comp.vaptvupt rbuf (comp.vaptvupt_bound nread) level)
                  else [])))

  -- The codec and the payload: what did not shrink is stored.
  unfoldable pub decide : ℕ → List ℕ → ℕ → ℕ × List ℕ
  decide codec rbuf level =
      let packed = compressed codec rbuf level in
      if length packed == 0 || leb (length rbuf) (length packed)
      then (codec_store, rbuf)
      else (codec, packed)

-- The frame's fields as the writer will make them; the payload grows by nonce and tag.
abbrev pub predicted_preface : ℕ → List ℕ → ℕ → ℕ → List ℕ
predicted_preface codec payload nread checksum =
    serialize_preface_aad_scalars block_data codec bflag_encrypted nread (16 + length payload + 32)
      checksum

module _ (d : Digests) (cipher : Cipher) where
  -- The slot with what was stored before the cipher, and its answer.
  abbrev pub sealed_slot : Slot → Option (List ℕ) → Slot
  sealed_slot slot none = record slot { out_bflags = 0; error = some nomem }
  sealed_slot slot (some enc) = record slot {
    output = enc;
    out_bflags = bit_or 0 bflag_encrypted;
    error = none;
  }

  unfoldable pub output_slot : Slot → List ℕ → Option Keyring → Slot
  output_slot slot payload none = record slot { output = payload; out_bflags = 0; error = none }
  output_slot slot payload (some k) =
      if k.active
      then sealed_slot slot (
          cipher.encrypt k payload slot.block_seq (
            if k.use_preface_aad
            then some
                (predicted_preface slot.actual_codec payload (length slot.input) slot.checksum)
            else none))
      else record slot { output = payload; out_bflags = 0; error = none }

  unfoldable pub worker_compress : Compressors → Slot → Option Keyring → Slot
  worker_compress comp slot kr =
      let (codec, payload) = decide comp slot.codec_id slot.input slot.level in
      output_slot (record slot { checksum = d.xxh64 slot.input; actual_codec = codec }) payload kr

abbrev pub has_flag : Slot → Bool
has_flag slot = not (bit_and slot.block_flags bflag_encrypted == 0)

-- `if (r != olen) result = ZUPT_ERR_CORRUPT;`
abbrev pub exact : ℕ → Option (List ℕ) → Result (List ℕ)
exact olen none = err corrupt
exact olen (some out) = if length out == olen then ok out else err corrupt

module _ (dec : Decompressors) where
  unfoldable pub worker_lzhp : List ℕ → ℕ → Result (List ℕ)
  worker_lzhp comp_data olen =
      let pred_active = not (bit_and (get_or comp_data 0 0) 0x01 == 0) in
      let pred = λ (c : ℕ). get_or (take 256 (drop 1 comp_data)) c 0 in
      if ltb (length comp_data) 1
      then err corrupt
      else (if pred_active
          then (if ltb (length comp_data) 257
              then err corrupt
              else (if leb (length comp_data) 257
                  then err corrupt
                  else (exact olen (dec.lzh (drop 257 comp_data) olen) >>= λ temp.
                      ok (predict_decode temp pred))))
          else (if leb (length comp_data) 1
              then err corrupt
              else exact olen (dec.lzh (drop 1 comp_data) olen)))

  unfoldable pub worker_decode : ℕ → List ℕ → ℕ → Result (List ℕ)
  worker_decode codec comp_data olen =
      if codec == codec_store
      then (if ltb (length comp_data) olen then err corrupt else ok (take olen comp_data))
      else (if codec == codec_zupt_lz
          then exact olen (lz_decompress comp_data olen)
          else (if codec == codec_zupt_lzh
              then exact olen (dec.lzh comp_data olen)
              else (if codec == codec_zupt_lzhp
                  then worker_lzhp comp_data olen
                  else (if codec == codec_vaptvupt
                      then exact olen (dec.vaptvupt comp_data (olen + vv_decode_slack))
                      else err unsupported))))

module _ (d : Digests) (cipher : Cipher) where
  abbrev pub fail : Slot → ZuptError → Slot
  fail slot e = record slot { error = some e }

  -- A failure behind the allocation of the output clears it.
  abbrev pub finish : Slot → Result (List ℕ) → Slot
  finish slot (err e) = record slot { output = []; error = some e }
  finish slot (ok out) =
      if d.xxh64 out == slot.stored_checksum
      then record slot { output = out; error = none }
      else record slot { output = []; error = some bad_checksum }

  -- What follows the decryption.
  unfoldable pub decode_slot : Decompressors → Slot → List ℕ → Slot
  decode_slot dec slot comp_data =
      if slot.uncomp_size == 0
      then record slot { output = []; error = none }
      else finish slot (worker_decode dec slot.codec_id comp_data slot.uncomp_size)

  abbrev pub slot_preface : Keyring → Slot → Option (List ℕ)
  slot_preface k slot =
      if k.use_preface_aad
      then some (
          serialize_preface_aad_scalars block_data slot.codec_id slot.block_flags slot.uncomp_size
            (length slot.input) slot.stored_checksum)
      else none

  abbrev pub decrypted_slot : Decompressors → Slot → Option (List ℕ) → Slot
  decrypted_slot dec slot none = fail slot auth_fail
  decrypted_slot dec slot (some plain) = decode_slot dec slot plain

  abbrev pub open_slot : Decompressors → Slot → Option Keyring → Slot
  open_slot dec slot none = fail slot auth_fail
  open_slot dec slot (some k) =
      if k.active
      then decrypted_slot dec slot
          (cipher.decrypt k slot.input slot.block_seq (slot_preface k slot))
      else fail slot auth_fail

  unfoldable pub worker_decompress : Decompressors → Slot → Option Keyring → Slot
  worker_decompress dec slot kr =
      if ltb max_block_sz slot.uncomp_size
      then fail slot overflow
      else (if is_active kr && not (has_flag slot)
          then fail slot auth_fail
          else (if has_flag slot then open_slot dec slot kr else decode_slot dec slot slot.input))
