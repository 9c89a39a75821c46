-- ===== src/Parallel/Worker/Agree.antt =====
-- A worker of src/zupt_parallel.c whose decoders are those of src/zupt_format.c: its work and
-- decompress_block.
use libvuptsdk.Common.{
  ℕ, ◌+◌, ◌≤◌, ◌≡◌, refl, ap, sym, arith, List, [], ◌∷◌, Bool, true, false, not, Option, some, none,
  ltb, leb, ◌==◌, ==_iff, if◌then◌else◌, Bool-cases, inl, inr, length, bit_and,
}
use libvuptsdk.Archive.Error.{corrupt, auth_fail, Result, ok, err, ◌>>=◌, or_fail}
use libvuptsdk.Archive.Trailer.{Keyring, Digests, is_active}
use libvuptsdk.Archive.Cipher.{Cipher}
use libvuptsdk.Archive.Block.{
  Block, max_block_sz, serialize_preface_aad, serialize_preface_aad_scalars,
}
use libvuptsdk.Archive.Unpack.{
  Codecs, codec_vaptvupt, vv_decode_slack, decode_lzhp, decode, verified, unpack, open_payload,
  open_sealed, decompress_block,
}
use libvuptsdk.Parallel.Slots.{Slot, outcome}
use libvuptsdk.Parallel.Worker.{
  Decompressors, block_data, exact, worker_lzhp, worker_decode, finish, decode_slot, slot_preface,
  decrypted_slot, open_slot, worker_decompress, has_flag,
}

-- The frame whose fields a slot holds.
abbrev pub block_of : Slot → Block
block_of slot = record {
  block_type = block_data;
  codec_id = slot.codec_id;
  block_flags = slot.block_flags;
  uncompressed_size = slot.uncomp_size;
  compressed_size = length slot.input;
  checksum = slot.stored_checksum;
  payload = slot.input;
}

bind_ok {ℓ} : {A : Type ℓ} (m : Result A) → (m >>= λ a. ok a) ≡ m
bind_ok (ok a) = refl
bind_ok (err e) = refl

module _ (codecs : Codecs) (vv_decompress : List ℕ → ℕ → Option (List ℕ)) where
  -- The worker has the decoders of the serial path, but for VaptVupt's.
  abbrev pub worker_codecs : Decompressors
  worker_codecs = record { lzh = codecs.lzh; vaptvupt = vv_decompress }

  lzhp_same :
      (comp : List ℕ) (olen : ℕ)
      → worker_lzhp worker_codecs comp olen ≡ decode_lzhp codecs comp olen
  unfolding worker_lzhp decode_lzhp
  lzhp_same [] olen = refl
  lzhp_same (b ∷ comp) olen =
      let there : ltb (length (b ∷ comp)) 1 ≡ false = ground arith in
      let there' : length (b ∷ comp) == 0 ≡ false = ground arith in
      elim (Bool-cases (not (bit_and b 0x01 == 0))) [
        | inl predicted ↦ elim (Bool-cases (ltb (length (b ∷ comp)) 257)) [
          | inl short ↦ rw (there, there', predicted, short) refl
          | inr long ↦ rw (there, there', predicted, long) refl
        ]
        | inr plain ↦
            rw (there, there', plain)
              (if_same (leb (length (b ∷ comp)) 1)
                (sym (bind_ok (exact olen (codecs.lzh comp olen)))))
      ]
    where
      if_same :
          (t : Bool) {x y : Result (List ℕ)}
          → x ≡ y
          → (if t then err corrupt else x) ≡ (if t then err corrupt else y)
      if_same t e = ap (λ r. if t then err corrupt else r) e

  decode_same :
      (codec : ℕ) (comp : List ℕ) (olen : ℕ)
      → (codec ≡ codec_vaptvupt
          → (bytes : List ℕ) (cap : ℕ) → vv_decompress bytes cap ≡ codecs.vaptvupt bytes cap)
      → worker_decode worker_codecs codec comp olen ≡ decode codecs codec comp olen
  unfolding worker_decode decode
  decode_same codec comp olen agree = elim (Bool-cases (codec == codec_vaptvupt)) [
    | inl vapt ↦ rw (
      agree ((==_iff codec codec_vaptvupt).0 vapt) comp (olen + vv_decode_slack),
      lzhp_same comp olen,
    )
    | inr other ↦ rw (other, lzhp_same comp olen)
  ]

  module _ (d : Digests) (cipher : Cipher) (slot : Slot) where
    -- The two VaptVupt decoders give the same where the slot's codec is VaptVupt.
    abbrev pub Agree : Type 0
    Agree =
        slot.codec_id ≡ codec_vaptvupt
        → (bytes : List ℕ) (cap : ℕ) → vv_decompress bytes cap ≡ codecs.vaptvupt bytes cap

    finish_same :
        (r : Result (List ℕ))
        → outcome (finish d cipher slot r) ≡ (r >>= verified d cipher codecs (block_of slot))
    unfolding verified
    finish_same (err e) = refl
    finish_same (ok out) = elim (Bool-cases (d.xxh64 out == slot.stored_checksum)) [
      | inl right ↦ rw right refl
      | inr wrong ↦ rw wrong refl
    ]

    decode_slot_same :
        (comp : List ℕ)
        → Agree
        → outcome (decode_slot d cipher worker_codecs slot comp)
          ≡ unpack d cipher codecs (block_of slot) comp
    unfolding decode_slot unpack
    decode_slot_same comp agree = elim (Bool-cases (slot.uncomp_size == 0)) [
      | inl nothing ↦ rw nothing refl
      | inr something ↦
          rw (something, sym (decode_same slot.codec_id comp slot.uncomp_size agree))
            (finish_same (worker_decode worker_codecs slot.codec_id comp slot.uncomp_size))
    ]

    decrypted_same :
        (plain : Option (List ℕ))
        → Agree
        → outcome (decrypted_slot d cipher worker_codecs slot plain)
          ≡ (or_fail plain auth_fail >>= unpack d cipher codecs (block_of slot))
    decrypted_same none agree = refl
    decrypted_same (some comp) agree = decode_slot_same comp agree

    open_same :
        (kr : Option Keyring)
        → Agree
        → has_flag slot ≡ true
        → outcome (open_slot d cipher worker_codecs slot kr) ≡ (
            open_sealed cipher (block_of slot) kr slot.block_seq
            >>= unpack d cipher codecs (block_of slot))
    unfolding serialize_preface_aad serialize_preface_aad_scalars
    open_same none agree flag = refl
    open_same (some k) agree flag = elim (Bool-cases k.active) [
      | inl on ↦ simp on (
          decrypted_same (cipher.decrypt k slot.input slot.block_seq (slot_preface d cipher k slot))
            agree)
      | inr off ↦ simp off refl
    ]

-- With decoders that agree on the slot's codec, a worker makes of a slot what decompress_block makes
-- of the frame with the slot's fields.
pub worker_decompress_same :
    (d : Digests) (cipher : Cipher) (codecs : Codecs) (vv_decompress : List ℕ → ℕ → Option (List ℕ))
    (slot : Slot) (kr : Option Keyring)
    → Agree codecs vv_decompress d cipher slot
    → length slot.input ≤ max_block_sz + 1024
    → outcome (worker_decompress d cipher (worker_codecs codecs vv_decompress) slot kr)
      ≡ decompress_block d cipher codecs (block_of slot) kr slot.block_seq
unfolding worker_decompress decompress_block open_payload
worker_decompress_same d cipher codecs vv slot kr agree small =
    let limit : ltb (max_block_sz + 1024) (length slot.input) ≡ false = ground arith in
    elim (Bool-cases (ltb max_block_sz slot.uncomp_size)) [
      | inl huge ↦ rw huge refl
      | inr fits ↦ elim (Bool-cases (has_flag slot)) [
        | inl flag ↦ elim (Bool-cases (is_active kr)) [
          | inl on ↦ rw (limit, fits, flag, on) (open_same codecs vv d cipher slot kr agree flag)
          | inr off ↦ rw (limit, fits, flag, off) (open_same codecs vv d cipher slot kr agree flag)
        ]
        | inr plain ↦ elim (Bool-cases (is_active kr)) [
          | inl on ↦ rw (limit, fits, plain, on) refl
          | inr off ↦
              rw (limit, fits, plain, off)
                (decode_slot_same codecs vv d cipher slot slot.input agree)
        ]
      ]
    ]
