-- ===== src/Parallel/Worker/Serial.antt =====
-- worker_decompress of src/zupt_parallel.c against decompress_block of src/zupt_format.c.
use libvuptsdk.Common.{
  ℕ, ◌+◌, ◌≤◌, ◌≡◌, refl, ◌∙◌, List, true, false, Option, some, none, ltb, ◌==◌, ==_iff, Bool-cases,
  Option-cases, ◌⊎◌, inl, inr, length,
}
use libvuptsdk.Archive.Error.{corrupt, Result, ok, err}
use libvuptsdk.Archive.Trailer.{Keyring, Digests, is_active}
use libvuptsdk.Archive.Cipher.{Cipher}
use libvuptsdk.Archive.Block.{max_block_sz, serialize_preface_aad, serialize_preface_aad_scalars}
use libvuptsdk.Archive.Unpack.{
  Codecs, codec_vaptvupt, vv_decode_slack, open_payload, decompress_block,
}
use libvuptsdk.Parallel.Slots.{Slot, outcome}
use libvuptsdk.Parallel.Worker.{
  worker_lzhp, worker_decode, decode_slot, slot_preface, open_slot, worker_decompress, has_flag,
}
use libvuptsdk.Parallel.Worker.Agree.{block_of, worker_codecs, worker_decompress_same}

-- vv_decompress, which verifies the digest that a VaptVupt frame may carry, gives nothing but what
-- vvz_decompress gives, which skips that test.
abbrev pub IsStricter : Codecs → (List ℕ → ℕ → Option (List ℕ)) → Type 0
IsStricter codecs vv_decompress =
    (bytes out : List ℕ) (room : ℕ)
    → vv_decompress bytes room ≡ some out
    → codecs.vaptvupt bytes room ≡ some out

module _ (d : Digests) (cipher : Cipher) (codecs : Codecs)
    (vv_decompress : List ℕ → ℕ → Option (List ℕ))
    (stricter : IsStricter codecs vv_decompress) where
  decode_or :
      (codec : ℕ) (comp : List ℕ) (olen : ℕ)
      → (worker_decode (worker_codecs codecs vv_decompress) codec comp olen
          ≡ worker_decode (worker_codecs codecs codecs.vaptvupt) codec comp olen)
        ⊎ ((codec ≡ codec_vaptvupt)
            × (worker_decode (worker_codecs codecs vv_decompress) codec comp olen ≡ err corrupt)
            × (vv_decompress comp (olen + vv_decode_slack) ≡ none))
  unfolding worker_decode worker_lzhp
  decode_or codec comp olen = elim (Bool-cases (codec == codec_vaptvupt)) [
    | inr other ↦ inl (rw other refl)
    | inl vapt ↦
        let is_vapt = (==_iff codec codec_vaptvupt).0 vapt in
        elim (Option-cases (vv_decompress comp (olen + vv_decode_slack))) [
          | inl nothing ↦ inr (is_vapt, rw (is_vapt, nothing) refl, nothing)
          | inr (out, given) ↦
              inl (rw (is_vapt, given, stricter comp out (olen + vv_decode_slack) given) refl)
        ]
  ]

  module _ (slot : Slot) (kr : Option Keyring) where
    -- A VaptVupt block whose opened payload vv_decompress refuses.
    abbrev pub Refused : Result (List ℕ) → Type 0
    Refused r =
        (slot.codec_id ≡ codec_vaptvupt)
        × (r ≡ err corrupt)
        × (comp : List ℕ) × (open_payload cipher (block_of slot) kr slot.block_seq ≡ ok comp)
        × (vv_decompress comp (slot.uncomp_size + vv_decode_slack) ≡ none)

    abbrev SameOr : Slot → Slot → Type 0
    SameOr s t = (outcome s ≡ outcome t) ⊎ Refused (outcome s)

    decode_slot_or :
        (comp : List ℕ)
        → open_payload cipher (block_of slot) kr slot.block_seq ≡ ok comp
        → SameOr
            (decode_slot d cipher (worker_codecs codecs vv_decompress) slot comp)
            (decode_slot d cipher (worker_codecs codecs codecs.vaptvupt) slot comp)
    unfolding decode_slot
    decode_slot_or comp opened = elim (Bool-cases (slot.uncomp_size == 0)) [
      | inl nothing ↦ inl (rw nothing refl)
      | inr something ↦ elim (decode_or slot.codec_id comp slot.uncomp_size) [
        | inl same ↦ inl (rw (something, same) refl)
        | inr (vapt, refused, why) ↦ inr (vapt, rw (something, refused) refl, comp, opened, why)
      ]
    ]

    sealed_or :
        (k : Keyring)
        → kr ≡ some k
        → k.active ≡ true
        → has_flag slot ≡ true
        → SameOr
            (open_slot d cipher (worker_codecs codecs vv_decompress) slot (some k))
            (open_slot d cipher (worker_codecs codecs codecs.vaptvupt) slot (some k))
    unfolding open_payload serialize_preface_aad serialize_preface_aad_scalars
    sealed_or k same on flag =
        elim (Option-cases
          (cipher.decrypt k slot.input slot.block_seq (slot_preface d cipher k slot))) [
            | inl nothing ↦ inl (simp (on, nothing) refl)
            | inr (plain, given) ↦
                let opened : open_payload cipher (block_of slot) kr slot.block_seq ≡ ok plain =
                  simp (same, on, flag, given) refl in
                simp (on, given) (decode_slot_or plain opened)
          ]

    open_or :
        (key : Option Keyring)
        → kr ≡ key
        → has_flag slot ≡ true
        → SameOr
            (open_slot d cipher (worker_codecs codecs vv_decompress) slot key)
            (open_slot d cipher (worker_codecs codecs codecs.vaptvupt) slot key)
    open_or none same flag = inl refl
    open_or (some k) same flag = elim (Bool-cases k.active) [
      | inl on ↦ sealed_or k same on flag
      | inr off ↦ inl (simp off refl)
    ]

    plain_opened :
        has_flag slot ≡ false
        → is_active kr ≡ false
        → open_payload cipher (block_of slot) kr slot.block_seq ≡ ok slot.input
    unfolding open_payload
    plain_opened plain off = rw (off, plain) refl

    worker_or :
        SameOr
          (worker_decompress d cipher (worker_codecs codecs vv_decompress) slot kr)
          (worker_decompress d cipher (worker_codecs codecs codecs.vaptvupt) slot kr)
    unfolding worker_decompress
    worker_or = elim (Bool-cases (ltb max_block_sz slot.uncomp_size)) [
      | inl huge ↦ inl (rw huge refl)
      | inr fits ↦ elim (Bool-cases (has_flag slot)) [
        | inl flag ↦ elim (Bool-cases (is_active kr)) [
          | inl on ↦ rw (fits, flag, on) (open_or kr refl flag)
          | inr off ↦ rw (fits, flag, off) (open_or kr refl flag)
        ]
        | inr plain ↦ elim (Bool-cases (is_active kr)) [
          | inl on ↦ inl (rw (fits, plain, on) refl)
          | inr off ↦ rw (fits, off, plain) (decode_slot_or slot.input (plain_opened plain off))
        ]
      ]
    ]

-- A worker makes of a slot what decompress_block makes of the frame with the slot's fields, the same
-- bytes or the same error, with one exception: a VaptVupt block whose opened payload vv_decompress
-- refuses, where the worker answers ZUPT_ERR_CORRUPT whatever decompress_block does with
-- vvz_decompress. The payload is within decompress_block's limit, which the worker does not test,
-- and what vv_decompress accepts vvz_decompress decodes to the same.
pub worker_decompress-decompress_block :
    (d : Digests) (cipher : Cipher) (codecs : Codecs) (vv_decompress : List ℕ → ℕ → Option (List ℕ))
    (stricter : IsStricter codecs vv_decompress) (slot : Slot) (kr : Option Keyring)
    → length slot.input ≤ max_block_sz + 1024
    → (outcome (worker_decompress d cipher (worker_codecs codecs vv_decompress) slot kr)
        ≡ decompress_block d cipher codecs (block_of slot) kr slot.block_seq)
      ⊎ Refused d cipher codecs vv_decompress stricter slot kr
          (outcome (worker_decompress d cipher (worker_codecs codecs vv_decompress) slot kr))
worker_decompress-decompress_block d cipher codecs vv stricter slot kr small =
    let serial =
      worker_decompress_same d cipher codecs codecs.vaptvupt slot kr (λ vapt source room. refl)
        small in
    elim (worker_or d cipher codecs vv stricter slot kr) [
      | inl same ↦ inl (same ∙ serial)
      | inr refused ↦ inr refused
    ]
