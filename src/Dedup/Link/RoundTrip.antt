-- ===== src/Dedup/Link/RoundTrip.antt =====
-- A reference that was written is read back, from the bytes in the file, src/zupt_dedup.c.
use libvuptsdk.Common.{
  ℕ, ◌^◌, ◌<◌, ◌≤◌, ◌≡◌, ◌∙◌, sym, refl, ap, arith, inl, inr, List, [], ◌++◌, true, false, Option,
  some, none, if◌then◌else◌, length, drop-append, length-append, after_some, some-injective,
  Bool-cases, append-nil,
}
use libvuptsdk.Wire.Fixed.{le64_put, le64_get}
use libvuptsdk.Wire.Fixed.RoundTrip.{le64_get-le64_put, length-le64_put}
use libvuptsdk.Archive.Cipher.{Cipher}
use libvuptsdk.Archive.Error.{ok}
use libvuptsdk.Archive.Trailer.{Keyring, is_active}
use libvuptsdk.Archive.Block.{Block, IsFrame, write_frame, read_block, max_block_sz}
use libvuptsdk.Archive.Block.Frame.{read_block-write_frame}
use libvuptsdk.Dedup.Link.{
  reference_frame, frame_of, sealed_frame, dedup_write_ref_secure, dedup_read_ref, opened,
  write_preface,
}

-- The arguments that the C types and the block limit allow.
pub record IsLink (ref_offset size checksum ref_seq : ℕ) : Type 0 where
  pub offset_range : ref_offset < 2 ^ 64
  pub size_limit : size ≤ max_block_sz
  pub checksum_range : checksum < 2 ^ 64
  pub seq_range : ref_seq < 2 ^ 64

module _ (ref_offset size checksum ref_seq : ℕ)
    (valid : IsLink ref_offset size checksum ref_seq) where
  reference_frame-IsFrame :
      (flags : ℕ) (payload : List ℕ)
      → flags < 2
      → length payload ≤ 64
      → IsFrame (reference_frame flags size checksum payload)
  reference_frame-IsFrame flags payload low short = record {
    type_range = omega arith;
    codec_range = omega arith;
    flags_range = omega arith;
    checksum_range = valid.checksum_range;
    uncompressed_limit = valid.size_limit;
    compressed_limit = omega arith;
    payload_size = refl;
  }

  -- What the reader makes of the frame.
  abbrev Outcome : Cipher → ℕ → Option Keyring → Block → Type 0
  Outcome cipher seq kr b =
      IsFrame b
      × (dedup_read_ref cipher b kr (is_active kr) seq
          ≡ ok (ref_offset, if is_active kr then ref_seq else 0))

  plain-Outcome :
      (cipher : Cipher) (seq : ℕ) (kr : Option Keyring)
      → is_active kr ≡ false
      → Outcome cipher seq kr (reference_frame 0 size checksum (le64_put ref_offset))
  unfolding dedup_read_ref
  plain-Outcome cipher seq kr off =
      let eight : length (le64_put ref_offset) ≡ 8 = length-le64_put ref_offset in
      (
        reference_frame-IsFrame 0 (le64_put ref_offset) (omega arith) (omega arith),
        rw (off, eight)
            (ap (λ n. ok (n, 0))
              (ap le64_get (sym (append-nil (le64_put ref_offset)))
                ∙ le64_get-le64_put ref_offset [] valid.offset_range)),
      )

  opened-pair :
      (cipher : Cipher)
      → opened cipher (some (le64_put ref_offset ++ le64_put ref_seq)) ≡ ok (ref_offset, ref_seq)
  opened-pair cipher =
      let sixteen : length (le64_put ref_offset ++ le64_put ref_seq) ≡ 16 = omega (
        arith,
        length-append (le64_put ref_offset) (le64_put ref_seq),
        length-le64_put ref_offset,
        length-le64_put ref_seq,
      ) in
      let low = le64_get-le64_put ref_offset (le64_put ref_seq) valid.offset_range in
      let high =
        ap le64_get (sym (append-nil (le64_put ref_seq)))
        ∙ le64_get-le64_put ref_seq [] valid.seq_range in
      rw
        (
          sixteen,
          low,
          drop-append (le64_put ref_offset) (le64_put ref_seq) 8 (length-le64_put ref_offset),
          high,
        )
        refl

  sealed-Outcome :
      (cipher : Cipher) (seq : ℕ) (k : Keyring) (b : Block)
      → k.active ≡ true
      → sealed_frame cipher k ref_offset size checksum seq ref_seq ≡ some b
      → Outcome cipher seq (some k) b
  unfolding dedup_read_ref
  sealed-Outcome cipher seq k b on h =
      after_some
        (cipher.encrypt k (le64_put ref_offset ++ le64_put ref_seq) seq
          (write_preface cipher k size checksum))
        _ h
        (λ payload e same.
          let count : length payload ≡ 64 =
            cipher.encrypt_size k _ seq _ payload e
            ∙ omega (
              arith,
              length-append (le64_put ref_offset) (le64_put ref_seq),
              length-le64_put ref_offset,
              length-le64_put ref_seq,
            ) in
          rw (sym (some-injective same)) (
            reference_frame-IsFrame 1 payload (omega arith) (omega arith),
            simp (on, count)
                (ap (opened cipher) (cipher.decrypt-encrypt k _ seq _ payload e)
                  ∙ opened-pair cipher),
          ))

  frame-Outcome :
      (cipher : Cipher) (seq : ℕ) (kr : Option Keyring) (b : Block)
      → frame_of cipher kr ref_offset size checksum seq ref_seq ≡ some b
      → Outcome cipher seq kr b
  frame-Outcome cipher seq none b h =
      rw (sym (some-injective h)) (plain-Outcome cipher seq none refl)
  frame-Outcome cipher seq (some k) b h = elim (Bool-cases k.active) [
    | inl on ↦ sealed-Outcome cipher seq k b on (simp on at h)
    | inr off ↦ rw (sym (some-injective (simp off at h))) (plain-Outcome cipher seq (some k) off)
  ]

-- The bytes of a reference that was written begin a stream from which read_block takes one block,
-- and that block gives the offset back, and with a keyring in use the sequence number, which is 0
-- otherwise; authentication is required exactly with a keyring in use.
pub read_ref-write_ref :
    (cipher : Cipher) (ref_offset size checksum seq ref_seq : ℕ) (kr : Option Keyring)
    (bytes rest : List ℕ)
    → IsLink ref_offset size checksum ref_seq
    → dedup_write_ref_secure cipher ref_offset size checksum seq ref_seq kr ≡ some bytes
    → (b : Block) × (read_block (bytes ++ rest) ≡ ok (b, rest))
      × (dedup_read_ref cipher b kr (is_active kr) seq
          ≡ ok (ref_offset, if is_active kr then ref_seq else 0))
unfolding dedup_write_ref_secure
read_ref-write_ref cipher ref_offset size checksum seq ref_seq kr bytes rest valid h =
    after_some (frame_of cipher kr ref_offset size checksum seq ref_seq) _ h (λ b e same.
      let (frame, answer) =
        frame-Outcome ref_offset size checksum ref_seq valid cipher seq kr b e in
      let whole : write_frame b ≡ bytes = some-injective same in
      (b, rw (sym whole) (read_block-write_frame b rest frame), answer))
