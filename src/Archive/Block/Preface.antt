-- ===== src/Archive/Block/Preface.antt =====
-- The preface that a frame authenticates: writer and reader make the same 29 bytes, and these fix
-- every field of the frame but its payload.
use libvuptsdk.Common.{
  ℕ, ◌/◌, ◌%◌, ◌^◌, ◌≡◌, refl, ap, sym, ◌∙◌, arith, List, [], ◌∷◌, ◌++◌, drop, get_or,
}
use native.Mathlib.Nat.{mod-eq_of_lt}
use libvuptsdk.Wire.Fixed.{le16_put, le16_get, le64_put, le64_get, low_byte}
use libvuptsdk.Wire.Fixed.RoundTrip.{le16_get-le16_put, le64_get-le64_put, low_byte_lem}
use libvuptsdk.Archive.Block.{
  Block, IsFrame, shift_loop, serialize_preface_aad, serialize_preface_aad_scalars,
}

shift_loop-le64_put : (v : ℕ) → shift_loop 8 0 v ≡ le64_put v
unfolding shift_loop le64_put
shift_loop-le64_put v =
    λ i. byte0 i ∷ byte1 i ∷ byte2 i ∷ byte3 i ∷ byte4 i ∷ byte5 i ∷ byte6 i ∷ byte7 i ∷ []
  where
    byte0 : v / 1 % 256 ≡ low_byte v
    byte0 = omega (arith, low_byte_lem v)

    byte1 : v / 2 ^ 8 % 256 ≡ low_byte (v / 2 ^ 8)
    byte1 = omega (arith, low_byte_lem (v / 2 ^ 8))

    byte2 : v / 2 ^ 16 % 256 ≡ low_byte (v / 2 ^ 8 / 2 ^ 8)
    byte2 = omega (arith, low_byte_lem (v / 2 ^ 8 / 2 ^ 8))

    byte3 : v / 2 ^ 24 % 256 ≡ low_byte (v / 2 ^ 8 / 2 ^ 8 / 2 ^ 8)
    byte3 = omega (arith, low_byte_lem (v / 2 ^ 8 / 2 ^ 8 / 2 ^ 8))

    byte4 : v / 2 ^ 32 % 256 ≡ low_byte (v / 2 ^ 8 / 2 ^ 8 / 2 ^ 8 / 2 ^ 8)
    byte4 = omega (arith, low_byte_lem (v / 2 ^ 8 / 2 ^ 8 / 2 ^ 8 / 2 ^ 8))

    byte5 : v / 2 ^ 40 % 256 ≡ low_byte (v / 2 ^ 8 / 2 ^ 8 / 2 ^ 8 / 2 ^ 8 / 2 ^ 8)
    byte5 = omega (arith, low_byte_lem (v / 2 ^ 8 / 2 ^ 8 / 2 ^ 8 / 2 ^ 8 / 2 ^ 8))

    byte6 : v / 2 ^ 48 % 256 ≡ low_byte (v / 2 ^ 8 / 2 ^ 8 / 2 ^ 8 / 2 ^ 8 / 2 ^ 8 / 2 ^ 8)
    byte6 = omega (arith, low_byte_lem (v / 2 ^ 8 / 2 ^ 8 / 2 ^ 8 / 2 ^ 8 / 2 ^ 8 / 2 ^ 8))

    byte7 : v / 2 ^ 56 % 256 ≡ low_byte (v / 2 ^ 8 / 2 ^ 8 / 2 ^ 8 / 2 ^ 8 / 2 ^ 8 / 2 ^ 8 / 2 ^ 8)
    byte7 = omega (arith, low_byte_lem (v / 2 ^ 8 / 2 ^ 8 / 2 ^ 8 / 2 ^ 8 / 2 ^ 8 / 2 ^ 8 / 2 ^ 8))

-- The preface as fields that the reading functions know.
fields : Block → List ℕ
fields b =
    b.block_type
    ∷ (le16_put b.codec_id
        ++ (le16_put b.block_flags
            ++ (le64_put b.uncompressed_size
                ++ (le64_put b.compressed_size ++ le64_put b.checksum))))

preface-fields : (b : Block) → IsFrame b → serialize_preface_aad b ≡ fields b
unfolding serialize_preface_aad fields le16_put
preface-fields b v =
    rw
      (
        mod-eq_of_lt v.type_range,
        shift_loop-le64_put b.uncompressed_size,
        shift_loop-le64_put b.compressed_size,
        shift_loop-le64_put b.checksum,
      )
      refl

-- What the fields fix.
pub record SameFrame (b b' : Block) : Type 0 where
  pub block_type : b.block_type ≡ b'.block_type
  pub codec_id : b.codec_id ≡ b'.codec_id
  pub block_flags : b.block_flags ≡ b'.block_flags
  pub uncompressed_size : b.uncompressed_size ≡ b'.uncompressed_size
  pub compressed_size : b.compressed_size ≡ b'.compressed_size
  pub checksum : b.checksum ≡ b'.checksum

same_fields : (b b' : Block) → IsFrame b → IsFrame b' → fields b ≡ fields b' → SameFrame b b'
unfolding fields le16_put le64_put le64_get
same_fields b b' v v' e = record {
  block_type = ap (λ (f : List ℕ). get_or f 0 0) e;
  codec_id = codec;
  block_flags = flags;
  uncompressed_size = uncompressed;
  compressed_size = compressed;
  checksum = sum;
}
  where
    codec : b.codec_id ≡ b'.codec_id
    codec =
        sym (le16_get-le16_put b.codec_id _ v.codec_range)
        ∙ ap (λ (f : List ℕ). le16_get (drop 1 f)) e
        ∙ le16_get-le16_put b'.codec_id _ v'.codec_range

    flags : b.block_flags ≡ b'.block_flags
    flags =
        sym (le16_get-le16_put b.block_flags _ v.flags_range)
        ∙ ap (λ (f : List ℕ). le16_get (drop 3 f)) e
        ∙ le16_get-le16_put b'.block_flags _ v'.flags_range

    uncompressed : b.uncompressed_size ≡ b'.uncompressed_size
    uncompressed =
        sym (
          le64_get-le64_put b.uncompressed_size (le64_put b.compressed_size ++ le64_put b.checksum)
            (omega arith))
        ∙ ap (λ (f : List ℕ). le64_get (drop 5 f)) e
        ∙ le64_get-le64_put b'.uncompressed_size
            (le64_put b'.compressed_size ++ le64_put b'.checksum) (omega arith)

    compressed : b.compressed_size ≡ b'.compressed_size
    compressed =
        sym (le64_get-le64_put b.compressed_size (le64_put b.checksum) (omega arith))
        ∙ ap (λ (f : List ℕ). le64_get (drop 13 f)) e
        ∙ le64_get-le64_put b'.compressed_size (le64_put b'.checksum) (omega arith)

    sum : b.checksum ≡ b'.checksum
    sum =
        sym (le64_get-le64_put b.checksum [] v.checksum_range)
        ∙ ap (λ (f : List ℕ). le64_get (drop 21 f)) e
        ∙ le64_get-le64_put b'.checksum [] v'.checksum_range

-- For every frame within the limits, the reader's preface is the one that the writer makes from the
-- same scalars.
pub preface-agrees :
    (b : Block)
    → IsFrame b
    → serialize_preface_aad b
      ≡ serialize_preface_aad_scalars b.block_type b.codec_id b.block_flags b.uncompressed_size
          b.compressed_size b.checksum
unfolding serialize_preface_aad serialize_preface_aad_scalars
preface-agrees b v = rw (mod-eq_of_lt v.type_range) refl

-- Two frames with the same preface agree in every field but the payload.
pub preface-injective :
    (b b' : Block)
    → IsFrame b
    → IsFrame b'
    → serialize_preface_aad b ≡ serialize_preface_aad b'
    → SameFrame b b'
preface-injective b b' v v' e =
    same_fields b b' v v' (sym (preface-fields b v) ∙ e ∙ preface-fields b' v')
