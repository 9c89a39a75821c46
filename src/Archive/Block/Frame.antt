-- ===== src/Archive/Block/Frame.antt =====
-- A frame that was written is read back, and read_block accepts no other bytes.
use mathlib.Core.Path.{subst}
use libvuptsdk.Common.{
  ℕ, ◌+◌, ◌<◌, ◌≤◌, ◌≡◌, refl, sym, arith, List, [], ◌∷◌, ◌++◌, some, length, append_assoc, All,
  All-append_right, IsByte,
}
use libvuptsdk.Wire.Stream.{fread, fread-append, fread-split, length-fread}
use libvuptsdk.Wire.Fixed.{le16_put, le64_put, r16le, r64le}
use libvuptsdk.Wire.Fixed.RoundTrip.{r16le-le16_put, r64le-le64_put}
use libvuptsdk.Wire.Varint.{encode_varint, read_varint}
use libvuptsdk.Wire.Read.{Begins, r16le-written, r64le-written, read_varint-written}
use libvuptsdk.Wire.Varint.Canonical.{read_varint-encode_varint}
use libvuptsdk.Archive.Error.{ok, io, after_ok, after_read}
use libvuptsdk.Archive.Block.{
  Block, max_block_sz, IsFrame, write_frame, read_start, read_payload, read_block,
}

-- The parts of a frame with the rest of the file behind them.
abbrev parts : Block → List ℕ → List ℕ
parts b rest =
    le16_put b.codec_id
    ++ (le16_put b.block_flags
        ++ (encode_varint b.uncompressed_size
            ++ (encode_varint b.compressed_size ++ (le64_put b.checksum ++ (b.payload ++ rest)))))

write_frame-parts :
    (b : Block) (rest : List ℕ) → write_frame b ++ rest ≡ 0xbb ∷ 0x01 ∷ b.block_type ∷ parts b rest
unfolding write_frame
write_frame-parts b rest = simp append_assoc

read_start-frame : (t : ℕ) (rest : List ℕ) → read_start (0xbb ∷ 0x01 ∷ t ∷ rest) ≡ ok (t, rest)
unfolding read_start
read_start-frame t rest =
    rw (fread-append 2 (0xbb ∷ 0x01 ∷ []) (t ∷ rest) refl, fread-append 1 (t ∷ []) rest refl) refl

read_payload-frame :
    (b : Block) (rest : List ℕ)
    → IsFrame b
    → read_payload b.uncompressed_size b.compressed_size (b.payload ++ rest) ≡ ok (b.payload, rest)
unfolding read_payload
read_payload-frame b rest v = ground (
  arith,
  v.compressed_limit,
  v.uncompressed_limit,
  fread-append b.compressed_size b.payload rest v.payload_size,
)

-- read_block reads back the frame that was written, whatever follows it in the file.
pub read_block-write_frame :
    (b : Block) (rest : List ℕ) → IsFrame b → read_block (write_frame b ++ rest) ≡ ok (b, rest)
unfolding read_block
read_block-write_frame b rest v =
    rw
      (
        write_frame-parts b rest,
        read_start-frame b.block_type (parts b rest),
        r16le-le16_put b.codec_id _ v.codec_range,
        r16le-le16_put b.block_flags _ v.flags_range,
        read_varint-encode_varint b.uncompressed_size _ (omega (arith, v.uncompressed_limit)),
        read_varint-encode_varint b.compressed_size _ (omega (arith, v.compressed_limit)),
        r64le-le64_put b.checksum _ v.checksum_range,
        read_payload-frame b rest v,
      )
      refl

read_start-written :
    (f rest : List ℕ) (t : ℕ)
    → All IsByte f
    → read_start f ≡ ok (t, rest)
    → Begins f (0xbb ∷ 0x01 ∷ t ∷ []) rest × (t < 256)
unfolding read_start fread
read_start-written [] rest t p e = cc
read_start-written (a ∷ []) rest t p e = cc
read_start-written (a ∷ b ∷ []) rest t p e = ground arith
read_start-written (a ∷ b ∷ c ∷ f) rest t (ha, (hb, (hc, p))) e =
    let first : a ≡ 0xbb = ground arith in
    let second : b ≡ 0x01 = ground arith in
    let third : c ≡ t = ground arith in
    let last : f ≡ rest = ground arith in ((cc, rw last at p), rw third at hc)

read_payload-written :
    (u c : ℕ) (f payload rest : List ℕ)
    → All IsByte f
    → read_payload u c f ≡ ok (payload, rest)
    → Begins f payload rest × (u ≤ max_block_sz) × (c ≤ max_block_sz + 4096) × (length payload ≡ c)
unfolding read_payload
read_payload-written u c f payload rest p e =
    let read : fread c f ≡ some (payload, rest) = ground arith in
    let split = fread-split c f payload rest read in
    (
      (split, All-append_right IsByte payload rest (rw split at p)),
      ground arith,
      ground arith,
      length-fread c f payload rest read,
    )

-- The parts that were read make up the frame.
join_parts :
    (b : Block) (f f1 f2 f3 f4 f5 f6 rest : List ℕ)
    → f ≡ (0xbb ∷ 0x01 ∷ b.block_type ∷ []) ++ f1
    → f1 ≡ le16_put b.codec_id ++ f2
    → f2 ≡ le16_put b.block_flags ++ f3
    → f3 ≡ encode_varint b.uncompressed_size ++ f4
    → f4 ≡ encode_varint b.compressed_size ++ f5
    → f5 ≡ le64_put b.checksum ++ f6
    → f6 ≡ b.payload ++ rest
    → f ≡ write_frame b ++ rest
join_parts b f f1 f2 f3 f4 f5 f6 rest e0 e1 e2 e3 e4 e5 e6 =
    rw (e0, e1, e2, e3, e4, e5, e6) (sym (write_frame-parts b rest))

same_of_ok : (x y : Block × List ℕ) → ok x ≡ ok y → x ≡ y
same_of_ok x y e = cc

-- Whatever read_block accepts is the frame that a writer makes of the block that it returns: the
-- magic, canonical sizes within the limits, a payload of the announced length, and nothing else.
pub read_block-canonical :
    (f rest : List ℕ) (b : Block)
    → All IsByte f
    → read_block f ≡ ok (b, rest)
    → (f ≡ write_frame b ++ rest) × IsFrame b
unfolding read_block
read_block-canonical f rest b p e = after_ok (read_start f) _ e λ s e1 k1.
    let ((w1, p1), r1) = read_start-written f s.1 s.0 p e1 in
    after_read (r16le s.1) io _ k1 λ codec e2 k2.
      let ((w2, p2), r2) = r16le-written s.1 codec.1 codec.0 p1 e2 in
      after_read (r16le codec.1) io _ k2 λ flags e3 k3.
        let ((w3, p3), r3) = r16le-written codec.1 flags.1 flags.0 p2 e3 in
        after_read (read_varint flags.1) io _ k3 λ u e4 k4.
          let ((w4, p4), r4) = read_varint-written flags.1 u.2 u.0 u.1 p3 e4 in
          after_read (read_varint u.2) io _ k4 λ c e5 k5.
            let ((w5, p5), r5) = read_varint-written u.2 c.2 c.0 c.1 p4 e5 in
            after_read (r64le c.2) io _ k5 λ sum e6 k6.
              let ((w6, p6), r6) = r64le-written c.2 sum.1 sum.0 p5 e6 in
              after_ok (read_payload u.0 c.0 sum.1) _ k6 λ pay e7 k7.
                let ((w7, p7), r7, r8, r9) = read_payload-written u.0 c.0 sum.1 pay.0 pay.1 p6 e7 in
                let read : Block × List ℕ = (
                  record {
                    block_type = s.0;
                    codec_id = codec.0;
                    block_flags = flags.0;
                    uncompressed_size = u.0;
                    compressed_size = c.0;
                    checksum = sum.0;
                    payload = pay.0;
                  },
                  pay.1,
                ) in
                subst (λ (r : Block × List ℕ). (f ≡ write_frame r.0 ++ r.1) × IsFrame r.0)
                  (same_of_ok read (b, rest) k7)
                  (
                    join_parts read.0 f s.1 codec.1 flags.1 u.2 c.2 sum.1 pay.1 w1 w2 w3 w4 w5 w6
                        w7,
                    record {
                      type_range = r1;
                      codec_range = r2;
                      flags_range = r3;
                      checksum_range = r6;
                      uncompressed_limit = r7;
                      compressed_limit = r8;
                      payload_size = r9;
                    },
                  )
