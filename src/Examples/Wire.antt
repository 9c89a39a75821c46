-- ===== src/Examples/Wire.antt =====
-- Wire formats and byte comparison, src/zupt_format.c and src/zupt_ct.c.
use libvuptsdk.Common.{
  ℕ, ◌^◌, ◌<◌, ◌≤◌, ◌≡◌, ◌↔◌, refl, arith, List, [], ◌∷◌, ◌++◌, some, none, length, take,
}
use libvuptsdk.Compare.{ct_memeq}
use libvuptsdk.Compare.Exact.{ct_memeq-exact}
use libvuptsdk.Wire.Varint.{encode_varint, decode_varint, read_varint}
use libvuptsdk.Wire.Varint.RoundTrip.{decode_varint-encode_varint}
use libvuptsdk.Wire.Varint.Canonical.{
  decode_varint-canonical, read_varint-decode_varint, read_varint-encode_varint, behind,
}

abbrev three_hundred : List ℕ
three_hundred = 0xac ∷ 0x02 ∷ []

decodes_three_hundred : decode_varint three_hundred ≡ some (300, 2)
unfolding decode_varint
decodes_three_hundred = refl

rejects_overlong : decode_varint (0x80 ∷ 0x00 ∷ []) ≡ none
unfolding decode_varint
rejects_overlong = refl

rejects_overflow :
    decode_varint (0xff ∷ 0xff ∷ 0xff ∷ 0xff ∷ 0xff ∷ 0xff ∷ 0xff ∷ 0xff ∷ 0xff ∷ 0x02 ∷ []) ≡ none
unfolding decode_varint
rejects_overflow = refl

decode_varint-encode_varint_example :
    decode_varint (encode_varint 300 ++ (7 ∷ [])) ≡ some (300, length (encode_varint 300))
decode_varint-encode_varint_example = decode_varint-encode_varint 300 (7 ∷ []) (omega arith)

decode_varint-canonical_example :
    (300 < 2 ^ 64) × (0 < 2) × (2 ≤ 10) × (take 2 three_hundred ≡ encode_varint 300)
decode_varint-canonical_example =
    decode_varint-canonical three_hundred 300 2 (omega arith) decodes_three_hundred

read_varint-decode_varint_example :
    read_varint three_hundred ≡ behind three_hundred 0 (decode_varint three_hundred)
read_varint-decode_varint_example = read_varint-decode_varint three_hundred

read_varint-encode_varint_example :
    read_varint (encode_varint 300 ++ (7 ∷ [])) ≡ some (300, length (encode_varint 300), 7 ∷ [])
read_varint-encode_varint_example = read_varint-encode_varint 300 (7 ∷ []) (omega arith)

differs_last : ct_memeq three_hundred (0xac ∷ 0x03 ∷ []) 2 ≡ 0
unfolding ct_memeq
differs_last = refl

ct_memeq-exact_example :
    (ct_memeq three_hundred (0xac ∷ 0x03 ∷ []) 2 ≡ 1) ↔ (three_hundred ≡ 0xac ∷ 0x03 ∷ [])
ct_memeq-exact_example =
    ct_memeq-exact three_hundred (0xac ∷ 0x03 ∷ []) 2 refl refl (omega arith) (omega arith)
