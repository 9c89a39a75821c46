-- ===== src/Wire/Varint/Groups.antt =====
-- One round of the encoder and of the decoder, in plain arithmetic.
use mathlib.Core.Logic.{dif_pos}
use native.Mathlib.Nat.{mod-eq_of_lt}
use native.Mathlib.Bridge.{le_prop}
use native.Mathlib.Decide.{dec_lt}
use libvuptsdk.Common.{
  ℕ, ◌+◌, ◌*◌, ◌/◌, ◌%◌, ◌^◌, ◌≤◌, ◌<◌, ◌≡◌, arith, List, [], ◌∷◌, some, bit_or, bit_and, Acc,
}
use libvuptsdk.Common.Bits.{and_mask, and_shifted, or_shifted}
use libvuptsdk.Wire.Varint.{encode_loop, decode_loop, shift_shrinks}

pub payload_lem : (b : ℕ) → bit_and b 0x7f % 256 ≡ b % 128
payload_lem b = omega (arith, and_mask 7 b)

pub top_bit_lem : (b : ℕ) → bit_and b 0x80 ≡ b / 128 % 2 * 128
top_bit_lem b = omega (arith, and_shifted 7 b 1, and_mask 1 (b / 2 ^ 7))

pub high_bits_lem : (b : ℕ) → bit_and b 0xfe ≡ b / 2 % 128 * 2
high_bits_lem b = omega (arith, and_shifted 1 b 127, and_mask 7 (b / 2 ^ 1))

pub set_top_bit : (g : ℕ) → g < 128 → bit_or g 0x80 ≡ g + 128
set_top_bit g h = or_shifted 7 g 1 h

-- The encoder writes seven bits a byte, and marks every byte but the last.
pub encode_loop-last : (v : ℕ) (w : Acc ◌<◌ v) → v < 128 → encode_loop v w ≡ v ∷ []
unfolding encode_loop
encode_loop-last v (Acc.intro _ smaller) h = ground (arith, payload_lem v)

pub encode_loop-more :
    (v : ℕ) (w : Acc ◌<◌ v)
    → 128 ≤ v
    → (w' : Acc ◌<◌ (v / 128)) × (encode_loop v w ≡ (v % 128 + 128) ∷ encode_loop (v / 128) w')
unfolding encode_loop
encode_loop-more v (Acc.intro _ smaller) h = elim (dec_lt 0 (v / 2 ^ 7)) [
  | yes p ↦ (
    smaller (v / 2 ^ 7) (shift_shrinks v p),
    rw (dif_pos _ le_prop p, payload_lem v, set_top_bit (v % 128) (omega arith)),
  )
  | no p ↦ absurd (omega arith)
]

-- The accumulator has the bits below `shift`, and the payload goes on top.
pub add_payload :
    (acc g shift : ℕ)
    → acc < 2 ^ shift
    → g * 2 ^ shift < 2 ^ 64
    → bit_or acc (g * 2 ^ shift % 2 ^ 64) ≡ acc + g * 2 ^ shift
add_payload acc g shift h fits = rw (mod-eq_of_lt fits) (or_shifted shift acc g h)

pub decode_loop-last :
    (g acc n shift : ℕ) (rest : List ℕ)
    → g < 128
    → n < 10
    → (n ≡ 9 → g < 2)
    → (0 < n → 0 < g)
    → acc < 2 ^ shift
    → g * 2 ^ shift < 2 ^ 64
    → decode_loop (g ∷ rest) n shift acc ≡ some (acc + g * 2 ^ shift, n + 1)
unfolding decode_loop
decode_loop-last g acc n shift rest hg hn tenth shortest ha fits =
    ground (arith, payload_lem g, top_bit_lem g, high_bits_lem g, add_payload acc g shift)

pub decode_loop-more :
    (g acc n shift : ℕ) (rest : List ℕ)
    → g < 128
    → n < 9
    → acc < 2 ^ shift
    → g * 2 ^ shift < 2 ^ 64
    → decode_loop ((g + 128) ∷ rest) n shift acc
      ≡ decode_loop rest (n + 1) (shift + 7) (acc + g * 2 ^ shift)
unfolding decode_loop
decode_loop-more g acc n shift rest hg hn ha fits =
    let low : (g + 128) % 128 ≡ g = omega arith in
    ground (arith, payload_lem (g + 128), top_bit_lem (g + 128), add_payload acc g shift)
