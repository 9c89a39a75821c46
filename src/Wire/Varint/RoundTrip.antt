-- ===== src/Wire/Varint/RoundTrip.antt =====
-- A varint that was written is read back, from memory and from a stream.
use native.Mathlib.Nat.{pow-suc}
use native.Mathlib.Decide.{dec_lt}
use libvuptsdk.Common.{
  ℕ, zero, suc, ◌+◌, ◌*◌, ◌/◌, ◌%◌, ◌^◌, ◌≤◌, ◌<◌, ◌≡◌, ◌∙◌, arith, List, ◌++◌, Option, some,
  length, Acc, lt_wf,
}
use libvuptsdk.Wire.Varint.{encode_loop, encode_varint, decode_loop, decode_varint}
use libvuptsdk.Wire.Varint.Room.{
  Room, first-Room, next-Room, power_seven, value_fits, group_room, split_group,
}
use libvuptsdk.Wire.Varint.Groups.{
  encode_loop-last, encode_loop-more, decode_loop-last, decode_loop-more,
}

count_and_value :
    {a b m n : ℕ} → a ≡ b → m ≡ n → ◌≡◌ {A = Option (ℕ × ℕ)} (some (a, m)) (some (b, n))
count_and_value p q = cc

-- The number that a loop is still to write or read, at a place with room for it.
module _ (v acc n shift : ℕ) (w : Acc ◌<◌ v) (rest : List ℕ) where
  abbrev Decodes : Type 0
  Decodes =
      decode_loop (encode_loop v w ++ rest) n shift acc
      ≡ some (acc + v * 2 ^ shift, n + length (encode_loop v w))

  decodes_last :
      (j : ℕ)
      → Room n shift j
      → v < 2 * 128 ^ j
      → v < 128
      → (n ≡ 9 → v < 2)
      → (0 < n → 0 < v)
      → acc < 2 ^ shift
      → Decodes
  decodes_last j r h small tenth pos ha = rw (encode_loop-last v w small) (
      decode_loop-last v acc n shift rest small (omega (arith, r.index)) tenth pos ha
        (value_fits v n shift j r h))

  decodes_more :
      (j : ℕ)
      → Room n shift (suc j)
      → v < 2 * 128 ^ suc j
      → 128 ≤ v
      → acc < 2 ^ shift
      → ((w' : Acc ◌<◌ (v / 128))
          → acc + v % 128 * 2 ^ shift < 2 ^ (shift + 7)
          → decode_loop
              (encode_loop (v / 128) w' ++ rest)
              (n + 1)
              (shift + 7)
              (acc + v % 128 * 2 ^ shift)
            ≡ some (
              acc + v % 128 * 2 ^ shift + v / 128 * 2 ^ (shift + 7),
              n + 1 + length (encode_loop (v / 128) w'),
            ))
      → Decodes
  decodes_more j r h big ha ih =
      let (w', e) = encode_loop-more v w big in
      let fits : v % 128 * 2 ^ shift < 2 ^ 64 =
        value_fits (v % 128) n shift (suc j) r (omega arith) in
      let room : acc + v % 128 * 2 ^ shift < 2 ^ (shift + 7) =
        omega (arith, power_seven shift, group_room acc (v % 128) (2 ^ shift) ha (omega arith)) in
      rw e (
        decode_loop-more (v % 128) acc n shift (encode_loop (v / 128) w' ++ rest) (omega arith)
          (omega (arith, r.index)) ha fits
        ∙ ih w' room
        ∙ count_and_value (omega (arith, split_group v shift)) (omega arith))

decode_loop-encode_loop :
    (j v acc n shift : ℕ) (w : Acc ◌<◌ v) (rest : List ℕ)
    → Room n shift j
    → v < 2 * 128 ^ j
    → (0 < n → 0 < v)
    → acc < 2 ^ shift
    → Decodes v acc n shift w rest
decode_loop-encode_loop zero v acc n shift w rest r h pos ha =
    decodes_last v acc n shift w rest 0 r h (omega arith) (λ e. h) pos ha
decode_loop-encode_loop (suc j) v acc n shift w rest r h pos ha = elim (dec_lt v 128) [
  | yes last ↦
      decodes_last v acc n shift w rest (suc j) r h last (λ e. absurd (omega (arith, r.index))) pos
        ha
  | no more ↦ decodes_more v acc n shift w rest j r h (omega arith) ha λ w' room.
      decode_loop-encode_loop j (v / 128) (acc + v % 128 * 2 ^ shift) (n + 1) (shift + 7) w' rest
        (next-Room n shift j r) (omega (arith, pow-suc 128 j)) (λ p. omega arith) room
]

-- Decoding the bytes that zupt_encode_varint wrote gives the number back, whatever bytes follow,
-- and the count is the number of bytes written.
pub decode_varint-encode_varint :
    (v : ℕ) (rest : List ℕ)
    → v < 2 ^ 64
    → decode_varint (encode_varint v ++ rest) ≡ some (v, length (encode_varint v))
unfolding decode_varint encode_varint
decode_varint-encode_varint v rest h =
    decode_loop-encode_loop 9 v 0 0 0 (lt_wf.apply v) rest first-Room h (λ p. absurd (omega arith))
      (omega arith)
    ∙ count_and_value (omega arith) (omega arith)
