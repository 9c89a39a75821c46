-- ===== src/Wire/Varint.antt =====
-- zupt_encode_varint, zupt_decode_varint and zupt_read_varint of src/zupt_format.c.
-- The pointers are not null. `none` is the result -1, and `some (v, n)` stores v and returns n.
pub mod Groups
mod Room
pub mod RoundTrip
pub mod Canonical
use Prim.Native.Nat.{compare}
use mathlib.Core.Logic.{dite}
use native.Mathlib.Decide.{dec_lt}
use libvuptsdk.Common.{
  ℕ, zero, suc, ◌+◌, ◌*◌, ◌/◌, ◌%◌, ◌^◌, ◌<◌, List, [], ◌∷◌, Option, some, none, ◌>>=◌, ◌&&◌, not,
  bit_or, bit_and, length, ltb, ◌==◌, if◌then◌else◌, Acc, lt_wf, arith,
}

pub shift_shrinks : (v : ℕ) → 0 < v / 128 → v / 128 < v
shift_shrinks v h = omega arith

-- The do-while loop: it goes on while the shifted number is not 0.
pub encode_loop : (v : ℕ) → Acc ◌<◌ v → List ℕ
encode_loop v (Acc.intro _ smaller) =
    let x = bit_and v 0x7f % 256 in
    dite (dec_lt 0 (v / 2 ^ 7))
      (λ more. bit_or x 0x80 ∷ encode_loop (v / 2 ^ 7) (smaller _ (shift_shrinks v more)))
      (λ _. x ∷ [])

-- The bytes b[0..n); the count n that the function returns is their number.
unfoldable pub encode_varint : ℕ → List ℕ
encode_varint v = encode_loop v (lt_wf.apply v)

-- The loop at index `n`, over the bytes from there on.
pub decode_loop : List ℕ → ℕ → ℕ → ℕ → Option (ℕ × ℕ)
decode_loop [] n shift v = none
decode_loop (byte ∷ bytes) n shift v =
    let payload = bit_and byte 0x7f % 256 in
    let v' = bit_or v (payload * 2 ^ shift % 2 ^ 64) in
    let rest = decode_loop bytes (n + 1) (shift + 7) v' in
    if ltb n 10
    then if n == 9 && not (bit_and byte 0xfe == 0)
      then none
      else if bit_and byte 0x80 == 0
      then if ltb 0 n && payload == 0 then none else some (v', n + 1)
      else rest
    else none

unfoldable pub decode_varint : List ℕ → Option (ℕ × ℕ)
unfolding decode_loop
decode_varint b = decode_loop b 0 0 0

-- The same loop over a stream, byte by byte: `rounds` are left, and the stream is what fgetc has
-- not returned. The result is the value, the count and the stream behind the number.
pub read_loop : ℕ → List ℕ → ℕ → ℕ → ℕ → Option (ℕ × ℕ × List ℕ)
read_loop zero f i shift v = none
read_loop (suc rounds) [] i shift v = none
read_loop (suc rounds) (byte ∷ f) i shift v =
    let payload = bit_and byte 0x7f % 256 in
    let v' = bit_or v (payload * 2 ^ shift % 2 ^ 64) in
    let rest = read_loop rounds f (i + 1) (shift + 7) v' in
    if i == 9 && not (bit_and byte 0xfe == 0)
    then none
    else if bit_and byte 0x80 == 0
    then if ltb 0 i && payload == 0 then none else some (v', i + 1, f)
    else rest

unfoldable pub read_varint : List ℕ → Option (ℕ × ℕ × List ℕ)
unfolding read_loop
read_varint f = read_loop 10 f 0 0 0
