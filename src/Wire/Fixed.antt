-- ===== src/Wire/Fixed.antt =====
-- zupt_le16_put, zupt_le32_put, zupt_le64_put and the matching `get` functions of include/zupt.h.
-- What `put` writes is the list of bytes from `p` on; `get` reads from the front of a list.
pub mod RoundTrip
use libvuptsdk.Common.{
  ℕ, zero, suc, ◌*◌, ◌/◌, ◌%◌, ◌^◌, List, [], ◌∷◌, Option, some, none, ◌>>=◌, bit_or, bit_and,
  get_or, take,
}
use libvuptsdk.Wire.Stream.{fread}

-- `(uint8_t)(v & 0xFF)`
abbrev pub low_byte : ℕ → ℕ
low_byte v = bit_and v 0xff % 256

unfoldable pub le16_put : ℕ → List ℕ
le16_put v = low_byte v ∷ low_byte (v / 2 ^ 8) ∷ []

unfoldable pub le32_put : ℕ → List ℕ
le32_put v = low_byte v ∷ low_byte (v / 2 ^ 8) ∷ low_byte (v / 2 ^ 16) ∷ low_byte (v / 2 ^ 24) ∷ []

-- The loop with `left` rounds to go.
put_loop : ℕ → ℕ → List ℕ
put_loop zero v = []
put_loop (suc left) v = low_byte v ∷ put_loop left (v / 2 ^ 8)

unfoldable pub le64_put : ℕ → List ℕ
unfolding put_loop
le64_put v = put_loop 8 v

unfoldable pub le16_get : List ℕ → ℕ
le16_get p = bit_or (get_or p 0 0) (get_or p 1 0 * 2 ^ 8) % 2 ^ 16

unfoldable pub le32_get : List ℕ → ℕ
le32_get p =
    bit_or (bit_or (bit_or (get_or p 0 0) (get_or p 1 0 * 2 ^ 8)) (get_or p 2 0 * 2 ^ 16))
      (get_or p 3 0 * 2 ^ 24 % 2 ^ 32)

-- The loop runs from the last byte down to the first.
get_loop : List ℕ → ℕ
get_loop [] = 0
get_loop (b ∷ bs) = bit_or (get_loop bs * 2 ^ 8 % 2 ^ 64) b

unfoldable pub le64_get : List ℕ → ℕ
unfolding get_loop
le64_get p = get_loop (take 8 p)

-- r16le and r64le of src/zupt_format.c; `none` is their -1.
unfoldable pub r16le : List ℕ → Option (ℕ × List ℕ)
r16le f = do (b, rest) ← fread 2 f; some (le16_get b, rest)

unfoldable pub r64le : List ℕ → Option (ℕ × List ℕ)
r64le f = do (b, rest) ← fread 8 f; some (le64_get b, rest)
