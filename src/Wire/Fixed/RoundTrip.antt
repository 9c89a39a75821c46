-- ===== src/Wire/Fixed/RoundTrip.antt =====
-- The fixed fields read back what was written, and write back what was read.
use libvuptsdk.Common.{
  ℕ, zero, suc, ◌+◌, ◌*◌, ◌/◌, ◌%◌, ◌^◌, ◌≤◌, ◌<◌, ◌≡◌, refl, ◌∙◌, ap, ap₂, arith, List, [], ◌∷◌,
  ◌++◌, some, length, All, IsByte, take-append, take_all,
}
use libvuptsdk.Common.Bits.{and_mask, or_shifted, shifted_or}
use native.Mathlib.Nat.{pow-suc, one-le-pow}
use libvuptsdk.Wire.Stream.{fread-append}
use libvuptsdk.Wire.Fixed.{
  low_byte, le16_put, le32_put, put_loop, le64_put, le16_get, le32_get, get_loop, le64_get, r16le,
  r64le,
}

pub low_byte_lem : (v : ℕ) → low_byte v ≡ v % 256
low_byte_lem v = omega (arith, and_mask 8 v)

pub length-le64_put : (v : ℕ) → length (le64_put v) ≡ 8
unfolding le64_put
length-le64_put v = refl

put_loop-IsByte : (n v : ℕ) → All IsByte (put_loop n v)
unfolding put_loop
put_loop-IsByte zero v = tt
put_loop-IsByte (suc n) v = (omega arith, put_loop-IsByte n (v / 2 ^ 8))

pub le64_put-IsByte : (v : ℕ) → All IsByte (le64_put v)
unfolding le64_put
le64_put-IsByte v = put_loop-IsByte 8 v

get_loop-cons :
    (b : ℕ) (bs : List ℕ)
    → IsByte b
    → get_loop bs < 2 ^ 56
    → get_loop (b ∷ bs) ≡ get_loop bs * 256 + b
unfolding get_loop
get_loop-cons b bs hb hv =
    let fits : get_loop bs * 2 ^ 8 % 2 ^ 64 ≡ get_loop bs * 2 ^ 8 = omega arith in
    rw fits (shifted_or 8 b (get_loop bs) hb)

get_loop-put_loop : (n v : ℕ) → v < 256 ^ n → v < 2 ^ 64 → get_loop (put_loop n v) ≡ v
unfolding put_loop
get_loop-put_loop zero v h k = unfold get_loop in omega arith
get_loop-put_loop (suc n) v h k =
    let tail : get_loop (put_loop n (v / 2 ^ 8)) ≡ v / 2 ^ 8 =
      get_loop-put_loop n (v / 2 ^ 8) (omega (arith, pow-suc 256 n)) (omega arith) in
    get_loop-cons (low_byte v) (put_loop n (v / 2 ^ 8)) (omega arith) (omega (arith, tail))
    ∙ omega (arith, tail, low_byte_lem v)

small_of_room : (g p : ℕ) → 0 < p → (g + 1) * 256 * p ≤ 2 ^ 64 → g < 2 ^ 56
small_of_room g p pos room = grind arith

one_byte_more : (g b p : ℕ) → b < 256 → (g + 1) * 256 * p ≤ 2 ^ 64 → (g * 256 + b + 1) * p ≤ 2 ^ 64
one_byte_more g b p hb room = grind arith

one_room :
    (bs : List ℕ) (j : ℕ)
    → (get_loop bs + 1) * 256 ^ suc j ≤ 2 ^ 64
    → (get_loop bs + 1) * 256 * 256 ^ j ≤ 2 ^ 64
one_room bs j h = omega (arith, ap (λ (t : ℕ). (get_loop bs + 1) * t) (pow-suc 256 j))

-- A string of bytes leaves room in 64 bits for `j` more.
get_loop_room :
    (bs : List ℕ) (j : ℕ) → length bs + j ≡ 8 → All IsByte bs → (get_loop bs + 1) * 256 ^ j ≤ 2 ^ 64
get_loop_room [] j e p =
    let eight : j ≡ 8 = omega arith in rw eight (unfold get_loop in omega arith)
get_loop_room (b ∷ bs) j e (hb, p) =
    let more = one_room bs j (get_loop_room bs (suc j) (omega arith) p) in
    rw (get_loop-cons b bs hb (small_of_room _ _ (one-le-pow j 256 (omega arith)) more))
      (one_byte_more (get_loop bs) b (256 ^ j) hb more)

put_loop-get_loop :
    (n : ℕ) (bs : List ℕ) (j : ℕ)
    → length bs ≡ n
    → n + j ≡ 8
    → All IsByte bs
    → put_loop n (get_loop bs) ≡ bs
unfolding put_loop
put_loop-get_loop zero [] j e f p = refl
put_loop-get_loop (suc n) [] j e f p = absurd (omega arith)
put_loop-get_loop zero (b ∷ bs) j e f p = absurd (omega arith)
put_loop-get_loop (suc n) (b ∷ bs) j e f (hb, p) =
    let more = one_room bs j (get_loop_room bs (suc j) (omega arith) p) in
    let small : get_loop bs < 2 ^ 56 = small_of_room _ _ (one-le-pow j 256 (omega arith)) more in
    let whole : get_loop (b ∷ bs) ≡ get_loop bs * 256 + b = get_loop-cons b bs hb small in
    let low : low_byte (get_loop (b ∷ bs)) ≡ b =
      omega (arith, whole, low_byte_lem (get_loop (b ∷ bs))) in
    let high : get_loop (b ∷ bs) / 2 ^ 8 ≡ get_loop bs = omega (arith, whole) in
    ap₂ ◌∷◌ low (rw high (put_loop-get_loop n bs (suc j) (omega arith) (omega arith) p))

-- zupt_le64_get returns the uint64 that zupt_le64_put wrote, whatever bytes follow it.
pub le64_get-le64_put : (v : ℕ) (rest : List ℕ) → v < 2 ^ 64 → le64_get (le64_put v ++ rest) ≡ v
unfolding le64_get le64_put put_loop
le64_get-le64_put v rest h = get_loop-put_loop 8 v h h

-- zupt_le64_put writes back the eight bytes that zupt_le64_get read.
pub le64_put-le64_get :
    (bs rest : List ℕ) → length bs ≡ 8 → All IsByte bs → le64_put (le64_get (bs ++ rest)) ≡ bs
unfolding le64_get le64_put
le64_put-le64_get bs rest e p =
    rw (take-append bs rest 8 e) (put_loop-get_loop 8 bs 0 e (omega arith) p)

pub le16_get-le16_put : (v : ℕ) (rest : List ℕ) → v < 2 ^ 16 → le16_get (le16_put v ++ rest) ≡ v
unfolding le16_get le16_put
le16_get-le16_put v rest h =
    rw (or_shifted 8 (low_byte v) (low_byte (v / 2 ^ 8)) (omega arith))
      (omega (arith, low_byte_lem v, low_byte_lem (v / 2 ^ 8)))

pub le32_get-le32_put : (v : ℕ) (rest : List ℕ) → v < 2 ^ 32 → le32_get (le32_put v ++ rest) ≡ v
unfolding le32_get le32_put
le32_get-le32_put v rest h =
    let b0 = low_byte v in
    let b1 = low_byte (v / 2 ^ 8) in
    let b2 = low_byte (v / 2 ^ 16) in
    let b3 = low_byte (v / 2 ^ 24) in
    let top : b3 * 2 ^ 24 % 2 ^ 32 ≡ b3 * 2 ^ 24 = omega arith in
    rw
      (
        top,
        or_shifted 8 b0 b1 (omega arith),
        or_shifted 16 (b0 + b1 * 2 ^ 8) b2 (omega arith),
        or_shifted 24 (b0 + b1 * 2 ^ 8 + b2 * 2 ^ 16) b3 (omega arith),
      )
      (omega (
        arith,
        low_byte_lem v,
        low_byte_lem (v / 2 ^ 8),
        low_byte_lem (v / 2 ^ 16),
        low_byte_lem (v / 2 ^ 24),
      ))

-- Reading a field from a stream takes exactly the bytes that were written.
pub r16le-le16_put :
    (v : ℕ) (rest : List ℕ) → v < 2 ^ 16 → r16le (le16_put v ++ rest) ≡ some (v, rest)
unfolding r16le le16_put
r16le-le16_put v rest h =
    rw (fread-append 2 (le16_put v) rest refl) (ap (λ n. some (n, rest)) (le16_get-le16_put v [] h))

pub r64le-le64_put :
    (v : ℕ) (rest : List ℕ) → v < 2 ^ 64 → r64le (le64_put v ++ rest) ≡ some (v, rest)
unfolding r64le le64_put put_loop
r64le-le64_put v rest h =
    rw (fread-append 8 (le64_put v) rest refl) (ap (λ n. some (n, rest)) (le64_get-le64_put v [] h))

pub le64_get-lt : (bs : List ℕ) → length bs ≡ 8 → All IsByte bs → le64_get bs < 2 ^ 64
unfolding le64_get
le64_get-lt bs e p = rw (take_all 8 bs e) (omega (arith, get_loop_room bs 0 (omega arith) p))
