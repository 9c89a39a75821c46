-- ===== src/Predict/Transform.antt =====
-- The transform loses nothing, whatever the table of predictions.
use native.Mathlib.Nat.{mod-eq_of_lt}
use libvuptsdk.Common.{
  arith, length, suc, ℕ, ◌%◌, ◌<◌, ◌≡◌, refl, ap, ap₂, List, [], ◌∷◌, All, IsByte, bit_xor,
}
use libvuptsdk.Common.Bits.{bit_xor_undo, bit_xor-lt}
use libvuptsdk.Predict.{Prediction, encode_loop, decode_loop, predict_encode, predict_decode}

-- One byte, there and back.
xor_twice : (x p : ℕ) → x < 256 → p < 256 → bit_xor (bit_xor x p % 256) p % 256 ≡ x
xor_twice x p hx hp = rw (mod-eq_of_lt (bit_xor-lt 8 x p hx hp), bit_xor_undo x p) (mod-eq_of_lt hx)

module _ (prediction : Prediction) (bytes : (c : ℕ) → prediction c < 256) where
  decode_loop-encode_loop :
      (prev : ℕ) (input : List ℕ)
      → All IsByte input
      → decode_loop prediction prev (encode_loop prediction prev input) ≡ input
  unfolding encode_loop decode_loop
  decode_loop-encode_loop prev [] h = refl
  decode_loop-encode_loop prev (x ∷ rest) (hx, h) =
      rw (xor_twice x (prediction prev) hx (bytes prev))
        (ap (λ t. x ∷ t) (decode_loop-encode_loop x rest h))

  encode_loop-decode_loop :
      (prev : ℕ) (input : List ℕ)
      → All IsByte input
      → encode_loop prediction prev (decode_loop prediction prev input) ≡ input
  unfolding encode_loop decode_loop
  encode_loop-decode_loop prev [] h = refl
  encode_loop-decode_loop prev (x ∷ rest) (hx, h) =
      ap₂ ◌∷◌ (xor_twice x (prediction prev) hx (bytes prev))
        (encode_loop-decode_loop (bit_xor x (prediction prev) % 256) rest h)

-- For every table of bytes, decoding and encoding are inverse to each other on strings of bytes:
-- the transform is a bijection, and zupt_predict_decode recovers the input.
pub predict-inverse :
    (prediction : Prediction) (input : List ℕ)
    → ((c : ℕ) → prediction c < 256)
    → All IsByte input
    → (predict_decode (predict_encode input prediction) prediction ≡ input)
      × (predict_encode (predict_decode input prediction) prediction ≡ input)
unfolding predict_encode predict_decode
predict-inverse prediction input bytes h = (
  decode_loop-encode_loop prediction bytes 0 input h,
  encode_loop-decode_loop prediction bytes 0 input h,
)

length-decode_loop :
    (prediction : Prediction) (prev : ℕ) (input : List ℕ)
    → length (decode_loop prediction prev input) ≡ length input
unfolding decode_loop
length-decode_loop prediction prev [] = refl
length-decode_loop prediction prev (x ∷ rest) =
    ap suc (length-decode_loop prediction (bit_xor x (prediction prev) % 256) rest)

pub length-predict_decode :
    (input : List ℕ) (prediction : Prediction)
    → length (predict_decode input prediction) ≡ length input
unfolding predict_decode
length-predict_decode input prediction = length-decode_loop prediction 0 input

length-encode_loop :
    (prediction : Prediction) (prev : ℕ) (input : List ℕ)
    → length (encode_loop prediction prev input) ≡ length input
unfolding encode_loop
length-encode_loop prediction prev [] = refl
length-encode_loop prediction prev (x ∷ rest) = ap suc (length-encode_loop prediction x rest)

pub length-predict_encode :
    (input : List ℕ) (prediction : Prediction)
    → length (predict_encode input prediction) ≡ length input
unfolding predict_encode
length-predict_encode input prediction = length-encode_loop prediction 0 input

encode_loop-IsByte :
    (prediction : Prediction) (prev : ℕ) (input : List ℕ)
    → All IsByte (encode_loop prediction prev input)
unfolding encode_loop
encode_loop-IsByte prediction prev [] = tt
encode_loop-IsByte prediction prev (x ∷ rest) = (omega arith, encode_loop-IsByte prediction x rest)

pub predict_encode-IsByte :
    (input : List ℕ) (prediction : Prediction) → All IsByte (predict_encode input prediction)
unfolding predict_encode
predict_encode-IsByte input prediction = encode_loop-IsByte prediction 0 input

decode_loop-agree :
    (p q : Prediction) (prev : ℕ) (input : List ℕ)
    → ((c : ℕ) → c < 256 → p c ≡ q c)
    → prev < 256
    → decode_loop p prev input ≡ decode_loop q prev input
unfolding decode_loop
decode_loop-agree p q prev [] same h = refl
decode_loop-agree p q prev (x ∷ rest) same h =
    let low : bit_xor x (q prev) % 256 < 256 = omega arith in
    rw (same prev h) (
      ap (λ t. (bit_xor x (q prev) % 256) ∷ t)
        (decode_loop-agree p q (bit_xor x (q prev) % 256) rest same low))

-- Tables that agree on bytes decode alike.
pub predict_decode-agree :
    (p q : Prediction) (input : List ℕ)
    → ((c : ℕ) → c < 256 → p c ≡ q c)
    → predict_decode input p ≡ predict_decode input q
unfolding predict_decode
predict_decode-agree p q input same = decode_loop-agree p q 0 input same (omega arith)
