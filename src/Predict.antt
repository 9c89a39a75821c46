-- ===== src/Predict.antt =====
-- Byte prediction of src/zupt_predict.c: the table of most common successors and the transform.
-- zupt_predict_benefit estimates entropies in floating point and is not modelled.
pub mod Transform
pub mod Table
use libvuptsdk.Common.{
  ℕ, zero, suc, ◌+◌, ◌%◌, List, [], ◌∷◌, Bool, true, false, ◌&&◌, ltb, ◌==◌, if◌then◌else◌, bit_xor,
}

-- counts[prev * 256 + byte], and prediction[c]
abbrev pub Counts : Type 0
Counts = ℕ → ℕ → ℕ

abbrev pub Prediction : Type 0
Prediction = ℕ → ℕ

-- `if (row[x] < 65535) row[x]++;`
pub bump : Counts → ℕ → ℕ → Counts
bump counts prev x c b =
    if c == prev && b == x && ltb (counts prev x) 65535 then counts prev x + 1 else counts c b

pub count_loop : List ℕ → ℕ → Counts → Counts
count_loop [] prev counts = counts
count_loop (x ∷ rest) prev counts = count_loop rest x (bump counts prev x)

-- The search for the most common successor, from byte `b` on, with `left` bytes to go.
pub best_loop : ℕ → ℕ → (ℕ → ℕ) → ℕ → ℕ → ℕ
best_loop zero b row best_count best_byte = best_byte
best_loop (suc left) b row best_count best_byte =
    best_loop left (b + 1) row (if ltb best_count (row b) then row b else best_count)
      (if ltb best_count (row b) then b % 256 else best_byte)

-- `allocated` is whether calloc gave the table of counts.
unfoldable pub predict_build : Bool → List ℕ → Prediction
unfolding bump count_loop best_loop
predict_build allocated input c =
    if allocated then best_loop 256 0 (count_loop input 0 (λ prev b. 0) c) 0 0 else 0

-- The loops over the input behind the byte `prev`.
pub encode_loop : Prediction → ℕ → List ℕ → List ℕ
encode_loop prediction prev [] = []
encode_loop prediction prev (x ∷ rest) =
    (bit_xor x (prediction prev) % 256) ∷ encode_loop prediction x rest

pub decode_loop : Prediction → ℕ → List ℕ → List ℕ
decode_loop prediction prev [] = []
decode_loop prediction prev (x ∷ rest) =
    let original = bit_xor x (prediction prev) % 256 in
    original ∷ decode_loop prediction original rest

unfoldable pub predict_encode : List ℕ → Prediction → List ℕ
unfolding encode_loop
predict_encode input prediction = encode_loop prediction 0 input

unfoldable pub predict_decode : List ℕ → Prediction → List ℕ
unfolding decode_loop
predict_decode input prediction = decode_loop prediction 0 input
