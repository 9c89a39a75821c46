-- ===== src/Predict/Table.antt =====
-- The table predicts a most common successor, by an independent count of pairs.
use libvuptsdk.Common.{
  ℕ, zero, suc, ◌+◌, ◌%◌, ◌≤◌, ◌<◌, ◌≡◌, refl, ◌∙◌, min, arith, List, [], ◌∷◌, true, ◌&&◌, ltb,
  ◌==◌, if◌then◌else◌, Bool-cases, inl, inr, fun_ext,
}
use libvuptsdk.Predict.{Counts, bump, count_loop, best_loop, predict_build}

-- How often `b` follows `c` in the bytes behind `prev`.
pub followers : ℕ → ℕ → ℕ → List ℕ → ℕ
followers c b prev [] = 0
followers c b prev (x ∷ rest) = (if c == prev && b == x then 1 else 0) + followers c b x rest

bump_lem :
    (counts : Counts) (prev x c b : ℕ)
    → counts c b ≤ 65535
    → bump counts prev x c b ≡ min 65535 (counts c b + (if c == prev && b == x then 1 else 0))
unfolding bump
bump_lem counts prev x c b h = ground arith

count_loop-followers :
    (input : List ℕ) (prev : ℕ) (counts : Counts) (c b : ℕ)
    → counts c b ≤ 65535
    → count_loop input prev counts c b ≡ min 65535 (counts c b + followers c b prev input)
unfolding count_loop followers
count_loop-followers [] prev counts c b h = omega arith
count_loop-followers (x ∷ rest) prev counts c b h = omega (
  arith,
  bump_lem counts prev x c b h,
  count_loop-followers rest x (bump counts prev x) c b
      (omega (arith, bump_lem counts prev x c b h)),
)

-- The best of the first `end` bytes: none of them has a higher count, and those before it have
-- lower ones.
pub record IsBest (row : ℕ → ℕ) (end best : ℕ) : Type 0 where
  pub byte : best < 256
  pub highest : (j : ℕ) → j < end → row j ≤ row best
  pub first : (j : ℕ) → j < best → row j < row best

-- The same while the loop runs, for the count that it carries.
record Running (row : ℕ → ℕ) (b best_count best_byte : ℕ) : Type 0 where
  byte : best_byte < 256
  reached : best_count ≤ row best_byte
  highest : (j : ℕ) → j < b → row j ≤ best_count
  first : (j : ℕ) → j < best_byte → row j < best_count

keep_best :
    (row : ℕ → ℕ) (b best_count best_byte : ℕ)
    → b < 256
    → Running row b best_count best_byte
    → Running row
        (b + 1)
        (if ltb best_count (row b) then row b else best_count)
        (if ltb best_count (row b) then b % 256 else best_byte)
keep_best row b best_count best_byte small r = elim (Bool-cases (ltb best_count (row b))) [
  | inl better ↦
      let same : b % 256 ≡ b = omega arith in
      rw (better, same)
        (record {
          byte = small;
          reached = omega arith;
          highest = λ j h. ground (arith, r.highest j);
          first = λ j h. ground (arith, r.highest j);
        })
  | inr worse ↦ rw worse (record {
    byte = r.byte;
    reached = r.reached;
    highest = λ j h. ground (arith, r.highest j);
    first = r.first;
  })
]

best_loop-IsBest :
    (left b : ℕ) (row : ℕ → ℕ) (best_count best_byte : ℕ)
    → b + left ≡ 256
    → Running row b best_count best_byte
    → IsBest row 256 (best_loop left b row best_count best_byte)
unfolding best_loop
best_loop-IsBest zero b row best_count best_byte e r = record {
  byte = r.byte;
  highest = λ j h. omega (arith, r.highest j (omega arith), r.reached);
  first = λ j h. omega (arith, r.first j h, r.reached);
}
best_loop-IsBest (suc left) b row best_count best_byte e r =
    best_loop-IsBest left (b + 1) row _ _ (omega arith)
      (keep_best row b best_count best_byte (omega arith) r)

-- Where the counters were allocated, the table gives for each context the first of the bytes that
-- follow it most often in the input (which is taken to follow a zero byte), counted up to 65535.
pub predict_build-IsBest :
    (input : List ℕ) (c : ℕ)
    → IsBest (λ b. min 65535 (followers c b 0 input)) 256 (predict_build true input c)
unfolding predict_build
predict_build-IsBest input c =
    rw (← fun_ext counts_are)
      (best_loop-IsBest 256 0 (count_loop input 0 (λ prev b. 0) c) 0 0 refl start)
  where
    counts_are : (b : ℕ) → count_loop input 0 (λ prev b. 0) c b ≡ min 65535 (followers c b 0 input)
    counts_are b = count_loop-followers input 0 (λ prev b. 0) c b (omega arith) ∙ omega arith

    start : Running (count_loop input 0 (λ prev b. 0) c) 0 0 0
    start = record {
      byte = omega arith;
      reached = omega arith;
      highest = λ j h. absurd (omega arith);
      first = λ j h. absurd (omega arith);
    }
