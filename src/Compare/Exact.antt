-- ===== src/Compare/Exact.antt =====
-- The branch-free comparison answers 1 exactly for equal bytes.
use libvuptsdk.Common.{
  true, ℕ, zero, suc, ◌+◌, ◌-◌, ◌/◌, ◌%◌, ◌^◌, ◌<◌, ◌≡◌, ◌↔◌, refl, ap₂, sym, ◌∙◌, arith, List, [],
  ◌∷◌, bit_and, bit_or, bit_xor, All, IsByte, length,
}
use native.Mathlib.Nat.{mod-eq_of_lt}
use libvuptsdk.Common.Bits.{
  and_mask, bit_or_zero, bit_or-zero, bit_or-lt, bit_xor-lt, bit_xor_zero, bit_xor_same,
}
use libvuptsdk.Compare.{diff_loop, ct_memeq, mem_equal}

diff_loop-lt :
    (n : ℕ) (a b : List ℕ) (d : ℕ) → d < 256 → All IsByte a → All IsByte b → diff_loop n a b d < 256
unfolding diff_loop
diff_loop-lt zero a b d h p q = h
diff_loop-lt (suc n) [] b d h p q = h
diff_loop-lt (suc n) (x ∷ a) [] d h p q = h
diff_loop-lt (suc n) (x ∷ a) (y ∷ b) d h (p, ps) (q, qs) =
    diff_loop-lt n a b _ (bit_or-lt 8 d (bit_xor x y % 256) h (omega arith)) ps qs

-- The difference is 0 only if it was before, and every pair of bytes agrees.
diff_loop_zero :
    (n : ℕ) (a b : List ℕ) (d : ℕ)
    → length a ≡ n
    → length b ≡ n
    → All IsByte a
    → All IsByte b
    → diff_loop n a b d ≡ 0
    → (d ≡ 0) × (a ≡ b)
unfolding diff_loop
diff_loop_zero zero [] [] d ea eb p q e = (e, refl)
diff_loop_zero zero (x ∷ a) b d ea eb p q e = absurd (omega arith)
diff_loop_zero zero [] (y ∷ b) d ea eb p q e = absurd (omega arith)
diff_loop_zero (suc n) [] b d ea eb p q e = absurd (omega arith)
diff_loop_zero (suc n) (x ∷ a) [] d ea eb p q e = absurd (omega arith)
diff_loop_zero (suc n) (x ∷ a) (y ∷ b) d ea eb (p, ps) (q, qs) e =
    let (joined, rest) =
      diff_loop_zero n a b (bit_or d (bit_xor x y % 256)) (omega arith) (omega arith) ps qs e in
    let (before, here) = bit_or_zero d (bit_xor x y % 256) joined in
    let whole : bit_xor x y ≡ 0 = sym (mod-eq_of_lt (bit_xor-lt 8 x y p q)) ∙ here in
    (before, ap₂ ◌∷◌ (bit_xor_zero x y whole) rest)

diff_loop_same : (n : ℕ) (a : List ℕ) → diff_loop n a a 0 ≡ 0
unfolding diff_loop
diff_loop_same zero a = refl
diff_loop_same (suc n) [] = refl
diff_loop_same (suc n) (x ∷ a) =
    let none_new : bit_or 0 (bit_xor x x % 256) ≡ 0 = rw bit_xor_same (bit_or-zero 0) in
    rw none_new (diff_loop_same n a)

result_of_diff :
    (d : ℕ) → d < 256 → (bit_and ((d + 2 ^ 32 - 1) % 2 ^ 32 / 2 ^ 8 % 256) 1 ≡ 1) ↔ (d ≡ 0)
result_of_diff d h = ground (arith, and_mask 1 ((d + 2 ^ 32 - 1) % 2 ^ 32 / 2 ^ 8 % 256))

-- For two buffers of n bytes, zupt_ct_memeq answers 1 exactly if they hold the same bytes.
pub ct_memeq-exact :
    (a b : List ℕ) (n : ℕ)
    → length a ≡ n
    → length b ≡ n
    → All IsByte a
    → All IsByte b
    → (ct_memeq a b n ≡ 1) ↔ (a ≡ b)
unfolding ct_memeq
ct_memeq-exact a b n ea eb p q =
    let small = diff_loop-lt n a b 0 (omega arith) p q in
    let (to, from) = result_of_diff (diff_loop n a b 0) small in
    (λ e. (diff_loop_zero n a b 0 ea eb p q (to e)).1, λ e. from (rw (← e) (diff_loop_same n a)))

-- memcmp finds no difference exactly between equal arrays.
pub mem_equal_iff : (a b : List ℕ) → (mem_equal a b ≡ true) ↔ (a ≡ b)
unfolding mem_equal
mem_equal_iff [] [] = ground arith
mem_equal_iff [] (y ∷ b) = ground arith
mem_equal_iff (x ∷ a) [] = ground arith
mem_equal_iff (x ∷ a) (y ∷ b) = ground (arith, mem_equal_iff a b)
