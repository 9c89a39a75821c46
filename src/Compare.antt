-- ===== src/Compare.antt =====
-- Comparison of byte arrays: zupt_ct_memeq of src/zupt_ct.c, for authentication tags, and memcmp of
-- the C library where the code tests it against 0.
pub mod Exact
use libvuptsdk.Common.{
  Bool, true, false, ◌&&◌, ◌==◌, ℕ, zero, suc, ◌+◌, ◌-◌, ◌/◌, ◌%◌, ◌^◌, List, [], ◌∷◌, bit_and,
  bit_or, bit_xor,
}

-- `left` rounds are to go; both pointers have at least that many bytes behind them.
pub diff_loop : ℕ → List ℕ → List ℕ → ℕ → ℕ
diff_loop zero a b diff = diff
diff_loop (suc left) (x ∷ a) (y ∷ b) diff = diff_loop left a b (bit_or diff (bit_xor x y % 256))
diff_loop (suc left) [] b diff = diff
diff_loop (suc left) (x ∷ a) [] diff = diff

unfoldable pub ct_memeq : List ℕ → List ℕ → ℕ → ℕ
unfolding diff_loop
ct_memeq a b n =
    let diff = diff_loop n a b 0 in bit_and ((diff + 2 ^ 32 - 1) % 2 ^ 32 / 2 ^ 8 % 256) 1

-- memcmp(a, b, n) == 0, for arrays of n bytes
unfoldable pub mem_equal : List ℕ → List ℕ → Bool
mem_equal [] [] = true
mem_equal [] (y ∷ b) = false
mem_equal (x ∷ a) [] = false
mem_equal (x ∷ a) (y ∷ b) = x == y && mem_equal a b
