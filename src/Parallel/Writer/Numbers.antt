-- ===== src/Parallel/Writer/Numbers.antt =====
-- The sequence numbers of a file's blocks and the slots that they go to, zupt_compress_files of
-- src/zupt_format.c.
use native.Mathlib.Nat.{mul-le-mul_left, div-add-mod}
use libvuptsdk.Common.{
  ℕ, suc, ◌+◌, ◌*◌, ◌/◌, ◌%◌, ◌^◌, ◌<◌, ◌≤◌, ◌≡◌, ◌≢◌, arith, List, [], ◌∷◌, Bool-cases, inl, inr,
  All, leb→le, leb-false, leb,
}
use libvuptsdk.Common.Bits.{shifted_or}
use libvuptsdk.Parallel.Writer.{logical_aad_seq}

-- Numbers less than `n` apart have different remainders.
pub apart_mod : (s t n : ℕ) → t < s → s < t + n → s % n ≢ t % n
apart_mod s t n low high same = elim (Bool-cases (leb (s / n) (t / n))) [
  | inl below ↦
      let less = mul-le-mul_left n (leb→le (s / n) (t / n) below) in
      omega (arith, div-add-mod s n, div-add-mod t n, same, less)
  | inr above ↦
      let over : t / n + 1 ≤ s / n = omega (arith, leb-false (s / n) (t / n) above) in
      let more : n * (t / n + 1) ≤ n * (s / n) = mul-le-mul_left n over in
      let product : n * (t / n + 1) ≡ n * (t / n) + n = omega arith in
      omega (arith, div-add-mod s n, div-add-mod t n, same, more, product)
]

-- The sequence numbers of a file follow each other.
pub seq_value :
    (fi seq : ℕ) → seq < 2 ^ 32 → logical_aad_seq fi seq ≡ (fi + 1) % 2 ^ 32 * 2 ^ 32 + seq
unfolding logical_aad_seq
seq_value fi seq h =
    let high : (fi + 1) * 2 ^ 32 % 2 ^ 64 ≡ (fi + 1) % 2 ^ 32 * 2 ^ 32 = omega arith in
    rw high (shifted_or 32 seq ((fi + 1) % 2 ^ 32) h)

-- The slots in use hold numbers of this file below `s`, and `room` more numbers do not come back to
-- one of them.
abbrev pub Held : ℕ → ℕ → ℕ → List ℕ → Type 0
Held n s room pending_slots =
    All (λ (p : ℕ). (t : ℕ) × (p ≡ t % n) × (t < s) × (s + room ≤ t + n)) pending_slots

pub Held-next :
    (n s room : ℕ) (pending_slots : List ℕ)
    → Held n s (suc room) pending_slots
    → Held n (s + 1) room pending_slots
Held-next n s room [] h = tt
Held-next n s room (p ∷ ps) ((t, e, low, high), hs) =
    ((t, e, omega arith, omega arith), Held-next n s room ps hs)
