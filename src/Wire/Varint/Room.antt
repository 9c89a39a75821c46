-- ===== src/Wire/Varint/Room.antt =====
-- What ten bytes of seven bits have room for.
use native.Mathlib.Nat.{pow-suc, one-le-pow, div-add-mod}
use native.Mathlib.Numerals.{towards_suc}
use libvuptsdk.Common.{ℕ, suc, ◌+◌, ◌*◌, ◌/◌, ◌%◌, ◌^◌, ◌<◌, ◌≡◌, refl, ap, arith}

-- At byte n, with j more bytes to come at most, the shift is 7n and the bits left are 7j + 1.
pub record Room (n shift j : ℕ) : Type 0 where
  pub index : n + j ≡ 9
  pub bits : 2 ^ shift * (2 * 128 ^ j) ≡ 2 ^ 64

pub first-Room : Room 0 0 9
first-Room = record { index = refl; bits = refl }

pub power_seven : (s : ℕ) → 2 ^ (s + 7) ≡ 128 * 2 ^ s
power_seven s = simp towards_suc (omega arith)

pub next-Room : (n shift j : ℕ) → Room n shift (suc j) → Room (n + 1) (shift + 7) j
next-Room n shift j r = record {
  index = omega (arith, r.index);
  bits = omega (
    arith,
    r.bits,
    ap (λ (t : ℕ). t * (2 * 128 ^ j)) (power_seven shift),
    ap (λ (t : ℕ). 2 ^ shift * (2 * t)) (pow-suc 128 j),
  );
}

below_product : (v p q : ℕ) → 0 < p → v < q → p * q ≡ 2 ^ 64 → v * p < 2 ^ 64
below_product v p q pos h e = grind arith

pub group_room : (acc g p : ℕ) → acc < p → g < 128 → acc + g * p < 128 * p
group_room acc g p ha hg = grind arith

pub value_fits : (v n shift j : ℕ) → Room n shift j → v < 2 * 128 ^ j → v * 2 ^ shift < 2 ^ 64
value_fits v n shift j r h =
    below_product v (2 ^ shift) (2 * 128 ^ j) (one-le-pow shift 2 (omega arith)) h r.bits

-- The number is split into its lowest group and the rest, both shifted.
pub split_group : (v s : ℕ) → v * 2 ^ s ≡ v % 128 * 2 ^ s + v / 128 * 2 ^ (s + 7)
split_group v s = omega (
  arith,
  ap (λ (t : ℕ). t * 2 ^ s) (div-add-mod v 128),
  ap (λ (t : ℕ). v / 128 * t) (power_seven s),
)
