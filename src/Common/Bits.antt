-- ===== src/Common/Bits.antt =====
-- The native bit operations at variables: one equation for the lowest digit of each, then masks,
-- fields that do not overlap, and the exclusive or as its own inverse.
use Prim.Native.Nat.{
  ℕ, zero, suc, ◌+◌, ◌-◌, ◌*◌, ◌/◌, ◌%◌, ◌^◌, ◌≤◌, ◌<◌, min, max, differ, bit_and, bit_or, bit_xor,
}
use Prim.Native.Nat.{digits, bitwise, bit_and-bitwise, bit_or-bitwise, bit_xor-bitwise}
use mathlib.Core.Path.{◌≡◌, refl, sym, ap, ◌∙◌}
use mathlib.Core.WellFounded
use native.Mathlib.Omega.{arith}
use native.Mathlib.Nat.{pow-suc, pow-succ', one-le-pow, div-div-eq-div-mul, mod-eq-sub-div-mul}
use libvuptsdk.Common.Order.{lt_wf}

-- The result of the digit recursion does not depend on the fuel, once that covers the number.
module _ (stop : ℕ → ℕ) (op : ℕ → ℕ → ℕ) where
  enough_digits : (f g x y : ℕ) → x ≤ f → x ≤ g → digits stop op f x y ≡ digits stop op g x y
  enough_digits f g zero y p q = from_zero f g
    where
      from_zero : (f g : ℕ) → digits stop op f 0 y ≡ digits stop op g 0 y
      from_zero zero zero = refl
      from_zero zero (suc g) = refl
      from_zero (suc f) zero = refl
      from_zero (suc f) (suc g) = refl
  enough_digits zero g (suc x) y p q = absurd (omega arith)
  enough_digits (suc f) zero (suc x) y p q = absurd (omega arith)
  enough_digits (suc f) (suc g) (suc x) y p q =
      rw (enough_digits f g (suc x / 2) (y / 2) (omega arith) (omega arith))

  lowest_digit :
      (x y : ℕ)
      → bitwise stop op (suc x) y ≡ bitwise stop op (suc x / 2) (y / 2) * 2 + op (suc x % 2) (y % 2)
  lowest_digit x y =
      omega (arith, enough_digits x (suc x / 2) (suc x / 2) (y / 2) (omega arith) (omega arith))

pub and_digit : (x y : ℕ) → bit_and x y ≡ bit_and (x / 2) (y / 2) * 2 + min (x % 2) (y % 2)
and_digit zero y = simp bit_and-bitwise (omega arith)
and_digit (suc x) y = simp bit_and-bitwise (lowest_digit (λ b. 0) min x y)

pub or_digit : (x y : ℕ) → bit_or x y ≡ bit_or (x / 2) (y / 2) * 2 + max (x % 2) (y % 2)
or_digit zero y = simp bit_or-bitwise (omega arith)
or_digit (suc x) y = simp bit_or-bitwise (lowest_digit (λ b. b) max x y)

pub xor_digit : (x y : ℕ) → bit_xor x y ≡ bit_xor (x / 2) (y / 2) * 2 + differ (x % 2) (y % 2)
xor_digit zero y = simp bit_xor-bitwise (omega arith)
xor_digit (suc x) y = simp bit_xor-bitwise (lowest_digit (λ b. b) differ x y)

differ_twice : (a b : ℕ) → a < 2 → b < 2 → (differ a b < 2) × (differ (differ a b) b ≡ a)
differ_twice zero zero p q = omega arith
differ_twice zero (suc zero) p q = omega arith
differ_twice (suc zero) zero p q = omega arith
differ_twice (suc zero) (suc zero) p q = omega arith
differ_twice (suc (suc a)) b p q = absurd (omega arith)
differ_twice zero (suc (suc b)) p q = absurd (omega arith)
differ_twice (suc zero) (suc (suc b)) p q = absurd (omega arith)

differ_self : (a : ℕ) → differ a a ≡ 0
differ_self zero = refl
differ_self (suc a) = differ_self a

bit_xor_self : (y : ℕ) → bit_xor y y ≡ 0
bit_xor_self y = WellFounded.induction lt_wf y step
  where
    step : (n : ℕ) → ((m : ℕ) → m < n → bit_xor m m ≡ 0) → bit_xor n n ≡ 0
    step zero ih = refl
    step (suc n) ih =
        omega
          (arith, xor_digit (suc n) (suc n), differ_self (suc n % 2), ih (suc n / 2) (omega arith))

-- Exclusive or with the same number twice gives the first number back.
pub bit_xor_undo : (x y : ℕ) → bit_xor (bit_xor x y) y ≡ x
bit_xor_undo x = WellFounded.induction lt_wf {C = λ n. (y : ℕ) → bit_xor (bit_xor n y) y ≡ n} x step
  where
    step :
        (n : ℕ)
        → ((m : ℕ) → m < n → (y : ℕ) → bit_xor (bit_xor m y) y ≡ m)
        → (y : ℕ) → bit_xor (bit_xor n y) y ≡ n
    step zero ih y = rw (bit_xor-bitwise 0 y) (bit_xor_self y)
    step (suc n) ih y =
        let (small, back) = differ_twice (suc n % 2) (y % 2) (omega arith) (omega arith) in
        let inner : ℕ = bit_xor (suc n) y in
        let half : inner / 2 ≡ bit_xor (suc n / 2) (y / 2) = omega (arith, xor_digit (suc n) y) in
        let low : inner % 2 ≡ differ (suc n % 2) (y % 2) = omega (arith, xor_digit (suc n) y) in
        xor_digit inner y ∙ rw (half, low, back, ih (suc n / 2) (omega arith) (y / 2)) (omega arith)

-- The exclusive or of two bytes is a byte, and so at every width.
pub bit_xor-lt : (k x y : ℕ) → x < 2 ^ k → y < 2 ^ k → bit_xor x y < 2 ^ k
bit_xor-lt zero zero zero p q = omega arith
bit_xor-lt zero (suc x) y p q = absurd (omega arith)
bit_xor-lt zero zero (suc y) p q = absurd (omega arith)
bit_xor-lt (suc k) x y p q = omega (
  arith,
  xor_digit x y,
  pow-suc 2 k,
  differ_twice (x % 2) (y % 2) (omega arith) (omega arith),
  bit_xor-lt k (x / 2) (y / 2) (omega (arith, pow-suc 2 k)) (omega (arith, pow-suc 2 k)),
)

double_power : (q k : ℕ) → q * 2 ^ suc k ≡ 2 * (q * 2 ^ k)
double_power q k = omega (arith, ap (λ (t : ℕ). q * t) (pow-suc 2 k))

bit_and_none : (x : ℕ) → bit_and x 0 ≡ 0
bit_and_none x = WellFounded.induction lt_wf x by_half
  where
    by_half : (x : ℕ) → ((half : ℕ) → half < x → bit_and half 0 ≡ 0) → bit_and x 0 ≡ 0
    by_half zero below = refl
    by_half (suc x) below = omega (arith, below (suc x / 2) (omega arith), and_digit (suc x) 0)

bit_or_none : (x : ℕ) → bit_or x 0 ≡ x
bit_or_none x = WellFounded.induction lt_wf x by_half
  where
    by_half : (x : ℕ) → ((half : ℕ) → half < x → bit_or half 0 ≡ half) → bit_or x 0 ≡ x
    by_half zero below = refl
    by_half (suc x) below = omega (arith, below (suc x / 2) (omega arith), or_digit (suc x) 0)

-- `x | (y << k)` is a sum where `x` has only `k` bits, and so the other way round.
pub or_shifted : (k x y : ℕ) → x < 2 ^ k → bit_or x (y * 2 ^ k) ≡ x + y * 2 ^ k
or_shifted zero zero y p = omega (arith, bit_or-bitwise 0 (y * 2 ^ 0))
or_shifted zero (suc x) y p = absurd (omega arith)
or_shifted (suc k) x y p =
    let half : y * 2 ^ suc k / 2 ≡ y * 2 ^ k = omega (arith, double_power y k) in
    let rest : bit_or (x / 2) (y * 2 ^ suc k / 2) ≡ x / 2 + y * 2 ^ k =
      rw half (or_shifted k (x / 2) y (omega (arith, pow-suc 2 k))) in
    omega (arith, or_digit x (y * 2 ^ suc k), double_power y k, rest)

pub shifted_or : (k x y : ℕ) → x < 2 ^ k → bit_or (y * 2 ^ k) x ≡ y * 2 ^ k + x
shifted_or zero zero y p = rw bit_or_none (omega arith)
shifted_or zero (suc x) y p = absurd (omega arith)
shifted_or (suc k) x y p =
    let half : y * 2 ^ suc k / 2 ≡ y * 2 ^ k = omega (arith, double_power y k) in
    let rest : bit_or (y * 2 ^ suc k / 2) (x / 2) ≡ y * 2 ^ k + x / 2 =
      rw half (shifted_or k (x / 2) y (omega (arith, pow-suc 2 k))) in
    omega (arith, or_digit (y * 2 ^ suc k) x, double_power y k, rest)

pub div-power-suc : (x k : ℕ) → x / 2 / 2 ^ k ≡ x / 2 ^ suc k
div-power-suc x k = div-div-eq-div-mul x 2 (2 ^ k) ∙ ap (λ (t : ℕ). x / t) (sym (pow-succ' 2 k))

-- A mask of ones, `m << k`, keeps the same bits of the shifted number.
pub and_shifted : (k x m : ℕ) → bit_and x (m * 2 ^ k) ≡ bit_and (x / 2 ^ k) m * 2 ^ k
and_shifted zero x m =
    let a : m * 2 ^ 0 ≡ m = omega arith in
    let b : x / 2 ^ 0 ≡ x = omega arith in rw (a, b) (omega arith)
and_shifted (suc k) x m =
    let half : m * 2 ^ suc k / 2 ≡ m * 2 ^ k = omega (arith, double_power m k) in
    let rest : bit_and (x / 2) (m * 2 ^ suc k / 2) ≡ bit_and (x / 2 ^ suc k) m * 2 ^ k =
      rw (half, ← div-power-suc x k) (and_shifted k (x / 2) m) in
    omega (
      arith,
      and_digit x (m * 2 ^ suc k),
      double_power m k,
      double_power (bit_and (x / 2 ^ suc k) m) k,
      rest,
    )

mod-power-suc : (x k : ℕ) → x % 2 ^ suc k ≡ 2 * (x / 2 % 2 ^ k) + x % 2
mod-power-suc x k = omega (
  arith,
  mod-eq-sub-div-mul x (2 ^ suc k),
  mod-eq-sub-div-mul (x / 2) (2 ^ k),
  ap (λ (t : ℕ). t * 2 ^ suc k) (div-power-suc x k),
  double_power (x / 2 / 2 ^ k) k,
)

-- A mask of the `k` lowest bits is the remainder by `2 ^ k`.
pub and_mask : (k x : ℕ) → bit_and x (2 ^ k - 1) ≡ x % 2 ^ k
and_mask zero x = rw (bit_and_none x) (omega arith)
and_mask (suc k) x =
    let half : (2 ^ suc k - 1) / 2 ≡ 2 ^ k - 1 = omega (arith, pow-suc 2 k, one-le-pow k 2) in
    let rest : bit_and (x / 2) ((2 ^ suc k - 1) / 2) ≡ x / 2 % 2 ^ k =
      rw half (and_mask k (x / 2)) in
    omega (arith, and_digit x (2 ^ suc k - 1), pow-suc 2 k, one-le-pow k 2, mod-power-suc x k, rest)

-- An inclusive or is 0 only where both numbers are, and an exclusive or only of equal numbers.
pub bit_or_zero : (x y : ℕ) → bit_or x y ≡ 0 → (x ≡ 0) × (y ≡ 0)
bit_or_zero x =
    WellFounded.induction lt_wf {C = λ n. (y : ℕ) → bit_or n y ≡ 0 → (n ≡ 0) × (y ≡ 0)} x step
  where
    step :
        (n : ℕ)
        → ((m : ℕ) → m < n → (y : ℕ) → bit_or m y ≡ 0 → (m ≡ 0) × (y ≡ 0))
        → (y : ℕ) → bit_or n y ≡ 0
        → (n ≡ 0) × (y ≡ 0)
    step zero ih y e = (refl, omega (arith, bit_or-bitwise 0 y))
    step (suc n) ih y e = omega (
      arith,
      or_digit (suc n) y,
      ih (suc n / 2) (omega arith) (y / 2) (omega (arith, or_digit (suc n) y)),
    )

pub bit_or-zero : (x : ℕ) → bit_or 0 x ≡ x
bit_or-zero x = bit_or-bitwise 0 x

pub bit_or-lt : (k x y : ℕ) → x < 2 ^ k → y < 2 ^ k → bit_or x y < 2 ^ k
bit_or-lt zero zero zero p q = omega (arith, bit_or-bitwise 0 0)
bit_or-lt zero (suc x) y p q = absurd (omega arith)
bit_or-lt zero zero (suc y) p q = absurd (omega arith)
bit_or-lt (suc k) x y p q = omega (
  arith,
  or_digit x y,
  pow-suc 2 k,
  bit_or-lt k (x / 2) (y / 2) (omega (arith, pow-suc 2 k)) (omega (arith, pow-suc 2 k)),
)

pub bit_xor_zero : (x y : ℕ) → bit_xor x y ≡ 0 → x ≡ y
bit_xor_zero x y e = sym (bit_xor_undo x y) ∙ ap (λ t. bit_xor t y) e ∙ bit_xor-bitwise 0 y

pub bit_xor_same : (x : ℕ) → bit_xor x x ≡ 0
bit_xor_same x = bit_xor_self x
