-- ===== src/Common.antt =====
-- The names that the other modules share: the libraries', passed on, and those of the children.
mod Tests
mod Lists
mod Order
pub mod Bits
pub use Tests.*
pub use Lists.*
unfoldable pub use Order.{lt_wf}
pub use Prim.Native.Nat.{
  ℕ, zero, suc, ◌+◌, ◌-◌, ◌*◌, ◌/◌, ◌%◌, ◌^◌, ◌≤◌, ◌<◌, min, max, bit_and, bit_or, bit_xor,
}
pub use mathlib.Core.Path.{◌≡◌, refl, sym, ap, ap₂, ◌∙◌, fun_ext}
pub use mathlib.Core.Logic.{◌≢◌, ◌↔◌, ◌⊎◌, inl, inr}
pub use mathlib.Core.Bool.{Bool, true, false, ◌&&◌, ◌||◌, not}
pub use mathlib.Core.Option.{Option, none, some}
pub use mathlib.Core.List.{List, [], ◌∷◌, ◌++◌, map, append-nil, append_assoc}
pub use mathlib.Core.WellFounded.{Acc}
pub use native.Mathlib.Omega.{arith}

-- The error of a fallible step ends the chain.
infixl 5 ◌>>=◌ ◌>>◌
abbrev pub ◌>>=◌ {κ ℓ} : {B : Type κ} {A : Type ℓ} → Option A → (A → Option B) → Option B
some value >>= next = next value
none >>= next = none

abbrev pub ◌>>◌ {κ} : {B : Type κ} → Option (Unit {0}) → Option B → Option B
check >> next = check >>= λ _. next

-- `if (!test) return -1;`
abbrev pub require : Bool → Option (Unit {0})
require true = some tt
require false = none

-- What a chain that gives a result went through.
module _ {ℓ κ μ} {A : Type ℓ} {B : Type κ} {P : Type μ} where
  pub after_some :
      (o : Option A) (f : A → Option B) {b : B}
      → (o >>= f) ≡ some b
      → ((a : A) → o ≡ some a → f a ≡ some b → P)
      → P
  after_some none f e k = cc
  after_some (some a) f e k = k a refl e

module _ {κ μ} {B : Type κ} {P : Type μ} where
  pub after_require :
      (test : Bool) (o : Option B) {b : B}
      → (require test >> o) ≡ some b
      → (test ≡ true → o ≡ some b → P)
      → P
  after_require true o e k = k refl e
  after_require false o e k = cc

pub some-injective {ℓ} : {A : Type ℓ} {a b : A} → some a ≡ some b → a ≡ b
some-injective e = cc
