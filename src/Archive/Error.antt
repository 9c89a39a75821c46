-- ===== src/Archive/Error.antt =====
-- zupt_error_t of include/zupt.h, as the error of a result.
use libvuptsdk.Common.{Bool, true, false, Option, none, some, ◌≡◌, ap, refl}

pub data ZuptError : Type 0 where
  io corrupt bad_magic bad_version bad_checksum nomem overflow invalid not_found unsupported
        auth_fail :
      ZuptError

-- ZUPT_OK with the outputs, or another code.
pub data Result {ℓ} (A : Type ℓ) : Type ℓ where
  ok : A → Result A
  err : ZuptError → Result A

infixl 5 ◌>>=◌ ◌>>◌
abbrev pub ◌>>=◌ {κ ℓ} : {B : Type κ} {A : Type ℓ} → Result A → (A → Result B) → Result B
err code >>= next = err code
ok value >>= next = next value

-- A step for its error alone.
abbrev pub ◌>>◌ {κ} : {B : Type κ} → Result (Unit {0}) → Result B → Result B
check >> next = check >>= λ _. next

-- `if (bad) return e;`
abbrev pub fail_if : Bool → ZuptError → Result (Unit {0})
fail_if true e = err e
fail_if false e = ok tt

-- A read that may fail with ZUPT_ERR_IO, or whatever code the caller gives.
abbrev pub or_fail {ℓ} : {A : Type ℓ} → Option A → ZuptError → Result A
or_fail none e = err e
or_fail (some a) e = ok a

-- What a chain that ends well went through: the parts are variables.
module _ {ℓ κ μ} {A : Type ℓ} {B : Type κ} {P : Type μ} where
  pub after_ok :
      (m : Result A) (f : A → Result B) {b : B}
      → (m >>= f) ≡ ok b
      → ((a : A) → m ≡ ok a → f a ≡ ok b → P)
      → P
  after_ok (ok a) f e k = k a refl e
  after_ok (err x) f e k = cc

  pub after_read :
      (o : Option A) (x : ZuptError) (f : A → Result B) {b : B}
      → (or_fail o x >>= f) ≡ ok b
      → ((a : A) → o ≡ some a → f a ≡ ok b → P)
      → P
  after_read none x f e k = cc
  after_read (some a) x f e k = k a refl e

module _ {κ μ} {B : Type κ} {P : Type μ} where
  pub after_fail_if :
      (bad : Bool) (x : ZuptError) (next : Result B) {b : B}
      → (fail_if bad x >> next) ≡ ok b
      → (bad ≡ false → next ≡ ok b → P)
      → P
  after_fail_if true x next e k = cc
  after_fail_if false x next e k = k refl e

pub ok-injective {ℓ} : {A : Type ℓ} {a b : A} → ok a ≡ ok b → a ≡ b
ok-injective e = cc

pub read_some {κ} :
    {B : Type κ} {b : B} (found : Option B) (code : ZuptError)
    → or_fail found code ≡ ok b
    → found ≡ some b
read_some (some c) code e = ap some (ok-injective e)
read_some none code e = cc
