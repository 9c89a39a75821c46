-- ===== src/Lz/Decode.antt =====
-- What the decoder of src/zupt_lz.c reads back from the parts that the encoder writes.
use libvuptsdk.Common.{
  ℕ, zero, suc, ◌+◌, ◌-◌, ◌/◌, ◌%◌, ◌≤◌, ◌<◌, ◌≡◌, ◌∙◌, sym, ap, inl, inr, refl, arith, List, [],
  ◌∷◌, ◌++◌, true, false, some, ltb, leb, ◌==◌, if◌then◌else◌, Bool-cases, length, get_or, take,
  drop, leb→le,
}
use libvuptsdk.Lz.{copy_match, lz_read_extra, lz_write_extra, read_length, nibble}

module _ {ℓ} {A : Type ℓ} where
  pub get_or-take :
      (n : ℕ) (xs : List A) (i : ℕ) (d : A) → i < n → get_or (take n xs) i d ≡ get_or xs i d
  get_or-take zero xs i d h = absurd (omega arith)
  get_or-take (suc n) [] i d h = refl
  get_or-take (suc n) (x ∷ xs) zero d h = refl
  get_or-take (suc n) (x ∷ xs) (suc i) d h = get_or-take n xs i d (omega arith)

  pub take-snoc :
      (i : ℕ) (xs : List A) (d : A)
      → i < length xs
      → take i xs ++ (get_or xs i d ∷ []) ≡ take (suc i) xs
  take-snoc i [] d h = absurd (omega arith)
  take-snoc zero (x ∷ xs) d h = refl
  take-snoc (suc i) (x ∷ xs) d h = ap (λ t. x ∷ t) (take-snoc i xs d (omega arith))

  take-nil : (n : ℕ) → take {A = A} n [] ≡ []
  take-nil zero = refl
  take-nil (suc n) = refl

  pub take-more : (p n : ℕ) (xs : List A) → take p xs ++ take n (drop p xs) ≡ take (p + n) xs
  take-more zero n xs = let plain : 0 + n ≡ n = omega arith in rw plain refl
  take-more (suc p) n [] =
      let next : suc p + n ≡ suc (p + n) = omega arith in rw (next, take-nil n) refl
  take-more (suc p) n (x ∷ xs) =
      let next : suc p + n ≡ suc (p + n) = omega arith in
      rw next (ap (λ t. x ∷ t) (take-more p n xs))

add-zero : (n : ℕ) → n + 0 ≡ n
add-zero n = omega arith

-- The copy, byte by byte, extends a prefix of the source to a longer one; it may read what it wrote.
pub copy_match-take :
    (src : List ℕ) (off q left : ℕ)
    → 1 ≤ off
    → off ≤ q
    → q + left ≤ length src
    → ((k : ℕ) → k < left → get_or src (q - off + k) 0 ≡ get_or src (q + k) 0)
    → copy_match (take q src) (q - off) left ≡ take (q + left) src
unfolding copy_match
copy_match-take src off q zero back inside within agrees =
    let plain : q + 0 ≡ q = omega arith in rw plain refl
copy_match-take src off q (suc left) back inside within agrees =
    let first : get_or (take q src) (q - off) 0 ≡ get_or src q 0 =
      get_or-take q src (q - off) 0 (omega arith)
      ∙ sym (ap (λ n. get_or src n 0) (add-zero (q - off)))
      ∙ agrees 0 (omega arith)
      ∙ ap (λ n. get_or src n 0) (add-zero q) in
    let moved : q - off + 1 ≡ q + 1 - off = omega arith in
    let plus : suc q ≡ q + 1 = omega arith in
    let done : q + suc left ≡ q + 1 + left = omega arith in
    rw (first, take-snoc q src 0 (omega arith), plus, moved, done)
      (copy_match-take src off (q + 1) left back (omega arith) (omega arith) (λ k p.
        let a : q + 1 - off + k ≡ q - off + suc k = omega arith in
        let b : q + 1 + k ≡ q + suc k = omega arith in rw (a, b) (agrees (suc k) (omega arith))))

pub read_extra-write_extra :
    (cap len t : ℕ) (rest : List ℕ)
    → len / 255 + 1 ≤ cap
    → t + len ≤ 4294967040
    → lz_read_extra (lz_write_extra cap len ++ rest) t ≡ some (t + len, rest)
unfolding lz_read_extra lz_write_extra
read_extra-write_extra zero len t rest room small = absurd (omega arith)
read_extra-write_extra (suc cap) len t rest room small = elim (Bool-cases (leb 255 len)) [
  | inl more ↦
      let within : ltb 4294967040 t ≡ false = ground arith in
      let sum : t + 255 + (len - 255) ≡ t + len = ground arith in
      rw (more, within, sym sum)
        (read_extra-write_extra cap (len - 255) (t + 255) rest (omega (arith, leb→le 255 len more))
          (ground arith))
  | inr less ↦
      let within : ltb 4294967040 t ≡ false = ground arith in
      let byte : len % 256 ≡ len = ground arith in
      let last : ltb len 255 ≡ true = ground arith in rw (less, within, byte, last) refl
]

pub read_length-written :
    (n cap base plain init : ℕ) (rest : List ℕ)
    → plain ≡ nibble n + base
    → init ≡ 15 + base
    → n / 255 + 1 ≤ cap
    → n + base ≤ 4294967040
    → read_length
        (nibble n)
        plain
        init
        ((if leb 15 n then lz_write_extra cap (n - 15) else []) ++ rest)
      ≡ some (n + base, rest)
read_length-written n cap base plain init rest ep ei room small = elim (Bool-cases (leb 15 n)) [
  | inl long ↦
      let sum : init + (n - 15) ≡ n + base = ground arith in
      rw (long, sym sum)
        (read_extra-write_extra cap (n - 15) init rest (omega arith) (ground arith))
  | inr short ↦
      let low : n == 15 ≡ false = ground arith in
      let all : plain ≡ n + base = rw ep (rw short refl) in rw (short, low, all) refl
]
