-- ===== src/Archive/Destinations/Distinct.antt =====
-- What zupt_validate_archive_destinations accepts has no two entries with one destination.
use mathlib.Core.Path.{subst}
use libvuptsdk.Common.{
  ℕ, ◌≡◌, ◌≢◌, sym, refl, ap, ◌∙◌, arith, List, [], ◌∷◌, Bool, true, false, ◌&&◌, not, ltb,
  Bool-cases, inl, inr, All, length, or_left, not-false, map,
}
use libvuptsdk.Text.{path_is_safe, normalize_archive_path}
use libvuptsdk.Archive.Error.{ok, err, invalid, after_ok, after_fail_if, ok-injective}
use libvuptsdk.Archive.Destinations.{
  strcmp, is_gt, is_eq, insert_key, sort_keys, collides, collision_loop, check_sorted, keys_loop,
  validate_archive_destinations,
}
use libvuptsdk.Archive.Destinations.Order.{
  Le, IsSorted, strcmp_self, Le_antisym, sort_keys-IsSorted,
}

abbrev pub Distinct : List (List ℕ) → Type 0
Distinct [] = Unit {0}
Distinct (k ∷ keys) = All (λ other. k ≢ other) keys × Distinct keys

All-insert_key_parts :
    (P : List ℕ → Type 0) (key : List ℕ) (keys : List (List ℕ))
    → All P (insert_key key keys)
    → P key × All P keys
unfolding insert_key
All-insert_key_parts P key [] h = h
All-insert_key_parts P key (k ∷ keys) h = elim (Bool-cases (is_gt (strcmp key k))) [
  | inl later ↦
      let (hk, rest) : P k × All P (insert_key key keys) = rw later at h in
      let (mine, others) = All-insert_key_parts P key keys rest in (mine, (hk, others))
  | inr here ↦ rw here at h
]

Distinct-insert_key :
    (key : List ℕ) (keys : List (List ℕ)) → Distinct (insert_key key keys) → Distinct (key ∷ keys)
unfolding insert_key
Distinct-insert_key key [] d = d
Distinct-insert_key key (k ∷ keys) d = elim (Bool-cases (is_gt (strcmp key k))) [
  | inl later ↦
      let (apart, rest) : All (λ other. k ≢ other) (insert_key key keys)
          × Distinct (insert_key key keys) =
        rw later at d in
      let (k-key, k-keys) = All-insert_key_parts (λ other. k ≢ other) key keys apart in
      let (key-keys, keys-apart) = Distinct-insert_key key keys rest in
      (((λ e. k-key (sym e)), key-keys), (k-keys, keys-apart))
  | inr here ↦ rw here at d
]

All-sort_keys : (P : List ℕ → Type 0) (keys : List (List ℕ)) → All P (sort_keys keys) → All P keys
unfolding sort_keys
All-sort_keys P [] h = tt
All-sort_keys P (k ∷ keys) h =
    let (one, rest) = All-insert_key_parts P k (sort_keys keys) h in
    (one, All-sort_keys P keys rest)

-- A sort loses no collision.
Distinct-sort_keys : (keys : List (List ℕ)) → Distinct (sort_keys keys) → Distinct keys
unfolding sort_keys
Distinct-sort_keys [] d = tt
Distinct-sort_keys (key ∷ keys) d =
    let (apart, rest) = Distinct-insert_key key (sort_keys keys) d in
    (All-sort_keys (λ other. key ≢ other) keys apart, Distinct-sort_keys keys rest)

-- The neighbour is another key, and everything behind it is at or above it.
Distinct_neighbour :
    (a b : List ℕ) (keys : List (List ℕ))
    → a ≢ b
    → Le a b
    → All (Le b) keys
    → All (λ other. a ≢ other) keys
Distinct_neighbour a b [] ne h hs = tt
Distinct_neighbour a b (k ∷ keys) ne h (hk, hs) =
    ((λ e. ne (Le_antisym a b h (rw (sym e) at hk))), Distinct_neighbour a b keys ne h hs)

collision_loop-Distinct :
    (previous : List ℕ) (keys : List (List ℕ))
    → IsSorted (previous ∷ keys)
    → collision_loop previous keys ≡ ok tt
    → Distinct (previous ∷ keys)
unfolding collision_loop collides
collision_loop-Distinct previous [] s e = (tt, tt)
collision_loop-Distinct previous (key ∷ keys) ((h, hs), (low, s)) e =
    elim (Bool-cases (collides previous key)) [
      | inl clash ↦ let refused : err invalid ≡ ok tt = rw clash at e in cc
      | inr free ↦
          let ne : previous ≢ key =
            λ same. cc (strcmp_self key, or_left (is_eq (strcmp previous key)) _ free) in
          let rest = collision_loop-Distinct key keys (low, s) (rw free at e) in
          ((ne, Distinct_neighbour previous key keys ne h low), rest)
    ]

check_sorted-Distinct :
    (keys : List (List ℕ)) → IsSorted keys → check_sorted keys ≡ ok tt → Distinct keys
check_sorted-Distinct [] s e = tt
check_sorted-Distinct (key ∷ keys) s e = collision_loop-Distinct key keys s e

abbrev pub destination : List ℕ → List ℕ
destination path = normalize_archive_path path true

abbrev pub IsSafe : Bool → List ℕ → Type 0
IsSafe require_safe_paths path = require_safe_paths ≡ true → path_is_safe path ≡ true

passed-IsSafe :
    (require_safe_paths : Bool) (path : List ℕ)
    → (require_safe_paths && not (path_is_safe path)) ≡ false
    → IsSafe require_safe_paths path
passed-IsSafe true path e r = not-false (path_is_safe path) e
passed-IsSafe false path e r = cc

keys_loop-destinations :
    (require_safe_paths : Bool) (paths keys : List (List ℕ))
    → keys_loop require_safe_paths paths ≡ ok keys
    → (keys ≡ map destination paths) × All (IsSafe require_safe_paths) paths
unfolding keys_loop
keys_loop-destinations r [] keys e = (sym (ok-injective e), tt)
keys_loop-destinations r (path ∷ paths) keys e =
    after_fail_if (r && not (path_is_safe path)) invalid _ e (λ safe e1.
      after_ok (keys_loop r paths) _ e1 (λ rest read e2.
        let (same, all) = keys_loop-destinations r paths rest read in
        (
          sym (ok-injective e2) ∙ ap (λ t. destination path ∷ t) same,
          (passed-IsSafe r path safe, all),
        )))

-- Paths that are accepted go to pairwise different destinations, compared without regard to the
-- case of ASCII letters and to the kind of their separators; where safe paths are asked for, each
-- of them is safe.
pub validate_archive_destinations-Distinct :
    (paths : List (List ℕ)) (require_safe_paths : Bool)
    → validate_archive_destinations paths require_safe_paths ≡ ok tt
    → Distinct (map destination paths) × All (IsSafe require_safe_paths) paths
unfolding validate_archive_destinations
validate_archive_destinations-Distinct [] r e = (tt, tt)
validate_archive_destinations-Distinct (path ∷ []) r e =
    elim (Bool-cases (r && not (path_is_safe path))) [
      | inl unsafe ↦ let refused : err invalid ≡ ok tt = rw unsafe at e in cc
      | inr safe ↦ ((tt, tt), (passed-IsSafe r path safe, tt))
    ]
validate_archive_destinations-Distinct (p ∷ q ∷ paths) r e =
    let many : ltb (length (p ∷ q ∷ paths)) 2 ≡ false = ground arith in
    after_ok (keys_loop r (p ∷ q ∷ paths)) _ (rw many at e) (λ keys read e1.
      let (same, all) = keys_loop-destinations r (p ∷ q ∷ paths) keys read in
      let apart =
        Distinct-sort_keys keys
          (check_sorted-Distinct (sort_keys keys) (sort_keys-IsSorted keys) e1) in
      (subst Distinct same apart, all))

keys_loop_unasked :
    (paths keys : List (List ℕ)) → keys_loop true paths ≡ ok keys → keys_loop false paths ≡ ok keys
unfolding keys_loop
keys_loop_unasked [] keys e = e
keys_loop_unasked (path ∷ paths) keys e =
    after_fail_if (not (path_is_safe path)) invalid _ e (λ safe e1.
      after_ok (keys_loop true paths) _ e1
        (λ rest read e2. rw (keys_loop_unasked paths rest read) e2))

-- What passes with safe paths asked for passes without.
pub validate_archive_destinations_unasked :
    (paths : List (List ℕ))
    → validate_archive_destinations paths true ≡ ok tt
    → validate_archive_destinations paths false ≡ ok tt
unfolding validate_archive_destinations
validate_archive_destinations_unasked [] e = refl
validate_archive_destinations_unasked (path ∷ []) e = refl
validate_archive_destinations_unasked (p ∷ q ∷ paths) e =
    let many : ltb (length (p ∷ q ∷ paths)) 2 ≡ false = ground arith in
    after_ok (keys_loop true (p ∷ q ∷ paths)) _ (rw many at e)
      (λ keys read e1. rw (many, keys_loop_unasked (p ∷ q ∷ paths) keys read) e1)
