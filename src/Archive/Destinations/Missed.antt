-- ===== src/Archive/Destinations/Missed.antt =====
-- What zupt_validate_archive_destinations of src/zupt_format.c lets through: a file and a directory
-- of one name, with another name sorted between them.
use Prim.Native.Nat.{Ordering}
use libvuptsdk.Common.{
  ℕ, ◌<◌, ◌≡◌, ap, refl, arith, List, [], ◌∷◌, ◌++◌, Bool, true, false, All, All-append, length,
  get_or,
}
use libvuptsdk.Text.{is_separator, within, normalize_loop, normalize_archive_path}
use libvuptsdk.Archive.Error.{ok}
use libvuptsdk.Archive.Destinations.{
  strcmp, insert_key, sort_keys, is_prefix, collides, collision_loop, check_sorted, keys_loop,
  validate_archive_destinations,
}

-- A byte that normalization leaves as it is.
abbrev pub IsKept : ℕ → Type 0
IsKept c = (is_separator c ≡ false) × (within 0x41 0x5a c ≡ false)

normalize_loop_kept :
    (previous : Bool) (p : List ℕ) → All IsKept p → normalize_loop true previous p ≡ p
unfolding normalize_loop
normalize_loop_kept previous [] h = refl
normalize_loop_kept previous (x ∷ p) ((plain, low), h) =
    rw (plain, low, normalize_loop) (ap (λ t. x ∷ t) (normalize_loop_kept false p h))

normalize_loop_joined :
    (p r : List ℕ)
    → All IsKept p
    → All IsKept r
    → normalize_loop true false (p ++ (0x2f ∷ r)) ≡ p ++ (0x2f ∷ r)
unfolding normalize_loop
normalize_loop_joined [] r h k = ap (λ t. 0x2f ∷ t) (normalize_loop_kept true r k)
normalize_loop_joined (x ∷ p) r ((plain, low), h) k =
    rw (plain, low, normalize_loop) (ap (λ t. x ∷ t) (normalize_loop_joined p r h k))

strcmp_longer : (p : List ℕ) (c : ℕ) (q : List ℕ) → strcmp p (p ++ (c ∷ q)) ≡ Ordering.lt
unfolding strcmp
strcmp_longer [] c q = refl
strcmp_longer (x ∷ p) c q = ground (arith, strcmp_longer p c q)

strcmp_branch :
    (p q r : List ℕ) (c d : ℕ) → c < d → strcmp (p ++ (c ∷ q)) (p ++ (d ∷ r)) ≡ Ordering.lt
unfolding strcmp
strcmp_branch [] q r c d h = ground arith
strcmp_branch (x ∷ p) q r c d h = ground (arith, strcmp_branch p q r c d)

is_prefix_branch :
    (p q r : List ℕ) (c d : ℕ) → c < d → is_prefix (p ++ (c ∷ q)) (p ++ (d ∷ r)) ≡ false
unfolding is_prefix
is_prefix_branch [] q r c d h = ground arith
is_prefix_branch (x ∷ p) q r c d h = ground (arith, is_prefix_branch p q r c d)

next_byte : (p : List ℕ) (c : ℕ) (q : List ℕ) → get_or (p ++ (c ∷ q)) (length p) 0 ≡ c
next_byte [] c q = refl
next_byte (x ∷ p) c q = next_byte p c q

is_prefix-append : (p q : List ℕ) → is_prefix p (p ++ q) ≡ true
unfolding is_prefix
is_prefix-append [] q = refl
is_prefix-append (x ∷ p) q = ground (arith, is_prefix-append p q)

collides_below : (p r : List ℕ) → collides p (p ++ (0x2f ∷ r)) ≡ true
unfolding collides
collides_below p r =
    rw (strcmp_longer p 0x2f r, is_prefix-append p (0x2f ∷ r), next_byte p 0x2f r) refl

-- The three paths: a file, a longer name with a dot, and a file in a directory with the name of
-- the first.
module _ (p q r : List ℕ) where
  abbrev dotted : List ℕ
  dotted = p ++ (0x2e ∷ q)

  abbrev below : List ℕ
  below = p ++ (0x2f ∷ r)

  sorted_as_given : sort_keys (p ∷ dotted ∷ below ∷ []) ≡ p ∷ dotted ∷ below ∷ []
  unfolding sort_keys insert_key
  sorted_as_given = rw (strcmp_branch p q r 0x2e 0x2f (omega arith), strcmp_longer p 0x2e q) refl

  no_neighbours_collide : check_sorted (p ∷ dotted ∷ below ∷ []) ≡ ok tt
  unfolding collision_loop collides
  no_neighbours_collide =
      rw
        (
          strcmp_longer p 0x2e q,
          next_byte p 0x2e q,
          strcmp_branch p q r 0x2e 0x2f (omega arith),
          is_prefix_branch p q r 0x2e 0x2f (omega arith),
        )
        (ground arith)

  normalized :
      All IsKept p
      → All IsKept q
      → All IsKept r
      → keys_loop false (p ∷ dotted ∷ below ∷ []) ≡ ok (p ∷ dotted ∷ below ∷ [])
  unfolding keys_loop normalize_archive_path
  normalized hp hq hr =
      let dot : IsKept 0x2e = (refl, refl) in
      rw
        (
          normalize_loop_kept false p hp,
          normalize_loop_kept false dotted (All-append IsKept p (0x2e ∷ q) hp (dot, hq)),
          normalize_loop_joined p r hp hr,
        )
        refl

-- Let p, q and r be names without separators and without upper-case letters. The paths p, p.q and
-- p/r are accepted together, although p is a file and p/r needs a directory of the same name: the
-- test looks at neighbours only, and p.q stands between the two in the order of the keys.
pub validate_archive_destinations_missed :
    (p q r : List ℕ)
    → All IsKept p
    → All IsKept q
    → All IsKept r
    → (validate_archive_destinations (p ∷ (p ++ (0x2e ∷ q)) ∷ (p ++ (0x2f ∷ r)) ∷ []) false ≡ ok tt)
      × (collides p (p ++ (0x2f ∷ r)) ≡ true)
unfolding validate_archive_destinations
validate_archive_destinations_missed p q r hp hq hr = (
  rw (normalized p q r hp hq hr, sorted_as_given p q r) (no_neighbours_collide p q r),
  collides_below p r,
)
