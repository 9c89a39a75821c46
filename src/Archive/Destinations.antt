-- ===== src/Archive/Destinations.antt =====
-- zupt_validate_archive_destinations of src/zupt_format.c, as built without _WIN32. The array is
-- there and its count is the length of the list; allocation does not fail.
pub mod Order
pub mod Distinct
pub mod Missed
use Prim.Native.Nat.{compare, Ordering}
use libvuptsdk.Common.{
  ℕ, List, [], ◌∷◌, Bool, true, false, ◌&&◌, ◌||◌, not, ltb, ◌==◌, if◌then◌else◌, length, get_or,
}
use libvuptsdk.Text.{path_is_safe, normalize_archive_path}
use libvuptsdk.Archive.Error.{Result, ok, err, invalid, ◌>>=◌, ◌>>◌, fail_if}

-- strcmp of two C strings: the order of their bytes, a proper prefix first.
unfoldable pub strcmp : List ℕ → List ℕ → Ordering
strcmp [] [] = Ordering.eq
strcmp [] (b ∷ bs) = Ordering.lt
strcmp (a ∷ more) [] = Ordering.gt
strcmp (a ∷ more) (b ∷ bs) =
    let rest = strcmp more bs in
    elim (compare a b) [
      | Ordering.lt ↦ Ordering.lt
      | Ordering.eq ↦ rest
      | Ordering.gt ↦ Ordering.gt
    ]

abbrev pub is_gt : Ordering → Bool
is_gt Ordering.lt = false
is_gt Ordering.eq = false
is_gt Ordering.gt = true

abbrev pub is_eq : Ordering → Bool
is_eq Ordering.lt = false
is_eq Ordering.eq = true
is_eq Ordering.gt = false

-- qsort by strcmp: the order is total and equal keys are the same string, so that every sort gives
-- the same list.
unfoldable pub insert_key : List ℕ → List (List ℕ) → List (List ℕ)
insert_key key [] = key ∷ []
insert_key key (k ∷ keys) =
    let rest = k ∷ insert_key key keys in if is_gt (strcmp key k) then rest else key ∷ k ∷ keys

unfoldable pub sort_keys : List (List ℕ) → List (List ℕ)
sort_keys [] = []
sort_keys (key ∷ keys) = insert_key key (sort_keys keys)

-- strncmp(a, b, strlen(a)) == 0
unfoldable pub is_prefix : List ℕ → List ℕ → Bool
is_prefix [] b = true
is_prefix (x ∷ a) [] = false
is_prefix (x ∷ a) (y ∷ b) = let rest = is_prefix a b in if x == y then rest else false

unfoldable pub collides : List ℕ → List ℕ → Bool
collides previous key =
    is_eq (strcmp previous key)
    || (is_prefix previous key && get_or key (length previous) 0 == 0x2f)

-- The loop over the sorted keys behind `previous`.
unfoldable pub collision_loop : List ℕ → List (List ℕ) → Result (Unit {0})
collision_loop previous [] = ok tt
collision_loop previous (key ∷ keys) =
    let rest = collision_loop key keys in if collides previous key then err invalid else rest

abbrev pub check_sorted : List (List ℕ) → Result (Unit {0})
check_sorted [] = ok tt
check_sorted (key ∷ keys) = collision_loop key keys

-- The keys of the paths, or the error of the first unsafe path.
unfoldable pub keys_loop : Bool → List (List ℕ) → Result (List (List ℕ))
keys_loop require_safe_paths [] = ok []
keys_loop require_safe_paths (path ∷ paths) =
    fail_if (require_safe_paths && not (path_is_safe path)) invalid
    >> (keys_loop require_safe_paths paths >>= λ keys. ok (normalize_archive_path path true ∷ keys))

-- One path has nothing to collide with.
unfoldable pub validate_archive_destinations : List (List ℕ) → Bool → Result (Unit {0})
validate_archive_destinations paths require_safe_paths =
    if ltb (length paths) 2
    then fail_if
        (length paths == 1 && (require_safe_paths && not (path_is_safe (get_or paths 0 []))))
        invalid
    else (keys_loop require_safe_paths paths >>= λ keys. check_sorted (sort_keys keys))
