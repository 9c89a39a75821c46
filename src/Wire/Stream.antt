-- ===== src/Wire/Stream.antt =====
-- A `FILE *` that is read from front to back: the bytes that are left. `fread` of `n` bytes fails
-- where fewer are left; errors of the device are not modelled.
use libvuptsdk.Common.{
  ℕ, ◌≡◌, arith, List, ◌++◌, Option, some, none, length, take, drop, take-append, drop-append, [],
  append-nil, length-take, take-append-drop, length-append, ltb, if◌then◌else◌,
}

unfoldable pub fread : ℕ → List ℕ → Option (List ℕ × List ℕ)
fread n s = if ltb (length s) n then none else some (take n s, drop n s)

-- A field is read back from in front of whatever follows it.
pub fread-append :
    (n : ℕ) (bytes rest : List ℕ) → length bytes ≡ n → fread n (bytes ++ rest) ≡ some (bytes, rest)
unfolding fread
fread-append n bytes rest e =
    ground (arith, length-append bytes rest, take-append bytes rest n e, drop-append bytes rest n e)

-- The last field of a file.
pub fread_all : (n : ℕ) (bytes : List ℕ) → length bytes ≡ n → fread n bytes ≡ some (bytes, [])
fread_all n bytes e = rw (append-nil bytes) at (fread-append n bytes [] e)

-- What is read has the length that was asked for.
pub length-fread :
    (n : ℕ) (s bytes rest : List ℕ) → fread n s ≡ some (bytes, rest) → length bytes ≡ n
unfolding fread
length-fread n s bytes rest e = ground (arith, length-take n s)

pub fread-split :
    (n : ℕ) (s bytes rest : List ℕ) → fread n s ≡ some (bytes, rest) → s ≡ bytes ++ rest
unfolding fread
fread-split n s bytes rest e = ground (arith, take-append-drop n s)
