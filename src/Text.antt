-- ===== src/Text.antt =====
-- Path names and text from an archive, src/zupt_format.c.
-- A C string is the list of its bytes before the NUL: reading at its end gives 0.
pub mod Confined
pub mod Normalize
use libvuptsdk.Common.{
  ℕ, zero, suc, ◌+◌, ◌-◌, ◌*◌, ◌^◌, ◌≤◌, ◌<◌, bit_and, bit_or, List, [], ◌∷◌, ◌++◌, Bool, true,
  false, ◌&&◌, ◌||◌, not, Option, some, none, ltb, leb, ◌==◌, if◌then◌else◌, length, get_or, take,
  drop,
}

abbrev pub within : ℕ → ℕ → ℕ → Bool
within low high c = leb low c && leb c high

-- The length and the code point of the first scalar; none is a length of 0.
unfoldable pub decode_utf8_scalar : List ℕ → Option (ℕ × ℕ)
decode_utf8_scalar text =
    let a = get_or text 0 0 in
    let b = get_or text 1 0 in
    let c = get_or text 2 0 in
    let d = get_or text 3 0 in
    if ltb a 0x80
    then some (1, a)
    else (if b == 0
        then none
        else (if within 0xc2 0xdf a && bit_and b 0xc0 == 0x80
            then some (2, bit_or (bit_and a 0x1f * 2 ^ 6) (bit_and b 0x3f))
            else (if c == 0
                then none
                else (if not (bit_and c 0xc0 == 0x80)
                    then none
                    else (if (a == 0xe0 && within 0xa0 0xbf b)
                          || ((within 0xe1 0xec a && bit_and b 0xc0 == 0x80)
                              || ((a == 0xed && within 0x80 0x9f b)
                                  || (within 0xee 0xef a && bit_and b 0xc0 == 0x80)))
                        then some (
                          3,
                          bit_or (bit_or (bit_and a 0x0f * 2 ^ 12) (bit_and b 0x3f * 2 ^ 6))
                              (bit_and c 0x3f),
                        )
                        else (if d == 0
                            then none
                            else (if not (bit_and d 0xc0 == 0x80)
                                then none
                                else (if not (
                                      (a == 0xf0 && within 0x90 0xbf b)
                                      || ((within 0xf1 0xf3 a && bit_and b 0xc0 == 0x80)
                                          || (a == 0xf4 && within 0x80 0x8f b)))
                                    then none
                                    else some (
                                      4,
                                      bit_or
                                          (bit_or
                                            (bit_or (bit_and a 0x07 * 2 ^ 18)
                                              (bit_and b 0x3f * 2 ^ 12))
                                            (bit_and c 0x3f * 2 ^ 6))
                                          (bit_and d 0x3f),
                                    )))))))))

unfoldable pub codepoint_is_display_control : ℕ → Bool
codepoint_is_display_control cp =
    ltb cp 0x20
    || (within 0x7f 0x9f cp
        || (cp == 0x061c
            || (within 0x200b 0x200f cp
                || (within 0x2028 0x202e cp
                    || (within 0x2060 0x206f cp || (cp == 0xfeff || within 0xfff9 0xfffb cp))))))

-- One round is one scalar. As many rounds as bytes read the text to its end.
unfoldable pub unsafe_loop : ℕ → List ℕ → Bool
unsafe_loop fuel [] = false
unsafe_loop zero (b ∷ text) = true
unsafe_loop (suc fuel) (b ∷ text) = elim (decode_utf8_scalar (b ∷ text)) [
  | none ↦ true
  | some (len, cp) ↦
      let rest = unsafe_loop fuel (drop len (b ∷ text)) in
      if codepoint_is_display_control cp then true else rest
]

unfoldable pub path_has_unsafe_text : List ℕ → Bool
path_has_unsafe_text path = unsafe_loop (length path) path

abbrev pub upper : ℕ → ℕ
upper a = if within 0x61 0x7a a then a - 0x20 else a

-- The literal has no lower-case letter in it; both sides are raised as in the source.
unfoldable pub ascii_equal_ci : List ℕ → List ℕ → Bool
ascii_equal_ci [] [] = true
ascii_equal_ci [] (b ∷ bs) = false
ascii_equal_ci (a ∷ more) [] = false
ascii_equal_ci (a ∷ more) (b ∷ bs) =
    let rest = ascii_equal_ci more bs in if upper a == upper b then rest else false

-- The component up to its first dot.
unfoldable pub base_of : List ℕ → List ℕ
base_of [] = []
base_of (c ∷ cs) = let rest = c ∷ base_of cs in if c == 0x2e then [] else rest

-- "CON", "PRN", "AUX" and "NUL", then COM1 to COM9 and LPT1 to LPT9.
unfoldable pub is_reserved_dos_name : List ℕ → Bool
is_reserved_dos_name component =
    let base = base_of component in
    let device = λ (x y z : ℕ).
      (get_or component 0 0 == x || get_or component 0 0 == x + 0x20)
      && ((get_or component 1 0 == y || get_or component 1 0 == y + 0x20)
          && ((get_or component 2 0 == z || get_or component 2 0 == z + 0x20)
              && within 0x31 0x39 (get_or component 3 0))) in
    (ascii_equal_ci base (0x43 ∷ 0x4f ∷ 0x4e ∷ [])
      || (ascii_equal_ci base (0x50 ∷ 0x52 ∷ 0x4e ∷ [])
          || (ascii_equal_ci base (0x41 ∷ 0x55 ∷ 0x58 ∷ [])
              || ascii_equal_ci base (0x4e ∷ 0x55 ∷ 0x4c ∷ []))))
    || ((length base == 4 && device 0x43 0x4f 0x4d) || (length base == 4 && device 0x4c 0x50 0x54))

abbrev pub is_separator : ℕ → Bool
is_separator c = c == 0x2f || c == 0x5c

unfoldable pub has_control : List ℕ → Bool
has_control [] = false
has_control (c ∷ cs) = let rest = has_control cs in if ltb c 0x20 || c == 0x7f then true else rest

-- The tests of a component that is not empty.
unfoldable pub component_is_safe : List ℕ → Bool
component_is_safe component =
    let len = length component in
    let last = get_or component (len - 1) 0 in
    not (
      (len == 1 && get_or component 0 0 == 0x2e)
      || (len == 2 && (get_or component 0 0 == 0x2e && get_or component 1 0 == 0x2e)))
    && (not (last == 0x2e || (last == 0x20 || is_reserved_dos_name component))
        && not (has_control component))

-- `component` is what stands between `start` and the position.
unfoldable pub component_scan : List ℕ → List ℕ → Bool
component_scan [] component = if length component == 0 then false else component_is_safe component
component_scan (c ∷ cs) component = elim (is_separator c) [
  | true ↦
      let rest = component_scan cs [] in
      if length component == 0 then rest else component_is_safe component && rest
  | false ↦ component_scan cs (component ++ (c ∷ []))
]

unfoldable pub has_byte : ℕ → List ℕ → Bool
has_byte b [] = false
has_byte b (c ∷ cs) = let rest = has_byte b cs in if c == b then true else rest

abbrev pub max_path : ℕ
max_path = 4096

unfoldable pub path_is_safe : List ℕ → Bool
path_is_safe path =
    if length path == 0
    then false
    else (if leb max_path (length path)
        then false
        else (if path_has_unsafe_text path
            then false
            else (if get_or path 0 0 == 0x2f || get_or path 0 0 == 0x5c
                then false
                else (if has_byte 0x3a path then false else component_scan path []))))

-- The path with runs of separators made one `/`, and upper-case letters lowered on demand.
unfoldable pub normalize_loop : Bool → Bool → List ℕ → List ℕ
normalize_loop fold_ascii previous [] = []
normalize_loop fold_ascii previous (c ∷ cs) = elim (is_separator c) [
  | true ↦ let rest = normalize_loop fold_ascii true cs in if previous then rest else 0x2f ∷ rest
  | false ↦
      (if fold_ascii && within 0x41 0x5a c then c + 0x20 else c)
      ∷ normalize_loop fold_ascii false cs
]

unfoldable pub normalize_archive_path : List ℕ → Bool → List ℕ
normalize_archive_path path fold_ascii = normalize_loop fold_ascii false path
