-- ===== src/Examples/Paths.antt =====
-- Path names, src/zupt_format.c.
use libvuptsdk.Common.{ℕ, ◌≡◌, refl, List, [], ◌∷◌, true, false}
use libvuptsdk.Text.{
  path_is_safe, path_has_unsafe_text, unsafe_loop, decode_utf8_scalar, codepoint_is_display_control,
  has_byte, component_scan, component_is_safe, is_reserved_dos_name, ascii_equal_ci, base_of,
  has_control,
}
use libvuptsdk.Text.Confined.{IsConfined, path_is_safe-IsConfined}

-- "a/b"
abbrev a_slash_b : List ℕ
a_slash_b = 97 ∷ 47 ∷ 98 ∷ []

-- "A//b"
abbrev doubled : List ℕ
doubled = 65 ∷ 47 ∷ 47 ∷ 98 ∷ []

accepts_plain : path_is_safe a_slash_b ≡ true
unfolding path_is_safe path_has_unsafe_text unsafe_loop decode_utf8_scalar
    codepoint_is_display_control has_byte component_scan component_is_safe is_reserved_dos_name
    ascii_equal_ci base_of has_control
accepts_plain = refl

-- "a/../b", "/a", "a:b" and "nul.t"
refuses :
    (path_is_safe (97 ∷ 47 ∷ 46 ∷ 46 ∷ 47 ∷ 98 ∷ []) ≡ false)
    × (path_is_safe (47 ∷ 97 ∷ []) ≡ false)
    × (path_is_safe (97 ∷ 58 ∷ 98 ∷ []) ≡ false)
    × (path_is_safe (110 ∷ 117 ∷ 108 ∷ 46 ∷ 116 ∷ []) ≡ false)
unfolding path_is_safe path_has_unsafe_text unsafe_loop decode_utf8_scalar
    codepoint_is_display_control has_byte component_scan component_is_safe is_reserved_dos_name
    ascii_equal_ci base_of has_control
refuses = (refl, refl, refl, refl)

path_is_safe-IsConfined_example : IsConfined a_slash_b
path_is_safe-IsConfined_example = path_is_safe-IsConfined a_slash_b accepts_plain
