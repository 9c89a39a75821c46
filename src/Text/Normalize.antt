-- ===== src/Text/Normalize.antt =====
-- zupt_normalize_archive_path of src/zupt_format.c gives a normal form.
use libvuptsdk.Common.{
  ℕ, ◌+◌, ◌≡◌, ap, inl, inr, refl, arith, List, [], ◌∷◌, Bool, true, false, ◌&&◌, if◌then◌else◌,
  Bool-cases,
}
use libvuptsdk.Text.{is_separator, within, normalize_loop, normalize_archive_path}

abbrev lower : Bool → ℕ → ℕ
lower fold c = if fold && within 0x41 0x5a c then c + 0x20 else c

lower-is_separator :
    (fold : Bool) (c : ℕ) → is_separator c ≡ false → is_separator (lower fold c) ≡ false
lower-is_separator true c h = ground arith
lower-is_separator false c h = h

lower-lower : (fold : Bool) (c : ℕ) → lower fold (lower fold c) ≡ lower fold c
lower-lower true c = ground arith
lower-lower false c = refl

normalize_loop-twice :
    (fold previous : Bool) (cs : List ℕ)
    → normalize_loop fold previous (normalize_loop fold previous cs)
      ≡ normalize_loop fold previous cs
unfolding normalize_loop
normalize_loop-twice fold previous [] = refl
normalize_loop-twice fold true (c ∷ cs) = elim (Bool-cases (is_separator c)) [
  | inl here ↦ rw (here, normalize_loop) (normalize_loop-twice fold true cs)
  | inr other ↦
      rw (other, normalize_loop, lower-is_separator fold c other, lower-lower fold c)
        (ap (λ t. lower fold c ∷ t) (normalize_loop-twice fold false cs))
]
normalize_loop-twice fold false (c ∷ cs) = elim (Bool-cases (is_separator c)) [
  | inl here ↦ rw (here, normalize_loop) (ap (λ t. 0x2f ∷ t) (normalize_loop-twice fold true cs))
  | inr other ↦
      rw (other, normalize_loop, lower-is_separator fold c other, lower-lower fold c)
        (ap (λ t. lower fold c ∷ t) (normalize_loop-twice fold false cs))
]

-- Normalizing a normalized path changes nothing, with the case folded or kept.
pub normalize-twice :
    (path : List ℕ) (fold_ascii : Bool)
    → normalize_archive_path (normalize_archive_path path fold_ascii) fold_ascii
      ≡ normalize_archive_path path fold_ascii
unfolding normalize_archive_path
normalize-twice path fold = normalize_loop-twice fold false path
