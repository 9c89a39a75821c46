-- ===== src/Archive/Locate/Layouts.antt =====
-- The footer is found where a writer put it, and nothing without the magic number is accepted.
use libvuptsdk.Common.{
  ℕ, ◌+◌, ◌-◌, ◌≡◌, refl, arith, List, ◌++◌, true, false, Option, some, none, length, drop,
  length-append, drop-append, Option-cases, inl, inr, ltb, leb,
}
use libvuptsdk.Wire.Stream.{fread, fread-append, fread_all, length-fread}
use libvuptsdk.Archive.Error.{ok}
use libvuptsdk.Archive.Header.{Footer, IsFooter, serialize_footer}
use libvuptsdk.Archive.Header.RoundTrip.{deserialize-serialize_footer}
use libvuptsdk.Archive.Locate.{is_zend, locate_legacy, locate_current, locate_footer_v15}

-- A file whose body is followed by a footer of version 1 and a trailer of 32 bytes is recognised
-- as that layout: the footer and the trailer come back as they were written.
pub locate_footer-written :
    (body ait : List ℕ) (t : Footer)
    → IsFooter t
    → is_zend t.footer_magic ≡ true
    → t.footer_version ≡ 1
    → length ait ≡ 32
    → locate_footer_v15 (body ++ (serialize_footer t ++ ait)) ≡ ok (t, some ait)
unfolding locate_footer_v15
locate_footer-written body ait t valid zend one size =
    let (len, same) = deserialize-serialize_footer t valid in
    let total : length (body ++ (serialize_footer t ++ ait)) ≡ length body + 64 = omega (
      arith,
      len,
      length-append body (serialize_footer t ++ ait),
      length-append (serialize_footer t) ait,
    ) in
    let seek : length body + 64 - 64 ≡ length body = omega arith in
    let tests : ltb (length body + 64) 32 ≡ false = ground arith in
    let tests' : leb 64 (length body + 64) ≡ true = ground arith in
    rw
      (
        total,
        tests,
        tests',
        seek,
        drop-append body (serialize_footer t ++ ait) (length body) refl,
        fread-append 32 (serialize_footer t) ait len,
        same,
        zend,
        one,
        fread_all 32 ait size,
      )
      refl

-- What a caller may rely on.
abbrev pub Checked : Footer → Option (List ℕ) → Type 0
Checked t ait =
    (is_zend t.footer_magic ≡ true)
    × (t.footer_version ≡ 1)
    × ((trailer : List ℕ) → ait ≡ some trailer → length trailer ≡ 32)

legacy-Checked :
    (file : List ℕ) (t : Footer) (ait : Option (List ℕ))
    → locate_legacy file ≡ ok (t, ait)
    → Checked t ait
unfolding locate_legacy
legacy-Checked file t ait e = (ground arith, ground arith, λ trailer h. ground arith)

current-Checked :
    (file : List ℕ) (r : Option (List ℕ × List ℕ)) (t : Footer) (ait : Option (List ℕ))
    → locate_current file r ≡ ok (t, ait)
    → Checked t ait
unfolding locate_current
current-Checked file none t ait e = legacy-Checked file t ait e
current-Checked file (some (b, rest)) t ait e =
    let legacy = legacy-Checked file t ait in
    (
      ground (arith, legacy),
      ground (arith, legacy),
      λ trailer h. elim (Option-cases (fread 32 rest)) [
        | inl short ↦ ground (arith, legacy, short)
        | inr ((a, r), read) ↦ ground (arith, legacy, length-fread 32 rest a r read)
      ],
    )

-- Whatever is accepted, in either layout, has the magic number "ZEND" and version 1, and a trailer
-- has 32 bytes.
pub locate_footer-checked :
    (file : List ℕ) (t : Footer) (ait : Option (List ℕ))
    → locate_footer_v15 file ≡ ok (t, ait)
    → (is_zend t.footer_magic ≡ true)
      × (t.footer_version ≡ 1)
      × ((trailer : List ℕ) → ait ≡ some trailer → length trailer ≡ 32)
unfolding locate_footer_v15
locate_footer-checked file t ait e = ground (
  arith,
  legacy-Checked file t ait,
  current-Checked file (fread 32 (drop (length file - 64) file)) t ait,
)
