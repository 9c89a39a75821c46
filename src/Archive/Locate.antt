-- ===== src/Archive/Locate.antt =====
-- locate_footer_v15 of src/zupt_format.c: which layout a file has, from its last 64 bytes. A file
-- is the list of its bytes; a seek from the end is a drop, and fread reads on from there.
pub mod Layouts
use libvuptsdk.Common.{
  ℕ, ◌+◌, ◌-◌, ◌^◌, ◌<◌, ◌≡◌, List, [], ◌∷◌, ◌++◌, Bool, true, false, ◌||◌, ◌&&◌, not, Option, some,
  none, length, take, drop, get_or, ◌==◌, ltb, leb, if◌then◌else◌,
}
use libvuptsdk.Wire.Stream.{fread}
use libvuptsdk.Archive.Error.{
  Result, ok, err, io, corrupt, bad_version, ◌>>=◌, ◌>>◌, fail_if, or_fail,
}
use libvuptsdk.Archive.Header.{Footer, footer_size, deserialize_footer}

abbrev pub ait_size : ℕ
ait_size = 32

-- footer_magic is "ZEND"
unfoldable pub is_zend : List ℕ → Bool
is_zend m =
    get_or m 0 0 == b'Z' && get_or m 1 0 == b'E' && get_or m 2 0 == b'N' && get_or m 3 0 == b'D'

-- The layout of 1.4: a footer at the end and no trailer.
locate_legacy : List ℕ → Result (Footer × Option (List ℕ))
locate_legacy file = do
  (b, rest) ← or_fail (fread footer_size (drop (length file - footer_size) file)) io
  let t = deserialize_footer b
  fail_if (not (is_zend t.footer_magic)) corrupt
  fail_if (not (t.footer_version == 1)) bad_version
  ok (t, none)

-- The layout of 1.5 and later, where the 32 bytes before the last 32 could be read: `b` holds them,
-- and the trailer is next in the stream. Without the magic number the file may still be older.
locate_current : List ℕ → Option (List ℕ × List ℕ) → Result (Footer × Option (List ℕ))
unfolding locate_legacy
locate_current file none = locate_legacy file
locate_current file (some (b, rest)) =
    let cand = deserialize_footer b in
    if is_zend cand.footer_magic && cand.footer_version == 1
    then (or_fail (fread ait_size rest) io >>= λ r. ok (cand, some r.0))
    else locate_legacy file

-- `some` trailer is has_ait with ait_buf.
unfoldable pub locate_footer_v15 : List ℕ → Result (Footer × Option (List ℕ))
unfolding locate_legacy locate_current
locate_footer_v15 file =
    if ltb (length file) footer_size
    then err corrupt
    else if leb (footer_size + ait_size) (length file)
    then locate_current file
        (fread footer_size (drop (length file - (footer_size + ait_size)) file))
    else locate_legacy file
