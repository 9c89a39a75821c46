-- ===== src/Archive/Trailer.antt =====
-- The archive integrity trailer of src/zupt_format.c: ait_serialize_mac_input,
-- zupt_format_ait_write, ait_verify. The digests are arguments: zupt_hmac_sha256 of a key and a
-- message, and zupt_xxh64 of a message with seed 0.
pub mod Integrity
use libvuptsdk.Common.{
  ℕ, ◌^◌, ◌<◌, ◌≡◌, List, [], ◌∷◌, ◌++◌, Bool, true, false, Option, some, none, length, take, ◌==◌,
  if◌then◌else◌, replicate, All, IsByte, not, ◌&&◌,
}
use libvuptsdk.Wire.Fixed.{le64_put}
use libvuptsdk.Compare.{ct_memeq, mem_equal}
use libvuptsdk.Archive.Error.{Result, ok, err, auth_fail, bad_checksum}
use libvuptsdk.Archive.Header.{ArchiveHeader, Footer, serialize_archive_header, serialize_footer}
use libvuptsdk.Archive.Locate.{ait_size}

-- The fields of zupt_keyring_t that archives use; the canaries and the salt have no part in them.
pub record Keyring : Type 0 where
  pub enc_key : List ℕ
  pub mac_key : List ℕ
  pub active : Bool
  pub use_preface_aad : Bool

-- What the archive code relies on: a tag of 32 bytes, and a 64-bit checksum.
pub record Digests : Type 0 where
  pub hmac_sha256 : List ℕ → List ℕ → List ℕ
  pub xxh64 : List ℕ → ℕ
  pub hmac_size : (key message : List ℕ) → length (hmac_sha256 key message) ≡ 32
  pub hmac_bytes : (key message : List ℕ) → All IsByte (hmac_sha256 key message)
  pub xxh64_range : (message : List ℕ) → xxh64 message < 2 ^ 64

unfoldable pub ait_serialize_mac_input : ArchiveHeader → Footer → List ℕ
ait_serialize_mac_input h t = serialize_archive_header h ++ take 24 (serialize_footer t)

-- kr_or_null && kr_or_null->active
abbrev pub is_active : Option Keyring → Bool
is_active none = false
is_active (some kr) = kr.active

module _ (d : Digests) where
  -- The tag over a message, for a keyring or without one.
  unfoldable pub ait_tag : Option Keyring → List ℕ → List ℕ
  ait_tag none message = le64_put (d.xxh64 message) ++ replicate 24 0
  ait_tag (some kr) message =
      if kr.active
      then d.hmac_sha256 kr.mac_key message
      else le64_put (d.xxh64 message) ++ replicate 24 0

  -- The 32 bytes that zupt_format_ait_write appends.
  unfoldable pub ait_write : ArchiveHeader → Footer → Option Keyring → List ℕ
  ait_write h t kr = ait_tag kr (ait_serialize_mac_input h t)

  unfoldable pub ait_verify : ArchiveHeader → Footer → List ℕ → Option Keyring → Result (Unit {0})
  ait_verify h t ait kr =
      let expected = ait_tag kr (ait_serialize_mac_input h t) in
      if is_active kr
      then (if ct_memeq expected ait ait_size == 1 then ok tt else err auth_fail)
      else (if mem_equal expected ait then ok tt else err bad_checksum)
