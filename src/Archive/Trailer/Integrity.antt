-- ===== src/Archive/Trailer/Integrity.antt =====
-- The trailer accepts exactly what was written, and it covers the whole header and the numbers of
-- the footer.
use libvuptsdk.Common.{
  ℕ, ◌≡◌, ◌↔◌, ap, sym, ◌∙◌, arith, List, [], ◌++◌, Bool, true, false, Option, some, none, length,
  take, drop, length-append, take-append, drop-append, All, IsByte, All-append, replicate, ◌==◌,
  Bool-cases, inl, inr, ◌≢◌, if◌then◌else◌,
}
use libvuptsdk.Wire.Fixed.{le64_put, le64_get}
use libvuptsdk.Wire.Fixed.RoundTrip.{le64_get-le64_put, length-le64_put, le64_put-IsByte}
use libvuptsdk.Compare.{ct_memeq, mem_equal}
use libvuptsdk.Compare.Exact.{ct_memeq-exact, mem_equal_iff}
use libvuptsdk.Archive.Error.{Result, ok, err, auth_fail, bad_checksum}
use libvuptsdk.Archive.Header.{
  ArchiveHeader, Footer, IsHeader, IsFooter, serialize_archive_header, serialize_footer,
  deserialize_archive_header,
}
use libvuptsdk.Archive.Header.RoundTrip.{deserialize-serialize_header}
use libvuptsdk.Archive.Trailer.{
  Keyring, Digests, ait_serialize_mac_input, is_active, ait_tag, ait_write, ait_verify,
}

module _ (d : Digests) (h : ArchiveHeader) (t : Footer) where
  tag_of_checksum : (x : ℕ) → length (le64_put x ++ replicate 24 0) ≡ 32
  tag_of_checksum x = omega (arith, length-append (le64_put x) (replicate 24 0), length-le64_put x)

  bytes_of_checksum : (x : ℕ) → All IsByte (le64_put x ++ replicate 24 0)
  bytes_of_checksum x =
      All-append IsByte (le64_put x) (replicate 24 0) (le64_put-IsByte x) (omega arith)

  pub ait_write_shape :
      (kr : Option Keyring) → (length (ait_write d h t kr) ≡ 32) × All IsByte (ait_write d h t kr)
  unfolding ait_write ait_tag
  ait_write_shape none = (tag_of_checksum _, bytes_of_checksum _)
  ait_write_shape (some kr) = elim (Bool-cases kr.active) [
    | inl on ↦ rw on (d.hmac_size kr.mac_key _, d.hmac_bytes kr.mac_key _)
    | inr off ↦ rw off (tag_of_checksum _, bytes_of_checksum _)
  ]

-- The decision on an expected tag and the one in the file.
decide_tag :
    (on : Bool) (expected ait : List ℕ)
    → ((ct_memeq expected ait 32 ≡ 1) ↔ (expected ≡ ait))
    → let result : Result (Unit {0}) =
        if on
        then (if ct_memeq expected ait 32 == 1 then ok tt else err auth_fail)
        else (if mem_equal expected ait then ok tt else err bad_checksum) in
      ((result ≡ ok tt) ↔ (ait ≡ expected))
      × (ait ≢ expected → result ≡ err (if on then auth_fail else bad_checksum))
decide_tag true expected ait h = ((λ e. ground arith, λ e. ground arith), λ ne. ground arith)
decide_tag false expected ait h =
    let m = mem_equal_iff expected ait in
    ((λ e. ground (arith, m), λ e. ground (arith, m)), λ ne. ground (arith, m))

-- A trailer is accepted exactly if it is what zupt_format_ait_write appends for the same header,
-- footer and keyring. Any other is refused: as a failed authentication with a keyring in use, as a
-- bad checksum without.
pub ait_verify-exact :
    (d : Digests) (h : ArchiveHeader) (t : Footer) (kr : Option Keyring) (ait : List ℕ)
    → length ait ≡ 32
    → All IsByte ait
    → ((ait_verify d h t ait kr ≡ ok tt) ↔ (ait ≡ ait_write d h t kr))
      × (ait ≢ ait_write d h t kr
          → ait_verify d h t ait kr ≡ err (if is_active kr then auth_fail else bad_checksum))
unfolding ait_verify ait_write
ait_verify-exact d h t kr ait size bytes =
    let (size', bytes') = ait_write_shape d h t kr in
    decide_tag (is_active kr) (ait_write d h t kr) ait
      (ct_memeq-exact (ait_write d h t kr) ait 32 size' size bytes' bytes)

footer_numbers :
    (t : Footer)
    → IsFooter t
    → (le64_get (take 24 (serialize_footer t)) ≡ t.index_offset)
      × (le64_get (drop 8 (take 24 (serialize_footer t))) ≡ t.total_blocks)
      × (le64_get (drop 16 (take 24 (serialize_footer t))) ≡ t.archive_checksum)
unfolding serialize_footer le64_put le64_get
footer_numbers t valid = (
  le64_get-le64_put t.index_offset [] valid.index_range,
  le64_get-le64_put t.total_blocks [] valid.blocks_range,
  le64_get-le64_put t.archive_checksum [] valid.checksum_range,
)

-- What the trailer is computed from fixes the header and the three numbers of the footer: archives
-- that differ in one of those have different inputs to the digest.
pub mac_input-injective :
    (h h' : ArchiveHeader) (t t' : Footer)
    → IsHeader h
    → IsHeader h'
    → IsFooter t
    → IsFooter t'
    → ait_serialize_mac_input h t ≡ ait_serialize_mac_input h' t'
    → (h ≡ h')
      × (t.index_offset ≡ t'.index_offset)
      × (t.total_blocks ≡ t'.total_blocks)
      × (t.archive_checksum ≡ t'.archive_checksum)
unfolding ait_serialize_mac_input
mac_input-injective h h' t t' vh vh' vt vt' e =
    let (size, same) = deserialize-serialize_header h vh in
    let (size', same') = deserialize-serialize_header h' vh' in
    let numbers = take 24 (serialize_footer t) in
    let numbers' = take 24 (serialize_footer t') in
    let headers : serialize_archive_header h ≡ serialize_archive_header h' =
      sym (take-append _ numbers 64 size) ∙ ap (take 64) e ∙ take-append _ numbers' 64 size' in
    let footers : numbers ≡ numbers' =
      sym (drop-append _ numbers 64 size) ∙ ap (drop 64) e ∙ drop-append _ numbers' 64 size' in
    let (a, b, c) = footer_numbers t vt in
    let (a', b', c') = footer_numbers t' vt' in
    (
      sym same ∙ ap deserialize_archive_header headers ∙ same',
      sym a ∙ ap le64_get footers ∙ a',
      sym b ∙ ap (λ n. le64_get (drop 8 n)) footers ∙ b',
      sym c ∙ ap (λ n. le64_get (drop 16 n)) footers ∙ c',
    )
