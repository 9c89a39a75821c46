-- ===== src/Examples/Links.antt =====
-- Deduplication references, src/zupt_dedup.c.
use libvuptsdk.Common.{
  ℕ, ◌+◌, ◌-◌, ◌≡◌, refl, ap, arith, List, [], ◌∷◌, ◌++◌, true, Option, some, none, length,
  length-append, length-replicate, take, take-append, replicate, some-injective, sym,
}
use libvuptsdk.Archive.Cipher.{Cipher}
use libvuptsdk.Archive.Error.{ok}
use libvuptsdk.Archive.Trailer.{Keyring}
use libvuptsdk.Archive.Block.{Block, read_block}
use libvuptsdk.Dedup.Link.{dedup_write_ref_secure, dedup_read_ref}
use libvuptsdk.Dedup.Link.RoundTrip.{IsLink, read_ref-write_ref}

abbrev zero_byte : ℕ
zero_byte = 0

-- A cipher that puts 48 bytes behind the message and takes them off again.
unfoldable pub toy_encrypt : List ℕ → Option (List ℕ)
toy_encrypt message = some (message ++ replicate 48 0)

pub toy_decrypt : List ℕ → Option (List ℕ)
toy_decrypt sealed = some (take (length sealed - 48) sealed)

pub toy_size :
    (message sealed : List ℕ)
    → toy_encrypt message ≡ some sealed
    → length sealed ≡ length message + 48
unfolding toy_encrypt
toy_size message sealed e =
    let same : message ++ replicate 48 0 ≡ sealed = some-injective e in
    rw (sym same, length-append message (replicate 48 0), length-replicate 48 zero_byte) refl

pub toy_back :
    (message sealed : List ℕ)
    → toy_encrypt message ≡ some sealed
    → toy_decrypt sealed ≡ some message
unfolding toy_encrypt toy_decrypt
toy_back message sealed e =
    let same : message ++ replicate 48 0 ≡ sealed = some-injective e in
    rw (sym same) (
      ap some (
        take-append message (replicate 48 0) _
          (omega (arith, length-append message (replicate 48 0), length-replicate 48 zero_byte))))

abbrev pub toy_cipher : Cipher
toy_cipher = record {
  encrypt = λ k message seq aad. toy_encrypt message;
  decrypt = λ k sealed seq aad. toy_decrypt sealed;
  encrypt_size = λ k message seq aad sealed e. toy_size message sealed e;
  decrypt-encrypt = λ k message seq aad sealed e. toy_back message sealed e;
}

abbrev pub link_keys : Keyring
link_keys = record { enc_key = 1 ∷ []; mac_key = 2 ∷ []; active = true; use_preface_aad = true }

abbrev written : Option (List ℕ)
written = dedup_write_ref_secure toy_cipher 500 4096 77 9 3 (some link_keys)

link_bytes : List ℕ
link_bytes = elim written [ none ↦ [] | some bytes ↦ bytes ]

written_bytes : written ≡ some link_bytes
unfolding link_bytes dedup_write_ref_secure toy_encrypt
written_bytes = refl

sample-IsLink : IsLink 500 4096 77 3
sample-IsLink = record {
  offset_range = omega arith;
  size_limit = omega arith;
  checksum_range = omega arith;
  seq_range = omega arith;
}

read_ref-write_ref_example :
    (b : Block) × (read_block (link_bytes ++ (1 ∷ [])) ≡ ok (b, 1 ∷ []))
    × (dedup_read_ref toy_cipher b (some link_keys) true 9 ≡ ok (500, 3))
read_ref-write_ref_example =
    read_ref-write_ref toy_cipher 500 4096 77 9 3 (some link_keys) link_bytes (1 ∷ []) sample-IsLink
      written_bytes
