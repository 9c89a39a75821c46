-- ===== src/Archive/Cipher.antt =====
-- The interface of src/zupt_crypto.c to the archive code, and the flag of an encrypted frame.
use libvuptsdk.Common.{ℕ, ◌+◌, ◌≡◌, List, Option, some, length}
use libvuptsdk.Archive.Trailer.{Keyring}

abbrev pub bflag_encrypted : ℕ
bflag_encrypted = 0x0001

-- zupt_encrypt_buffer and zupt_decrypt_buffer, and with `some` preface their _aad versions, of a
-- message and its sequence number. The nonce and the tag take 48 bytes.
pub record Cipher : Type 0 where
  pub encrypt : Keyring → List ℕ → ℕ → Option (List ℕ) → Option (List ℕ)
  pub decrypt : Keyring → List ℕ → ℕ → Option (List ℕ) → Option (List ℕ)
  pub encrypt_size :
      (k : Keyring) (message : List ℕ) (seq : ℕ) (aad : Option (List ℕ)) (sealed : List ℕ)
      → encrypt k message seq aad ≡ some sealed
      → length sealed ≡ length message + 48
  pub decrypt-encrypt :
      (k : Keyring) (message : List ℕ) (seq : ℕ) (aad : Option (List ℕ)) (sealed : List ℕ)
      → encrypt k message seq aad ≡ some sealed
      → decrypt k sealed seq aad ≡ some message
