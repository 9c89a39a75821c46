-- ===== src/Archive/Unpack/Sound.antt =====
-- What decompress_block of src/zupt_format.c gives has the announced length and digest, and with a
-- keyring in use it was decrypted.
use libvuptsdk.Common.{
  ℕ, ◌+◌, ◌≤◌, ◌≡◌, ◌⊎◌, inl, inr, refl, sym, drop, get_or, bit_and, ◌∙◌, arith, List, [], true,
  false, ◌&&◌, not, Option, some, none, ltb, leb, ◌==◌, ==_iff, if◌then◌else◌, Bool-cases, length,
  length-take, take, ltb-false, if-elim,
}
use libvuptsdk.Predict.{predict_decode}
use libvuptsdk.Lz.{lz_decompress}
use libvuptsdk.Predict.Transform.{length-predict_decode}
use libvuptsdk.Archive.Error.{
  Result, ok, err, ZuptError, bad_checksum, corrupt, unsupported, overflow, auth_fail, after_ok,
  after_fail_if, ok-injective, read_some,
}
use libvuptsdk.Archive.Trailer.{Keyring, Digests, is_active}
use libvuptsdk.Archive.Cipher.{Cipher}
use libvuptsdk.Archive.Block.{Block, max_block_sz}
use libvuptsdk.Archive.Unpack.{
  Codecs, codec_store, codec_zupt_lz, codec_zupt_lzh, codec_zupt_lzhp, codec_vaptvupt,
  vv_decode_slack, sized, decode_lzhp, decode, verified, unpack, open_payload, block_preface,
  decompress_block, is_encrypted,
}

-- A result of a given length.
abbrev HasLength : ℕ → Result (List ℕ) → Type 0
HasLength n r = (out : List ℕ) → r ≡ ok out → length out ≡ n

sized-HasLength : (n : ℕ) (o : Option (List ℕ)) → HasLength n (sized n o)
sized-HasLength n none out e = cc
sized-HasLength n (some l) out e = ground (arith, e)

err-HasLength : (n : ℕ) (x : ZuptError) → HasLength n (err x)
err-HasLength n x out e = cc

ok-HasLength : (n : ℕ) (l : List ℕ) → length l ≡ n → HasLength n (ok l)
ok-HasLength n l h out e = let same : l ≡ out = ok-injective e in rw (sym same) h

decode_lzhp-HasLength :
    (codecs : Codecs) (comp : List ℕ) (n : ℕ) → HasLength n (decode_lzhp codecs comp n)
unfolding decode_lzhp
decode_lzhp-HasLength codecs comp n =
    let predicted = not (bit_and (get_or comp 0 0) 0x01 == 0) in
    let header = if predicted then 257 else 1 in
    let table = λ (c : ℕ). get_or (take 256 (drop 1 comp)) c 0 in
    if-elim (HasLength n) (length comp == 0) (λ a. err-HasLength n corrupt)
      (λ b.
        if-elim (HasLength n) (predicted && ltb (length comp) 257) (λ a. err-HasLength n corrupt)
          (λ b.
            if-elim (HasLength n) (leb (length comp) header) (λ a. err-HasLength n corrupt)
              (λ b out e.
                after_ok (sized n (codecs.lzh (drop header comp) n)) _ e (λ plain read made.
                  let size = sized-HasLength n (codecs.lzh (drop header comp) n) plain read in
                  ok-HasLength n (if predicted then predict_decode plain table else plain)
                    (if-elim (λ (l : List ℕ). length l ≡ n) predicted
                      (λ a. length-predict_decode plain table ∙ size) (λ b. size))
                    out made))))

decode-HasLength :
    (codecs : Codecs) (codec n : ℕ) (comp : List ℕ) → HasLength n (decode codecs codec comp n)
unfolding decode
decode-HasLength codecs codec n comp =
    if-elim (HasLength n) (codec == codec_store)
      (λ a.
        if-elim (HasLength n) (ltb (length comp) n) (λ short. err-HasLength n corrupt)
          (λ enough.
            ok-HasLength n (take n comp)
              (length-take n comp ∙ omega (arith, ltb-false (length comp) n enough))))
      (λ b.
        if-elim (HasLength n) (codec == codec_zupt_lz)
          (λ a. sized-HasLength n (lz_decompress comp n))
          (λ b.
            if-elim (HasLength n) (codec == codec_zupt_lzh)
              (λ a. sized-HasLength n (codecs.lzh comp n))
              (λ b.
                if-elim (HasLength n) (codec == codec_zupt_lzhp)
                  (λ a. decode_lzhp-HasLength codecs comp n)
                  (λ b.
                    if-elim (HasLength n) (codec == codec_vaptvupt)
                      (λ a. sized-HasLength n (codecs.vaptvupt comp (n + vv_decode_slack)))
                      (λ b. err-HasLength n unsupported)))))

-- Where the output comes from: `comp` are the bytes that were decoded. With a keyring in use they
-- are what the payload was decrypted to, and without one the payload itself.
pub record Accepted (d : Digests) (cipher : Cipher) (codecs : Codecs) (b : Block)
    (kr : Option Keyring) (seq : ℕ) (out : List ℕ) : Type 0 where
  pub size : length out ≡ b.uncompressed_size
  pub limit : length out ≤ max_block_sz
  pub digest : (b.uncompressed_size ≡ 0) ⊎ (d.xxh64 out ≡ b.checksum)
  pub comp : List ℕ
  pub decoded :
      (b.uncompressed_size ≡ 0) ⊎ (decode codecs b.codec_id comp b.uncompressed_size ≡ ok out)
  pub opened :
      (k : Keyring)
      → kr ≡ some k
      → k.active ≡ true
      → (is_encrypted b ≡ true)
        × (cipher.decrypt k b.payload seq (block_preface cipher k b) ≡ some comp)
  pub plain : is_active kr ≡ false → (is_encrypted b ≡ false) × (comp ≡ b.payload)

unpack-size :
    (d : Digests) (cipher : Cipher) (codecs : Codecs) (b : Block) (comp out : List ℕ)
    → unpack d cipher codecs b comp ≡ ok out
    → (length out ≡ b.uncompressed_size)
      × ((b.uncompressed_size ≡ 0) ⊎ (d.xxh64 out ≡ b.checksum))
      × ((b.uncompressed_size ≡ 0) ⊎ (decode codecs b.codec_id comp b.uncompressed_size ≡ ok out))
unfolding unpack verified
unpack-size d cipher codecs b comp out e = elim (Bool-cases (b.uncompressed_size == 0)) [
  | inl nothing ↦
      let zero_size = (==_iff b.uncompressed_size 0).0 nothing in
      let same : [] ≡ out = ok-injective (rw nothing at e) in
      (rw (sym same, zero_size) refl, inl zero_size, inl zero_size)
  | inr something ↦
      after_ok (decode codecs b.codec_id comp b.uncompressed_size) (verified d cipher codecs b)
        (rw something at e)
        (λ made read checked. elim (Bool-cases (d.xxh64 made == b.checksum)) [
          | inl right ↦
              let same : made ≡ out = ok-injective (rw right at checked) in
              rw (sym same) (
                decode-HasLength codecs b.codec_id b.uncompressed_size comp made read,
                inr ((==_iff (d.xxh64 made) b.checksum).0 right),
                inr read,
              )
          | inr wrong ↦ let refused : err bad_checksum ≡ ok out = rw wrong at checked in cc
        ])
]

open_payload-opened :
    (cipher : Cipher) (b : Block) (k : Keyring) (seq : ℕ) (comp : List ℕ)
    → k.active ≡ true
    → open_payload cipher b (some k) seq ≡ ok comp
    → (is_encrypted b ≡ true)
      × (cipher.decrypt k b.payload seq (block_preface cipher k b) ≡ some comp)
unfolding open_payload
open_payload-opened cipher b k seq comp on e = elim (Bool-cases (is_encrypted b)) [
  | inl sealed ↦ (
    sealed,
    read_some (cipher.decrypt k b.payload seq (block_preface cipher k b)) auth_fail
        (simp (on, sealed) at e),
  )
  | inr plain ↦ let refused : err auth_fail ≡ ok comp = simp (on, plain) at e in cc
]

-- Without a keyring in use only a plain block is opened, to its payload.
open_payload-plain :
    (cipher : Cipher) (b : Block) (kr : Option Keyring) (seq : ℕ) (comp : List ℕ)
    → is_active kr ≡ false
    → open_payload cipher b kr seq ≡ ok comp
    → (is_encrypted b ≡ false) × (comp ≡ b.payload)
unfolding open_payload
open_payload-plain cipher b none seq comp off e = elim (Bool-cases (is_encrypted b)) [
  | inl sealed ↦ let refused : err auth_fail ≡ ok comp = simp (sealed) at e in cc
  | inr plain ↦ (plain, sym (ok-injective (simp plain at e)))
]
open_payload-plain cipher b (some k) seq comp off e = elim (Bool-cases (is_encrypted b)) [
  | inl sealed ↦ let refused : err auth_fail ≡ ok comp = simp (off, sealed) at e in cc
  | inr plain ↦ (plain, sym (ok-injective (simp (off, plain) at e)))
]

-- Whatever decompress_block gives has the length that the block announces, within the limit, and
-- unless it is empty, it has the digest that the block carries and is what the block's codec makes
-- of the compressed bytes. With a keyring in use the block has the flag of an encrypted one, and
-- those bytes are what the payload was decrypted to under that keyring, the block's sequence number
-- and, if the keyring asks for it, the block's own preface. Without one the block has no such flag,
-- and they are the payload.
pub decompress_block-Accepted :
    (d : Digests) (cipher : Cipher) (codecs : Codecs) (b : Block) (kr : Option Keyring) (seq : ℕ)
    (out : List ℕ)
    → decompress_block d cipher codecs b kr seq ≡ ok out
    → Accepted d cipher codecs b kr seq out
unfolding decompress_block
decompress_block-Accepted d cipher codecs b kr seq out e =
    after_fail_if (ltb max_block_sz b.uncompressed_size) overflow _ e (λ limit e1.
      after_fail_if (ltb (max_block_sz + 1024) b.compressed_size) overflow _ e1 (λ limit' e2.
        after_ok (open_payload cipher b kr seq) _ e2 (λ comp read e3.
          let (size, digest, decoded) = unpack-size d cipher codecs b comp out e3 in
          record {
            size = size;
            limit = omega (arith, ltb-false max_block_sz b.uncompressed_size limit);
            digest = digest;
            comp = comp;
            decoded = decoded;
            opened = λ k same on. open_payload-opened cipher b k seq comp on (rw same at read);
            plain = λ off. open_payload-plain cipher b kr seq comp off read;
          })))
