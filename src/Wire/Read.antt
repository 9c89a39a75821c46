-- ===== src/Wire/Read.antt =====
-- What a successful read says of the stream: the bytes in front are what a writer writes.
use libvuptsdk.Common.{
  ℕ, ◌+◌, ◌-◌, ◌*◌, ◌/◌, ◌%◌, ◌^◌, ◌<◌, ◌≡◌, ap, ap₂, sym, ◌∙◌, arith, List, [], ◌∷◌, ◌++◌, some,
  length, take, drop, All, IsByte, All-append_left, All-append_right, take-append-drop, bit_or,
  Option-cases, inl, inr, append-nil,
}
use libvuptsdk.Common.Bits.{or_shifted}
use libvuptsdk.Wire.Stream.{fread, fread-split, length-fread}
use libvuptsdk.Wire.Fixed.{le16_put, le16_get, le64_put, le64_get, r16le, r64le, low_byte}
use libvuptsdk.Wire.Fixed.RoundTrip.{le64_put-le64_get, le64_get-lt, low_byte_lem}
use libvuptsdk.Wire.Varint.{encode_varint, decode_varint, read_varint}
use libvuptsdk.Wire.Varint.Canonical.{behind, read_varint-decode_varint, decode_varint-canonical}

-- A stream of bytes that begins with the field, whose value is in range.
abbrev pub Begins : List ℕ → List ℕ → List ℕ → Type 0
Begins f field rest = (f ≡ field ++ rest) × All IsByte rest

le16_put-le16_get :
    (bs : List ℕ)
    → length bs ≡ 2
    → All IsByte bs
    → (le16_put (le16_get bs) ≡ bs) × (le16_get bs < 2 ^ 16)
unfolding le16_put le16_get
le16_put-le16_get [] e p = absurd (omega arith)
le16_put-le16_get (a ∷ []) e p = absurd (omega arith)
le16_put-le16_get (a ∷ b ∷ []) e (ha, (hb, _)) =
    let v = bit_or a (b * 2 ^ 8) % 2 ^ 16 in
    let sum : v ≡ a + b * 256 = omega (arith, or_shifted 8 a b ha) in
    let low : low_byte v ≡ a = omega (arith, sum, low_byte_lem v) in
    let high : low_byte (v / 2 ^ 8) ≡ b = omega (arith, sum, low_byte_lem (v / 2 ^ 8)) in
    (ap₂ (λ x y. x ∷ y ∷ []) low high, omega arith)
le16_put-le16_get (a ∷ b ∷ c ∷ bs) e p = absurd (omega arith)

pub r16le-written :
    (f rest : List ℕ) (v : ℕ)
    → All IsByte f
    → r16le f ≡ some (v, rest)
    → Begins f (le16_put v) rest × (v < 2 ^ 16)
unfolding r16le
r16le-written f rest v p e = elim (Option-cases (fread 2 f)) [
  | inl short ↦ cc (rw short at e)
  | inr ((bs, r), read) ↦
      let e' : some (le16_get bs, r) ≡ some (v, rest) = rw read at e in
      let split = fread-split 2 f bs r read in
      let p' : All IsByte (bs ++ r) = rw split at p in
      let (back, range) =
        le16_put-le16_get bs (length-fread 2 f bs r read) (All-append_left IsByte bs r p') in
      let value : le16_get bs ≡ v = cc e' in
      let behind_it : r ≡ rest = cc e' in
      (
        (
          split ∙ ap₂ ◌++◌ (sym back ∙ ap le16_put value) behind_it,
          rw behind_it at (All-append_right IsByte bs r p'),
        ),
        rw value at range,
      )
]

pub r64le-written :
    (f rest : List ℕ) (v : ℕ)
    → All IsByte f
    → r64le f ≡ some (v, rest)
    → Begins f (le64_put v) rest × (v < 2 ^ 64)
unfolding r64le
r64le-written f rest v p e = elim (Option-cases (fread 8 f)) [
  | inl short ↦ cc (rw short at e)
  | inr ((bs, r), read) ↦
      let e' : some (le64_get bs, r) ≡ some (v, rest) = rw read at e in
      let split = fread-split 8 f bs r read in
      let p' : All IsByte (bs ++ r) = rw split at p in
      let back =
        le64_put-le64_get bs [] (length-fread 8 f bs r read) (All-append_left IsByte bs r p') in
      let value : le64_get bs ≡ v = cc e' in
      let behind_it : r ≡ rest = cc e' in
      let range = le64_get-lt bs (length-fread 8 f bs r read) (All-append_left IsByte bs r p') in
      (
        (
          split ∙ ap₂ ◌++◌ (sym (rw append-nil at back) ∙ ap le64_put value) behind_it,
          rw behind_it at (All-append_right IsByte bs r p'),
        ),
        rw value at range,
      )
]

pub read_varint-written :
    (f rest : List ℕ) (v c : ℕ)
    → All IsByte f
    → read_varint f ≡ some (v, c, rest)
    → Begins f (encode_varint v) rest × (v < 2 ^ 64)
unfolding behind
read_varint-written f rest v c p e = elim (Option-cases (decode_varint f)) [
  | inl refused ↦ cc (rw refused at (sym (read_varint-decode_varint f) ∙ e))
  | inr ((u, n), accepted) ↦
      let e' : some (u, n, drop (n - 0) f) ≡ some (v, c, rest) =
        rw accepted at (sym (read_varint-decode_varint f) ∙ e) in
      let (range, pos, ten, bytes) = decode_varint-canonical f u n p accepted in
      let value : u ≡ v = cc e' in
      let whole : n - 0 ≡ n = omega arith in
      let behind_it : drop n f ≡ rest = ap (λ k. drop k f) (sym whole) ∙ cc e' in
      let p' : All IsByte (take n f ++ drop n f) = rw (take-append-drop n f) p in
      (
        (
          sym (take-append-drop n f) ∙ ap₂ ◌++◌ (bytes ∙ ap encode_varint value) behind_it,
          rw behind_it at (All-append_right IsByte (take n f) (drop n f) p'),
        ),
        rw value at range,
      )
]
