-- ===== src/Archive/Index/Fields.antt =====
-- The fields of an index entry: what is written is read back, and what is read was written.
use native.Mathlib.Decide.{dec_lt}
use libvuptsdk.Common.{
  lt_wf, ℕ, ◌+◌, ◌*◌, ◌/◌, ◌%◌, ◌^◌, ◌≤◌, ◌<◌, ◌≡◌, refl, sym, ap, ◌∙◌, arith, List, [], ◌∷◌, ◌++◌,
  some, length, take, drop, All, IsByte, All-append_left, All-append_right, take-append-drop,
  drop-append, length-take, take_all,
}
use libvuptsdk.Common.Bits.{or_shifted}
use libvuptsdk.Wire.Fixed.{le32_put, le32_get, le64_put, le64_get, low_byte}
use libvuptsdk.Wire.Fixed.RoundTrip.{
  le64_put-le64_get, le64_get-lt, low_byte_lem, length-le64_put, le64_get-le64_put,
  le32_get-le32_put,
}
use libvuptsdk.Wire.Varint.Groups.{encode_loop-last, encode_loop-more}
use libvuptsdk.Wire.Varint.{encode_varint, decode_varint}
use libvuptsdk.Wire.Varint.Canonical.{decode_varint-canonical}
use libvuptsdk.Wire.Read.{Begins}
use libvuptsdk.Archive.Index.{index_put_u64, index_put_u32, index_get_u64, index_get_u32}

-- The bytes in front, of a given number, and the bytes behind them.
split_bytes : (n : ℕ) (f : List ℕ) → All IsByte f → All IsByte (take n f) × All IsByte (drop n f)
split_bytes n f p =
    let p' : All IsByte (take n f ++ drop n f) = rw (take-append-drop n f) p in
    (
      All-append_left IsByte (take n f) (drop n f) p',
      All-append_right IsByte (take n f) (drop n f) p',
    )

pub u64_read :
    (f : List ℕ)
    → 8 ≤ length f
    → All IsByte f
    → Begins f (index_put_u64 (index_get_u64 f)) (drop 8 f) × (index_get_u64 f < 2 ^ 64)
unfolding index_put_u64 index_get_u64
u64_read f h p =
    let (front, back) = split_bytes 8 f p in
    let eight : length (take 8 f) ≡ 8 = omega (arith, length-take 8 f) in
    let written : le64_put (le64_get (take 8 f ++ drop 8 f)) ≡ take 8 f =
      le64_put-le64_get (take 8 f) (drop 8 f) eight front in
    let written' : le64_put (le64_get f) ≡ take 8 f = rw (take-append-drop 8 f) at written in
    let low : le64_get (take 8 f) < 2 ^ 64 = le64_get-lt (take 8 f) eight front in
    let same : le64_get (take 8 f) ≡ le64_get f = get_front f eight in
    ((sym (take-append-drop 8 f) ∙ ap (λ t. t ++ drop 8 f) (sym written'), back), rw same at low)
  where
    get_front : (g : List ℕ) → length (take 8 g) ≡ 8 → le64_get (take 8 g) ≡ le64_get g
    get_front g e = unfold le64_get in rw (take_all 8 (take 8 g) e)

four_bytes :
    (a b c d : ℕ) (rest : List ℕ)
    → IsByte a
    → IsByte b
    → IsByte c
    → IsByte d
    → le32_get (a ∷ b ∷ c ∷ d ∷ rest) ≡ a + b * 2 ^ 8 + c * 2 ^ 16 + d * 2 ^ 24
unfolding le32_get
four_bytes a b c d rest ha hb hc hd =
    let top : d * 2 ^ 24 % 2 ^ 32 ≡ d * 2 ^ 24 = omega arith in
    rw
      (
        top,
        or_shifted 8 a b (omega arith),
        or_shifted 16 (a + b * 2 ^ 8) c (omega arith),
        or_shifted 24 (a + b * 2 ^ 8 + c * 2 ^ 16) d (omega arith),
      )
      refl

put_four :
    (a b c d v : ℕ)
    → IsByte a
    → IsByte b
    → IsByte c
    → IsByte d
    → v ≡ a + b * 2 ^ 8 + c * 2 ^ 16 + d * 2 ^ 24
    → le32_put v ≡ a ∷ b ∷ c ∷ d ∷ []
unfolding le32_put
put_four a b c d v ha hb hc hd e =
    let b0 : low_byte v ≡ a = omega (arith, low_byte_lem v) in
    let b1 : low_byte (v / 2 ^ 8) ≡ b = omega (arith, low_byte_lem (v / 2 ^ 8)) in
    let b2 : low_byte (v / 2 ^ 16) ≡ c = omega (arith, low_byte_lem (v / 2 ^ 16)) in
    let b3 : low_byte (v / 2 ^ 24) ≡ d = omega (arith, low_byte_lem (v / 2 ^ 24)) in
    rw (b0, b1, b2, b3) refl

pub u32_read :
    (f : List ℕ)
    → 4 ≤ length f
    → All IsByte f
    → Begins f (index_put_u32 (index_get_u32 f)) (drop 4 f) × (index_get_u32 f < 2 ^ 32)
unfolding index_put_u32 index_get_u32
u32_read [] h p = absurd (omega arith)
u32_read (a ∷ []) h p = absurd (omega arith)
u32_read (a ∷ b ∷ []) h p = absurd (omega arith)
u32_read (a ∷ b ∷ c ∷ []) h p = absurd (omega arith)
u32_read (a ∷ b ∷ c ∷ d ∷ rest) h (ha, (hb, (hc, (hd, p)))) =
    let value = four_bytes a b c d rest ha hb hc hd in
    ((ap (λ t. t ++ rest) (sym (put_four a b c d _ ha hb hc hd value)), p), omega (arith, value))

pub varint_read :
    (f : List ℕ) (v n : ℕ)
    → All IsByte f
    → decode_varint f ≡ some (v, n)
    → Begins f (encode_varint v) (drop n f) × (v < 2 ^ 64)
varint_read f v n p e =
    let (range, pos, ten, bytes) = decode_varint-canonical f v n p e in
    let (front, back) = split_bytes n f p in
    ((sym (take-append-drop n f) ∙ ap (λ t. t ++ drop n f) bytes, back), range)

module _ (v : ℕ) (rest : List ℕ) where
  pub u64_written : v < 2 ^ 64 → index_get_u64 (index_put_u64 v ++ rest) ≡ v
  unfolding index_put_u64 index_get_u64
  u64_written h = le64_get-le64_put v rest h

  pub u64_behind : drop 8 (index_put_u64 v ++ rest) ≡ rest
  unfolding index_put_u64
  u64_behind = drop-append (le64_put v) rest 8 (length-le64_put v)

  pub u32_written : v < 2 ^ 32 → index_get_u32 (index_put_u32 v ++ rest) ≡ v
  unfolding index_put_u32 index_get_u32
  u32_written h = le32_get-le32_put v rest h

  pub u32_behind : drop 4 (index_put_u32 v ++ rest) ≡ rest
  unfolding index_put_u32 le32_put
  u32_behind = refl

pub length_u64 : (v : ℕ) → length (index_put_u64 v) ≡ 8
unfolding index_put_u64
length_u64 v = length-le64_put v

pub length_u32 : (v : ℕ) → length (index_put_u32 v) ≡ 4
unfolding index_put_u32 le32_put
length_u32 v = refl

pub length-encode_varint : (v : ℕ) → 1 ≤ length (encode_varint v)
unfolding encode_varint
length-encode_varint v = elim (dec_lt v 128) [
  | yes last ↦ rw (encode_loop-last v (lt_wf.apply v) last) (omega arith)
  | no more ↦ let (w, e) = encode_loop-more v (lt_wf.apply v) (omega arith) in rw e (omega arith)
]
