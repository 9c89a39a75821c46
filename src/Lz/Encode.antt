-- ===== src/Lz/Encode.antt =====
-- The decoder on the token, the literals and the match that the encoder of src/zupt_lz.c writes.
pub mod RoundTrip
pub mod Room
use libvuptsdk.Common.{
  ℕ, zero, suc, ◌+◌, ◌-◌, ◌*◌, ◌/◌, ◌%◌, ◌^◌, ◌≤◌, ◌<◌, ◌≡◌, ◌∙◌, sym, ap, inl, inr, refl, arith,
  min, List, [], ◌∷◌, ◌++◌, append_assoc, append-nil, Bool, true, false, ◌&&◌, ◌||◌, Option, some,
  none, ◌>>=◌, ◌>>◌, require, ltb, leb, ◌==◌, ==_iff, if◌then◌else◌, Bool-cases, length, get_or,
  take, drop, bit_and, bit_or, leb→le, length-append, length-take, take-append, drop-append,
}
use libvuptsdk.Common.Bits.{and_mask, shifted_or, or_shifted}
use libvuptsdk.Lz.{
  Best, copy_match, lz_write_extra, read_length, nibble, put_literals, put_sequence, put_last,
  copy_literals, read_match, decompress_loop, min_match,
}
use libvuptsdk.Lz.Match.{IsMatch}
use libvuptsdk.Lz.Decode.{copy_match-take, read_length-written, take-more}

nibble-lt : (n : ℕ) → nibble n < 16
nibble-lt n = ground arith

token-high : (n tm : ℕ) → n < 16 → tm < 16 → bit_and (bit_or (n * 2 ^ 4) tm / 2 ^ 4) 0xf ≡ n
token-high n tm p q = rw (shifted_or 4 tm n q, and_mask 4 ((n * 2 ^ 4 + tm) / 2 ^ 4)) (omega arith)

token-low : (n tm : ℕ) → n < 16 → tm < 16 → bit_and (bit_or (n * 2 ^ 4) tm) 0xf ≡ tm
token-low n tm p q = rw (shifted_or 4 tm n q, and_mask 4 (n * 2 ^ 4 + tm)) (omega arith)

copy_literals-written :
    (dst_len : ℕ) (lits rest out : List ℕ)
    → length out + length lits ≤ dst_len
    → copy_literals dst_len (length lits) (lits ++ rest) out ≡ some (rest, out ++ lits)
copy_literals-written dst_len [] rest out room = rw (append-nil out) refl
copy_literals-written dst_len (x ∷ xs) rest out room =
    let all : leb (length (x ∷ xs)) (length ((x ∷ xs) ++ rest)) ≡ true =
      ground (arith, length-append xs rest) in
    let fits : leb (length out + length (x ∷ xs)) dst_len ≡ true = ground arith in
    let more : suc (length xs) == 0 ≡ false = ground arith in
    rw
      (
        more,
        all,
        fits,
        take-append (x ∷ xs) rest (length (x ∷ xs)) refl,
        drop-append (x ∷ xs) rest (length (x ∷ xs)) refl,
      )
      refl

pub literals_read :
    (dst_len fuel cap tm : ℕ) (lits rest out : List ℕ)
    → tm < 16
    → length lits / 255 + 1 ≤ cap - 1
    → length lits ≤ 4294967040
    → length out + length lits ≤ dst_len
    → decompress_loop dst_len (suc fuel) (put_literals cap lits tm ++ rest) out ≡ (
        if length rest == 0
        then some (out ++ lits)
        else (read_match dst_len tm rest (out ++ lits) >>= λ (s3, out2).
            decompress_loop dst_len fuel s3 out2))
unfolding decompress_loop put_literals
literals_read dst_len fuel cap tm lits rest out low room small fits =
    let high = token-high (nibble (length lits)) tm (nibble-lt (length lits)) low in
    let down = token-low (nibble (length lits)) tm (nibble-lt (length lits)) low in
    let len =
      read_length-written (length lits) (cap - 1) 0 (nibble (length lits)) 15 (lits ++ rest)
        (omega arith) refl room (omega arith) in
    let all : length lits + 0 ≡ length lits = omega arith in
    rw (high, down, append_assoc, len, all, copy_literals-written dst_len lits rest out fits) refl

pub match_read :
    (src : List ℕ) (q cap : ℕ) (m : Best) (rest : List ℕ)
    → IsMatch src q m
    → (m.len - 3) / 255 + 1 ≤ cap
    → read_match
        (length src)
        (nibble (m.len - 3))
        (bit_and m.off 0xff
          ∷ bit_and (m.off / 2 ^ 8) 0xff
          ∷ ((if leb 15 (m.len - 3) then lz_write_extra cap (m.len - 3 - 15) else []) ++ rest))
        (take q src)
      ≡ some (rest, take (q + m.len) src)
unfolding read_match
match_read src q cap m rest ok room =
    let offset : bit_or (bit_and m.off 0xff) (bit_and (m.off / 2 ^ 8) 0xff * 2 ^ 8) ≡ m.off =
      rw
        (
          and_mask 8 m.off,
          and_mask 8 (m.off / 2 ^ 8),
          or_shifted 8 (m.off % 2 ^ 8) (m.off / 2 ^ 8 % 2 ^ 8) (omega arith),
        )
        (omega (arith, ok.near)) in
    let len =
      read_length-written (m.len - 3) cap 3 (nibble (m.len - 3) + 3) 18 rest refl refl room
        (omega (arith, ok.short)) in
    let size : length (take q src) ≡ q = length-take q src ∙ omega (arith, ok.within) in
    let some_back : m.off == 0 ≡ false = ground (arith, ok.back) in
    let reached : ltb q m.off ≡ false = ground (arith, ok.inside) in
    let whole : m.len - 3 + 3 ≡ m.len = omega (arith, ok.long) in
    let fits : leb (q + m.len) (length src) ≡ true = ground (arith, ok.within) in
    rw (offset, size, some_back, reached, len, whole, fits)
      (ap (λ o. some (rest, o))
        (copy_match-take src m.off q m.len ok.back ok.inside ok.within ok.agrees))
