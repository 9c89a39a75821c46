-- ===== src/Wire/Varint/Canonical.antt =====
-- A number has one encoding: the decoder accepts nothing but what the encoder writes. The decoder
-- for streams agrees with the one for memory.
use native.Mathlib.Nat.{pow-suc, one-le-pow, mod-eq_of_lt}
use native.Mathlib.Decide.{dec_lt}
use libvuptsdk.Common.{
  drop-append, ℕ, zero, suc, ◌+◌, ◌-◌, ◌*◌, ◌/◌, ◌%◌, ◌^◌, ◌≤◌, ◌<◌, ◌≡◌, refl, ap, ◌∙◌, arith,
  List, [], ◌∷◌, ◌++◌, Option, some, none, length, take, drop, Acc, lt_wf, All, IsByte, bit_and,
  bit_or, sym, ap₂,
}
use libvuptsdk.Wire.Varint.{
  encode_loop, encode_varint, decode_loop, decode_varint, read_varint, read_loop,
}
use libvuptsdk.Wire.Varint.Room.{Room, first-Room, next-Room, power_seven, value_fits, group_room}
use libvuptsdk.Wire.Varint.RoundTrip.{decode_varint-encode_varint}
use libvuptsdk.Wire.Varint.Groups.{
  encode_loop-last, encode_loop-more, payload_lem, top_bit_lem, high_bits_lem, add_payload,
}

module _ (b n shift acc value count : ℕ) (bs : List ℕ)
    (e : decode_loop (b ∷ bs) n shift acc ≡ some (value, count)) where
  accepted_last :
      b < 128
      → n ≤ 9
      → (n ≡ 9 → b < 2)
        × (0 < n → 0 < b)
        × (value ≡ bit_or acc (b * 2 ^ shift % 2 ^ 64))
        × (count ≡ n + 1)
  unfolding decode_loop
  accepted_last hb hn =
      let small : b % 128 ≡ b = mod-eq_of_lt hb in
      ground (arith, payload_lem b, top_bit_lem b, high_bits_lem b)

  accepted_more :
      128 ≤ b
      → b < 256
      → n ≤ 9
      → (n < 9)
        × (decode_loop bs (n + 1) (shift + 7) (bit_or acc (b % 128 * 2 ^ shift % 2 ^ 64))
            ≡ some (value, count))
  unfolding decode_loop
  accepted_more lo hi hn = ground (arith, payload_lem b, top_bit_lem b, high_bits_lem b)

-- What the bytes that were taken say.
record Reads (bs : List ℕ) (n shift acc value count j v : ℕ) : Type 0 where
  total : value ≡ acc + v * 2 ^ shift
  shortest : 0 < n → 0 < v
  fits : v < 2 * 128 ^ j
  taken : n < count
  within : count ≤ 10
  bytes : (w : Acc ◌<◌ v) → take (count - n) bs ≡ encode_loop v w

last_fits : (j n b : ℕ) → n + j ≡ 9 → b < 128 → (n ≡ 9 → b < 2) → b < 2 * 128 ^ j
last_fits zero n b e h tenth = omega arith
last_fits (suc j) n b e h tenth = omega (arith, pow-suc 128 j, one-le-pow j 128)

Reads-last :
    (b n shift acc value count j : ℕ) (bs : List ℕ)
    → Room n shift j
    → b < 128
    → acc < 2 ^ shift
    → decode_loop (b ∷ bs) n shift acc ≡ some (value, count)
    → Reads (b ∷ bs) n shift acc value count j b
Reads-last b n shift acc value count j bs r hb ha e =
    let nine : n ≤ 9 = omega (arith, r.index) in
    let (tenth, short, total, counted) = accepted_last b n shift acc value count bs e hb nine in
    let small : b < 2 * 128 ^ j = last_fits j n b r.index hb tenth in
    let one_byte : count - n ≡ 1 = omega arith in
    record {
      total = total ∙ add_payload acc b shift ha (value_fits b n shift j r small);
      shortest = short;
      fits = small;
      taken = omega arith;
      within = omega arith;
      bytes = λ w. rw (one_byte, encode_loop-last b w hb);
    }

Reads-more :
    (b n shift acc value count j v : ℕ) (bs : List ℕ)
    → Room n shift (suc j)
    → 128 ≤ b
    → b < 256
    → acc < 2 ^ shift
    → Reads bs (n + 1) (shift + 7) (acc + b % 128 * 2 ^ shift) value count j v
    → Reads (b ∷ bs) n shift acc value count (suc j) (b % 128 + 128 * v)
Reads-more b n shift acc value count j v bs r lo hi ha rest = record {
  total = omega (arith, rest.total, ap (λ (t : ℕ). v * t) (power_seven shift));
  shortest = λ p. omega (arith, rest.shortest (omega arith));
  fits = omega (arith, rest.fits, pow-suc 128 j);
  taken = omega (arith, rest.taken);
  within = rest.within;
  bytes = λ w.
      let (w', e) =
        encode_loop-more (b % 128 + 128 * v) w (omega (arith, rest.shortest (omega arith))) in
      let quotient : (b % 128 + 128 * v) / 128 ≡ v = omega arith in
      let marked : (b % 128 + 128 * v) % 128 + 128 ≡ b = omega arith in
      let one_more : count - n ≡ suc (count - (n + 1)) = omega (arith, rest.taken) in
      rw (one_more, e) (ap₂ ◌∷◌ (sym marked) (tail_bytes ((b % 128 + 128 * v) / 128) quotient w'));
}
  where
    tail_bytes : (m : ℕ) → m ≡ v → (w : Acc ◌<◌ m) → take (count - (n + 1)) bs ≡ encode_loop m w
    tail_bytes m e = rw e rest.bytes

decode_loop-Reads :
    (bs : List ℕ) (n shift acc value count j : ℕ)
    → Room n shift j
    → All IsByte bs
    → acc < 2 ^ shift
    → decode_loop bs n shift acc ≡ some (value, count)
    → (v : ℕ) × Reads bs n shift acc value count j v
decode_loop-Reads [] n shift acc value count j r p ha e = unfold decode_loop in cc
decode_loop-Reads (b ∷ bs) n shift acc value count zero r (hb, p) ha e = elim (dec_lt b 128) [
  | yes last ↦ (b, Reads-last b n shift acc value count 0 bs r last ha e)
  | no more ↦ absurd (
      omega (
        arith,
        r.index,
        accepted_more b n shift acc value count bs e (omega arith) hb (omega (arith, r.index)),
      ))
]
decode_loop-Reads (b ∷ bs) n shift acc value count (suc j) r (hb, p) ha e = elim (dec_lt b 128) [
  | yes last ↦ (b, Reads-last b n shift acc value count (suc j) bs r last ha e)
  | no more ↦
      let (below, e') =
        accepted_more b n shift acc value count bs e (omega arith) hb (omega (arith, r.index)) in
      let added = add_payload acc (b % 128) shift ha (
        value_fits (b % 128) n shift (suc j) r
          (last_fits (suc j) n (b % 128) r.index (omega arith) (λ h. absurd (omega arith)))) in
      let (v, rest) =
        decode_loop-Reads bs (n + 1) (shift + 7) (acc + b % 128 * 2 ^ shift) value count j
          (next-Room n shift j r) p
          (omega (arith, power_seven shift, group_room acc (b % 128) (2 ^ shift) ha (omega arith)))
          (rw added at e') in
      (b % 128 + 128 * v, Reads-more b n shift acc value count j v bs r (omega arith) hb ha rest)
]

-- Whatever zupt_decode_varint accepts is the encoding of the number that it returns: no other
-- string of bytes stands for that number. The number is a uint64 and takes one to ten bytes.
pub decode_varint-canonical :
    (bs : List ℕ) (v n : ℕ)
    → All IsByte bs
    → decode_varint bs ≡ some (v, n)
    → (v < 2 ^ 64) × (0 < n) × (n ≤ 10) × (take n bs ≡ encode_varint v)
unfolding decode_varint encode_varint
decode_varint-canonical bs v n p e =
    let (u, r) = decode_loop-Reads bs 0 0 0 v n 9 first-Room p (omega arith) e in
    let same : v ≡ u = omega (arith, r.total) in
    let whole : n - 0 ≡ n = omega arith in
    let bytes : take n bs ≡ encode_loop u (lt_wf.apply u) = rw whole at (r.bytes (lt_wf.apply u)) in
    rw same (omega (arith, r.fits), r.taken, r.within, bytes)

decode_loop-taken :
    (bs : List ℕ) (n shift acc v c : ℕ) → decode_loop bs n shift acc ≡ some (v, c) → n < c
unfolding decode_loop
decode_loop-taken [] n shift acc v c e = cc
decode_loop-taken (b ∷ bs) n shift acc v c e = ground (
  arith,
  decode_loop-taken bs (n + 1) (shift + 7) (bit_or acc (bit_and b 0x7f % 256 * 2 ^ shift % 2 ^ 64))
      v c,
)

-- The answer in memory, and the stream behind the bytes that it counted from index `n` on.
unfoldable pub behind : List ℕ → ℕ → Option (ℕ × ℕ) → Option (ℕ × ℕ × List ℕ)
behind bs n none = none
behind bs n (some (v, c)) = some (v, c, drop (c - n) bs)

behind-cons :
    (b : ℕ) (bs : List ℕ) (n : ℕ) (r : Option (ℕ × ℕ))
    → ((v c : ℕ) → r ≡ some (v, c) → n + 1 < c)
    → behind bs (n + 1) r ≡ behind (b ∷ bs) n r
unfolding behind
behind-cons b bs n none h = refl
behind-cons b bs n (some (v, c)) h =
    let one_more : c - n ≡ suc (c - (n + 1)) = omega (arith, h v c refl) in rw one_more

drop_one : (n b : ℕ) (bs : List ℕ) → drop (n + 1 - n) (b ∷ bs) ≡ bs
drop_one n b bs = let one : n + 1 - n ≡ 1 = omega arith in rw one

read_loop-decode_loop :
    (rounds : ℕ) (bs : List ℕ) (n shift acc : ℕ)
    → rounds + n ≡ 10
    → read_loop rounds bs n shift acc ≡ behind bs n (decode_loop bs n shift acc)
unfolding read_loop decode_loop behind
read_loop-decode_loop zero [] n shift acc e = refl
read_loop-decode_loop zero (b ∷ bs) n shift acc e = ground arith
read_loop-decode_loop (suc rounds) [] n shift acc e = refl
read_loop-decode_loop (suc rounds) (b ∷ bs) n shift acc e =
    let acc' = bit_or acc (bit_and b 0x7f % 256 * 2 ^ shift % 2 ^ 64) in
    let rest = decode_loop bs (n + 1) (shift + 7) acc' in
    ground (
      arith,
      drop_one n b bs,
      read_loop-decode_loop rounds bs (n + 1) (shift + 7) acc',
      behind-cons b bs n rest (decode_loop-taken bs (n + 1) (shift + 7) acc'),
    )

-- zupt_read_varint does on a stream what zupt_decode_varint does in memory: it accepts the same
-- numbers with the same count, and leaves the stream behind the bytes that were counted.
pub read_varint-decode_varint : (bs : List ℕ) → read_varint bs ≡ behind bs 0 (decode_varint bs)
unfolding read_varint decode_varint
read_varint-decode_varint bs = read_loop-decode_loop 10 bs 0 0 0 refl

-- A number that was written to a stream is read back, and the stream is left behind it.
pub read_varint-encode_varint :
    (v : ℕ) (rest : List ℕ)
    → v < 2 ^ 64
    → read_varint (encode_varint v ++ rest) ≡ some (v, length (encode_varint v), rest)
read_varint-encode_varint v rest h =
    rw (read_varint-decode_varint (encode_varint v ++ rest), decode_varint-encode_varint v rest h)
      (unfold behind in
        rw whole (
          ap (λ t. some (v, length (encode_varint v), t))
            (drop-append (encode_varint v) rest _ refl)))
  where
    whole : length (encode_varint v) - 0 ≡ length (encode_varint v)
    whole = omega arith
