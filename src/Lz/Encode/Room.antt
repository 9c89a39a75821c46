-- ===== src/Lz/Encode/Room.antt =====
-- The compressor of src/zupt_lz.c comes to its end, and twice the source's length is room enough.
use libvuptsdk.Common.{
  ◌>>=◌, ℕ, zero, suc, ◌+◌, ◌-◌, ◌*◌, ◌/◌, ◌^◌, ◌≤◌, ◌<◌, ◌≡◌, ◌∙◌, inl, inr, refl, arith, List, [],
  ◌∷◌, ◌++◌, Bool, true, false, Option, some, leb, ◌==◌, if◌then◌else◌, Bool-cases, length, take,
  drop, bit_and, leb→le, length-append, length-take, length-drop, if-elim,
}
use libvuptsdk.Lz.{
  Best, Tables, lz_write_extra, nibble, put_literals, put_sequence, put_last, min_match,
  compress_loop, choose_match, lz_compress, lz_decompress, clamp_level, empty_tables, after_match,
}
use libvuptsdk.Lz.Match.{IsMatch, choose_match-IsChoice}
use libvuptsdk.Lz.Rounds.{loop_end, loop_skip, loop_emit}
use libvuptsdk.Lz.Encode.RoundTrip.{
  decompress-compress, length-put_literals, length-write_extra, really,
}

abbrev Gives : Option (List ℕ) → Type 0
Gives o = (bytes : List ℕ) × (o ≡ some bytes)

record Sequence (dst_cap op : ℕ) (lits : List ℕ) (m : Best) : Type 0 where
  bytes : List ℕ
  written : put_sequence dst_cap op lits m ≡ some bytes
  size : length bytes ≤ 5 + length lits + length lits / 255 + (m.len - 3) / 255

Sequence-fits :
    (dst_cap op : ℕ) (lits : List ℕ) (m : Best)
    → op + 6 + length lits + length lits / 255 + (m.len - 3) / 255 ≤ dst_cap
    → Sequence dst_cap op lits m
unfolding put_sequence
Sequence-fits dst_cap op lits m room =
    let head = put_literals (dst_cap - op) lits (nibble (m.len - 3)) in
    let extra =
      if leb 15 (m.len - 3)
      then lz_write_extra (dst_cap - (op + length head + 2)) (m.len - 3 - 15)
      else [] in
    let fits : leb (op + 1 + length lits / 255 + 1 + length lits + 2 + (m.len - 3) / 255 + 1)
          dst_cap
        ≡ true =
      ground arith in
    let short : length extra ≤ (m.len - 3) / 255 + 1 =
      if-elim (λ (l : List ℕ). length l ≤ (m.len - 3) / 255 + 1) (leb 15 (m.len - 3))
        (λ long.
          omega (arith, length-write_extra (dst_cap - (op + length head + 2)) (m.len - 3 - 15)))
        (λ none_left. omega arith) in
    record {
      bytes = head ++ (bit_and m.off 0xff ∷ bit_and (m.off / 2 ^ 8) 0xff ∷ extra);
      written = rw fits refl;
      size = omega (
        arith,
        length-append head (bit_and m.off 0xff ∷ bit_and (m.off / 2 ^ 8) 0xff ∷ extra),
        length-put_literals (dst_cap - op) (nibble (m.len - 3)) lits,
        short,
      );
    }

last_fits :
    (dst_cap op : ℕ) (lits : List ℕ)
    → op + 2 + length lits + length lits / 255 ≤ dst_cap
    → Gives (put_last dst_cap op lits)
unfolding put_last
last_fits dst_cap op lits room =
    let fits : leb (op + 1 + length lits / 255 + 1 + length lits) dst_cap ≡ true = ground arith in
    (put_literals (dst_cap - op) lits 0, rw fits refl)

both_given :
    (first : Option (List ℕ)) (second : List ℕ → Option (List ℕ)) (bytes rest : List ℕ)
    → first ≡ some bytes
    → second bytes ≡ some rest
    → (first >>= λ head. second head >>= λ tail. some (head ++ tail)) ≡ some (bytes ++ rest)
both_given first second bytes rest e h = rw (e, h) refl

compress_loop_fits :
    (src : List ℕ) (dst_cap max_chain : ℕ) (lazy : Bool) (fuel : ℕ) (t : Tables) (ip anchor op : ℕ)
    → 2 * length src + 32 ≤ dst_cap
    → length src + 1 ≤ ip + fuel
    → ip ≤ length src
    → anchor ≤ ip
    → op ≤ 2 * anchor
    → Gives (compress_loop src dst_cap max_chain lazy fuel t ip anchor op)
compress_loop_fits src dst_cap chain lazy zero t ip anchor op room fuel_left inside order small =
    absurd (omega arith)
compress_loop_fits src dst_cap chain lazy (suc fuel) t ip anchor op room fuel_left inside order
      small =
    let c = choose_match src chain lazy t ip in
    let choice = choose_match-IsChoice src chain lazy t ip in
    elim (Bool-cases (leb (ip + min_match) (length src))) [
      | inr end ↦
          let last =
            last_fits dst_cap op (drop anchor src) (omega (arith, length-drop anchor src)) in
          (last.0, loop_end src dst_cap chain lazy fuel t ip anchor op end ∙ last.1)
      | inl on ↦
          let on' = leb→le (ip + min_match) (length src) on in
          elim (Bool-cases (c.best.len == 0)) [
            | inl skip ↦
                let later =
                  compress_loop_fits src dst_cap chain lazy fuel c.tables (ip + 1) anchor op room
                    (omega arith) (omega arith) (omega arith) small in
                (later.0, loop_skip src dst_cap chain lazy fuel t ip anchor op on skip ∙ later.1)
            | inr found ↦
                let ok : IsMatch src c.at c.best = really src c.at c.best found choice.found in
                let lits = take (c.at - anchor) (drop anchor src) in
                let count : length lits ≡ c.at - anchor =
                  length-take (c.at - anchor) (drop anchor src)
                  ∙ omega (arith, length-drop anchor src, ok.within) in
                let next = c.at + c.best.len in
                let head =
                  Sequence-fits dst_cap op lits c.best
                    (omega (arith, ok.within, choice.here, ok.long)) in
                let later =
                  compress_loop_fits src dst_cap chain lazy fuel (after_match src lazy c) next next
                    (op + length head.bytes) room (omega (arith, choice.here, ok.long)) ok.within
                    (omega arith) (omega (arith, head.size, ok.long, choice.here)) in
                (
                  head.bytes ++ later.0,
                  loop_emit src dst_cap chain lazy fuel t ip anchor op on found
                      ∙ both_given _
                          (λ bytes.
                            compress_loop src dst_cap chain lazy fuel (after_match src lazy c) next
                              next (op + length bytes))
                          head.bytes later.0 head.written later.1,
                )
          ]
    ]

-- A source of 1 to 2 ^ 31 - 1 bytes, with room for twice its length and 32 bytes more, is
-- compressed at every level, and decompressing the result gives the source back.
pub decompress-compress_total :
    (src : List ℕ) (dst_cap level : ℕ)
    → 1 ≤ length src
    → length src < 2 ^ 31
    → 2 * length src + 32 ≤ dst_cap
    → (bytes : List ℕ) × (lz_compress src dst_cap level ≡ some bytes)
      × (lz_decompress bytes (length src) ≡ some src)
unfolding lz_compress
decompress-compress_total src dst_cap level some_there small room =
    let l = clamp_level level in
    let given =
      compress_loop_fits src dst_cap (4 + l * l * 3) (leb 3 l) (length src + 1) empty_tables 0 0 0
        room (omega arith) (omega arith) (omega arith) (omega arith) in
    let something : length src == 0 ≡ false = ground arith in
    let whole : lz_compress src dst_cap level ≡ some given.0 = rw something given.1 in
    (given.0, whole, decompress-compress src dst_cap level given.0 small whole)
