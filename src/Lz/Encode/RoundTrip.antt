-- ===== src/Lz/Encode/RoundTrip.antt =====
-- Decompression undoes compression, src/zupt_lz.c.
use libvuptsdk.Common.{
  ℕ, zero, suc, ◌+◌, ◌-◌, ◌*◌, ◌/◌, ◌^◌, ◌≤◌, ◌<◌, ◌≡◌, ◌∙◌, sym, ap, inl, inr, refl, arith, List,
  [], ◌∷◌, ◌++◌, append_assoc, append-nil, Bool, false, some, none, after_some, after_require,
  some-injective, leb, ◌==◌, if◌then◌else◌, Bool-cases, length, take, drop, bit_and, leb→le,
  length-append, length-take, length-drop, take-append-drop, if-elim,
}
use libvuptsdk.Lz.{
  Best, Tables, lz_write_extra, nibble, put_literals, put_sequence, put_last, decompress_loop,
  min_match, compress_loop, choose_match, lz_compress, lz_decompress, clamp_level, empty_tables,
  after_match,
}
use libvuptsdk.Lz.Match.{IsMatch, choose_match-IsChoice, Found}
use libvuptsdk.Lz.Rounds.{loop_end, loop_skip, loop_emit}
use libvuptsdk.Lz.Decode.{take-more}
use libvuptsdk.Lz.Encode.{literals_read, match_read, nibble-lt}

pub length-write_extra : (cap len : ℕ) → length (lz_write_extra cap len) ≤ len / 255 + 1
unfolding lz_write_extra
length-write_extra zero len = omega arith
length-write_extra (suc cap) len =
    if-elim (λ (l : List ℕ). length l ≤ len / 255 + 1) (leb 255 len)
      (λ more. omega (arith, length-write_extra cap (len - 255), leb→le 255 len more))
      (λ less. omega arith)

pub length-put_literals :
    (cap tm : ℕ) (lits : List ℕ)
    → length (put_literals cap lits tm) ≤ 2 + length lits / 255 + length lits
unfolding put_literals
length-put_literals cap tm lits = elim (Bool-cases (leb 15 (length lits))) [
  | inl long ↦
      let bound = length-write_extra (cap - 1) (length lits - 15) in
      let sum = length-append (lz_write_extra (cap - 1) (length lits - 15)) lits in
      let at_least = leb→le 15 (length lits) long in rw (long, sum) (omega arith)
  | inr short ↦ rw short (omega arith)
]

-- A sequence is read back as its literals and its match.
sequence_read :
    (src : List ℕ) (dst_cap op at fuel : ℕ) (lits out : List ℕ) (m : Best) (bytes rest : List ℕ)
    → length src < 2 ^ 31
    → IsMatch src at m
    → out ++ lits ≡ take at src
    → length out + length lits ≡ at
    → put_sequence dst_cap op lits m ≡ some bytes
    → decompress_loop (length src) (suc fuel) (bytes ++ rest) out
      ≡ decompress_loop (length src) fuel rest (take (at + m.len) src)
unfolding put_sequence
sequence_read src dst_cap op at fuel lits out m bytes rest small ok whole count h =
    after_require _ _ h (λ fits e.
      let fits' =
        leb→le (op + 1 + length lits / 255 + 1 + length lits + 2 + (m.len - 3) / 255 + 1) dst_cap
          fits in
      let head = length-put_literals (dst_cap - op) (nibble (m.len - 3)) lits in
      let used = length (put_literals (dst_cap - op) lits (nibble (m.len - 3))) in
      let cap = dst_cap - (op + used + 2) in
      let extra = if leb 15 (m.len - 3) then lz_write_extra cap (m.len - 3 - 15) else [] in
      let more : suc (suc (length (extra ++ rest))) == 0 ≡ false = ground arith in
      let again = match_read src at cap m rest ok (omega arith) in
      rw (sym (some-injective e), append_assoc)
        (literals_read (length src) fuel (dst_cap - op) (nibble (m.len - 3)) lits
            (bit_and m.off 0xff ∷ bit_and (m.off / 2 ^ 8) 0xff ∷ (extra ++ rest)) out
            (nibble-lt (m.len - 3)) (omega arith) (omega (arith, ok.within))
            (omega (arith, ok.within))
          ∙ rw (more, whole, again) refl))

last_read :
    (src : List ℕ) (dst_cap op anchor fuel : ℕ) (bytes : List ℕ)
    → length src < 2 ^ 31
    → anchor ≤ length src
    → put_last dst_cap op (drop anchor src) ≡ some bytes
    → decompress_loop (length src) (suc fuel) bytes (take anchor src) ≡ some src
unfolding put_last
last_read src dst_cap op anchor fuel bytes small inside h = after_require _ _ h (λ fits e.
    let lits = drop anchor src in
    let fits' = leb→le (op + 1 + length lits / 255 + 1 + length lits) dst_cap fits in
    let count : length lits ≡ length src - anchor = length-drop anchor src in
    let before = length-take anchor src in
    rw (sym (some-injective e), sym (append-nil (put_literals (dst_cap - op) lits 0)))
      (literals_read (length src) fuel (dst_cap - op) 0 lits [] (take anchor src) (omega arith)
          (omega arith) (omega arith) (omega arith)
        ∙ ap some (take-append-drop anchor src)))

sequence-nonempty :
    (dst_cap op : ℕ) (lits : List ℕ) (m : Best) (bytes : List ℕ)
    → put_sequence dst_cap op lits m ≡ some bytes
    → 1 ≤ length bytes
unfolding put_sequence put_literals
sequence-nonempty dst_cap op lits m [] h =
    after_require
      (leb (op + 1 + length lits / 255 + 1 + length lits + 2 + (m.len - 3) / 255 + 1) dst_cap) _ h
      (λ fits e. cc)
sequence-nonempty dst_cap op lits m (b ∷ bytes) h = omega arith

last-nonempty :
    (dst_cap op : ℕ) (lits bytes : List ℕ)
    → put_last dst_cap op lits ≡ some bytes
    → 1 ≤ length bytes
unfolding put_last put_literals
last-nonempty dst_cap op lits [] h =
    after_require (leb (op + 1 + length lits / 255 + 1 + length lits) dst_cap) _ h (λ fits e. cc)
last-nonempty dst_cap op lits (b ∷ bytes) h = omega arith

pub really :
    (src : List ℕ) (at : ℕ) (m : Best) → m.len == 0 ≡ false → Found src at m → IsMatch src at m
really src at m some_len (inl zero_len) = absurd (ground arith)
really src at m some_len (inr ok) = ok

last_bytes :
    (src : List ℕ) (dst_cap op anchor reading : ℕ) (bytes : List ℕ)
    → length src < 2 ^ 31
    → anchor ≤ length src
    → put_last dst_cap op (drop anchor src) ≡ some bytes
    → length bytes ≤ reading
    → decompress_loop (length src) reading bytes (take anchor src) ≡ some src
last_bytes src dst_cap op anchor zero bytes small inside h enough =
    absurd (omega (arith, last-nonempty dst_cap op (drop anchor src) bytes h))
last_bytes src dst_cap op anchor (suc reading) bytes small inside h enough =
    last_read src dst_cap op anchor reading bytes small inside h

-- The literals since `anchor` complete the output to a prefix of the source.
sequence_step :
    (src : List ℕ) (dst_cap op anchor at reading : ℕ) (m : Best) (bytes rest : List ℕ)
    → length src < 2 ^ 31
    → anchor ≤ at
    → IsMatch src at m
    → put_sequence dst_cap op (take (at - anchor) (drop anchor src)) m ≡ some bytes
    → length (bytes ++ rest) ≤ reading
    → ((left : ℕ)
        → length rest ≤ left
        → decompress_loop (length src) left rest (take (at + m.len) src) ≡ some src)
    → decompress_loop (length src) reading (bytes ++ rest) (take anchor src) ≡ some src
sequence_step src dst_cap op anchor at zero m bytes rest small order ok h enough k = absurd (
    omega (
      arith,
      sequence-nonempty dst_cap op (take (at - anchor) (drop anchor src)) m bytes h,
      length-append bytes rest,
    ))
sequence_step src dst_cap op anchor at (suc reading) m bytes rest small order ok h enough k =
    let lits = take (at - anchor) (drop anchor src) in
    let whole : take anchor src ++ lits ≡ take at src =
      take-more anchor (at - anchor) src ∙ ap (λ n. take n src) (omega arith) in
    let count : length lits ≡ at - anchor =
      length-take (at - anchor) (drop anchor src)
      ∙ omega (arith, length-drop anchor src, ok.within) in
    let before : length (take anchor src) ≡ anchor =
      length-take anchor src ∙ omega (arith, ok.within) in
    let shorter : length rest ≤ reading =
      omega (arith, sequence-nonempty dst_cap op lits m bytes h, length-append bytes rest) in
    sequence_read src dst_cap op at reading lits (take anchor src) m bytes rest small ok whole
      (omega arith) h
    ∙ k reading shorter

no_round {ℓ} :
    {P : Type ℓ} (src : List ℕ) (dst_cap max_chain : ℕ) (lazy : Bool) (t : Tables)
    (ip anchor op : ℕ) {bytes : List ℕ}
    → compress_loop src dst_cap max_chain lazy zero t ip anchor op ≡ some bytes
    → P
unfolding compress_loop
no_round src dst_cap chain lazy t ip anchor op h = cc

pub decompress-compress_loop :
    (src : List ℕ) (dst_cap max_chain : ℕ) (lazy : Bool) (fuel : ℕ) (t : Tables)
    (ip anchor op reading : ℕ) (bytes : List ℕ)
    → length src < 2 ^ 31
    → anchor ≤ ip
    → anchor ≤ length src
    → compress_loop src dst_cap max_chain lazy fuel t ip anchor op ≡ some bytes
    → length bytes ≤ reading
    → decompress_loop (length src) reading bytes (take anchor src) ≡ some src
decompress-compress_loop src dst_cap chain lazy zero t ip anchor op reading bytes small order inside
      h enough =
    no_round src dst_cap chain lazy t ip anchor op h
decompress-compress_loop src dst_cap chain lazy (suc fuel) t ip anchor op reading bytes small order
      inside h enough =
    let c = choose_match src chain lazy t ip in
    let next = c.at + c.best.len in
    let choice = choose_match-IsChoice src chain lazy t ip in
    elim (Bool-cases (leb (ip + min_match) (length src))) [
      | inr end ↦
          let last = loop_end src dst_cap chain lazy fuel t ip anchor op end in
          last_bytes src dst_cap op anchor reading bytes small inside (sym last ∙ h) enough
      | inl on ↦ elim (Bool-cases (c.best.len == 0)) [
        | inl skip ↦
            let again = loop_skip src dst_cap chain lazy fuel t ip anchor op on skip in
            decompress-compress_loop src dst_cap chain lazy fuel c.tables (ip + 1) anchor op reading
              bytes small (omega arith) inside (sym again ∙ h) enough
        | inr found ↦
            let step = loop_emit src dst_cap chain lazy fuel t ip anchor op on found in
            let ok : IsMatch src c.at c.best = really src c.at c.best found choice.found in
            after_some _ _ (sym step ∙ h) (λ head e k. after_some _ _ k (λ rest later joined.
              let whole : head ++ rest ≡ bytes = some-injective joined in
              rw (sym whole) (
                sequence_step src dst_cap op anchor c.at reading c.best head rest small
                  (omega (arith, choice.here)) ok e (rw whole enough)
                  (λ left room.
                    decompress-compress_loop src dst_cap chain lazy fuel (after_match src lazy c)
                      next next (op + length head) left rest small (omega arith) ok.within later
                      room))))
      ]
    ]

-- Decompressing what the compressor writes gives the source back, for a source of less than 2 ^ 31
-- bytes, at every level and every capacity at which the compressor gives a result.
pub decompress-compress :
    (src : List ℕ) (dst_cap level : ℕ) (bytes : List ℕ)
    → length src < 2 ^ 31
    → lz_compress src dst_cap level ≡ some bytes
    → lz_decompress bytes (length src) ≡ some src
unfolding lz_compress lz_decompress
decompress-compress src dst_cap level bytes small h = elim (Bool-cases (length src == 0)) [
  | inl nothing ↦ let none_there : none ≡ some bytes = rw nothing at h in cc
  | inr something ↦
      decompress-compress_loop src dst_cap (4 + clamp_level level * clamp_level level * 3)
        (leb 3 (clamp_level level)) (length src + 1) empty_tables 0 0 0 (length bytes) bytes small
        (omega arith) (omega arith) (ground (arith, something, h)) (omega arith)
]
