-- ===== src/Lz.antt =====
-- The Zupt-LZ codec of src/zupt_lz.c. An int32_t position is an Option: every negative one is none.
-- A buffer is a list of bytes; what is written from `op` on is the list that a function returns.
pub mod Match
pub mod Rounds
pub mod Decode
pub mod Encode
use libvuptsdk.Common.{
  ℕ, zero, suc, ◌+◌, ◌-◌, ◌*◌, ◌/◌, ◌%◌, ◌^◌, ◌≤◌, ◌<◌, min, bit_and, bit_or, List, [], ◌∷◌, ◌++◌,
  Bool, true, false, ◌&&◌, ◌||◌, not, Option, some, none, ◌>>=◌, ◌>>◌, require, ltb, leb, ◌==◌,
  if◌then◌else◌, length, get_or, take, drop,
}
use libvuptsdk.Wire.Fixed.{le32_get}

abbrev pub min_match : ℕ
min_match = 3

abbrev pub max_offset : ℕ
max_offset = 65535

abbrev pub window_size : ℕ
window_size = 65535

-- (int32_t)x for a size_t, and the test x >= 0
abbrev pub as_int32 : ℕ → Option ℕ
as_int32 x = if ltb (x % 2 ^ 32) (2 ^ 31) then some (x % 2 ^ 32) else none

unfoldable pub lz_hash4 : List ℕ → ℕ → ℕ
lz_hash4 src ip = le32_get (drop ip src) * 2654435761 % 2 ^ 32 / 2 ^ 14

pub record Tables : Type 0 where
  pub hash : ℕ → Option ℕ
  pub chain : ℕ → Option ℕ

-- memset to 0xFF makes each hash entry -1; calloc makes each chain entry 0.
abbrev pub empty_tables : Tables
empty_tables = record { hash = λ h. none; chain = λ i. some 0 }

abbrev pub update : (ℕ → Option ℕ) → ℕ → Option ℕ → ℕ → Option ℕ
update t i v j = if j == i then v else t j

unfoldable pub lz_insert_hash : List ℕ → Tables → ℕ → Tables
lz_insert_hash src t ip =
    if leb (ip + 4) (length src)
    then record {
      hash = update t.hash (lz_hash4 src ip) (as_int32 ip);
      chain = update t.chain (ip % window_size) (t.hash (lz_hash4 src ip));
    }
    else t

-- for (; ip < match_end && ip + 4 <= src_len; ip++)
unfoldable pub insert_range : List ℕ → Tables → ℕ → ℕ → Tables
insert_range src t ip zero = t
insert_range src t ip (suc left) = insert_range src (lz_insert_hash src t ip) (ip + 1) left

-- while (mlen < max_m && src[ref + mlen] == src[ip + mlen]) mlen++; `left` is max_m - mlen.
unfoldable pub match_loop : List ℕ → ℕ → ℕ → ℕ → ℕ → ℕ
match_loop src r ip mlen zero = mlen
match_loop src r ip mlen (suc left) =
    let more = match_loop src r ip (mlen + 1) left in
    if get_or src (r + mlen) 0 == get_or src (ip + mlen) 0 then more else mlen

-- The longest match so far: its length, and its offset.
pub record Best : Type 0 where
  pub len : ℕ
  pub off : ℕ

abbrev pub quick_check : List ℕ → ℕ → ℕ → ℕ → Bool
quick_check src r ip best_len =
    ltb best_len (length src - ip)
    && (get_or src (r + best_len) 0 == get_or src (ip + best_len) 0
        && get_or src r 0 == get_or src ip 0)

-- One candidate at `r`.
unfoldable pub improve : List ℕ → ℕ → ℕ → Best → Best
improve src r ip best =
    let mlen = match_loop src r ip 0 (min (length src - ip) 65535) in
    if quick_check src r ip best.len && ltb best.len mlen
    then record { len = mlen; off = ip - r }
    else best

-- The chain; `left` is max_chain - count. A position past `ip` makes `dist` wrap to a huge value.
unfoldable pub find_loop : List ℕ → Tables → ℕ → ℕ → Option ℕ → Best → Best
find_loop src t ip zero r best = best
find_loop src t ip (suc left) none best = best
find_loop src t ip (suc left) (some r) best =
    let next = improve src r ip best in
    let rest = find_loop src t ip left (t.chain (r % window_size)) next in
    if leb ip r || ltb max_offset (ip - r)
    then best
    else (if ltb best.len next.len && leb 256 next.len then next else rest)

unfoldable pub lz_find_match : List ℕ → Tables → ℕ → ℕ → Best
lz_find_match src t ip max_chain =
    if leb (ip + 4) (length src)
    then (let best =
          find_loop src t ip max_chain (t.hash (lz_hash4 src ip))
            (record { len = min_match - 1; off = 0 }) in
        if leb min_match best.len then best else record best { len = 0 })
    else record { len = 0; off = 0 }

-- The bytes of lz_write_extra in the room of `cap` bytes.
unfoldable pub lz_write_extra : ℕ → ℕ → List ℕ
lz_write_extra zero len = []
lz_write_extra (suc cap) len =
    let rest = lz_write_extra cap (len - 255) in
    if leb 255 len then 255 ∷ rest else (len % 256) ∷ []

-- The rest of the source from *pos on; none is the result (size_t)-1.
unfoldable pub lz_read_extra : List ℕ → ℕ → Option (ℕ × List ℕ)
lz_read_extra [] t = some (t, [])
lz_read_extra (b ∷ s) t =
    let rest = lz_read_extra s (t + b) in
    if ltb (2 ^ 32 - 1 - 255) t then none else (if ltb b 255 then some (t + b, s) else rest)

-- A length nibble of 15 goes on in further bytes.
abbrev pub read_length : ℕ → ℕ → ℕ → List ℕ → Option (ℕ × List ℕ)
read_length code plain init s = if code == 15 then lz_read_extra s init else some (plain, s)

-- for (i = 0; i < match_len; i++) dst[op + i] = dst[ref + i]; the output ends at op + i.
unfoldable pub copy_match : List ℕ → ℕ → ℕ → List ℕ
copy_match out r zero = out
copy_match out r (suc left) = copy_match (out ++ (get_or out r 0 ∷ [])) (r + 1) left

-- The rest of the source after the literals, and the output; a run of none leaves both alone.
abbrev pub copy_literals : ℕ → ℕ → List ℕ → List ℕ → Option (List ℕ × List ℕ)
copy_literals dst_len lit_len s out =
    if lit_len == 0
    then some (s, out)
    else (if leb lit_len (length s) && leb (length out + lit_len) dst_len
        then some (drop lit_len s, out ++ take lit_len s)
        else none)

-- From the offset bytes to the end of the match.
unfoldable pub read_match : ℕ → ℕ → List ℕ → List ℕ → Option (List ℕ × List ℕ)
read_match dst_len match_code [] out = none
read_match dst_len match_code (b ∷ []) out = none
read_match dst_len match_code (b0 ∷ b1 ∷ s) out =
    let offset = bit_or b0 (b1 * 2 ^ 8) in
    require (not (offset == 0 || ltb (length out) offset))
    >> (read_length match_code (match_code + min_match) (15 + min_match) s >>= λ (match_len, s').
        require (leb (length out + match_len) dst_len)
        >> some (s', copy_match out (length out - offset) match_len))

-- One round is one token. With as many rounds as bytes the source is read to its end.
unfoldable pub decompress_loop : ℕ → ℕ → List ℕ → List ℕ → Option (List ℕ)
decompress_loop dst_len fuel [] out = some out
decompress_loop dst_len zero (token ∷ s) out = none
decompress_loop dst_len (suc fuel) (token ∷ s) out =
    read_length (bit_and (token / 2 ^ 4) 0xf) (bit_and (token / 2 ^ 4) 0xf) 15 s
    >>= λ (lit_len, s1). copy_literals dst_len lit_len s1 out >>= λ (s2, out1).
        if length s2 == 0
        then some out1
        else (read_match dst_len (bit_and token 0xf) s2 out1 >>= λ (s3, out2).
            decompress_loop dst_len fuel s3 out2)

-- none is a result of 0 for a malformed source.
unfoldable pub lz_decompress : List ℕ → ℕ → Option (List ℕ)
lz_decompress src dst_len = decompress_loop dst_len (length src) src []

abbrev pub nibble : ℕ → ℕ
nibble n = if leb 15 n then 15 else n

-- A token, its literals, and what stands between them.
unfoldable pub put_literals : ℕ → List ℕ → ℕ → List ℕ
put_literals cap lits tm =
    bit_or (nibble (length lits) * 2 ^ 4) tm
    ∷ ((if leb 15 (length lits) then lz_write_extra (cap - 1) (length lits - 15) else []) ++ lits)

-- The literals from `anchor` to `ip`, and a match; `op` bytes have been written before.
unfoldable pub put_sequence : ℕ → ℕ → List ℕ → Best → Option (List ℕ)
put_sequence dst_cap op lits m =
    let extra = m.len - min_match in
    let head = put_literals (dst_cap - op) lits (nibble extra) in
    let offset = bit_and m.off 0xff ∷ bit_and (m.off / 2 ^ 8) 0xff ∷ [] in
    require (leb (op + 1 + length lits / 255 + 1 + length lits + 2 + extra / 255 + 1) dst_cap)
    >> some (
        head
        ++ (offset
            ++ (if leb 15 extra
                then lz_write_extra (dst_cap - (op + length head + 2)) (extra - 15)
                else [])))

unfoldable pub put_last : ℕ → ℕ → List ℕ → Option (List ℕ)
put_last dst_cap op lits =
    require (leb (op + 1 + length lits / 255 + 1 + length lits) dst_cap)
    >> some (put_literals (dst_cap - op) lits 0)

-- The match to emit and where it starts; a length of 0 is a round that only moves on.
pub record Choice : Type 0 where
  pub tables : Tables
  pub at : ℕ
  pub best : Best

unfoldable pub choose_match : List ℕ → ℕ → Bool → Tables → ℕ → Choice
choose_match src max_chain lazy t ip =
    let m1 = lz_find_match src t ip max_chain in
    let t1 = lz_insert_hash src t ip in
    let m2 = lz_find_match src t1 (ip + 1) max_chain in
    if m1.len == 0
    then record { tables = t1; at = ip; best = m1 }
    else (if lazy && leb (ip + 1 + min_match) (length src)
        then (if ltb (m1.len + 1) m2.len
            then record { tables = t1; at = ip + 1; best = m2 }
            else record { tables = t1; at = ip; best = m1 })
        else record { tables = t; at = ip; best = m1 })

unfoldable pub after_match : List ℕ → Bool → Choice → Tables
after_match src lazy c =
    insert_range src (if lazy then c.tables else lz_insert_hash src c.tables c.at) (c.at + 1)
      (c.best.len - 1)

-- The rounds from `ip` on. The bytes since `anchor` are not emitted yet; `op` bytes are written.
unfoldable pub compress_loop : List ℕ → ℕ → ℕ → Bool → ℕ → Tables → ℕ → ℕ → ℕ → Option (List ℕ)
compress_loop src dst_cap max_chain lazy zero t ip anchor op = none
compress_loop src dst_cap max_chain lazy (suc fuel) t ip anchor op =
    let c = choose_match src max_chain lazy t ip in
    let next = c.at + c.best.len in
    elim (leb (ip + min_match) (length src)) [
      | false ↦ put_last dst_cap op (drop anchor src)
      | true ↦ elim (c.best.len == 0) [
        | true ↦ compress_loop src dst_cap max_chain lazy fuel c.tables (ip + 1) anchor op
        | false ↦
            put_sequence dst_cap op (take (c.at - anchor) (drop anchor src)) c.best >>= λ bytes.
            compress_loop src dst_cap max_chain lazy fuel (after_match src lazy c) next next
              (op + length bytes)
            >>= λ rest. some (bytes ++ rest)
      ]
    ]

abbrev pub clamp_level : ℕ → ℕ
clamp_level level = if ltb level 1 then 1 else (if ltb 9 level then 9 else level)

-- none is a result of 0. Each round moves `ip`, so one round more than the bytes is enough.
unfoldable pub lz_compress : List ℕ → ℕ → ℕ → Option (List ℕ)
lz_compress src dst_cap level =
    let l = clamp_level level in
    if length src == 0
    then none
    else compress_loop src dst_cap (4 + l * l * 3) (leb 3 l) (length src + 1) empty_tables 0 0 0
