-- ===== src/Archive/Index/Canonical.antt =====
-- parse_index of src/zupt_format.c accepts nothing but an index in the form that is written.
use mathlib.Core.Path.{subst}
use libvuptsdk.Common.{
  ℕ, zero, suc, ◌-◌, ◌/◌, ◌^◌, ◌≤◌, ◌≡◌, refl, sym, ap, ap₂, ◌∙◌, arith, List, [], ◌∷◌, ◌++◌, true,
  false, ◌||◌, not, ltb, leb, ◌==◌, ==_iff, length, take, drop, map, All, IsByte, length-drop,
  length-take, append_assoc, some, append-nil, take-append-drop, All-append_right, or_left,
  or_right, ltb-false, leb-false, not-false, Bool-cases, inl, inr,
}
use libvuptsdk.Wire.Varint.{encode_varint, decode_varint}
use libvuptsdk.Text.{has_byte, path_has_unsafe_text, max_path}
use libvuptsdk.Archive.Error.{
  ok, err, corrupt, overflow, after_ok, after_read, after_fail_if, ok-injective,
}
use libvuptsdk.Archive.Destinations.{validate_archive_destinations}
use libvuptsdk.Archive.Destinations.Distinct.{
  Distinct, destination, validate_archive_destinations-Distinct,
}
use libvuptsdk.Archive.Index.{
  IndexEntry, max_index_alloc_bytes, sizeof_index_entry, min_index_entry_bytes, max_files,
  index_put_u64, index_put_u32, index_get_u64, index_get_u32, write_entry, write_loop, write_index,
  parse_path, parse_numbers, parse_entry, parse_loop, parse_entries, parse_index, paths_of,
}
use libvuptsdk.Archive.Index.Fields.{u64_read, u32_read, varint_read}
use libvuptsdk.Archive.Index.RoundTrip.{IsPath, IsEntry, numbers, write_entry-parts}

-- The front of the bytes, cut off where the length allows it.
length_front : (n : ℕ) (f : List ℕ) → n ≤ length f → length (take n f) ≡ n
length_front n f h = omega (arith, length-take n f)

-- A path of the announced length, with the tests that both readers make of it.
pub IsPath-cut :
    (buf : List ℕ) (plen vn : ℕ)
    → All IsByte buf
    → decode_varint buf ≡ some (plen, vn)
    → plen == 0 ≡ false
    → leb max_path plen ≡ false
    → ltb (length buf - vn) plen ≡ false
    → has_byte 0 (take plen (drop vn buf)) ≡ false
    → path_has_unsafe_text (take plen (drop vn buf)) ≡ false
    → (buf
        ≡ encode_varint (length (take plen (drop vn buf)))
          ++ (take plen (drop vn buf) ++ drop plen (drop vn buf)))
      × IsPath (take plen (drop vn buf))
      × All IsByte (drop plen (drop vn buf))
IsPath-cut buf plen vn p read there short fits no_nul safe =
    let ((begins, p1), range) = varint_read buf plen vn p read in
    let name = drop vn buf in
    let cut = take plen name in
    let size : length cut ≡ plen =
      length_front plen name
        (omega (arith, ltb-false (length buf - vn) plen fits, length-drop vn buf)) in
    let joined : cut ++ drop plen name ≡ name = take-append-drop plen name in
    let p2 : All IsByte (cut ++ drop plen name) = rw joined p1 in
    (
      begins ∙ ap₂ (λ n t. encode_varint n ++ t) (sym size) (sym joined),
      record {
        some_there = ground (arith, size);
        short = omega (arith, size, leb-false max_path plen short);
        no_nul = no_nul;
        safe_text = safe;
      },
      All-append_right IsByte cut (drop plen name) p2,
    )

parse_path_read :
    (buf path rest : List ℕ)
    → All IsByte buf
    → parse_path buf ≡ ok (path, rest)
    → (buf ≡ encode_varint (length path) ++ (path ++ rest)) × IsPath path × All IsByte rest
unfolding parse_path
parse_path_read buf path rest p e = after_read (decode_varint buf) corrupt _ e λ plen read e1.
    let cut = take plen.0 (drop plen.1 buf) in
    after_fail_if (ltb (length buf - plen.1) plen.0) corrupt _ e1 λ fits e2.
      after_fail_if (plen.0 == 0 || (leb max_path plen.0 || has_byte 0 cut)) corrupt _ e2 λ bad e3.
        let there = or_left (plen.0 == 0) _ bad in
        let other = or_right (plen.0 == 0) _ bad in
        after_fail_if (path_has_unsafe_text cut) corrupt _ e3 λ safe e4.
          subst
            (λ (r : List ℕ × List ℕ).
              (buf ≡ encode_varint (length r.0) ++ (r.0 ++ r.1)) × IsPath r.0 × All IsByte r.1)
            (ok-injective e4)
            (IsPath-cut buf plen.0 plen.1 p read there (or_left (leb max_path plen.0) _ other) fits
              (or_right (leb max_path plen.0) _ other) safe)

-- The rest of the bytes, written out.
pub behind : (front : List ℕ) {g h h' : List ℕ} → g ≡ front ++ h → h ≡ h' → g ≡ front ++ h'
behind front a b = a ∙ ap (λ t. front ++ t) b

abbrev pub u64_of : List ℕ → List ℕ
u64_of f = index_put_u64 (index_get_u64 f)

joined :
    (f f1 f2 f3 f4 f5 f6 rest : List ℕ) (bc : ℕ)
    → f ≡ u64_of f ++ f1
    → f1 ≡ u64_of f1 ++ f2
    → f2 ≡ u64_of f2 ++ f3
    → f3 ≡ u64_of f3 ++ f4
    → f4 ≡ u64_of f4 ++ f5
    → f5 ≡ encode_varint bc ++ f6
    → f6 ≡ index_put_u32 (index_get_u32 f6) ++ rest
    → f
      ≡ u64_of f
        ++ (u64_of f1
            ++ (u64_of f2
                ++ (u64_of f3
                    ++ (u64_of f4
                        ++ (encode_varint bc ++ (index_put_u32 (index_get_u32 f6) ++ rest))))))
joined f f1 f2 f3 f4 f5 f6 rest bc w0 w1 w2 w3 w4 w5 w6 = behind (u64_of f) w0 (
    behind (u64_of f1) w1 (
      behind (u64_of f2) w2
        (behind (u64_of f3) w3 (behind (u64_of f4) w4 (behind (encode_varint bc) w5 w6)))))

-- The entry and the bytes behind it, with what they say of the bytes that were read.
abbrev NumbersRead : List ℕ → List ℕ → IndexEntry × List ℕ → Type 0
NumbersRead path buf r =
    (buf ≡ numbers r.0 r.1) × (IsPath path → IsEntry r.0) × (r.0.path ≡ path) × All IsByte r.1

parse_numbers_read :
    (path buf : List ℕ) (r : IndexEntry × List ℕ)
    → All IsByte buf
    → parse_numbers path buf ≡ ok r
    → NumbersRead path buf r
unfolding parse_numbers
parse_numbers_read path buf r p e =
    let buf1 = drop 8 buf in
    let buf2 = drop 8 buf1 in
    let buf3 = drop 8 buf2 in
    let buf4 = drop 8 buf3 in
    let buf5 = drop 8 buf4 in
    after_fail_if (ltb (length buf) 44) corrupt _ e λ long e1.
      let size : 44 ≤ length buf = ltb-false (length buf) 44 long in
      let l1 = length-drop 8 buf in
      let l2 = length-drop 8 buf1 in
      let l3 = length-drop 8 buf2 in
      let l4 = length-drop 8 buf3 in
      let ((w0, p1), r0) = u64_read buf (omega arith) p in
      let ((w1, p2), r1) = u64_read buf1 (omega arith) p1 in
      let ((w2, p3), r2) = u64_read buf2 (omega arith) p2 in
      let ((w3, p4), r3) = u64_read buf3 (omega arith) p3 in
      let ((w4, p5), r4) = u64_read buf4 (omega arith) p4 in
      after_read (decode_varint buf5) corrupt _ e1 λ bc read e2.
        let ((w5, p6), r5) = varint_read buf5 bc.0 bc.1 p5 read in
        let last = drop bc.1 buf5 in
        after_fail_if (ltb (2 ^ 32 - 1) bc.0) corrupt _ e2 λ small e3.
          after_fail_if (ltb (length last) 4) corrupt _ e3 λ four e4.
            let ((w6, p7), r6) = u32_read last (ltb-false (length last) 4 four) p6 in
            subst (NumbersRead path buf) (ok-injective e4) (
              joined buf buf1 buf2 buf3 buf4 buf5 last (drop 4 last) bc.0 w0 w1 w2 w3 w4 w5 w6,
              (λ is_path. record {
                is_path = is_path;
                size_range = r0;
                compressed_range = r1;
                time_range = r2;
                hash_range = r3;
                offset_range = r4;
                count_range = omega (arith, ltb-false (2 ^ 32 - 1) bc.0 small);
                attributes_range = r6;
              }),
              refl,
              p7,
            )

parse_entry_read :
    (buf : List ℕ) (r : IndexEntry × List ℕ)
    → All IsByte buf
    → parse_entry buf ≡ ok r
    → (buf ≡ write_entry r.0 ++ r.1) × IsEntry r.0 × All IsByte r.1
unfolding parse_entry
parse_entry_read buf r p e = after_ok (parse_path buf) _ e λ path read e1.
    let (begins, is_path, p1) = parse_path_read buf path.0 path.1 p read in
    let (fields, valid, same, p2) = parse_numbers_read path.0 path.1 r p1 e1 in
    (
      begins
          ∙ ap₂ (λ q t. encode_varint (length q) ++ (q ++ t)) (sym same) fields
          ∙ sym (write_entry-parts r.0 r.1),
      valid is_path,
      p2,
    )

abbrev LoopRead : ℕ → List ℕ → List IndexEntry × List ℕ → Type 0
LoopRead count buf r = (buf ≡ write_loop r.0 ++ r.1) × All IsEntry r.0 × (length r.0 ≡ count)

parse_loop_read :
    (count : ℕ) (buf : List ℕ) (r : List IndexEntry × List ℕ)
    → All IsByte buf
    → parse_loop count buf ≡ ok r
    → LoopRead count buf r
unfolding parse_loop write_loop
parse_loop_read zero buf r p e = subst (LoopRead 0 buf) (ok-injective e) (refl, tt, refl)
parse_loop_read (suc count) buf r p e = after_ok (parse_entry buf) _ e λ entry read e1.
    let (begins, valid, p1) = parse_entry_read buf entry p read in
    after_ok (parse_loop count entry.1) _ e1 λ rest read' e2.
      let (loop, all, n) = parse_loop_read count entry.1 rest p1 read' in
      let there : length entry.0.path == 0 ≡ false = ground (arith, valid.is_path.some_there) in
      subst (LoopRead (suc count) buf) (ok-injective e2) (
        rw (there, append_assoc (write_entry entry.0) (write_loop rest.0) rest.1)
            (begins ∙ ap (λ t. write_entry entry.0 ++ t) loop),
        (valid, all),
        ap suc n,
      )

-- An index that is well formed: entries with safe text in their paths and numbers in the ranges of
-- their types, few enough for the limit on memory, and with pairwise different destinations.
pub record IsIndex (index : List IndexEntry) : Type 0 where
  pub entries : All IsEntry index
  pub distinct : Distinct (map destination (paths_of index))

pub length_zero : (l : List ℕ) → length l == 0 ≡ true → l ≡ []
length_zero [] h = refl
length_zero (x ∷ l) h = ground (arith, h)

parse_entries_read :
    (count : ℕ) (buf : List ℕ) (index : List IndexEntry)
    → All IsByte buf
    → parse_entries count buf ≡ ok index
    → (buf ≡ write_loop index) × IsIndex index × (length index ≡ count)
unfolding parse_entries
parse_entries_read count buf index p e = elim (Bool-cases (count == 0)) [
  | inl none_there ↦ elim (Bool-cases (length buf == 0)) [
    | inl at_end ↦
        let same : [] ≡ index = ok-injective (rw (none_there, at_end) at e) in
        subst (λ (l : List IndexEntry). (buf ≡ write_loop l) × IsIndex l × (length l ≡ count)) same
          (
            unfold write_loop in length_zero buf at_end,
            record { entries = tt; distinct = tt },
            sym ((==_iff count 0).0 none_there),
          )
    | inr behind ↦ let refused : err corrupt ≡ ok index = rw (none_there, behind) at e in cc
  ]
  | inr many ↦ after_ok (parse_loop count buf) _ (rw many at e) λ parsed read e1.
      after_fail_if (not (length parsed.1 == 0)) corrupt _ e1 λ at_end e2.
        after_ok (validate_archive_destinations (paths_of parsed.0) false) _ e2 λ u valid e3.
          let (loop, all, n) = parse_loop_read count buf parsed p read in
          let (apart, _) = validate_archive_destinations-Distinct (paths_of parsed.0) false valid in
          let nothing = length_zero parsed.1 (not-false (length parsed.1 == 0) at_end) in
          subst (λ (l : List IndexEntry). (buf ≡ write_loop l) × IsIndex l × (length l ≡ count))
            (ok-injective e3)
            (
              loop ∙ ap (λ t. write_loop parsed.0 ++ t) nothing ∙ append-nil (write_loop parsed.0),
              record { entries = all; distinct = apart },
              n,
            )
]

-- Whatever parse_index accepts is, byte for byte, the index that the compressor's loop writes for
-- the entries that it returns. Their paths are not empty, shorter than the limit and of safe text,
-- their numbers are in the ranges of their types, their destinations are pairwise different, and
-- there are no more of them than the limit on memory allows.
pub parse_index-canonical :
    (buf : List ℕ) (index : List IndexEntry)
    → All IsByte buf
    → parse_index buf ≡ ok index
    → (buf ≡ write_index index)
      × IsIndex index
      × (length index ≤ max_index_alloc_bytes / sizeof_index_entry)
unfolding parse_index write_index
parse_index-canonical buf index p e = after_read (decode_varint buf) corrupt _ e λ count read e1.
    let ((begins, p1), range) = varint_read buf count.0 count.1 p read in
    after_fail_if (ltb max_files count.0) overflow _ e1 λ a e2.
      after_fail_if (ltb ((length buf - count.1) / min_index_entry_bytes) count.0) corrupt _ e2
        λ b e3.
          after_fail_if (ltb ((2 ^ 64 - 1) / sizeof_index_entry) count.0) overflow _ e3 λ c e4.
            after_fail_if (ltb (max_index_alloc_bytes / sizeof_index_entry) count.0) overflow _ e4
              λ d e5.
                let (loop, valid, n) = parse_entries_read count.0 (drop count.1 buf) index p1 e5 in
                (
                  begins ∙ ap₂ (λ m t. encode_varint m ++ t) (sym n) loop,
                  valid,
                  omega
                      (arith, n, ltb-false (max_index_alloc_bytes / sizeof_index_entry) count.0 d),
                )
