-- ===== src/Archive/Index/Legacy.antt =====
-- parse_legacy_disk_index of src/zupt_format.c, for the index of disk archives through v5.2.1.
use mathlib.Core.Path.{subst}
use libvuptsdk.Common.{
  ℕ, ◌-◌, ◌/◌, ◌≤◌, ◌≡◌, refl, sym, ap, ◌∙◌, arith, List, [], ◌∷◌, ◌++◌, false, ◌||◌, not, ltb, leb,
  ◌==◌, ==_iff, length, take, drop, All, IsByte, length-drop, length-append, append-nil,
  drop-append, lt_wf, or_left, or_right, ltb-false, not-false, Bool-cases, inl, inr,
}
use libvuptsdk.Wire.Fixed.{le32_put}
use libvuptsdk.Wire.Varint.{encode_varint, decode_varint}
use libvuptsdk.Wire.Varint.Groups.{encode_loop-last}
use libvuptsdk.Wire.Varint.RoundTrip.{decode_varint-encode_varint}
use libvuptsdk.Text.{has_byte, path_has_unsafe_text, max_path}
use libvuptsdk.Archive.Error.{ok, err, corrupt, after_ok, after_read, after_fail_if, ok-injective}
use libvuptsdk.Archive.Index.{
  IndexEntry, index_put_u64, index_put_u32, index_get_u32, parse_path, parse_entry, parse_loop,
  parse_entries, parse_index, parse_legacy_path, legacy_entry, parse_legacy_disk_index,
}
use libvuptsdk.Archive.Index.Fields.{u64_read, u32_read, length_u64, length_u32}
use libvuptsdk.Archive.Index.RoundTrip.{IsPath, IsEntry}
use libvuptsdk.Archive.Index.Canonical.{length_zero, behind, u64_of, IsPath-cut}

-- The old layout: fixed numbers of four bytes for the count and for the number of blocks.
abbrev pub old_numbers : IndexEntry → List ℕ
old_numbers e =
    index_put_u64 e.uncompressed_size
    ++ (index_put_u64 e.compressed_size
        ++ (index_put_u64 e.modification_time
            ++ (index_put_u64 e.content_hash
                ++ (index_put_u64 e.first_block_offset
                    ++ (index_put_u32 e.block_count ++ index_put_u32 e.attributes)))))

abbrev pub old_index : IndexEntry → List ℕ
old_index e = index_put_u32 1 ++ (encode_varint (length e.path) ++ (e.path ++ old_numbers e))

legacy-IsPath :
    (buf path rest : List ℕ)
    → All IsByte buf
    → parse_legacy_path buf ≡ ok (path, rest)
    → (buf ≡ encode_varint (length path) ++ (path ++ rest))
      × IsPath path
      × All IsByte rest
      × (length rest ≡ 48)
unfolding parse_legacy_path
legacy-IsPath buf path rest p e = after_read (decode_varint buf) corrupt _ e λ plen read e1.
    let name = drop plen.1 buf in
    let cut = take plen.0 name in
    after_fail_if (plen.0 == 0 || (leb max_path plen.0 || ltb (length buf - plen.1) plen.0)) corrupt
      _ e1
      λ bad e2.
        let there = or_left (plen.0 == 0) _ bad in
        let other = or_right (plen.0 == 0) _ bad in
        let short = or_left (leb max_path plen.0) _ other in
        let fits = or_right (leb max_path plen.0) _ other in
        after_fail_if (has_byte 0 cut || not (length buf - plen.1 - plen.0 == 48)) corrupt _ e2
          λ bad' e3.
            let no_nul = or_left (has_byte 0 cut) _ bad' in
            let exact =
              (==_iff (length buf - plen.1 - plen.0) 48).0 (
                not-false (length buf - plen.1 - plen.0 == 48)
                  (or_right (has_byte 0 cut) _ bad')) in
            after_fail_if (path_has_unsafe_text cut) corrupt _ e3 λ safe e4.
              let (begins, is_path, p1) =
                IsPath-cut buf plen.0 plen.1 p read there short fits no_nul safe in
              let size : length (drop plen.0 name) ≡ 48 =
                omega (arith, exact, length-drop plen.0 name, length-drop plen.1 buf) in
              subst
                (λ (r : List ℕ × List ℕ).
                  (buf ≡ encode_varint (length r.0) ++ (r.0 ++ r.1))
                  × IsPath r.0
                  × All IsByte r.1
                  × (length r.1 ≡ 48))
                (ok-injective e4) (begins, is_path, p1, size)

old_numbers_read :
    (path buf : List ℕ)
    → All IsByte buf
    → length buf ≡ 48
    → IsPath path
    → (buf ≡ old_numbers (legacy_entry path buf)) × IsEntry (legacy_entry path buf)
unfolding legacy_entry
old_numbers_read path buf p size is_path =
    let buf1 = drop 8 buf in
    let buf2 = drop 8 buf1 in
    let buf3 = drop 8 buf2 in
    let buf4 = drop 8 buf3 in
    let buf5 = drop 8 buf4 in
    let buf6 = drop 4 buf5 in
    let l1 = length-drop 8 buf in
    let l2 = length-drop 8 buf1 in
    let l3 = length-drop 8 buf2 in
    let l4 = length-drop 8 buf3 in
    let l5 = length-drop 8 buf4 in
    let l6 = length-drop 4 buf5 in
    let l7 = length-drop 4 buf6 in
    let ((w0, p1), r0) = u64_read buf (omega arith) p in
    let ((w1, p2), r1) = u64_read buf1 (omega arith) p1 in
    let ((w2, p3), r2) = u64_read buf2 (omega arith) p2 in
    let ((w3, p4), r3) = u64_read buf3 (omega arith) p3 in
    let ((w4, p5), r4) = u64_read buf4 (omega arith) p4 in
    let ((w5, p6), r5) = u32_read buf5 (omega arith) p5 in
    let ((w6, p7), r6) = u32_read buf6 (omega arith) p6 in
    let nothing : drop 4 buf6 ≡ [] = length_zero (drop 4 buf6) (ground arith) in
    let last : buf6 ≡ index_put_u32 (index_get_u32 buf6) =
      w6 ∙ ap (λ t. index_put_u32 (index_get_u32 buf6) ++ t) nothing ∙ append-nil _ in
    (
      behind (u64_of buf) w0 (
          behind (u64_of buf1) w1 (
            behind (u64_of buf2) w2 (
              behind (u64_of buf3) w3
                (behind (u64_of buf4) w4 (behind (index_put_u32 (index_get_u32 buf5)) w5 last))))),
      record {
        is_path = is_path;
        size_range = r0;
        compressed_range = r1;
        time_range = r2;
        hash_range = r3;
        offset_range = r4;
        count_range = r5;
        attributes_range = r6;
      },
    )

-- Whatever parse_legacy_disk_index accepts is the old layout of one well-formed entry, to the last
-- byte, and that entry is the result.
pub parse_legacy_disk_index-canonical :
    (buf : List ℕ) (index : List IndexEntry)
    → All IsByte buf
    → parse_legacy_disk_index buf ≡ ok index
    → (e : IndexEntry) × (index ≡ e ∷ []) × (buf ≡ old_index e) × IsEntry e
unfolding parse_legacy_disk_index legacy_entry
parse_legacy_disk_index-canonical buf index p e =
    elim (Bool-cases (ltb (length buf) 4 || not (index_get_u32 buf == 1))) [
      | inl bad ↦ let refused : err corrupt ≡ ok index = rw bad at e in cc
      | inr good ↦
          let long = ltb-false (length buf) 4 (or_left (ltb (length buf) 4) _ good) in
          let one =
            (==_iff (index_get_u32 buf) 1).0
              (not-false (index_get_u32 buf == 1) (or_right (ltb (length buf) 4) _ good)) in
          let ((w, p1), range) = u32_read buf long p in
          let w' : buf ≡ index_put_u32 1 ++ drop 4 buf =
            w ∙ ap (λ n. index_put_u32 n ++ drop 4 buf) one in
          after_ok (parse_legacy_path (drop 4 buf)) _ (rw good at e) λ path read e1.
            let (begins, is_path, p2, size) = legacy-IsPath (drop 4 buf) path.0 path.1 p1 read in
            after_fail_if (not (length (drop 48 path.1) == 0)) corrupt _ e1 λ at_end e2.
              let (fields, valid) = old_numbers_read path.0 path.1 p2 size is_path in
              (
                legacy_entry path.0 path.1,
                sym (ok-injective e2),
                w'
                    ∙ ap (λ t. index_put_u32 1 ++ t) begins
                    ∙ ap (λ t. index_put_u32 1 ++ (encode_varint (length path.0) ++ (path.0 ++ t)))
                        fields,
                valid,
              )
    ]

-- The count 1 and a path of length 0: what the current reader takes the old layout for.
one_entry :
    (rest : List ℕ)
    → index_put_u32 1 ++ rest ≡ encode_varint 1 ++ (encode_varint 0 ++ (0 ∷ 0 ∷ rest))
unfolding index_put_u32 le32_put encode_varint
one_entry rest =
    rw
      (
        encode_loop-last 1 (lt_wf.apply 1) (omega arith),
        encode_loop-last 0 (lt_wf.apply 0) (omega arith),
      )
      refl

no_path : (rest : List ℕ) → parse_path (encode_varint 0 ++ rest) ≡ err corrupt
unfolding parse_path
no_path rest =
    let fits : ltb (length (encode_varint 0 ++ rest) - length (encode_varint 0)) 0 ≡ false =
      ground arith in
    rw (decode_varint-encode_varint 0 rest (omega arith), fits) refl

-- parse_index takes no index in the old layout for one in the new: it answers ZUPT_ERR_CORRUPT.
pub parse_index-old_index : (e : IndexEntry) → IsEntry e → parse_index (old_index e) ≡ err corrupt
unfolding parse_index parse_entries parse_loop parse_entry
parse_index-old_index e h =
    let fields = encode_varint (length e.path) ++ (e.path ++ old_numbers e) in
    let behind_count = encode_varint 0 ++ (0 ∷ 0 ∷ fields) in
    let read = decode_varint-encode_varint 1 behind_count (omega arith) in
    let size : 48 ≤ length (old_numbers e) =
      omega (arith, length-append {0}, length_u64, length_u32) in
    let fits : ltb ((length (encode_varint 1 ++ behind_count) - length (encode_varint 1)) / 47) 1
        ≡ false =
      not_below (omega (arith, length-append {0}, size)) in
    rw
      (
        one_entry fields,
        read,
        fits,
        drop-append (encode_varint 1) behind_count (length (encode_varint 1)) refl,
        no_path (0 ∷ 0 ∷ fields),
      )
      refl
  where
    not_below : {a b : ℕ} → b ≤ a → ltb a b ≡ false
    not_below h = ground arith
