-- ===== src/Parallel/Worker/Decide.antt =====
-- What worker_compress of src/zupt_parallel.c decides to write is decoded to the block, whatever the
-- codec; without the cipher.
use libvuptsdk.Common.{
  ℕ, zero, suc, ◌+◌, ◌^◌, ◌≤◌, ◌<◌, ◌≡◌, refl, ap, sym, ◌∙◌, arith, List, ◌∷◌, ◌++◌, true, false,
  ◌&&◌, ◌||◌, Option, some, none, ltb, leb, ◌==◌, ==_iff, length, get_or, All, IsByte, take-append,
  drop-append, length-append, take_all, or_left, or_right, and_left, ltb→lt, leb-false, if-elim,
}
use libvuptsdk.Lz.{lz_compress, lz_decompress}
use libvuptsdk.Lz.Encode.RoundTrip.{decompress-compress}
use libvuptsdk.Predict.{Prediction, predict_build, predict_encode}
use libvuptsdk.Predict.Transform.{
  predict-inverse, length-predict_encode, predict_encode-IsByte, predict_decode-agree,
}
use libvuptsdk.Predict.Table.{predict_build-IsBest}
use libvuptsdk.Archive.Error.{ok}
use libvuptsdk.Archive.Unpack.{
  codec_store, codec_zupt_lz, codec_zupt_lzh, codec_zupt_lzhp, codec_vaptvupt, vv_decode_slack,
}
use libvuptsdk.Parallel.Worker.{
  Compressors, Decompressors, lz_bound, lzh_bound, table_bytes, plain_lzhp, compress_lzhp, smaller,
  or_empty, compressed, decide, exact, worker_lzhp, worker_decode,
}

-- The larger codecs give back what they took: a result that is not empty is decoded to its source
-- at the source's length, for VaptVupt with the slack behind it.
pub record IsInverse (comp : Compressors) (dec : Decompressors) : Type 0 where
  pub lzh :
      (src : List ℕ) (cap level : ℕ)
      → All IsByte src
      → 0 < length (comp.lzh src cap level)
      → dec.lzh (comp.lzh src cap level) (length src) ≡ some src
  pub vaptvupt :
      (src packed : List ℕ) (cap level : ℕ)
      → All IsByte src
      → comp.vaptvupt src cap level ≡ some packed
      → 0 < length packed
      → dec.vaptvupt packed (length src + vv_decode_slack) ≡ some src

length-table_bytes : (left c : ℕ) (pred : Prediction) → length (table_bytes left c pred) ≡ left
unfolding table_bytes
length-table_bytes zero c pred = refl
length-table_bytes (suc left) c pred = ap suc (length-table_bytes left (c + 1) pred)

get_or-table_bytes :
    (left c i : ℕ) (pred : Prediction)
    → i < left
    → get_or (table_bytes left c pred) i 0 ≡ pred (c + i)
unfolding table_bytes
get_or-table_bytes zero c i pred h = absurd (omega arith)
get_or-table_bytes (suc left) c zero pred h = ap pred (omega arith)
get_or-table_bytes (suc left) c (suc i) pred h =
    get_or-table_bytes left (c + 1) i pred (omega arith) ∙ ap pred (omega arith)

exact_all : (n : ℕ) (src : List ℕ) → length src ≡ n → exact n (some src) ≡ ok src
exact_all n src e = let same : length src == n ≡ true = (==_iff (length src) n).1 e in rw same refl

module _ (comp : Compressors) (dec : Decompressors) (inverse : IsInverse comp dec) (src : List ℕ)
    (bytes : All IsByte src) (level : ℕ) where
  -- What a packed block must say.
  abbrev Decodes : List ℕ → Type 0
  Decodes packed = 0 < length packed → worker_lzhp dec packed (length src) ≡ ok src

  plain_lzhp-Decodes : Decodes (plain_lzhp comp src level)
  unfolding plain_lzhp worker_lzhp
  plain_lzhp-Decodes =
      let plain = comp.lzh src (lzh_bound (length src)) level in
      if-elim Decodes (ltb 0 (length plain) && ltb (1 + length plain) (length src))
        (λ good there.
          let some_there = ltb→lt 0 (length plain) (and_left (ltb 0 (length plain)) _ good) in
          let long : leb (length (0x00 ∷ plain)) 1 ≡ false = ground arith in
          let one : ltb (length (0x00 ∷ plain)) 1 ≡ false = ground arith in
          rw (long, one, inverse.lzh src (lzh_bound (length src)) level bytes some_there)
            (exact_all (length src) src refl))
        (λ bad there. absurd (omega arith))

  predicted :
      (packed : List ℕ)
      → packed
        ≡ comp.lzh (predict_encode src (predict_build true src)) (lzh_bound (length src)) level
      → 0 < length packed
      → Decodes (0x01 ∷ (table_bytes 256 0 (predict_build true src) ++ packed))
  unfolding worker_lzhp
  predicted packed made some_there there =
      let pred = predict_build true src in
      let table = table_bytes 256 0 pred in
      let size = length-table_bytes 256 0 pred in
      let encoded = predict_encode src pred in
      let all : 257 + length packed ≡ length (0x01 ∷ (table ++ packed)) =
        omega (arith, length-append table packed, size) in
      let one : ltb (length (0x01 ∷ (table ++ packed))) 1 ≡ false = ground arith in
      let long : ltb (length (0x01 ∷ (table ++ packed))) 257 ≡ false = ground arith in
      let longer : leb (length (0x01 ∷ (table ++ packed))) 257 ≡ false = ground arith in
      let back : dec.lzh packed (length src) ≡ some encoded =
        rw (sym made, length-predict_encode src pred) at
          (inverse.lzh encoded (lzh_bound (length src)) level (predict_encode-IsByte src pred)
            (rw made at some_there)) in
      let whole : exact (length src) (some encoded) ≡ ok encoded =
        exact_all (length src) encoded (length-predict_encode src pred) in
      let agree : (c : ℕ) → c < 256 → get_or table c 0 ≡ pred c =
        λ c h. get_or-table_bytes 256 0 c pred h ∙ ap pred (omega arith) in
      rw
        (
          one,
          long,
          longer,
          drop-append table packed 256 size,
          take-append table packed 256 size,
          back,
          whole,
        )
        (ap ok (
          predict_decode-agree (λ c. get_or table c 0) pred encoded agree
          ∙ (predict-inverse pred src (λ c. (predict_build-IsBest src c).byte) bytes).0))

  compress_lzhp-Decodes : Decodes (compress_lzhp comp src level)
  unfolding compress_lzhp
  compress_lzhp-Decodes =
      let packed =
        comp.lzh (predict_encode src (predict_build true src)) (lzh_bound (length src)) level in
      if-elim Decodes (comp.benefits src && ltb 256 (length src))
        (λ a.
          if-elim Decodes (ltb 0 (length packed) && ltb (1 + 256 + length packed) (length src))
            (λ good.
              predicted packed refl
                (ltb→lt 0 (length packed) (and_left (ltb 0 (length packed)) _ good)))
            (λ bad. plain_lzhp-Decodes))
        (λ b. plain_lzhp-Decodes)

  -- A payload that is decoded to the source.
  abbrev pub IsPayload : ℕ → List ℕ → Type 0
  IsPayload codec payload =
      (worker_decode dec codec payload (length src) ≡ ok src) × (length payload ≤ length src)

  stored-IsPayload : IsPayload codec_store src
  unfolding worker_decode
  stored-IsPayload =
      let enough : ltb (length src) (length src) ≡ false = ground arith in
      (rw (enough, take_all (length src) src refl) refl, omega arith)

  abbrev Fits : List ℕ → Type 0
  Fits l = 0 < length l → dec.vaptvupt l (length src + vv_decode_slack) ≡ some src

  smaller-decodes :
      (room cbuf_cap : ℕ) (packed : Option (List ℕ))
      → comp.vaptvupt src room level ≡ packed
      → 0 < length (smaller comp (length src) cbuf_cap packed)
      → dec.vaptvupt (smaller comp (length src) cbuf_cap packed) (length src + vv_decode_slack)
        ≡ some src
  smaller-decodes room cbuf_cap none made there = absurd (omega arith)
  smaller-decodes room cbuf_cap (some packed) made there =
      if-elim Fits (ltb 0 (length packed) && ltb (length packed) (length src))
        (λ good.
          if-elim Fits (leb (length packed) cbuf_cap)
            (λ fits some_there. inverse.vaptvupt src packed room level bytes made some_there)
            (λ large some_there. absurd (omega arith)))
        (λ bad some_there. absurd (omega arith)) there

  lz-decodes :
      (cap : ℕ) (packed : Option (List ℕ))
      → length src < 2 ^ 31
      → lz_compress src cap level ≡ packed
      → 0 < length (or_empty comp packed)
      → lz_decompress (or_empty comp packed) (length src) ≡ some src
  lz-decodes cap none small made there = absurd (omega arith)
  lz-decodes cap (some packed) small made there =
      decompress-compress src cap level packed small made

  compressed-decodes :
      (codec : ℕ)
      → length src < 2 ^ 31
      → 0 < length (compressed comp codec src level)
      → worker_decode dec codec (compressed comp codec src level) (length src) ≡ ok src
  unfolding compressed worker_decode
  compressed-decodes codec small =
      let Fine = λ (l : List ℕ). 0 < length l → worker_decode dec codec l (length src) ≡ ok src in
      if-elim Fine (codec == codec_zupt_lzhp)
        (λ lzhp there.
          let is_it = (==_iff codec codec_zupt_lzhp).0 lzhp in
          rw is_it (compress_lzhp-Decodes there))
        (λ a.
          if-elim Fine (codec == codec_zupt_lzh)
            (λ lzh there.
              let is_it = (==_iff codec codec_zupt_lzh).0 lzh in
              rw (is_it, inverse.lzh src (lzh_bound (length src)) level bytes there)
                (exact_all (length src) src refl))
            (λ b.
              if-elim Fine (codec == codec_zupt_lz)
                (λ lz there.
                  let is_it = (==_iff codec codec_zupt_lz).0 lz in
                  rw (is_it, lz-decodes (lz_bound (length src)) _ small refl there)
                    (exact_all (length src) src refl))
                (λ c.
                  if-elim Fine (codec == codec_vaptvupt)
                    (λ vv there.
                      let is_it = (==_iff codec codec_vaptvupt).0 vv in
                      rw
                        (
                          is_it,
                          smaller-decodes (comp.vaptvupt_bound (length src))
                              (lzh_bound (length src) + 512) _ refl there,
                        )
                        (exact_all (length src) src refl))
                    (λ d there. absurd (omega arith)))))

  pub decide-IsPayload :
      (codec : ℕ)
      → length src < 2 ^ 31
      → IsPayload (decide comp codec src level).0 (decide comp codec src level).1
  unfolding decide
  decide-IsPayload codec small =
      let packed = compressed comp codec src level in
      if-elim (λ (r : ℕ × List ℕ). IsPayload r.0 r.1)
        (length packed == 0 || leb (length src) (length packed)) (λ kept. stored-IsPayload)
        (λ shrunk.
          let some_there = or_left (length packed == 0) _ shrunk in
          let less =
            leb-false (length src) (length packed) (or_right (length packed == 0) _ shrunk) in
          (compressed-decodes codec small (ground arith), omega arith))
