-- ===== src/Examples/Codec.antt =====
-- The Zupt-LZ codec and the byte prediction, src/zupt_lz.c and src/zupt_predict.c.
use libvuptsdk.Common.{
  ℕ, ◌<◌, ◌≡◌, refl, arith, List, [], ◌∷◌, some, none, length, min, true, ltb, if◌then◌else◌,
}
use libvuptsdk.Lz.{
  compress_loop, choose_match, find_loop, lz_hash4, improve, match_loop, put_sequence, put_last,
  put_literals, decompress_loop, read_match, lz_compress, lz_decompress, lz_find_match,
  empty_tables, Tables, lz_insert_hash, insert_range,
}
use libvuptsdk.Lz.Match.{Found, find_match-IsMatch}
use libvuptsdk.Lz.Encode.RoundTrip.{decompress-compress}
use libvuptsdk.Lz.Encode.Room.{decompress-compress_total}
use libvuptsdk.Wire.Fixed.{le32_get}
use libvuptsdk.Predict.{predict_build, predict_encode, predict_decode}
use libvuptsdk.Predict.Transform.{predict-inverse}
use libvuptsdk.Predict.Table.{IsBest, followers, predict_build-IsBest}

abbrev pub abcd_twice : List ℕ
abcd_twice = 1 ∷ 2 ∷ 3 ∷ 4 ∷ 1 ∷ 2 ∷ 3 ∷ 4 ∷ 1 ∷ 2 ∷ 3 ∷ 4 ∷ []

-- Four literals, a match of eight bytes at offset 4, and a last token without literals.
abbrev pub abcd_packed : List ℕ
abcd_packed = 0x45 ∷ 1 ∷ 2 ∷ 3 ∷ 4 ∷ 4 ∷ 0 ∷ 0 ∷ []

pub compresses_abcd : lz_compress abcd_twice 64 5 ≡ some abcd_packed
unfolding lz_compress compress_loop choose_match lz_find_match find_loop lz_insert_hash lz_hash4
    le32_get improve match_loop put_sequence put_last put_literals
compresses_abcd = refl

-- An offset of 0, and one past the start of the output, are refused.
refuses_offsets :
    (lz_decompress (0x10 ∷ 7 ∷ 0 ∷ 0 ∷ []) 8 ≡ none)
    × (lz_decompress (0x10 ∷ 7 ∷ 2 ∷ 0 ∷ []) 8 ≡ none)
unfolding lz_decompress decompress_loop read_match
refuses_offsets = (refl, refl)

decompress-compress_example : lz_decompress abcd_packed (length abcd_twice) ≡ some abcd_twice
decompress-compress_example =
    decompress-compress abcd_twice 64 5 abcd_packed (omega arith) compresses_abcd

decompress-compress_total_example :
    (bytes : List ℕ) × (lz_compress abcd_twice 64 1 ≡ some bytes)
    × (lz_decompress bytes (length abcd_twice) ≡ some abcd_twice)
decompress-compress_total_example =
    decompress-compress_total abcd_twice 64 1 (omega arith) (omega arith) (omega arith)

abbrev four_seen : Tables
four_seen = insert_range abcd_twice empty_tables 0 4

find_match-IsMatch_example : Found abcd_twice 4 (lz_find_match abcd_twice four_seen 4 7)
find_match-IsMatch_example = find_match-IsMatch abcd_twice four_seen 4 7

abbrev a_b_a_b_a_c : List ℕ
a_b_a_b_a_c = 97 ∷ 98 ∷ 97 ∷ 98 ∷ 97 ∷ 99 ∷ []

predict_build-IsBest_example :
    IsBest (λ b. min 65535 (followers 97 b 0 a_b_a_b_a_c)) 256 (predict_build true a_b_a_b_a_c 97)
predict_build-IsBest_example = predict_build-IsBest a_b_a_b_a_c 97

abbrev after_any : ℕ → ℕ
after_any c = if ltb c 256 then 98 else 0

after_any-IsByte : (c : ℕ) → after_any c < 256
after_any-IsByte c = ground arith

predict-inverse_example :
    (predict_decode (predict_encode a_b_a_b_a_c after_any) after_any ≡ a_b_a_b_a_c)
    × (predict_encode (predict_decode a_b_a_b_a_c after_any) after_any ≡ a_b_a_b_a_c)
predict-inverse_example = predict-inverse after_any a_b_a_b_a_c after_any-IsByte (omega arith)
