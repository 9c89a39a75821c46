-- ===== src/Archive/Sequence/Search.antt =====
-- The lookup of older disk archives finds exactly the entries of an ordered map.
use libvuptsdk.Common.{
  not-false, ℕ, zero, suc, ◌+◌, ◌-◌, ◌/◌, ◌≤◌, ◌<◌, ◌≡◌, ◌∙◌, sym, ap, inl, inr, arith, List, true,
  false, ◌||◌, not, some, none, ltb, leb, ◌==◌, ==_iff, Bool-cases, length, or_left, or_right,
  ltb→lt, ltb-false, leb-false, le-cases, some-injective,
}
use libvuptsdk.Archive.Sequence.{AadEntry, entry_at, search_loop, aad_map_lookup}

-- The offsets rise from entry to entry.
abbrev pub IsOrdered : List AadEntry → Type 0
IsOrdered entries =
    (i j : ℕ)
    → i < j
    → j < length entries
    → (entry_at entries i).offset < (entry_at entries j).offset

-- Below `at` the offsets are smaller, from `at` on they are not.
record Split (entries : List AadEntry) (offset at : ℕ) : Type 0 where
  inside : at ≤ length entries
  below : (i : ℕ) → i < at → (entry_at entries i).offset < offset
  above : (i : ℕ) → at ≤ i → i < length entries → offset ≤ (entry_at entries i).offset

search_loop-Split :
    (entries : List AadEntry) (offset fuel left right : ℕ)
    → IsOrdered entries
    → left ≤ right
    → right ≤ length entries
    → right ≤ left + fuel
    → ((i : ℕ) → i < left → (entry_at entries i).offset < offset)
    → ((i : ℕ) → right ≤ i → i < length entries → offset ≤ (entry_at entries i).offset)
    → Split entries offset (search_loop entries offset fuel left right)
unfolding search_loop
search_loop-Split entries offset zero left right ordered le inside enough below above = record {
  inside = omega arith;
  below = below;
  above = λ i low high. above i (omega arith) high;
}
search_loop-Split entries offset (suc fuel) left right ordered le inside enough below above =
    let middle = left + (right - left) / 2 in
    elim (Bool-cases (ltb left right)) [
      | inr done ↦
          let met = ltb-false left right done in
          rw (done, search_loop)
            (record {
              inside = omega arith;
              below = below;
              above = λ i low high. above i (omega arith) high;
            })
      | inl on ↦
          let apart = ltb→lt left right on in
          elim (Bool-cases (ltb (entry_at entries middle).offset offset)) [
            | inl smaller ↦
                let less = ltb→lt (entry_at entries middle).offset offset smaller in
                rw (on, smaller, search_loop)
                  (search_loop-Split entries offset fuel (middle + 1) right ordered (omega arith)
                    inside (omega arith)
                    (λ i low. elim (le-cases i middle (omega arith)) [
                      | inl same ↦ rw same less
                      | inr more ↦ omega (arith, ordered i middle more (omega arith))
                    ])
                    above)
            | inr larger ↦
                let more = ltb-false (entry_at entries middle).offset offset larger in
                rw (on, larger, search_loop)
                  (search_loop-Split entries offset fuel left middle ordered (omega arith)
                    (omega arith) (omega arith) below
                    (λ i low high. elim (le-cases middle i low) [
                      | inl same ↦ rw (sym same) more
                      | inr past ↦ omega (arith, ordered middle i past high)
                    ]))
          ]
    ]

reached :
    (entries : List AadEntry) (offset at i : ℕ)
    → Split entries offset at
    → (entry_at entries i).offset ≡ offset
    → at ≤ i
reached entries offset at i split here = elim (Bool-cases (ltb i at)) [
  | inl before ↦ absurd (omega (arith, split.below i (ltb→lt i at before)))
  | inr not_before ↦ ltb-false i at not_before
]

-- In a map whose offsets rise, the lookup of an offset gives the sequence number of the entry at
-- that offset, and whatever it gives is that of such an entry.
pub aad_map_lookup-exact :
    (entries : List AadEntry) (offset : ℕ)
    → IsOrdered entries
    → ((i : ℕ)
        → i < length entries
        → (entry_at entries i).offset ≡ offset
        → aad_map_lookup entries offset ≡ some (entry_at entries i).aad_seq)
      × ((seq : ℕ)
          → aad_map_lookup entries offset ≡ some seq
          → (i : ℕ) × (i < length entries)
            × ((entry_at entries i).offset ≡ offset)
            × ((entry_at entries i).aad_seq ≡ seq))
unfolding aad_map_lookup
aad_map_lookup-exact entries offset ordered =
    let n = length entries in
    let at = search_loop entries offset n 0 n in
    let split : Split entries offset at =
      search_loop-Split entries offset n 0 n ordered (omega arith) (omega arith) (omega arith)
        (λ i low. absurd (omega arith)) (λ i low high. absurd (omega arith)) in
    (
      λ i inside here. elim (le-cases at i (reached entries offset at i split here)) [
        | inl same ↦
            let in_range : leb n at ≡ false = ground arith in
            let equal : (entry_at entries at).offset == offset ≡ true =
              (==_iff (entry_at entries at).offset offset).1
                (ap (λ k. (entry_at entries k).offset) same ∙ here) in
            rw (in_range, equal) (ap (λ k. some (entry_at entries k).aad_seq) same)
        | inr past ↦
            absurd
              (omega (arith, ordered at i past inside, split.above at (omega arith) (omega arith)))
      ],
      λ seq found.
          let bad = leb n at || not ((entry_at entries at).offset == offset) in
          elim (Bool-cases bad) [
            | inl missing ↦ let none_found : none ≡ some seq = rw missing at found in cc
            | inr fine ↦
                let low : at < n = leb-false n at (or_left (leb n at) _ fine) in
                let same : (entry_at entries at).offset == offset ≡ true =
                  not-false ((entry_at entries at).offset == offset) (or_right (leb n at) _ fine) in
                (
                  at,
                  low,
                  (==_iff (entry_at entries at).offset offset).0 same,
                  some-injective (rw fine at found),
                )
          ],
    )
