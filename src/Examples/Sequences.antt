-- ===== src/Examples/Sequences.antt =====
-- Sequence numbers of frames, src/zupt_format.c.
use libvuptsdk.Common.{ℕ, zero, suc, ◌<◌, ◌≡◌, refl, arith, List, [], ◌∷◌, some, none}
use libvuptsdk.Archive.Sequence.{AadEntry, entry_at, aad_map_lookup, search_loop}
use libvuptsdk.Archive.Sequence.Search.{IsOrdered, aad_map_lookup-exact}
use libvuptsdk.Archive.Sequence.Positions.{archive_data_aad_seq-injective}

abbrev three : List AadEntry
three =
    record { offset = 10; aad_seq = 4 }
    ∷ record { offset = 20; aad_seq = 5 }
    ∷ record { offset = 40; aad_seq = 6 }
    ∷ []

three-IsOrdered : IsOrdered three
three-IsOrdered zero zero p q = absurd (omega arith)
three-IsOrdered zero (suc zero) p q = omega arith
three-IsOrdered zero (suc (suc zero)) p q = omega arith
three-IsOrdered (suc zero) (suc (suc zero)) p q = omega arith
three-IsOrdered (suc i) zero p q = absurd (omega arith)
three-IsOrdered (suc i) (suc zero) p q = absurd (omega arith)
three-IsOrdered (suc (suc i)) (suc (suc zero)) p q = absurd (omega arith)
three-IsOrdered i (suc (suc (suc j))) p q = absurd (omega arith)

finds_and_misses : (aad_map_lookup three 40 ≡ some 6) × (aad_map_lookup three 30 ≡ none)
unfolding aad_map_lookup search_loop
finds_and_misses = (refl, refl)

aad_map_lookup-exact_example :
    ((i : ℕ)
      → i < 3
      → (entry_at three i).offset ≡ 40
      → aad_map_lookup three 40 ≡ some (entry_at three i).aad_seq)
    × ((seq : ℕ)
        → aad_map_lookup three 40 ≡ some seq
        → (i : ℕ) × (i < 3) × ((entry_at three i).offset ≡ 40) × ((entry_at three i).aad_seq ≡ seq))
aad_map_lookup-exact_example = aad_map_lookup-exact three 40 three-IsOrdered

abbrev file : ℕ
file = 2

abbrev part : ℕ
part = 7

archive_data_aad_seq-injective_example : (file ≡ file) × (part ≡ part)
archive_data_aad_seq-injective_example =
    archive_data_aad_seq-injective 0 file file part part refl (omega arith) (omega arith)
      (omega arith) (omega arith) refl
