-- ===== src/Dedup/Probing.antt =====
-- What the probe loops find, in terms of the slots on a key's chain.
use libvuptsdk.Common.{
  ℕ, zero, suc, ◌+◌, ◌%◌, ◌≤◌, ◌<◌, ◌≡◌, refl, ◌∙◌, sym, arith, List, true, false, some, none,
  Bool-cases, le-cases, inl, inr,
}
use libvuptsdk.Dedup.{
  Entry, Context, slot_of, home_of, is_key, lookup_loop, free_loop, dedup_max_entries,
}

module _ (c : Context) (fingerprint : ℕ) where
  -- The entry at probe number `i`.
  abbrev pub probe : ℕ → Entry
  probe i = c.table (slot_of c (home_of c fingerprint) i)

  -- The probes from `i` up to `k` meet occupied slots.
  abbrev pub AllOccupied : ℕ → ℕ → Type 0
  AllOccupied i k = (j : ℕ) → i ≤ j → j < k → (probe j).occupied ≡ true

-- The first free slot stands at probe `at`.
pub record Free (c : Context) (fingerprint : ℕ) (i end slot : ℕ) : Type 0 where
  pub at : ℕ
  pub from : i ≤ at
  pub below : at < end
  pub place : slot_of c (home_of c fingerprint) at ≡ slot
  pub empty : (c.table slot).occupied ≡ false
  pub before : AllOccupied c fingerprint i at

pub free_loop-Free :
    (c : Context) (fingerprint left i end slot : ℕ)
    → i + left ≡ end
    → free_loop c fingerprint left i ≡ some slot
    → Free c fingerprint i end slot
unfolding free_loop
free_loop-Free c f zero i end slot e h = cc
free_loop-Free c f (suc left) i end slot e h = elim (Bool-cases (probe c f i).occupied) [
  | inl full ↦
      let later : free_loop c f left (i + 1) ≡ some slot = (ground (arith, full, h)) in
      let rec : Free c f (i + 1) end slot =
        free_loop-Free c f left (i + 1) end slot (omega arith) later in
      record {
        at = rec.at;
        from = (omega (arith, rec.from));
        below = rec.below;
        place = rec.place;
        empty = rec.empty;
        before = λ j low high. (elim (le-cases i j low) [
          | inl same ↦ rw (sym same) full
          | inr more ↦ rec.before j (omega arith) high
        ]);
      }
  | inr empty ↦
      let here : slot_of c (home_of c f) i ≡ slot = ground (arith, empty, h) in
      record {
        at = i;
        from = omega arith;
        below = omega arith;
        place = here;
        empty = rw (sym here) empty;
        before = λ j low high. absurd (omega arith);
      }
]

-- No probe of the range holds the key.
pub lookup_loop-none :
    (c : Context) (fingerprint : ℕ) (digest : List ℕ) (left i end : ℕ)
    → i + left ≡ end
    → ((j : ℕ)
        → i ≤ j
        → j < end
        → (probe c fingerprint j).occupied ≡ true
        → is_key (probe c fingerprint j) fingerprint digest ≡ false)
    → lookup_loop c fingerprint digest left i ≡ none
unfolding lookup_loop
lookup_loop-none c f g zero i end e h = refl
lookup_loop-none c f g (suc left) i end e h = elim (Bool-cases (probe c f i).occupied) [
  | inl full ↦
      rw (full, h i (omega arith) (omega arith) full)
        (lookup_loop-none c f g left (i + 1) end (omega arith)
          (λ j low high. h j (omega arith) high))
  | inr empty ↦ rw empty refl
]

-- The wrap of `uint32_t` plays no part.
slot_of-plain :
    (c : Context) (fingerprint i : ℕ)
    → c.capacity ≡ dedup_max_entries
    → i < 64
    → slot_of c (home_of c fingerprint) i ≡ (fingerprint % 2097152 + i) % 2097152
slot_of-plain c f i e low = rw e (omega arith)

apart : (h i j : ℕ) → i < 64 → j < 64 → (h + i) % 2097152 ≡ (h + j) % 2097152 → i ≡ j
apart h i j low high e = omega arith

-- Two probes of one chain meet different slots.
pub slot_of-injective :
    (c : Context) (fingerprint i j : ℕ)
    → c.capacity ≡ dedup_max_entries
    → i < 64
    → j < 64
    → slot_of c (home_of c fingerprint) i ≡ slot_of c (home_of c fingerprint) j
    → i ≡ j
slot_of-injective c f i j e low high h =
    apart (f % 2097152) i j low high
      (sym (slot_of-plain c f i e low) ∙ h ∙ slot_of-plain c f j e high)
