-- ===== src/Dedup/Invariant.antt =====
-- The invariant of the deduplication index: chains without gaps, and a bounded load.
use libvuptsdk.Common.{
  ℕ, ◌+◌, ◌^◌, ◌%◌, ◌/◌, ◌*◌, ◌≤◌, ◌<◌, ◌≡◌, refl, ap, ◌∙◌, sym, arith, List, true, false, Option,
  some, none, Bool-cases, inl, inr, leb, ◌==◌, ==_iff,
}
use libvuptsdk.Dedup.{
  Entry, Context, Reference, slot_of, home_of, free_loop, dedup_max_entries, dedup_init,
  insert_secure, fill, store, max_probes,
}
use libvuptsdk.Dedup.Probing.{probe, AllOccupied, Free, free_loop-Free, slot_of-injective}

-- An entry that stands on the chain of its own fingerprint has no free slot before it.
pub record IsProbed (c : Context) : Type 0 where
  pub sized : c.capacity ≡ dedup_max_entries
  pub load : c.count ≤ 1572864
  pub chains :
      (fingerprint j : ℕ)
      → j < max_probes
      → (probe c fingerprint j).occupied ≡ true
      → (probe c fingerprint j).fingerprint ≡ fingerprint
      → AllOccupied c fingerprint 0 j

pub init-IsProbed : IsProbed dedup_init
unfolding dedup_init
init-IsProbed = record { sized = refl; load = omega arith; chains = λ f j low full. cc }

pub store-other :
    (table : ℕ → Entry) (slot s : ℕ) (e : Entry)
    → (table slot).occupied ≡ false
    → (table s).occupied ≡ true
    → store table slot e s ≡ table s
store-other table slot s e empty full = elim (Bool-cases (s == slot)) [
  | inl same ↦ let at_slot : s ≡ slot = (==_iff s slot).0 same in cc
  | inr other ↦ rw other refl
]

pub store-here : (table : ℕ → Entry) (slot : ℕ) (e : Entry) → store table slot e slot ≡ e
store-here table slot e = ground arith

module _ (c : Context) (e : Entry) (slot : ℕ) (ok : IsProbed c)
    (free : Free c e.fingerprint 0 max_probes slot) where
  filled : Context
  filled = record c { table = store c.table slot e; count = (c.count + 1) % 2 ^ 32 }

  kept : (s : ℕ) → (c.table s).occupied ≡ true → (store c.table slot e s).occupied ≡ true
  kept s full = ap (λ x. x.occupied) (store-other c.table slot s e free.empty full) ∙ full

  -- The chain that reaches the new entry is the one it was put on.
  new_chain :
      (f j : ℕ)
      → j < max_probes
      → slot_of c (home_of c f) j ≡ slot
      → e.fingerprint ≡ f
      → AllOccupied c f 0 j
  new_chain f j low here same j' from high =
      let place : slot_of c (home_of c e.fingerprint) j ≡ slot =
        ap (λ x. slot_of c (home_of c x) j) same ∙ here in
      let equal : j ≡ free.at =
        slot_of-injective c e.fingerprint j free.at ok.sized low free.below
          (place ∙ sym free.place) in
      rw (sym same) (free.before j' from (omega arith))

  filled_chain :
      (f j : ℕ)
      → j < max_probes
      → (store c.table slot e (slot_of c (home_of c f) j)).occupied ≡ true
      → (store c.table slot e (slot_of c (home_of c f) j)).fingerprint ≡ f
      → AllOccupied c f 0 j
  filled_chain f j low o same = elim (Bool-cases (slot_of c (home_of c f) j == slot)) [
    | inl new ↦
        new_chain f j low ((==_iff (slot_of c (home_of c f) j) slot).0 new)
          (ground (arith, new, same))
    | inr old ↦ ok.chains f j low (ground (arith, old, o)) (ground (arith, old, same))
  ]

-- What the insertion leaves, in its cases.
pub fill-IsProbed :
    (c : Context) (e : Entry) (found : Option ℕ)
    → IsProbed c
    → c.count < 1572864
    → free_loop c e.fingerprint max_probes 0 ≡ found
    → IsProbed (fill c e found).0
unfolding fill
fill-IsProbed c e none ok room h = ok
fill-IsProbed c e (some slot) ok room h =
    let free : Free c e.fingerprint 0 max_probes slot =
      free_loop-Free c e.fingerprint max_probes 0 max_probes slot refl h in
    record {
      sized = ok.sized;
      load = omega arith;
      chains = λ f j low o same j' from high.
          kept c e slot ok free (slot_of c (home_of c f) j')
            (filled_chain c e slot ok free f j low o same j' from high);
    }

-- The load limit of the source.
below_limit :
    (c : Context)
    → IsProbed c
    → leb (c.capacity * 3 % 2 ^ 32 / 4) c.count ≡ false
    → c.count < 1572864
below_limit c ok h =
    let sized : c.capacity ≡ dedup_max_entries = ok.sized in
    let limit : c.capacity * 3 % 2 ^ 32 / 4 ≡ 1572864 = rw sized refl in
    let h' : leb 1572864 c.count ≡ false = rw (sym limit) h in ground arith

-- Insertion, accepted or refused, keeps the table's size, the count within three quarters of it, and
-- the chains: no free slot stands before an entry on the chain of its fingerprint.
pub insert-IsProbed :
    (c : Context) (fingerprint : ℕ) (digest : List ℕ) (r : Reference)
    → IsProbed c
    → IsProbed (insert_secure c fingerprint digest r).0
unfolding insert_secure
insert-IsProbed c f g r ok = elim (Bool-cases (leb (c.capacity * 3 % 2 ^ 32 / 4) c.count)) [
  | inl at_limit ↦ rw at_limit ok
  | inr below ↦
      rw below (fill-IsProbed c _ (free_loop c f max_probes 0) ok (below_limit c ok below) refl)
]
