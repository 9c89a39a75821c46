-- ===== src/Dedup/Dictionary.antt =====
-- The index as a dictionary: a list of the accepted requests, of which the first match answers.
use libvuptsdk.Common.{
  ℕ, zero, suc, ◌+◌, ◌%◌, ◌^◌, ◌/◌, ◌*◌, ◌≤◌, ◌<◌, ◌≡◌, refl, ap, ◌∙◌, sym, arith, List, [], ◌∷◌,
  Bool, true, false, ◌&&◌, Option, some, none, Bool-cases, le-cases, inl, inr, leb, ◌==◌, ==_iff,
  if◌then◌else◌,
}
use libvuptsdk.Dedup.{
  Entry, Context, Reference, slot_of, home_of, is_key, reference_of, lookup_loop, free_loop,
  dedup_init, insert_secure, lookup_secure, fill, store, max_probes,
}
use libvuptsdk.Compare.{mem_equal}
use libvuptsdk.Dedup.Probing.{probe, Free, free_loop-Free, lookup_loop-none}
use libvuptsdk.Dedup.Invariant.{IsProbed, init-IsProbed, insert-IsProbed, store-other, store-here}

-- The first answer, or else the second.
abbrev pub or_else {ℓ} : {A : Type ℓ} → Option A → Option A → Option A
or_else none b = b
or_else (some a) b = some a

abbrev pub key_answer : Entry → ℕ → List ℕ → Option Reference
key_answer e fingerprint digest =
    if is_key e fingerprint digest then some (reference_of e) else none

or_else-none : (o : Option Reference) → or_else o none ≡ o
or_else-none none = refl
or_else-none (some r) = refl

or_else_assoc : (a b d : Option Reference) → or_else (or_else a b) d ≡ or_else a (or_else b d)
or_else_assoc none b d = refl
or_else_assoc (some r) b d = refl

module _ (c : Context) (e : Entry) (slot : ℕ) (ok : IsProbed c)
    (free : Free c e.fingerprint 0 max_probes slot) (full : e.occupied ≡ true) (f : ℕ)
    (g : List ℕ) where
  abbrev filled : Context
  filled = record c { table = store c.table slot e; count = (c.count + 1) % 2 ^ 32 }

  abbrev chain_slot : ℕ → ℕ
  chain_slot i = slot_of c (home_of c f) i

  kept : (s : ℕ) → (c.table s).occupied ≡ true → store c.table slot e s ≡ c.table s
  kept s o = store-other c.table slot s e free.empty o

  -- Past a free slot no entry has the key.
  beyond :
      (i j : ℕ)
      → (probe c f i).occupied ≡ false
      → is_key e f g ≡ false
      → i < j
      → j < max_probes
      → (store c.table slot e (chain_slot j)).occupied ≡ true
      → is_key (store c.table slot e (chain_slot j)) f g ≡ false
  beyond i j empty away low high o = elim (Bool-cases (chain_slot j == slot)) [
    | inl new ↦ rw new away
    | inr old ↦ elim (Bool-cases ((probe c f j).fingerprint == f)) [
      | inl same ↦
          let taken : (probe c f i).occupied ≡ true =
            ok.chains f j high (ground (arith, old, o))
              ((==_iff (probe c f j).fingerprint f).0 same) i (omega arith) low in
          cc
      | inr other ↦ rw (old, other) refl
    ]
  ]

  lookup_apart :
      (left i : ℕ)
      → is_key e f g ≡ false
      → i + left ≡ max_probes
      → lookup_loop filled f g left i ≡ lookup_loop c f g left i
  unfolding lookup_loop
  lookup_apart zero i away h = refl
  lookup_apart (suc left) i away h = elim (Bool-cases (probe c f i).occupied) [
    | inl o ↦ rw (kept (chain_slot i) o, lookup_apart left (i + 1) away (omega arith)) refl
    | inr empty ↦ elim (Bool-cases (chain_slot i == slot)) [
      | inl new ↦
          rw (empty, new, full, away)
            (lookup_loop-none filled f g left (i + 1) max_probes (omega arith)
              (λ j low high. beyond i j empty away (omega arith) high))
      | inr old ↦ rw (old, empty) refl
    ]
  ]

  same_chain : is_key e f g ≡ true → e.fingerprint ≡ f
  same_chain same = elim (Bool-cases (e.fingerprint == f)) [
    | inl equal ↦ (==_iff e.fingerprint f).0 equal
    | inr other ↦
        let no : (e.fingerprint == f && mem_equal e.digest g) ≡ false = rw other refl in cc
  ]

  at_place : is_key e f g ≡ true → chain_slot free.at ≡ slot
  at_place same = ap (λ x. slot_of c (home_of c x) free.at) (sym (same_chain same)) ∙ free.place

  -- The key's walk goes on at a full slot, and stops at the new entry's.
  not_yet :
      (i : ℕ) → is_key e f g ≡ true → i ≤ free.at → (probe c f i).occupied ≡ true → i + 1 ≤ free.at
  not_yet i same low o = elim (le-cases i free.at low) [
    | inl here ↦
        let place : chain_slot free.at ≡ slot = at_place same in
        let empty : (c.table slot).occupied ≡ false = free.empty in
        let o' : (c.table (chain_slot free.at)).occupied ≡ true = rw (sym here) o in cc
    | inr more ↦ omega arith
  ]

  reached :
      (i : ℕ)
      → is_key e f g ≡ true
      → i ≤ free.at
      → (probe c f i).occupied ≡ false
      → chain_slot i ≡ slot
  reached i same low empty = elim (le-cases i free.at low) [
    | inl here ↦ rw here (at_place same)
    | inr more ↦
        let o : (probe c f i).occupied ≡ true =
          rw (sym (same_chain same)) (free.before i (omega arith) more) in
        cc
  ]

  lookup_match :
      (left i : ℕ)
      → is_key e f g ≡ true
      → i + left ≡ max_probes
      → i ≤ free.at
      → lookup_loop filled f g left i ≡ or_else (lookup_loop c f g left i) (some (reference_of e))
  unfolding lookup_loop
  lookup_match zero i same h low = absurd (omega (arith, free.below))
  lookup_match (suc left) i same h low = elim (Bool-cases (probe c f i).occupied) [
    | inl o ↦
        rw (kept (chain_slot i) o, o)
          (elim (Bool-cases (is_key (probe c f i) f g)) [
            | inl found ↦ rw found refl
            | inr other ↦
                rw other (lookup_match left (i + 1) same (omega arith) (not_yet i same low o))
          ])
    | inr empty ↦
        rw (reached i same low empty, store-here c.table slot e, free.empty, full, same) refl
  ]

-- The index after an accepted request.
pub lookup-fill :
    (c : Context) (e : Entry) (slot : ℕ) (f : ℕ) (g : List ℕ)
    → IsProbed c
    → e.occupied ≡ true
    → free_loop c e.fingerprint max_probes 0 ≡ some slot
    → lookup_secure (fill c e (some slot)).0 f g ≡ or_else (lookup_secure c f g) (key_answer e f g)
unfolding lookup_secure fill
lookup-fill c e slot f g ok full h =
    let free : Free c e.fingerprint 0 max_probes slot =
      free_loop-Free c e.fingerprint max_probes 0 max_probes slot refl h in
    elim (Bool-cases (is_key e f g)) [
      | inl same ↦
          rw same (lookup_match c e slot ok free full f g max_probes 0 same refl (omega arith))
      | inr away ↦ rw away (
          lookup_apart c e slot ok free full f g max_probes 0 away refl
          ∙ sym (or_else-none (lookup_secure c f g)))
    ]

abbrev pub new_entry : ℕ → List ℕ → Reference → Entry
new_entry fingerprint digest r = record {
  fingerprint = fingerprint;
  block_offset = r.offset;
  digest = digest;
  block_size = r.size;
  occupied = true;
  aad_seq = r.aad_seq;
}

-- A request: the key of a block and where the block stands.
pub record Request : Type 0 where
  pub fingerprint : ℕ
  pub digest : List ℕ
  pub place : Reference

abbrev pub request_answer : Request → ℕ → List ℕ → Option Reference
request_answer q f g = key_answer (new_entry q.fingerprint q.digest q.place) f g

abbrev pub insert_request : Context → Request → Context × Bool
insert_request c q = insert_secure c q.fingerprint q.digest q.place

filled_answer :
    (c : Context) (q : Request) (f : ℕ) (g : List ℕ)
    → IsProbed c
    → (found : Option ℕ) → free_loop c q.fingerprint max_probes 0 ≡ found
    → lookup_secure (fill c (new_entry q.fingerprint q.digest q.place) found).0 f g
      ≡ or_else (lookup_secure c f g) (
          if (fill c (new_entry q.fingerprint q.digest q.place) found).1
          then request_answer q f g
          else none)
unfolding fill
filled_answer c q f g ok none h = sym (or_else-none (lookup_secure c f g))
filled_answer c q f g ok (some slot) h =
    lookup-fill c (new_entry q.fingerprint q.digest q.place) slot f g ok refl h

-- For an index that keeps the invariant: after an insertion a lookup gives what it gave before, and
-- where it gave nothing and the insertion was accepted, the new entry if the key is its own.
pub lookup-insert :
    (c : Context) (q : Request) (f : ℕ) (g : List ℕ)
    → IsProbed c
    → lookup_secure (insert_request c q).0 f g
      ≡ or_else
          (lookup_secure c f g)
          (if (insert_request c q).1 then request_answer q f g else none)
unfolding insert_secure
lookup-insert c q f g ok = elim (Bool-cases (leb (c.capacity * 3 % 2 ^ 32 / 4) c.count)) [
  | inl at_limit ↦ rw at_limit (sym (or_else-none (lookup_secure c f g)))
  | inr below ↦ rw below (filled_answer c q f g ok (free_loop c q.fingerprint max_probes 0) refl)
]

-- The requests in turn, and those that were accepted.
unfoldable pub insert_all : Context → List Request → Context
insert_all c [] = c
insert_all c (q ∷ qs) = insert_all (insert_request c q).0 qs

unfoldable pub accepted : Context → List Request → List Request
accepted c [] = []
accepted c (q ∷ qs) =
    let rest = accepted (insert_request c q).0 qs in
    if (insert_request c q).1 then q ∷ rest else rest

unfoldable pub first_answer : List Request → ℕ → List ℕ → Option Reference
first_answer [] f g = none
first_answer (q ∷ qs) f g = or_else (request_answer q f g) (first_answer qs f g)

-- The same from any index that keeps the invariant.
pub lookup-insert_all_from :
    (c : Context) (qs : List Request) (f : ℕ) (g : List ℕ)
    → IsProbed c
    → lookup_secure (insert_all c qs) f g
      ≡ or_else (lookup_secure c f g) (first_answer (accepted c qs) f g)
unfolding insert_all accepted first_answer
lookup-insert_all_from c [] f g ok = sym (or_else-none (lookup_secure c f g))
lookup-insert_all_from c (q ∷ qs) f g ok =
    let now = lookup-insert c q f g ok in
    let later =
      lookup-insert_all_from (insert_request c q).0 qs f g
        (insert-IsProbed c q.fingerprint q.digest q.place ok) in
    later ∙ elim (Bool-cases (insert_request c q).1) [
      | inl took ↦ rw (now, took) (or_else_assoc (lookup_secure c f g) _ _)
      | inr left ↦ rw (now, left, or_else-none (lookup_secure c f g)) refl
    ]

lookup-init : (f : ℕ) (g : List ℕ) → lookup_secure dedup_init f g ≡ none
unfolding dedup_init lookup_secure
lookup-init f g =
    lookup_loop-none dedup_init f g max_probes 0 max_probes refl (λ j low high full. cc)

-- After any run of insertions into the empty index, a lookup gives the first of the accepted
-- requests with the same fingerprint and digest, and nothing if there is none.
pub lookup-insert_all :
    (qs : List Request) (f : ℕ) (g : List ℕ)
    → lookup_secure (insert_all dedup_init qs) f g ≡ first_answer (accepted dedup_init qs) f g
lookup-insert_all qs f g =
    lookup-insert_all_from dedup_init qs f g init-IsProbed ∙ rw (lookup-init f g) refl
