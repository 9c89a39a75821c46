-- ===== src/Dedup.antt =====
-- The deduplication index of src/zupt_dedup.c: an open-addressing table with linear probing.
-- Pointers are not null. The table is a function from slots; only slots below `capacity` are used.
pub mod Probing
pub mod Dictionary
pub mod Invariant
pub mod Link
use libvuptsdk.Common.{
  ℕ, zero, suc, ◌+◌, ◌*◌, ◌/◌, ◌%◌, ◌^◌, ◌≤◌, ◌<◌, List, [], ◌∷◌, Bool, true, false, ◌&&◌, Option,
  some, none, ltb, leb, ◌==◌, if◌then◌else◌, replicate, length,
}
use libvuptsdk.Compare.{mem_equal}

abbrev pub dedup_max_entries : ℕ
dedup_max_entries = 2 * 1024 * 1024

abbrev pub dedup_digest_size : ℕ
dedup_digest_size = 16

abbrev pub max_probes : ℕ
max_probes = 64

pub record Entry : Type 0 where
  pub fingerprint : ℕ
  pub block_offset : ℕ
  pub digest : List ℕ
  pub block_size : ℕ
  pub occupied : Bool
  pub aad_seq : ℕ

pub record Context : Type 0 where
  pub table : ℕ → Entry
  pub capacity : ℕ
  pub count : ℕ
  pub blocks_seen : ℕ
  pub blocks_deduped : ℕ
  pub bytes_saved : ℕ

-- What a match tells: *ref_offset, *ref_size, *ref_aad_seq.
pub record Reference : Type 0 where
  pub offset : ℕ
  pub size : ℕ
  pub aad_seq : ℕ

abbrev pub empty_entry : Entry
empty_entry = record {
  fingerprint = 0;
  block_offset = 0;
  digest = replicate dedup_digest_size 0;
  block_size = 0;
  occupied = false;
  aad_seq = 0;
}

unfoldable pub dedup_init : Context
dedup_init = record {
  table = λ slot. empty_entry;
  capacity = dedup_max_entries;
  count = 0;
  blocks_seen = 0;
  blocks_deduped = 0;
  bytes_saved = 0;
}

-- (idx + i) % ctx->capacity, in uint32_t
abbrev pub slot_of : Context → ℕ → ℕ → ℕ
slot_of c idx i = (idx + i) % 2 ^ 32 % c.capacity

abbrev pub home_of : Context → ℕ → ℕ
home_of c fingerprint = fingerprint % c.capacity % 2 ^ 32

abbrev pub is_key : Entry → ℕ → List ℕ → Bool
is_key e fingerprint digest = e.fingerprint == fingerprint && mem_equal e.digest digest

abbrev pub reference_of : Entry → Reference
reference_of e = record { offset = e.block_offset; size = e.block_size; aad_seq = e.aad_seq }

-- The probes from number `i` on, with `left` to go.
unfoldable pub lookup_loop : Context → ℕ → List ℕ → ℕ → ℕ → Option Reference
lookup_loop c fingerprint digest zero i = none
lookup_loop c fingerprint digest (suc left) i =
    let e = c.table (slot_of c (home_of c fingerprint) i) in
    let rest = lookup_loop c fingerprint digest left (i + 1) in
    if e.occupied
    then (if is_key e fingerprint digest then some (reference_of e) else rest)
    else none

unfoldable pub lookup_secure : Context → ℕ → List ℕ → Option Reference
lookup_secure c fingerprint digest = lookup_loop c fingerprint digest max_probes 0

-- The slot that the insertion fills.
unfoldable pub free_loop : Context → ℕ → ℕ → ℕ → Option ℕ
free_loop c fingerprint zero i = none
free_loop c fingerprint (suc left) i =
    let slot = slot_of c (home_of c fingerprint) i in
    let rest = free_loop c fingerprint left (i + 1) in
    if (c.table slot).occupied then rest else some slot

abbrev pub store : (ℕ → Entry) → ℕ → Entry → ℕ → Entry
store table slot e s = if s == slot then e else table s

-- The writes to the slot that was found, and ctx->count++.
unfoldable pub fill : Context → Entry → Option ℕ → Context × Bool
fill c e none = (c, false)
fill c e (some slot) =
    (record c { table = store c.table slot e; count = (c.count + 1) % 2 ^ 32 }, true)

-- The load limit is computed in uint32_t.
unfoldable pub insert_secure : Context → ℕ → List ℕ → Reference → Context × Bool
insert_secure c fingerprint digest r =
    if leb (c.capacity * 3 % 2 ^ 32 / 4) c.count
    then (c, false)
    else fill c
        (record {
          fingerprint = fingerprint;
          block_offset = r.offset;
          digest = digest;
          block_size = r.size;
          occupied = true;
          aad_seq = r.aad_seq;
        })
        (free_loop c fingerprint max_probes 0)

-- The two calls kept for old clients: a digest of zeros.
unfoldable pub dedup_lookup : Context → ℕ → Option Reference
dedup_lookup c fingerprint = lookup_secure c fingerprint (replicate dedup_digest_size 0)

unfoldable pub dedup_insert : Context → ℕ → ℕ → ℕ → Context × Bool
dedup_insert c fingerprint block_offset block_size =
    insert_secure c fingerprint (replicate dedup_digest_size 0)
      (record { offset = block_offset; size = block_size; aad_seq = 0 })

unfoldable pub record_hit : Context → ℕ → Context
record_hit c saved_bytes = record c {
  blocks_deduped = (c.blocks_deduped + 1) % 2 ^ 64;
  bytes_saved = (c.bytes_saved + saved_bytes) % 2 ^ 64;
}

unfoldable pub record_block : Context → Context
record_block c = record c { blocks_seen = (c.blocks_seen + 1) % 2 ^ 64 }

unfoldable pub dedup_stats : Context → ℕ × ℕ × ℕ
dedup_stats c = (c.blocks_seen, c.blocks_deduped, c.bytes_saved)
