-- ===== src/Parallel/Pipeline/Steps.antt =====
-- The steps of the pipeline of src/zupt_parallel.c in any order, and what they leave of a slot.
use mathlib.Core.Path.{subst}
use libvuptsdk.Common.{
  ℕ, ◌+◌, ◌-◌, ◌%◌, ◌≤◌, ◌≡◌, ◌≢◌, ◌⊎◌, inl, inr, refl, sym, ap, ◌∙◌, arith, List, true, false,
  Option, some, none, ◌==◌, ==_iff, Bool-cases, if-elim,
}
use libvuptsdk.Archive.Error.{ZuptError}
use libvuptsdk.Archive.Trailer.{Keyring, Digests}
use libvuptsdk.Archive.Cipher.{Cipher}
use libvuptsdk.Parallel.Slots.{Slot, ready, done}
use libvuptsdk.Parallel.Worker.{
  Compressors, Decompressors, worker_compress, worker_decompress, output_slot, decode_slot,
}
use libvuptsdk.Parallel.Pipeline.{
  ZparContext, Place, waiting, taken, worked, exited, given, update, put_slot, filled_slot,
  submit_compress, submit_decompress, release_slot, signal_shutdown, process, raise_flag, cancelled,
  taken_step, place_step, worker_step, is_empty, is_ready,
}

pub update_same {ℓ} : {A : Type ℓ} (f : ℕ → A) (i : ℕ) (v : A) → update f i v i ≡ v
update_same f i v = let same : i == i ≡ true = (==_iff i i).1 refl in rw same refl

pub update_other {ℓ} :
    {A : Type ℓ} (f : ℕ → A) (i : ℕ) (v : A) (j : ℕ) → i ≢ j → update f i v j ≡ f j
update_other f i v j h = elim (Bool-cases (j == i)) [
  | inl same ↦ absurd (h (sym ((==_iff j i).0 same)))
  | inr apart ↦ rw apart refl
]

-- What the steps that are not worker idx's leave of its slot.
pub record Keeps (idx : ℕ) (ctx ctx' : ZparContext) : Type 0 where
  pub slot : ctx'.slots idx ≡ ctx.slots idx
  pub place : ctx'.places idx ≡ ctx.places idx
  pub mode : ctx'.mode ≡ ctx.mode
  pub keyring : ctx'.keyring ≡ ctx.keyring
  pub flag : ctx.error_flag ≢ none → ctx'.error_flag ≢ none

module _ (d : Digests) (cipher : Cipher) (comp : Compressors) (dec : Decompressors) where
  -- A step that the main thread or a worker can make, and how many of it are worker idx's own.
  -- The slot idx is not released.
  pub data Step (idx : ℕ) (ctx ctx' : ZparContext) : ℕ → Type 0 where
    compress :
        (block : List ℕ) (seq level codec i : ℕ)
        → submit_compress ctx block seq level codec ≡ given (i, ctx')
        → Step idx ctx ctx' 0
    decompress :
        (payload : List ℕ) (seq codec flags sum size i : ℕ)
        → submit_decompress ctx payload seq codec flags sum size ≡ given (i, ctx')
        → Step idx ctx ctx' 0
    release :
        (i : ℕ)
        → i ≢ idx
        → (ctx.slots i).status ≡ done
        → ctx' ≡ release_slot ctx i
        → Step idx ctx ctx' 0
    shut_down : ctx' ≡ signal_shutdown ctx → Step idx ctx ctx' 0
    other : (i : ℕ) → i ≢ idx → ctx' ≡ worker_step d cipher comp dec ctx i → Step idx ctx ctx' 0
    own : ctx' ≡ worker_step d cipher comp dec ctx idx → Step idx ctx ctx' 1

  -- Any number of steps, with the count of worker idx's own.
  pub data Run (idx : ℕ) (start : ZparContext) : ZparContext → ℕ → Type 0 where
    here : Run idx start start 0
    next :
        {ctx ctx' : ZparContext} {m n : ℕ}
        → Run idx start ctx m
        → Step idx ctx ctx' n
        → Run idx start ctx' (m + n)

  -- How far the work on the slot idx has got, which was filled as `sent`.
  pub data Serves (idx : ℕ) (sent : Slot) (ctx : ZparContext) : Type 0 where
    queued : ctx.slots idx ≡ sent → ctx.places idx ≡ waiting → Serves idx sent ctx
    running : ctx.slots idx ≡ sent → ctx.places idx ≡ taken → Serves idx sent ctx
    computed :
        ctx.slots idx ≡ process d cipher comp dec ctx.mode ctx.keyring sent
        → ctx.places idx ≡ worked
        → Serves idx sent ctx
    finished :
        ctx.slots idx
          ≡ record (process d cipher comp dec ctx.mode ctx.keyring sent) { status = done }
        → (ctx.places idx ≡ waiting) ⊎ (ctx.places idx ≡ exited)
        → Serves idx sent ctx
    given_up :
        ctx.slots idx ≡ cancelled d cipher comp dec sent
        → ctx.error_flag ≢ none
        → (ctx.places idx ≡ waiting) ⊎ (ctx.places idx ≡ exited)
        → Serves idx sent ctx

  abbrev pub rank : {idx : ℕ} {sent : Slot} {ctx : ZparContext} → Serves idx sent ctx → ℕ
  rank (queued s p) = 3
  rank (running s p) = 2
  rank (computed s p) = 1
  rank (finished s p) = 0
  rank (given_up s f p) = 0

  status-worker_compress :
      (slot : Slot) (kr : Option Keyring)
      → (worker_compress d cipher comp slot kr).status ≡ slot.status
  unfolding worker_compress output_slot
  status-worker_compress slot none = refl
  status-worker_compress slot (some k) = ground arith

  status-worker_decompress :
      (slot : Slot) (kr : Option Keyring)
      → (worker_decompress d cipher dec slot kr).status ≡ slot.status
  unfolding worker_decompress decode_slot
  status-worker_decompress slot none = ground arith
  status-worker_decompress slot (some k) = ground arith

  pub process-status :
      (mode : ℕ) (kr : Option Keyring) (slot : Slot)
      → (process d cipher comp dec mode kr slot).status ≡ slot.status
  unfolding process
  process-status mode kr slot = elim (Bool-cases (mode == 0)) [
    | inl packing ↦ rw packing (status-worker_compress _ kr)
    | inr unpacking ↦ rw unpacking (status-worker_decompress _ kr)
  ]

  module _ (idx : ℕ) (sent : Slot) (is_ready_slot : sent.status ≡ ready) where
    -- The slot is taken until it is released.
    pub busy : {ctx : ZparContext} → Serves idx sent ctx → is_empty (ctx.slots idx).status ≡ false
    busy (queued s p) = rw (s, is_ready_slot) refl
    busy (running s p) = rw (s, is_ready_slot) refl
    busy {ctx} (computed s p) = rw (s, process-status ctx.mode ctx.keyring sent, is_ready_slot) refl
    busy (finished s p) = rw s refl
    busy (given_up s f p) = rw s refl

    -- The work has got at least so far.
    abbrev pub Next : ZparContext → ℕ → Type 0
    Next ctx r = (w : Serves idx sent ctx) × (rank w ≤ r)

    pub Keeps-Serves :
        {ctx ctx' : ZparContext}
        → Keeps idx ctx ctx'
        → (v : Serves idx sent ctx) → Next ctx' (rank v)
    Keeps-Serves k (queued s p) = (queued (k.slot ∙ s) (k.place ∙ p), omega arith)
    Keeps-Serves k (running s p) = (running (k.slot ∙ s) (k.place ∙ p), omega arith)
    Keeps-Serves k (computed s p) =
        (computed (rw (k.mode, k.keyring) (k.slot ∙ s)) (k.place ∙ p), omega arith)
    Keeps-Serves k (finished s p) =
        (finished (rw (k.mode, k.keyring) (k.slot ∙ s)) (rw k.place p), omega arith)
    Keeps-Serves k (given_up s f p) = (given_up (k.slot ∙ s) (k.flag f) (rw k.place p), omega arith)

    pub put_slot-Keeps :
        (ctx : ZparContext) (i : ℕ) (slot : Slot) → i ≢ idx → Keeps idx ctx (put_slot ctx i slot)
    put_slot-Keeps ctx i slot h = record {
      slot = update_other ctx.slots i slot idx h;
      place = refl;
      mode = refl;
      keyring = refl;
      flag = λ f. f;
    }

    raise_flag-none :
        (e flag : Option ZuptError) → flag ≢ none → raise_flag d cipher comp dec e flag ≢ none
    raise_flag-none none flag h = h
    raise_flag-none (some e) flag h = λ same. cc

    taken-Keeps :
        (ctx : ZparContext) (i : ℕ) (flag : Option ZuptError)
        → i ≢ idx
        → Keeps idx ctx (taken_step d cipher comp dec ctx i flag)
    taken-Keeps ctx i none h = record {
      slot = update_other ctx.slots i _ idx h;
      place = update_other ctx.places i worked idx h;
      mode = refl;
      keyring = refl;
      flag =
          raise_flag-none (process d cipher comp dec ctx.mode ctx.keyring (ctx.slots i)).error
            ctx.error_flag;
    }
    taken-Keeps ctx i (some e) h = record {
      slot = update_other ctx.slots i _ idx h;
      place = update_other ctx.places i waiting idx h;
      mode = refl;
      keyring = refl;
      flag = λ f. f;
    }

    moved-Keeps :
        (ctx : ZparContext) (i : ℕ) (place : Place)
        → i ≢ idx
        → Keeps idx ctx (record ctx { places = update ctx.places i place })
    moved-Keeps ctx i place h = record {
      slot = refl;
      place = update_other ctx.places i place idx h;
      mode = refl;
      keyring = refl;
      flag = λ f. f;
    }

    pub same-Keeps : (ctx : ZparContext) → Keeps idx ctx ctx
    same-Keeps ctx = record {
      slot = refl;
      place = refl;
      mode = refl;
      keyring = refl;
      flag = λ f. f;
    }

    pub place-Keeps :
        (ctx : ZparContext) (i : ℕ) (place : Place)
        → i ≢ idx
        → Keeps idx ctx (place_step d cipher comp dec ctx i place)
    place-Keeps ctx i waiting h =
        if-elim (Keeps idx ctx) (is_ready (ctx.slots i).status) (λ a. moved-Keeps ctx i taken h)
          (λ b.
            if-elim (Keeps idx ctx) ctx.shutdown (λ a. moved-Keeps ctx i exited h)
              (λ c. same-Keeps ctx))
    place-Keeps ctx i taken h = taken-Keeps ctx i ctx.error_flag h
    place-Keeps ctx i worked h = record {
      slot = update_other ctx.slots i _ idx h;
      place = update_other ctx.places i waiting idx h;
      mode = refl;
      keyring = refl;
      flag = λ f. f;
    }
    place-Keeps ctx i exited h = same-Keeps ctx

    -- The own steps: the slot is taken, worked on, and marked.
    own_taken :
        (ctx : ZparContext) (flag : Option ZuptError)
        → ctx.error_flag ≡ flag
        → ctx.slots idx ≡ sent
        → Next (taken_step d cipher comp dec ctx idx flag) 1
    own_taken ctx none e s = (
      computed (update_same ctx.slots idx _ ∙ ap (process d cipher comp dec ctx.mode ctx.keyring) s)
          (update_same ctx.places idx worked),
      omega arith,
    )
    own_taken ctx (some x) e s = (
      given_up (update_same ctx.slots idx _ ∙ ap (cancelled d cipher comp dec) s) (λ no_flag. cc)
          (inl (update_same ctx.places idx waiting)),
      omega arith,
    )

    -- A worker whose slot is done waits, or leaves at the shutdown.
    pub parked_stays :
        (ctx : ZparContext)
        → is_ready (ctx.slots idx).status ≡ false
        → (P : ZparContext → Type 0) → P ctx
        → P (record ctx { places = update ctx.places idx exited })
        → (ctx.places idx ≡ waiting) ⊎ (ctx.places idx ≡ exited)
        → P (worker_step d cipher comp dec ctx idx)
    unfolding worker_step
    parked_stays ctx idle P same gone (inl here_now) =
        rw (here_now, idle) (if-elim P ctx.shutdown (λ a. gone) (λ b. same))
    parked_stays ctx idle P same gone (inr left) = rw left same

    pub own-Next :
        (ctx : ZparContext) (v : Serves idx sent ctx)
        → Next (worker_step d cipher comp dec ctx idx) (rank v - 1)
    unfolding worker_step
    own-Next ctx (queued s p) =
        let is_there : is_ready (ctx.slots idx).status ≡ true = rw (s, is_ready_slot) refl in
        rw (p, is_there) (running s (update_same ctx.places idx taken), omega arith)
    own-Next ctx (running s p) = rw p (own_taken ctx ctx.error_flag refl s)
    own-Next ctx (computed s p) = rw p (
      finished (update_same ctx.slots idx _ ∙ ap (λ (x : Slot). record x { status = done }) s)
          (inl (update_same ctx.places idx waiting)),
      omega arith,
    )
    own-Next ctx (finished s p) =
        let idle : is_ready (ctx.slots idx).status ≡ false = rw s refl in
        parked_stays ctx idle (λ c. Next c 0) (finished s p, omega arith)
          (finished s (inr (update_same ctx.places idx exited)), omega arith) p
    own-Next ctx (given_up s f p) =
        let idle : is_ready (ctx.slots idx).status ≡ false = rw s refl in
        parked_stays ctx idle (λ c. Next c 0) (given_up s f p, omega arith)
          (given_up s f (inr (update_same ctx.places idx exited)), omega arith) p

    -- A submission does not go to a slot that is taken.
    pub compress-Keeps :
        (ctx ctx' : ZparContext) (block : List ℕ) (seq level codec i : ℕ)
        → is_empty (ctx.slots idx).status ≡ false
        → submit_compress ctx block seq level codec ≡ given (i, ctx')
        → Keeps idx ctx ctx'
    unfolding submit_compress
    compress-Keeps ctx ctx' block seq level codec i taken_slot e =
        elim (Bool-cases (seq % ctx.nslots == idx)) [
          | inl same ↦
              let here_it : seq % ctx.nslots ≡ idx = (==_iff (seq % ctx.nslots) idx).0 same in
              absurd (ground (arith, here_it, e, taken_slot))
          | inr apart ↦
              let ne : seq % ctx.nslots ≢ idx =
                λ q. cc ((==_iff (seq % ctx.nslots) idx).1 q, apart) in
              let made : put_slot ctx (seq % ctx.nslots)
                    (filled_slot (ctx.slots (seq % ctx.nslots)) block seq level codec)
                  ≡ ctx' =
                ground (arith, e) in
              subst (Keeps idx ctx) made (put_slot-Keeps ctx (seq % ctx.nslots) _ ne)
        ]
