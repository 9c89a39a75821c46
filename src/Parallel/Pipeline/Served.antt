-- ===== src/Parallel/Pipeline/Served.antt =====
-- The slots of src/zupt_parallel.c under any calls of the main thread and any steps of the workers:
-- no block is lost, mixed with another or written over while it is worked on.
use libvuptsdk.Common.{ℕ, ◌≡◌, ◌⊎◌, List, false, Option, some, none}
use libvuptsdk.Archive.Trailer.{Keyring, Digests}
use libvuptsdk.Archive.Cipher.{Cipher}
use libvuptsdk.Parallel.Slots.{Slot, empty, ready}
use libvuptsdk.Parallel.Worker.{Compressors, Decompressors}
use libvuptsdk.Parallel.Pipeline.{
  ZparContext, waiting, exited, given, update, filled_slot, loaded_slot, submit_compress,
  submit_decompress, wait_slot, release_slot, signal_shutdown, create, worker_step, fresh_slot,
}
use libvuptsdk.Parallel.Pipeline.Steps.{Serves}
use libvuptsdk.Parallel.Pipeline.Orderly.{IsOrderly}

-- Lemmas on steps are about the work on some slot.
abbrev any_slot : Slot
any_slot = record fresh_slot { status = ready }

module _ (d : Digests) (cipher : Cipher) (comp : Compressors) (dec : Decompressors) where
  -- What the main thread has submitted to each slot and not yet released.
  abbrev pub Ledger : Type 0
  Ledger = ℕ → Option Slot

  abbrev pub Served : ZparContext → ℕ → Option Slot → Type 0
  Served ctx i none =
      ((ctx.slots i).status ≡ empty) × ((ctx.places i ≡ waiting) ⊎ (ctx.places i ≡ exited))
  Served ctx i (some sent) = (sent.status ≡ ready) × Serves d cipher comp dec i sent ctx

  pub record IsServed (ctx : ZparContext) (ledger : Ledger) : Type 0 where
    pub orderly : IsOrderly ctx
    pub served : (i : ℕ) → Served ctx i (ledger i)

  -- The main thread's calls and the workers' steps since zpar_create, with the ledger of what the
  -- main thread has submitted. It releases a slot that zpar_wait_slot gave it, and zpar_destroy,
  -- the only one to signal the shutdown, is its last call.
  pub data Reach (nthreads block_size mode : ℕ) (kr : Option Keyring)
      : ZparContext → Ledger → Type 0 where
    start : Reach nthreads block_size mode kr (create nthreads block_size mode kr) (λ i. none)
    compress :
        {ctx ctx' : ZparContext} {ledger : Ledger} (block : List ℕ) (seq level codec i : ℕ)
        → Reach nthreads block_size mode kr ctx ledger
        → submit_compress ctx block seq level codec ≡ given (i, ctx')
        → Reach nthreads block_size mode kr ctx'
            (update ledger i (some (filled_slot (ctx.slots i) block seq level codec)))
    decompress :
        {ctx ctx' : ZparContext} {ledger : Ledger} (payload : List ℕ)
        (seq codec flags sum size i : ℕ)
        → Reach nthreads block_size mode kr ctx ledger
        → submit_decompress ctx payload seq codec flags sum size ≡ given (i, ctx')
        → Reach nthreads block_size mode kr ctx'
            (update ledger i (some (loaded_slot (ctx.slots i) payload seq codec flags sum size)))
    release :
        {ctx : ZparContext} {ledger : Ledger} (i : ℕ) (s : Slot)
        → Reach nthreads block_size mode kr ctx ledger
        → ctx.shutdown ≡ false
        → wait_slot ctx i ≡ given s
        → Reach nthreads block_size mode kr (release_slot ctx i) (update ledger i none)
    destroy :
        {ctx : ZparContext} {ledger : Ledger}
        → Reach nthreads block_size mode kr ctx ledger
        → Reach nthreads block_size mode kr (signal_shutdown ctx) ledger
    work :
        {ctx : ZparContext} {ledger : Ledger} (i : ℕ)
        → Reach nthreads block_size mode kr ctx ledger
        → Reach nthreads block_size mode kr (worker_step d cipher comp dec ctx i) ledger
