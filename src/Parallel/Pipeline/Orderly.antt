-- ===== src/Parallel/Pipeline/Orderly.antt =====
-- The invariant of the pipeline of src/zupt_parallel.c: where a worker stands fits its slot.
use libvuptsdk.Common.{
  ℕ, ◌%◌, ◌<◌, ◌≡◌, refl, ◌∙◌, arith, List, Bool, true, Option, some, none, leb, ◌==◌, ==_iff,
  if-elim, Bool-cases, inl, inr,
}
use mathlib.Core.Path.{subst}
use libvuptsdk.Archive.Error.{ZuptError}
use libvuptsdk.Archive.Trailer.{Keyring, Digests}
use libvuptsdk.Archive.Cipher.{Cipher}
use libvuptsdk.Parallel.Slots.{Slot, Status, empty, ready, done}
use libvuptsdk.Parallel.Worker.{Compressors, Decompressors}
use libvuptsdk.Parallel.Pipeline.{
  ZparContext, Place, waiting, taken, worked, exited, given, update, put_slot, filled_slot,
  loaded_slot, submit_compress, submit_decompress, release_slot, create, taken_step, place_step,
  worker_step, is_ready, signal_shutdown,
}
use libvuptsdk.Parallel.Pipeline.Steps.{process-status}

-- A worker at work has a slot that is ready, and it has left only at the shutdown.
abbrev pub Fit : Status → Place → Bool → Type 0
Fit st waiting sh = Unit {0}
Fit st taken sh = st ≡ ready
Fit st worked sh = st ≡ ready
Fit st exited sh = sh ≡ true

pub record IsOrderly (ctx : ZparContext) : Type 0 where
  pub some_slots : 0 < ctx.nslots
  pub fit : (j : ℕ) → Fit (ctx.slots j).status (ctx.places j) ctx.shutdown

Fit-ready : (st : Status) (p : Place) (sh : Bool) → Fit st p sh → Fit ready p sh
Fit-ready st waiting sh h = tt
Fit-ready st taken sh h = refl
Fit-ready st worked sh h = refl
Fit-ready st exited sh h = h

Fit-released : (st : Status) (p : Place) (sh : Bool) → st ≡ done → Fit st p sh → Fit empty p sh
Fit-released st waiting sh e h = tt
Fit-released st taken sh e h = cc
Fit-released st worked sh e h = cc
Fit-released st exited sh e h = h

Fit-shutdown : (st : Status) (p : Place) (sh : Bool) → Fit st p sh → Fit st p true
Fit-shutdown st waiting sh h = tt
Fit-shutdown st taken sh h = h
Fit-shutdown st worked sh h = h
Fit-shutdown st exited sh h = refl

-- One slot and one place are changed.
module _ (ctx : ZparContext) (v : IsOrderly ctx) (i : ℕ) where
  put-Fit :
      (slot : Slot) → Fit slot.status (ctx.places i) ctx.shutdown → IsOrderly (put_slot ctx i slot)
  put-Fit slot h = record {
    some_slots = v.some_slots;
    fit = λ j.
        if-elim (λ (x : Slot). Fit x.status (ctx.places j) ctx.shutdown) (j == i)
          (λ same. rw ((==_iff j i).0 same) h) (λ apart. v.fit j);
  }

  move-Fit :
      (place : Place) (flag : Option ZuptError)
      → Fit (ctx.slots i).status place ctx.shutdown
      → IsOrderly (record ctx { places = update ctx.places i place; error_flag = flag })
  move-Fit place flag h = record {
    some_slots = v.some_slots;
    fit = λ j.
        if-elim (λ (x : Place). Fit (ctx.slots j).status x ctx.shutdown) (j == i)
          (λ same. rw ((==_iff j i).0 same) h) (λ apart. v.fit j);
  }

  both-Fit :
      (slot : Slot) (place : Place) (flag : Option ZuptError)
      → Fit slot.status place ctx.shutdown
      → IsOrderly (record ctx {
        slots = update ctx.slots i slot;
        places = update ctx.places i place;
        error_flag = flag;
      })
  both-Fit slot place flag h = record {
    some_slots = v.some_slots;
    fit = λ j. elim (Bool-cases (j == i)) [ inl same ↦ rw same h | inr apart ↦ rw apart (v.fit j) ];
  }

pub create-IsOrderly :
    (nthreads block_size mode : ℕ) (kr : Option Keyring)
    → IsOrderly (create nthreads block_size mode kr)
unfolding create
create-IsOrderly nthreads block_size mode kr = record { some_slots = ground arith; fit = λ j. tt }

module _ (d : Digests) (cipher : Cipher) (comp : Compressors) (dec : Decompressors) where
  taken-IsOrderly :
      (ctx : ZparContext) (i : ℕ) (flag : Option ZuptError)
      → IsOrderly ctx
      → (ctx.slots i).status ≡ ready
      → IsOrderly (taken_step d cipher comp dec ctx i flag)
  taken-IsOrderly ctx i none v h =
      both-Fit ctx v i _ worked _
        (process-status d cipher comp dec ctx.mode ctx.keyring (ctx.slots i) ∙ h)
  taken-IsOrderly ctx i (some e) v h = both-Fit ctx v i _ waiting ctx.error_flag tt

  ready_of : (st : Status) → is_ready st ≡ true → st ≡ ready
  ready_of empty h = cc
  ready_of ready h = refl
  ready_of done h = cc

  place-IsOrderly :
      (ctx : ZparContext) (i : ℕ) (place : Place)
      → ctx.places i ≡ place
      → IsOrderly ctx
      → IsOrderly (place_step d cipher comp dec ctx i place)
  place-IsOrderly ctx i waiting e v =
      if-elim IsOrderly (is_ready (ctx.slots i).status)
        (λ a. move-Fit ctx v i taken ctx.error_flag (ready_of _ a))
        (λ b.
          if-elim IsOrderly ctx.shutdown (λ c. move-Fit ctx v i exited ctx.error_flag c) (λ c. v))
  place-IsOrderly ctx i taken e v = taken-IsOrderly ctx i ctx.error_flag v (rw e at (v.fit i))
  place-IsOrderly ctx i worked e v = both-Fit ctx v i _ waiting ctx.error_flag tt
  place-IsOrderly ctx i exited e v = v

  pub worker-IsOrderly :
      (ctx : ZparContext) (i : ℕ) → IsOrderly ctx → IsOrderly (worker_step d cipher comp dec ctx i)
  unfolding worker_step
  worker-IsOrderly ctx i v = place-IsOrderly ctx i (ctx.places i) refl v

  pub release-IsOrderly :
      (ctx : ZparContext) (i : ℕ)
      → IsOrderly ctx
      → (ctx.slots i).status ≡ done
      → IsOrderly (release_slot ctx i)
  unfolding release_slot
  release-IsOrderly ctx i v e =
      if-elim IsOrderly (leb ctx.nslots i) (λ a. v)
        (λ b. put-Fit ctx v i _ (Fit-released _ (ctx.places i) ctx.shutdown e (v.fit i)))

  pub submit_compress-IsOrderly :
      (ctx ctx' : ZparContext) (block : List ℕ) (seq level codec i : ℕ)
      → IsOrderly ctx
      → submit_compress ctx block seq level codec ≡ given (i, ctx')
      → IsOrderly ctx'
  unfolding submit_compress
  submit_compress-IsOrderly ctx ctx' block seq level codec i v e =
      let made : put_slot ctx (seq % ctx.nslots)
            (filled_slot (ctx.slots (seq % ctx.nslots)) block seq level codec)
          ≡ ctx' =
        ground (arith, e) in
      subst IsOrderly made (
        put-Fit ctx v (seq % ctx.nslots) _ (
          unfold filled_slot in
          Fit-ready _ (ctx.places (seq % ctx.nslots)) ctx.shutdown (v.fit (seq % ctx.nslots))))

  pub submit_decompress-IsOrderly :
      (ctx ctx' : ZparContext) (payload : List ℕ) (seq codec flags sum size i : ℕ)
      → IsOrderly ctx
      → submit_decompress ctx payload seq codec flags sum size ≡ given (i, ctx')
      → IsOrderly ctx'
  unfolding submit_decompress
  submit_decompress-IsOrderly ctx ctx' payload seq codec flags sum size i v e =
      let made : put_slot ctx (seq % ctx.nslots)
            (loaded_slot (ctx.slots (seq % ctx.nslots)) payload seq codec flags sum size)
          ≡ ctx' =
        ground (arith, e) in
      subst IsOrderly made (
        put-Fit ctx v (seq % ctx.nslots) _ (
          unfold loaded_slot in
          Fit-ready _ (ctx.places (seq % ctx.nslots)) ctx.shutdown (v.fit (seq % ctx.nslots))))

  pub shutdown-IsOrderly : (ctx : ZparContext) → IsOrderly ctx → IsOrderly (signal_shutdown ctx)
  shutdown-IsOrderly ctx v = record {
    some_slots = v.some_slots;
    fit = λ j. Fit-shutdown _ (ctx.places j) ctx.shutdown (v.fit j);
  }
