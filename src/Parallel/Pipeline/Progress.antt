-- ===== src/Parallel/Pipeline/Progress.antt =====
-- What zpar_wait_slot of src/zupt_parallel.c gives for a submitted block, in any interleaving.
use mathlib.Core.Path.{subst}
use libvuptsdk.Common.{
  ℕ, ◌-◌, ◌%◌, ◌≤◌, ◌<◌, ◌≡◌, ◌≢◌, refl, sym, ◌∙◌, arith, List, Bool, true, false, Option, some,
  none, leb, ◌==◌, ==_iff, if-elim, Bool-cases, inl, inr,
}
use libvuptsdk.Archive.Error.{ZuptError}
use libvuptsdk.Archive.Trailer.{Digests}
use libvuptsdk.Archive.Cipher.{Cipher}
use libvuptsdk.Parallel.Slots.{Slot, Status, empty, ready, done}
use libvuptsdk.Parallel.Worker.{Compressors, Decompressors}
use libvuptsdk.Parallel.Pipeline.{
  ZparContext, Place, waiting, taken, worked, exited, given, update, put_slot, filled_slot,
  loaded_slot, submit_compress, submit_decompress, wait_slot, release_slot, check_error, process,
  taken_step, place_step, worker_step, is_empty, is_ready, is_done,
}
use libvuptsdk.Parallel.Pipeline.Steps.{
  Step, compress, decompress, release, shut_down, other, own, Run, here, next, Serves, queued,
  running, computed, finished, given_up, rank, busy, Next, Keeps-Serves, put_slot-Keeps,
  place-Keeps, own-Next, compress-Keeps, same-Keeps, Keeps, update_same,
}
use libvuptsdk.Parallel.Pipeline.Orderly.{IsOrderly, Fit}

module _ (d : Digests) (cipher : Cipher) (comp : Compressors) (dec : Decompressors) where
  -- What zpar_create fixes.
  record SameSetup (ctx ctx' : ZparContext) : Type 0 where
    count : ctx'.nslots ≡ ctx.nslots
    mode : ctx'.mode ≡ ctx.mode
    keyring : ctx'.keyring ≡ ctx.keyring

  SameSetup-trans : {a b c : ZparContext} → SameSetup a b → SameSetup b c → SameSetup a c
  SameSetup-trans p q = record {
    count = q.count ∙ p.count;
    mode = q.mode ∙ p.mode;
    keyring = q.keyring ∙ p.keyring;
  }

  setup : (ctx : ZparContext) → SameSetup ctx ctx
  setup ctx = record { count = refl; mode = refl; keyring = refl }

  submit_compress-setup :
      (ctx ctx' : ZparContext) (block : List ℕ) (seq level codec i : ℕ)
      → submit_compress ctx block seq level codec ≡ given (i, ctx')
      → SameSetup ctx ctx'
  unfolding submit_compress
  submit_compress-setup ctx ctx' block seq level codec i e =
      let made : put_slot ctx (seq % ctx.nslots)
            (filled_slot (ctx.slots (seq % ctx.nslots)) block seq level codec)
          ≡ ctx' =
        ground (arith, e) in
      subst (SameSetup ctx) made (record { count = refl; mode = refl; keyring = refl })

  submit_decompress-setup :
      (ctx ctx' : ZparContext) (payload : List ℕ) (seq codec flags sum size i : ℕ)
      → submit_decompress ctx payload seq codec flags sum size ≡ given (i, ctx')
      → SameSetup ctx ctx'
  unfolding submit_decompress
  submit_decompress-setup ctx ctx' payload seq codec flags sum size i e =
      let made : put_slot ctx (seq % ctx.nslots)
            (loaded_slot (ctx.slots (seq % ctx.nslots)) payload seq codec flags sum size)
          ≡ ctx' =
        ground (arith, e) in
      subst (SameSetup ctx) made (record { count = refl; mode = refl; keyring = refl })

  taken-setup :
      (ctx : ZparContext) (i : ℕ) (flag : Option ZuptError)
      → SameSetup ctx (taken_step d cipher comp dec ctx i flag)
  taken-setup ctx i none = record { count = refl; mode = refl; keyring = refl }
  taken-setup ctx i (some e) = record { count = refl; mode = refl; keyring = refl }

  place-setup :
      (ctx : ZparContext) (i : ℕ) (place : Place)
      → SameSetup ctx (place_step d cipher comp dec ctx i place)
  place-setup ctx i waiting =
      if-elim (SameSetup ctx) (is_ready (ctx.slots i).status)
        (λ a. record { count = refl; mode = refl; keyring = refl })
        (λ b.
          if-elim (SameSetup ctx) ctx.shutdown
            (λ a. record { count = refl; mode = refl; keyring = refl }) (λ c. setup ctx))
  place-setup ctx i taken = taken-setup ctx i ctx.error_flag
  place-setup ctx i worked = record { count = refl; mode = refl; keyring = refl }
  place-setup ctx i exited = setup ctx

  worker-setup : (ctx : ZparContext) (i : ℕ) → SameSetup ctx (worker_step d cipher comp dec ctx i)
  unfolding worker_step
  worker-setup ctx i = place-setup ctx i (ctx.places i)

  release-setup : (ctx : ZparContext) (i : ℕ) → SameSetup ctx (release_slot ctx i)
  unfolding release_slot
  release-setup ctx i =
      if-elim (SameSetup ctx) (leb ctx.nslots i) (λ a. setup ctx)
        (λ b. record { count = refl; mode = refl; keyring = refl })

  Step-setup :
      {idx n : ℕ} {ctx ctx' : ZparContext}
      → Step d cipher comp dec idx ctx ctx' n
      → SameSetup ctx ctx'
  Step-setup {idx} {n} {ctx} {ctx'} (compress block seq level codec i e) =
      submit_compress-setup ctx ctx' block seq level codec i e
  Step-setup {idx} {n} {ctx} {ctx'} (decompress payload seq codec flags sum size i e) =
      submit_decompress-setup ctx ctx' payload seq codec flags sum size i e
  Step-setup {idx} {n} {ctx} {ctx'} (release i ne free e) = rw e (release-setup ctx i)
  Step-setup {idx} {n} {ctx} {ctx'} (shut_down e) =
      rw e (record { count = refl; mode = refl; keyring = refl })
  Step-setup {idx} {n} {ctx} {ctx'} (other i ne e) = rw e (worker-setup ctx i)
  Step-setup {idx} {n} {ctx} {ctx'} (own e) = rw e (worker-setup ctx idx)

  module _ (idx : ℕ) (sent : Slot) (is_ready_slot : sent.status ≡ ready) where
    abbrev After : ZparContext → ℕ → Type 0
    After = Next d cipher comp dec idx sent is_ready_slot

    decompress-Keeps :
        (ctx ctx' : ZparContext) (payload : List ℕ) (seq codec flags sum size i : ℕ)
        → is_empty (ctx.slots idx).status ≡ false
        → submit_decompress ctx payload seq codec flags sum size ≡ given (i, ctx')
        → Keeps idx ctx ctx'
    unfolding submit_decompress
    decompress-Keeps ctx ctx' payload seq codec flags sum size i taken_slot e =
        elim (Bool-cases (seq % ctx.nslots == idx)) [
          | inl same ↦
              let here_it : seq % ctx.nslots ≡ idx = (==_iff (seq % ctx.nslots) idx).0 same in
              absurd (ground (arith, here_it, e, taken_slot))
          | inr apart ↦
              let ne : seq % ctx.nslots ≢ idx =
                λ q. cc ((==_iff (seq % ctx.nslots) idx).1 q, apart) in
              let made : put_slot ctx (seq % ctx.nslots)
                    (loaded_slot (ctx.slots (seq % ctx.nslots)) payload seq codec flags sum size)
                  ≡ ctx' =
                ground (arith, e) in
              subst (Keeps idx ctx) made (
                put_slot-Keeps d cipher comp dec idx sent is_ready_slot ctx (seq % ctx.nslots) _ ne)
        ]

    kept :
        {ctx ctx' : ZparContext}
        → Keeps idx ctx ctx'
        → (v : Serves d cipher comp dec idx sent ctx) → After ctx' (rank d cipher comp dec v - 0)
    kept k v =
        let (w, h) = Keeps-Serves d cipher comp dec idx sent is_ready_slot k v in (w, omega arith)

    -- Every step keeps the slot's place in the work, and the worker's own bring it nearer.
    Step-Next :
        {n : ℕ} {ctx ctx' : ZparContext}
        → Step d cipher comp dec idx ctx ctx' n
        → (v : Serves d cipher comp dec idx sent ctx) → After ctx' (rank d cipher comp dec v - n)
    Step-Next {n} {ctx} {ctx'} (compress block seq level codec i e) v =
        kept
          (compress-Keeps d cipher comp dec idx sent is_ready_slot ctx ctx' block seq level codec i
            (busy d cipher comp dec idx sent is_ready_slot v) e)
          v
    Step-Next {n} {ctx} {ctx'} (decompress payload seq codec flags sum size i e) v =
        kept
          (decompress-Keeps ctx ctx' payload seq codec flags sum size i
            (busy d cipher comp dec idx sent is_ready_slot v) e)
          v
    Step-Next {n} {ctx} {ctx'} (release i ne free e) v = kept (rw e (release_other ctx i ne)) v
      where
        release_other : (c : ZparContext) (j : ℕ) → j ≢ idx → Keeps idx c (release_slot c j)
        release_other c j ne =
            unfold release_slot in
            if-elim (Keeps idx c) (leb c.nslots j)
              (λ a. same-Keeps d cipher comp dec idx sent is_ready_slot c)
              (λ b. put_slot-Keeps d cipher comp dec idx sent is_ready_slot c j _ ne)
    Step-Next {n} {ctx} {ctx'} (shut_down e) v =
        kept
          (rw e (record { slot = refl; place = refl; mode = refl; keyring = refl; flag = λ f. f }))
          v
    Step-Next {n} {ctx} {ctx'} (other i ne e) v =
        kept
          (rw e (
            unfold worker_step in
            place-Keeps d cipher comp dec idx sent is_ready_slot ctx i (ctx.places i) ne))
          v
    Step-Next {n} {ctx} {ctx'} (own e) v =
        subst (λ (c : ZparContext). After c (rank d cipher comp dec v - 1)) (sym e)
          (own-Next d cipher comp dec idx sent is_ready_slot ctx v)

    Run-Next :
        {start ctx : ZparContext} {n : ℕ}
        → Run d cipher comp dec idx start ctx n
        → (v : Serves d cipher comp dec idx sent start) → After ctx (rank d cipher comp dec v - n)
    Run-Next here v = (v, omega arith)
    Run-Next (next r s) v =
        let (w, far) = Run-Next r v in let (u, further) = Step-Next s w in (u, omega arith)

  Run-setup :
      {idx : ℕ} {start ctx : ZparContext} {n : ℕ}
      → Run d cipher comp dec idx start ctx n
      → SameSetup start ctx
  Run-setup {idx} {start} here = setup start
  Run-setup (next r s) = SameSetup-trans (Run-setup r) (Step-setup s)

  -- The slot of a submission, and where its worker is.
  submitted :
      (ctx ctx' : ZparContext) (block : List ℕ) (seq level codec idx : ℕ)
      → IsOrderly ctx
      → submit_compress ctx block seq level codec ≡ given (idx, ctx')
      → (idx < ctx'.nslots)
        × (ctx'.slots idx ≡ filled_slot (ctx.slots idx) block seq level codec)
        × (ctx'.places idx ≡ waiting)
  unfolding submit_compress
  submitted ctx ctx' block seq level codec idx v e =
      let i = seq % ctx.nslots in
      let made : put_slot ctx i (filled_slot (ctx.slots i) block seq level codec) ≡ ctx' =
        ground (arith, e) in
      let same : i ≡ idx = ground (arith, e) in
      let open_for_work : ctx.shutdown ≡ false = ground (arith, e) in
      let free : is_empty (ctx.slots i).status ≡ true = ground (arith, e) in
      let low : i < ctx.nslots = grind (arith, v.some_slots) in
      let at_rest =
        at_rest_lem (ctx.slots i).status (ctx.places i) ctx.shutdown free open_for_work (v.fit i) in
      subst
        (λ (c : ZparContext).
          (idx < c.nslots)
          × (c.slots idx ≡ filled_slot (ctx.slots idx) block seq level codec)
          × (c.places idx ≡ waiting))
        made
        (
          rw same at low,
          subst
              (λ (j : ℕ).
                update ctx.slots i (filled_slot (ctx.slots i) block seq level codec) j
                ≡ filled_slot (ctx.slots j) block seq level codec)
              same (update_same ctx.slots i (filled_slot (ctx.slots i) block seq level codec)),
          subst (λ (j : ℕ). ctx.places j ≡ waiting) same at_rest,
        )
    where
      at_rest_lem :
          (st : Status) (p : Place) (sh : Bool)
          → is_empty st ≡ true
          → sh ≡ false
          → Fit st p sh
          → p ≡ waiting
      at_rest_lem empty waiting sh e f h = refl
      at_rest_lem empty taken sh e f h = cc
      at_rest_lem empty worked sh e f h = cc
      at_rest_lem empty exited sh e f h = cc
      at_rest_lem ready p sh e f h = cc
      at_rest_lem done p sh e f h = cc

  -- The work on the slot is over.
  over :
      (idx : ℕ) (sent : Slot) (ctx : ZparContext) (w : Serves d cipher comp dec idx sent ctx)
      → rank d cipher comp dec w ≡ 0
      → idx < ctx.nslots
      → (wait_slot ctx idx ≡ given (ctx.slots idx))
        × (check_error ctx ≡ none
            → ctx.slots idx
              ≡ record (process d cipher comp dec ctx.mode ctx.keyring sent) { status = done })
  unfolding wait_slot check_error
  over idx sent ctx (queued s p) e low = absurd (omega arith)
  over idx sent ctx (running s p) e low = absurd (omega arith)
  over idx sent ctx (computed s p) e low = absurd (omega arith)
  over idx sent ctx (finished s p) e low =
      let in_range : leb ctx.nslots idx ≡ false = ground arith in
      let is_over : is_done (ctx.slots idx).status ≡ true = rw s refl in
      (rw (in_range, is_over) refl, λ h. s)
  over idx sent ctx (given_up s f p) e low =
      let in_range : leb ctx.nslots idx ≡ false = ground arith in
      let is_over : is_done (ctx.slots idx).status ≡ true = rw s refl in
      (rw (in_range, is_over) refl, λ h. absurd (f h))

  -- Let a block be submitted to an orderly pipeline, and let the threads then make any steps in any
  -- order in which that slot is not released and its worker makes three or more. Then
  -- zpar_wait_slot does not block, and unless a worker has reported an error, the slot that it
  -- gives is what the work makes of the slot that was filled with the block, marked as done.
  pub wait_slot-submit_compress :
      (ctx ctx1 ctx2 : ZparContext) (block : List ℕ) (seq level codec idx n : ℕ)
      → IsOrderly ctx
      → submit_compress ctx block seq level codec ≡ given (idx, ctx1)
      → Run d cipher comp dec idx ctx1 ctx2 n
      → 3 ≤ n
      → (s : Slot) × (wait_slot ctx2 idx ≡ given s)
        × (check_error ctx2 ≡ none
            → s
              ≡ record (process d cipher comp dec ctx.mode ctx.keyring
                  (filled_slot (ctx.slots idx) block seq level codec)) { status = done })
  unfolding check_error
  wait_slot-submit_compress ctx ctx1 ctx2 block seq level codec idx n v e run enough =
      let (low, full, at_rest) = submitted ctx ctx1 block seq level codec idx v e in
      let sent = filled_slot (ctx.slots idx) block seq level codec in
      let is_ready_slot : sent.status ≡ ready = unfold filled_slot in refl in
      let (w, far) = Run-Next idx sent is_ready_slot run (queued full at_rest) in
      let same =
        SameSetup-trans (submit_compress-setup ctx ctx1 block seq level codec idx e)
          (Run-setup run) in
      let later = Run-setup run in
      let (waits, right) = over idx sent ctx2 w (omega arith) (rw later.count low) in
      (ctx2.slots idx, waits, rw (same.mode, same.keyring) at right)
