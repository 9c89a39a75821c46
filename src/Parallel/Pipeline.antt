-- ===== src/Parallel/Pipeline.antt =====
-- The slots of src/zupt_parallel.c between the main thread and the workers. What runs under the
-- mutex is one step. A thread that waits for a condition is a step that changes nothing; a worker
-- stands at one of the places of worker_entry, where its test of the error flag, its work and its
-- report are one step. Allocation and thread creation do not fail.
pub mod Steps
pub mod Orderly
pub mod Progress
pub mod Served
use libvuptsdk.Common.{
  ℕ, ◌+◌, ◌%◌, List, [], Bool, true, false, Option, some, none, ltb, leb, ◌==◌, if◌then◌else◌,
  length,
}
use libvuptsdk.Archive.Error.{ZuptError, corrupt}
use libvuptsdk.Archive.Trailer.{Keyring, Digests}
use libvuptsdk.Archive.Cipher.{Cipher}
use libvuptsdk.Parallel.Slots.{Slot, Status, empty, ready, done}
use libvuptsdk.Parallel.Worker.{Compressors, Decompressors, worker_compress, worker_decompress}

-- Where a worker is: before the lock, past the wait with a slot that is ready, behind the work on
-- it, or gone.
pub data Place : Type 0 where
  waiting taken worked exited : Place

pub record ZparContext : Type 0 where
  pub nslots : ℕ
  pub block_size : ℕ
  pub mode : ℕ
  pub keyring : Option Keyring
  pub slots : ℕ → Slot
  pub places : ℕ → Place
  pub shutdown : Bool
  pub error_flag : Option ZuptError

abbrev pub update {ℓ} : {A : Type ℓ} → (ℕ → A) → ℕ → A → ℕ → A
update f i v j = if j == i then v else f j

abbrev pub zupt_max_threads : ℕ
zupt_max_threads = 64

abbrev pub fresh_slot : Slot
fresh_slot = record {
  input = [];
  block_seq = 0;
  level = 0;
  codec_id = 0;
  block_flags = 0;
  stored_checksum = 0;
  uncomp_size = 0;
  output = [];
  actual_codec = 0;
  out_bflags = 0;
  checksum = 0;
  error = none;
  status = empty;
}

abbrev pub clamp_threads : ℕ → ℕ
clamp_threads nthreads =
    let one = if ltb nthreads 1 then 1 else nthreads in
    if ltb zupt_max_threads one then zupt_max_threads else one

unfoldable pub create : ℕ → ℕ → ℕ → Option Keyring → ZparContext
create nthreads block_size mode keyring = record {
  nslots = clamp_threads nthreads;
  block_size = block_size;
  mode = mode;
  keyring = keyring;
  slots = λ i. fresh_slot;
  places = λ i. waiting;
  shutdown = false;
  error_flag = none;
}

-- A call that waits, that is refused with -1 or NULL, or that gives a result.
pub data Answer (A : Type 0) : Type 0 where
  blocked : Answer A
  refused : Answer A
  given : A → Answer A

abbrev pub is_empty : Status → Bool
is_empty empty = true
is_empty ready = false
is_empty done = false

abbrev pub is_ready : Status → Bool
is_ready empty = false
is_ready ready = true
is_ready done = false

abbrev pub is_done : Status → Bool
is_done empty = false
is_done ready = false
is_done done = true

abbrev pub put_slot : ZparContext → ℕ → Slot → ZparContext
put_slot ctx i slot = record ctx { slots = update ctx.slots i slot }

-- The slot of a block for compression.
unfoldable pub filled_slot : Slot → List ℕ → ℕ → ℕ → ℕ → Slot
filled_slot slot block block_seq level codec_id = record slot {
  input = block;
  block_seq = block_seq;
  level = level;
  codec_id = codec_id;
  error = none;
  output = [];
  status = ready;
}

unfoldable pub submit_compress : ZparContext → List ℕ → ℕ → ℕ → ℕ → Answer (ℕ × ZparContext)
submit_compress ctx block block_seq level codec_id =
    let idx = block_seq % ctx.nslots in
    if ctx.shutdown
    then refused
    else (if is_empty (ctx.slots idx).status
        then (if ltb ctx.block_size (length block)
            then refused
            else given (
              idx,
              put_slot ctx idx (filled_slot (ctx.slots idx) block block_seq level codec_id),
            ))
        else blocked)

-- The slot of a frame for decompression; the input buffer grows on demand.
unfoldable pub loaded_slot : Slot → List ℕ → ℕ → ℕ → ℕ → ℕ → ℕ → Slot
loaded_slot slot payload block_seq codec_id bflags checksum uncomp_size = record slot {
  input = payload;
  block_seq = block_seq;
  codec_id = codec_id;
  block_flags = bflags;
  stored_checksum = checksum;
  uncomp_size = uncomp_size;
  error = none;
  output = [];
  status = ready;
}

unfoldable pub submit_decompress :
    ZparContext → List ℕ → ℕ → ℕ → ℕ → ℕ → ℕ → Answer (ℕ × ZparContext)
submit_decompress ctx payload block_seq codec_id bflags checksum uncomp_size =
    let idx = block_seq % ctx.nslots in
    if ctx.shutdown
    then refused
    else (if is_empty (ctx.slots idx).status
        then given (
          idx,
          put_slot ctx idx
              (loaded_slot (ctx.slots idx) payload block_seq codec_id bflags checksum uncomp_size),
        )
        else blocked)

unfoldable pub wait_slot : ZparContext → ℕ → Answer Slot
wait_slot ctx idx =
    if leb ctx.nslots idx
    then refused
    else (if is_done (ctx.slots idx).status
        then given (ctx.slots idx)
        else (if ctx.shutdown then given (ctx.slots idx) else blocked))

unfoldable pub release_slot : ZparContext → ℕ → ZparContext
release_slot ctx idx =
    if leb ctx.nslots idx
    then ctx
    else put_slot ctx idx (record (ctx.slots idx) { output = []; status = empty })

-- What zpar_destroy tells the workers.
abbrev pub signal_shutdown : ZparContext → ZparContext
signal_shutdown ctx = record ctx { shutdown = true }

unfoldable pub check_error : ZparContext → Option ZuptError
check_error ctx = ctx.error_flag

module _ (d : Digests) (cipher : Cipher) (comp : Compressors) (dec : Decompressors) where
  -- The slot before the work, and after it.
  unfoldable pub process : ℕ → Option Keyring → Slot → Slot
  process mode keyring slot =
      let clean = record slot { error = none; output = [] } in
      if mode == 0
      then worker_compress d cipher comp clean keyring
      else worker_decompress d cipher dec clean keyring

  abbrev pub raise_flag : Option ZuptError → Option ZuptError → Option ZuptError
  raise_flag none flag = flag
  raise_flag (some e) flag = some e

  -- Another worker failed before: the slot is given up.
  abbrev pub cancelled : Slot → Slot
  cancelled slot = record slot { error = some corrupt; status = done }

  abbrev pub taken_step : ZparContext → ℕ → Option ZuptError → ZparContext
  taken_step ctx i (some e) = record ctx {
    slots = update ctx.slots i (cancelled (ctx.slots i));
    places = update ctx.places i waiting;
  }
  taken_step ctx i none =
      let slot = process ctx.mode ctx.keyring (ctx.slots i) in
      record ctx {
        slots = update ctx.slots i slot;
        places = update ctx.places i worked;
        error_flag = raise_flag slot.error ctx.error_flag;
      }

  abbrev pub place_step : ZparContext → ℕ → Place → ZparContext
  place_step ctx i waiting =
      if is_ready (ctx.slots i).status
      then record ctx { places = update ctx.places i taken }
      else (if ctx.shutdown then record ctx { places = update ctx.places i exited } else ctx)
  place_step ctx i taken = taken_step ctx i ctx.error_flag
  place_step ctx i worked = record ctx {
    slots = update ctx.slots i (record (ctx.slots i) { status = done });
    places = update ctx.places i waiting;
  }
  place_step ctx i exited = ctx

  -- The next step of worker i in worker_entry.
  unfoldable pub worker_step : ZparContext → ℕ → ZparContext
  worker_step ctx i = place_step ctx i (ctx.places i)
