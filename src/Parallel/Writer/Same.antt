-- ===== src/Parallel/Writer/Same.antt =====
-- The two ways to write the blocks of a file in zupt_compress_files of src/zupt_format.c.
use libvuptsdk.Common.{ℕ, ◌+◌, ◌*◌, ◌%◌, ◌^◌, ◌<◌, List, Bool, false, Option, some, ◌>>=◌}
use libvuptsdk.Archive.Trailer.{Digests}
use libvuptsdk.Archive.Cipher.{Cipher}
use libvuptsdk.Archive.Block.{Block}
use libvuptsdk.Parallel.Slots.{Slot}
use libvuptsdk.Parallel.Worker.{Compressors, Decompressors}
use libvuptsdk.Parallel.Pipeline.{Answer}
use libvuptsdk.Parallel.Writer.{
  ZuptOptions, Reading, Writing, submitted_slot, worked_slot, any_failed, is_pending, fill_batch,
  collect, answer_of, ◌>>>=◌,
}
use libvuptsdk.Parallel.Writer.Frames.{IsRoomy}
use libvuptsdk.Parallel.Writer.Rounds.{loop}

module _ (d : Digests) (cipher : Cipher) (comp : Compressors) (xxh64 : List ℕ → ℕ → ℕ)
    (opts : ZuptOptions) (fi : ℕ) (dec : Decompressors) (before : ℕ → Slot) (sees : ℕ → Bool)
    (roomy : IsRoomy comp) (positive : 0 < opts.block_size) where
  abbrev rounds : ℕ → Reading → Writing → Option (Reading × Writing)
  rounds = loop d cipher comp xxh64 opts fi

  abbrev gather : Bool → List Slot → Writing → Option Writing
  gather = collect d cipher comp xxh64 opts fi dec before sees

  abbrev fill : ℕ → ℕ → List ℕ → Reading → Answer (List Slot × Reading)
  fill = fill_batch d cipher comp xxh64 opts fi dec before sees

  abbrev failing : List Slot → Bool
  failing = any_failed d cipher comp xxh64 opts fi dec before sees

  abbrev work : Slot → Slot
  work = worked_slot d cipher comp xxh64 opts fi dec before sees

  abbrev gathered : Answer (List Slot × Reading) → Writing → Answer (Reading × Writing)
  gathered filled w = filled >>>= λ (f : List Slot × Reading).
      answer_of (gather false f.0 w >>= λ (w' : Writing). some (f.1, w'))

  abbrev sent_slot : List ℕ → ℕ → Slot
  sent_slot = submitted_slot d cipher comp xxh64 opts fi dec before sees

  abbrev pending_at : ℕ → List ℕ → Bool
  pending_at = is_pending d cipher comp xxh64 opts fi dec before sees

  abbrev first_number : ℕ
  first_number = (fi + 1) % 2 ^ 32 * 2 ^ 32
