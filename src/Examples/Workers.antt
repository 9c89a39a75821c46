-- ===== src/Examples/Workers.antt =====
-- The workers of src/zupt_parallel.c on the packed bytes of the codec's tests.
use libvuptsdk.Common.{
  ℕ, ◌+◌, ◌≡◌, ◌⊎◌, refl, arith, List, [], ◌∷◌, Option, some, none, length, true, get_or, ◌==◌,
  if◌then◌else◌,
}
use libvuptsdk.Archive.Error.{ok, err, corrupt}
use libvuptsdk.Archive.Unpack.{
  Codecs, codec_vaptvupt, decompress_block, open_payload, unpack, decode, verified,
}
use libvuptsdk.Parallel.{Slot, outcome, done}
use libvuptsdk.Parallel.Worker.{
  Compressors, Decompressors, worker_compress, worker_decompress, output_slot, decode_slot,
  worker_decode,
}
use libvuptsdk.Parallel.Worker.Agree.{block_of, worker_codecs}
use libvuptsdk.Parallel.Worker.Serial.{IsStricter, Refused, worker_decompress-decompress_block}
use libvuptsdk.Parallel.Worker.Decide.{IsInverse}
use libvuptsdk.Parallel.Worker.RoundTrip.{worker_decompress-worker_compress}
use libvuptsdk.Parallel.Pipeline.{
  ZparContext, create, fresh_slot, filled_slot, given, submit_compress, put_slot, worker_step,
  wait_slot, check_error, process,
}
use libvuptsdk.Parallel.Pipeline.Steps.{own, Run, here, next}
use libvuptsdk.Parallel.Pipeline.Orderly.{create-IsOrderly}
use libvuptsdk.Parallel.Pipeline.Progress.{wait_slot-submit_compress}
use libvuptsdk.Examples.Codec.{abcd_twice}
use libvuptsdk.Examples.Frames.{toy_digests}
use libvuptsdk.Examples.Links.{toy_cipher, toy_encrypt, link_keys}

-- Codecs that keep what they get.
abbrev pub toy_compressors : Compressors
toy_compressors = record {
  lzh = λ source capacity level. source;
  vaptvupt = λ source capacity level. some source;
  vaptvupt_bound = λ size. size + 64;
  benefits = λ source. true;
}

abbrev pub toy_decompressors : Decompressors
toy_decompressors = record {
  lzh = λ packed capacity. some packed;
  vaptvupt = λ packed capacity. some packed;
}

pub toy-IsInverse : IsInverse toy_compressors toy_decompressors
toy-IsInverse = record {
  lzh = λ src room level bytes there. refl;
  vaptvupt = λ src packed room level bytes made there. cc;
}

abbrev pub toy_codecs : Codecs
toy_codecs = record {
  lzh = λ packed capacity. some packed;
  vaptvupt = λ packed capacity. some packed;
}

-- A decoder that refuses what does not begin with the letter a.
abbrev picky : List ℕ → ℕ → Option (List ℕ)
picky packed room = if get_or packed 0 0 == 0x61 then some packed else none

picky-IsStricter : IsStricter toy_codecs picky
picky-IsStricter bytes out room e = ground (arith, e)

abbrev vapt_slot : List ℕ → Slot
vapt_slot bytes = record fresh_slot {
  input = bytes;
  codec_id = codec_vaptvupt;
  stored_checksum = 2;
  uncomp_size = 2;
  block_seq = 3;
}

abbrev picky_worker : List ℕ → Slot
picky_worker bytes =
    worker_decompress toy_digests toy_cipher (worker_codecs toy_codecs picky) (vapt_slot bytes) none

-- The same block of zeros is refused by the worker and read with one thread.
disagrees :
    (outcome (picky_worker (0 ∷ 0 ∷ [])) ≡ err corrupt)
    × (decompress_block toy_digests toy_cipher toy_codecs (block_of (vapt_slot (0 ∷ 0 ∷ []))) none 3
        ≡ ok (0 ∷ 0 ∷ []))
unfolding worker_decompress decode_slot worker_decode decompress_block open_payload unpack decode
    verified
disagrees = (refl, refl)

worker_decompress-decompress_block_example :
    (outcome (picky_worker (0x61 ∷ 0 ∷ []))
      ≡ decompress_block toy_digests toy_cipher toy_codecs
          (block_of (vapt_slot (0x61 ∷ 0 ∷ [])))
          none
          3)
    ⊎ Refused toy_digests toy_cipher toy_codecs picky picky-IsStricter
        (vapt_slot (0x61 ∷ 0 ∷ []))
        none
        (outcome (picky_worker (0x61 ∷ 0 ∷ [])))
worker_decompress-decompress_block_example =
    worker_decompress-decompress_block toy_digests toy_cipher toy_codecs picky picky-IsStricter
      (vapt_slot (0x61 ∷ 0 ∷ [])) none (omega arith)

abbrev source_slot : Slot
source_slot = record fresh_slot { input = abcd_twice; codec_id = 8; level = 5; block_seq = 3 }

abbrev written_slot : Slot
written_slot = worker_compress toy_digests toy_cipher toy_compressors source_slot (some link_keys)

abbrev reader_slot : Slot
reader_slot = record fresh_slot {
  input = written_slot.output;
  codec_id = written_slot.actual_codec;
  block_flags = written_slot.out_bflags;
  stored_checksum = written_slot.checksum;
  uncomp_size = length written_slot.input;
  block_seq = written_slot.block_seq;
}

written_fine : written_slot.error ≡ none
unfolding worker_compress toy_encrypt output_slot
written_fine = refl

worker_decompress-worker_compress_example :
    outcome
      (worker_decompress toy_digests toy_cipher toy_decompressors reader_slot (some link_keys))
    ≡ ok source_slot.input
worker_decompress-worker_compress_example =
    worker_decompress-worker_compress toy_digests toy_cipher toy_compressors toy_decompressors
      source_slot reader_slot (some link_keys) toy-IsInverse (omega arith) (omega arith)
      written_fine
      (record { input = refl; codec = refl; flags = refl; digest = refl; size = refl; seq = refl })

-- A pipeline of two threads, with block 5 submitted to its slot 1.
abbrev two_threads : ZparContext
two_threads = create 2 4096 0 none

abbrev submitted_block : ZparContext
submitted_block = put_slot two_threads 1 (filled_slot (two_threads.slots 1) abcd_twice 5 1 8)

submits : submit_compress two_threads abcd_twice 5 1 8 ≡ given (1, submitted_block)
unfolding submit_compress create
submits = refl

abbrev one_step : ZparContext → ZparContext
one_step ctx = worker_step toy_digests toy_cipher toy_compressors toy_decompressors ctx 1

abbrev block_5 : Slot
block_5 = filled_slot (two_threads.slots 1) abcd_twice 5 1 8

three_steps :
    Run toy_digests toy_cipher toy_compressors toy_decompressors 1 submitted_block
      (one_step (one_step (one_step submitted_block)))
      3
three_steps = next (next (next here (own refl)) (own refl)) (own refl)

wait_slot-submit_compress_example :
    (s : Slot) × (wait_slot (one_step (one_step (one_step submitted_block))) 1 ≡ given s)
    × (check_error (one_step (one_step (one_step submitted_block))) ≡ none
        → s
          ≡ record (process toy_digests toy_cipher toy_compressors toy_decompressors
              two_threads.mode two_threads.keyring
              (filled_slot (two_threads.slots 1) abcd_twice 5 1 8)) { status = done })
wait_slot-submit_compress_example =
    wait_slot-submit_compress toy_digests toy_cipher toy_compressors toy_decompressors two_threads
      submitted_block (one_step (one_step (one_step submitted_block))) abcd_twice 5 1 8 1 3
      (create-IsOrderly 2 4096 0 none) submits three_steps (omega arith)
