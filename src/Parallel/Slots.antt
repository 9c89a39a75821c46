-- ===== src/Parallel/Slots.antt =====
-- The slot of src/zupt_parallel.h. A buffer with its length is a list; the error none is ZUPT_OK.
use libvuptsdk.Common.{ℕ, List, Option, none, some}
use libvuptsdk.Archive.Error.{ZuptError, Result, ok, err}

pub data Status : Type 0 where
  empty ready done : Status

pub record Slot : Type 0 where
  pub input : List ℕ
  pub block_seq : ℕ
  pub level : ℕ
  pub codec_id : ℕ
  pub block_flags : ℕ
  pub stored_checksum : ℕ
  pub uncomp_size : ℕ
  pub output : List ℕ
  pub actual_codec : ℕ
  pub out_bflags : ℕ
  pub checksum : ℕ
  pub error : Option ZuptError
  pub status : Status

-- What the main thread makes of a finished slot.
abbrev pub outcome_of : Option ZuptError → List ℕ → Result (List ℕ)
outcome_of none output = ok output
outcome_of (some e) output = err e

abbrev pub outcome : Slot → Result (List ℕ)
outcome slot = outcome_of slot.error slot.output
