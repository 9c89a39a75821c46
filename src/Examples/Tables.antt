-- ===== src/Examples/Tables.antt =====
-- The deduplication index, src/zupt_dedup.c.
use libvuptsdk.Common.{◌≡◌, refl, [], ◌∷◌, replicate, some, none, if◌then◌else◌}
use libvuptsdk.Dedup.{
  dedup_init, lookup_secure, lookup_loop, insert_secure, free_loop, fill, dedup_digest_size,
}
use libvuptsdk.Compare.{mem_equal}
use libvuptsdk.Dedup.Invariant.{IsProbed, init-IsProbed, insert-IsProbed}
use libvuptsdk.Dedup.Dictionary.{
  Request, insert_all, accepted, first_answer, lookup-insert, lookup-insert_all, or_else,
  insert_request, request_answer,
}

-- Two blocks with the same fingerprint, and with different digests.
abbrev first : Request
first = record {
  fingerprint = 77;
  digest = replicate dedup_digest_size 1;
  place = record { offset = 100; size = 4096; aad_seq = 1 };
}

abbrev second : Request
second = record {
  fingerprint = 77;
  digest = replicate dedup_digest_size 2;
  place = record { offset = 200; size = 4096; aad_seq = 2 };
}

finds_second :
    lookup_secure (insert_all dedup_init (first ∷ second ∷ [])) 77 second.digest ≡ some second.place
unfolding lookup_secure lookup_loop insert_all insert_secure free_loop fill dedup_init mem_equal
finds_second = refl

lookup-insert_all_example :
    lookup_secure (insert_all dedup_init (first ∷ second ∷ [])) 77 second.digest
    ≡ first_answer (accepted dedup_init (first ∷ second ∷ [])) 77 second.digest
lookup-insert_all_example = lookup-insert_all (first ∷ second ∷ []) 77 second.digest

lookup-insert_example :
    lookup_secure (insert_request dedup_init first).0 77 first.digest
    ≡ or_else
        (lookup_secure dedup_init 77 first.digest)
        (if (insert_request dedup_init first).1 then request_answer first 77 first.digest else none)
lookup-insert_example = lookup-insert dedup_init first 77 first.digest init-IsProbed

insert-IsProbed_example :
    IsProbed (insert_secure dedup_init first.fingerprint first.digest first.place).0
insert-IsProbed_example =
    insert-IsProbed dedup_init first.fingerprint first.digest first.place init-IsProbed
