-- ===== src/Lz/Rounds.antt =====
-- The three kinds of round of zupt_lz_compress, as equations.
use libvuptsdk.Common.{
  ℕ, suc, ◌+◌, ◌-◌, ◌≡◌, refl, List, ◌++◌, Bool, true, false, some, ◌>>=◌, leb, ◌==◌, length, take,
  drop,
}
use libvuptsdk.Lz.{
  Tables, put_sequence, put_last, min_match, compress_loop, choose_match, after_match,
}

module _ (src : List ℕ) (dst_cap chain : ℕ) (lazy : Bool) (fuel : ℕ) (t : Tables)
    (ip anchor op : ℕ) where
  pub loop_end :
      leb (ip + min_match) (length src) ≡ false
      → compress_loop src dst_cap chain lazy (suc fuel) t ip anchor op
        ≡ put_last dst_cap op (drop anchor src)
  unfolding compress_loop
  loop_end end = rw (end, compress_loop) refl

  pub loop_skip :
      leb (ip + min_match) (length src) ≡ true
      → (choose_match src chain lazy t ip).best.len == 0 ≡ true
      → compress_loop src dst_cap chain lazy (suc fuel) t ip anchor op
        ≡ compress_loop src dst_cap chain lazy fuel
            (choose_match src chain lazy t ip).tables
            (ip + 1)
            anchor
            op
  unfolding compress_loop
  loop_skip on skip = rw (on, skip, compress_loop) refl

  pub loop_emit :
      leb (ip + min_match) (length src) ≡ true
      → (choose_match src chain lazy t ip).best.len == 0 ≡ false
      → (let c = choose_match src chain lazy t ip in
          let next = c.at + c.best.len in
          compress_loop src dst_cap chain lazy (suc fuel) t ip anchor op ≡ (
            put_sequence dst_cap op (take (c.at - anchor) (drop anchor src)) c.best >>= λ head.
            compress_loop src dst_cap chain lazy fuel
              (after_match src lazy c)
              next
              next
              (op + length head)
            >>= λ rest. some (head ++ rest)))
  unfolding compress_loop
  loop_emit on found = rw (on, found, compress_loop) refl
