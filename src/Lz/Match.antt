-- ===== src/Lz/Match.antt =====
-- What lz_find_match returns is a match, whatever the hash table and the chains hold.
use libvuptsdk.Common.{
  ℕ, zero, suc, ◌+◌, ◌-◌, ◌%◌, ◌≤◌, ◌<◌, ◌≡◌, sym, if-elim, and_right, or_left, or_right, ◌⊎◌, inl,
  inr, refl, arith, min, List, Bool, ◌&&◌, ◌||◌, Option, some, none, ltb, leb, ◌==◌, ==_iff,
  Bool-cases, le-cases, length, get_or, ltb→lt, leb→le, leb-false, ltb-false,
}
use libvuptsdk.Lz.{
  Tables, Best, Choice, match_loop, improve, find_loop, lz_find_match, choose_match, quick_check,
  max_offset, min_match, window_size, lz_hash4, lz_insert_hash,
}

pub record IsMatch (src : List ℕ) (ip : ℕ) (m : Best) : Type 0 where
  pub long : min_match ≤ m.len
  pub short : m.len ≤ 65535
  pub within : ip + m.len ≤ length src
  pub near : m.off ≤ max_offset
  pub back : 1 ≤ m.off
  pub inside : m.off ≤ ip
  pub agrees : (k : ℕ) → k < m.len → get_or src (ip - m.off + k) 0 ≡ get_or src (ip + k) 0

pub record Run (src : List ℕ) (r ip from end stop : ℕ) : Type 0 where
  pub low : from ≤ stop
  pub high : stop ≤ end
  pub equal : (k : ℕ) → from ≤ k → k < stop → get_or src (r + k) 0 ≡ get_or src (ip + k) 0

match_loop-Run :
    (src : List ℕ) (r ip mlen left end : ℕ)
    → mlen + left ≡ end
    → Run src r ip mlen end (match_loop src r ip mlen left)
unfolding match_loop
match_loop-Run src r ip mlen zero end e = record {
  low = omega arith;
  high = omega arith;
  equal = λ k p q. absurd (omega arith);
}
match_loop-Run src r ip mlen (suc left) end e =
    let rec = match_loop-Run src r ip (mlen + 1) left end (omega arith) in
    elim (Bool-cases (get_or src (r + mlen) 0 == get_or src (ip + mlen) 0)) [
      | inl same ↦
          let here : get_or src (r + mlen) 0 ≡ get_or src (ip + mlen) 0 =
            (==_iff (get_or src (r + mlen) 0) (get_or src (ip + mlen) 0)).0 same in
          rw same (record {
            low = omega (arith, rec.low);
            high = rec.high;
            equal = λ k p q. elim (le-cases mlen k p) [
              | inl now ↦ rw (sym now) here
              | inr more ↦ rec.equal k (omega arith) q
            ];
          })
      | inr other ↦
          rw other (record {
            low = omega arith;
            high = omega arith;
            equal = λ k p q. absurd (omega arith);
          })
    ]

abbrev pub Sound : List ℕ → ℕ → Best → Type 0
Sound src ip m = (m.len ≡ 2) ⊎ IsMatch src ip m

Sound-len : (src : List ℕ) (ip : ℕ) (m : Best) → Sound src ip m → 2 ≤ m.len
Sound-len src ip m (inl e) = omega arith
Sound-len src ip m (inr h) = omega (arith, h.long)

improve-Sound :
    (src : List ℕ) (r ip : ℕ) (best : Best)
    → ip + 4 ≤ length src
    → r < ip
    → ip - r ≤ max_offset
    → Sound src ip best
    → Sound src ip (improve src r ip best)
unfolding improve
improve-Sound src r ip best room low near h =
    let run =
      match_loop-Run src r ip 0 (min (length src - ip) 65535) (min (length src - ip) 65535)
        (omega arith) in
    if-elim (Sound src ip)
      (quick_check src r ip best.len
        && ltb best.len (match_loop src r ip 0 (min (length src - ip) 65535)))
      (λ better.
        let grown : best.len < match_loop src r ip 0 (min (length src - ip) 65535) =
          ltb→lt best.len (match_loop src r ip 0 (min (length src - ip) 65535))
            (and_right (quick_check src r ip best.len) _ better) in
        let back : ip - (ip - r) ≡ r = omega arith in
        inr (record {
          long = omega (arith, Sound-len src ip best h);
          short = omega (arith, run.high);
          within = omega (arith, run.high);
          near = near;
          back = omega arith;
          inside = omega arith;
          agrees = λ k p. rw back (run.equal k (omega arith) p);
        }))
      (λ worse. h)

find_loop-Sound :
    (src : List ℕ) (t : Tables) (ip left : ℕ) (r : Option ℕ) (best : Best)
    → ip + 4 ≤ length src
    → Sound src ip best
    → Sound src ip (find_loop src t ip left r best)
unfolding find_loop
find_loop-Sound src t ip zero r best room h = h
find_loop-Sound src t ip (suc left) none best room h = h
find_loop-Sound src t ip (suc left) (some r) best room h =
    if-elim (Sound src ip) (leb ip r || ltb max_offset (ip - r)) (λ stop. h)
      (λ go.
        let low : r < ip = leb-false ip r (or_left (leb ip r) _ go) in
        let near : ip - r ≤ max_offset = ltb-false max_offset (ip - r) (or_right (leb ip r) _ go) in
        let better = improve-Sound src r ip best room low near h in
        if-elim (Sound src ip)
          (ltb best.len (improve src r ip best).len && leb 256 (improve src r ip best).len)
          (λ enough. better)
          (λ more.
            find_loop-Sound src t ip left (t.chain (r % window_size)) (improve src r ip best) room
              better))

abbrev pub Found : List ℕ → ℕ → Best → Type 0
Found src ip m = (m.len ≡ 0) ⊎ IsMatch src ip m

Found-long :
    (src : List ℕ) (ip : ℕ) (m : Best) → min_match ≤ m.len → Sound src ip m → Found src ip m
Found-long src ip m long (inl e) = absurd (omega arith)
Found-long src ip m long (inr h) = inr h

-- Whatever the hash table and the chains hold, the length that lz_find_match returns is 0, or it is
-- the length of a match at the returned offset: 3 to 65535 equal bytes within the source, at a
-- distance of 1 to 65535 bytes back.
pub find_match-IsMatch :
    (src : List ℕ) (t : Tables) (ip max_chain : ℕ) → Found src ip (lz_find_match src t ip max_chain)
unfolding lz_find_match
find_match-IsMatch src t ip max_chain =
    if-elim (Found src ip) (leb (ip + 4) (length src))
      (λ room.
        let best =
          find_loop src t ip max_chain (t.hash (lz_hash4 src ip))
            (record { len = min_match - 1; off = 0 }) in
        if-elim (Found src ip) (leb min_match best.len) {x = best}
          (λ long. Found-long src ip best (leb→le min_match best.len long) (
            find_loop-Sound src t ip max_chain (t.hash (lz_hash4 src ip))
              (record { len = min_match - 1; off = 0 }) (leb→le (ip + 4) (length src) room)
              (inl refl)))
          (λ short. inl refl))
      (λ none_left. inl refl)

pub record IsChoice (src : List ℕ) (ip : ℕ) (c : Choice) : Type 0 where
  pub here : ip ≤ c.at
  pub found : Found src c.at c.best

pub choose_match-IsChoice :
    (src : List ℕ) (max_chain : ℕ) (lazy : Bool) (t : Tables) (ip : ℕ)
    → IsChoice src ip (choose_match src max_chain lazy t ip)
unfolding choose_match
choose_match-IsChoice src max_chain lazy t ip =
    let first = find_match-IsMatch src t ip max_chain in
    let next = find_match-IsMatch src (lz_insert_hash src t ip) (ip + 1) max_chain in
    let same : ip ≤ ip = omega arith in
    let later : ip ≤ ip + 1 = omega arith in
    if-elim (IsChoice src ip) ((lz_find_match src t ip max_chain).len == 0)
      (λ none_here. record { here = same; found = first })
      (λ some_here.
        if-elim (IsChoice src ip) (lazy && leb (ip + 1 + min_match) (length src))
          (λ look.
            if-elim (IsChoice src ip)
              (ltb ((lz_find_match src t ip max_chain).len + 1)
                (lz_find_match src (lz_insert_hash src t ip) (ip + 1) max_chain).len)
              (λ better. record { here = later; found = next })
              (λ worse. record { here = same; found = first }))
          (λ no_look. record { here = same; found = first }))
