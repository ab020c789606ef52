-- ===== src/Checksum/Payload.antt =====
-- The TCP checksum of a packet that `checksum` has filled in.
use opennop.Prelude.{
  ℕ, ◌+◌, ◌-◌, ◌^◌, ◌≤◌, ◌<◌, ◌≡◌, refl, sym, ap, ◌∙◌, some, List, arith, length, take, drop,
  length-take, length-drop,
}
use opennop.Bytes.{word, put16, slice, tot_len, ipproto_tcp, tcp_start}
use opennop.Bytes.Frame.{
  take-put16, drop-put16, drop-put16_before, length-put16, word-put16, slice-put16,
  slice-put16_before, tcp_start-put16, tot_len-put16,
}
use opennop.Checksum.{
  add_words, fold_carries, fold_fuel, complement, tcp_sum_calc, tcplen, tcp_sum, fill_tcp,
}
use opennop.Checksum.Words.{AllBytes, AllBytes-put16, AllBytes-take, AllBytes-drop, word-lt}
use opennop.Checksum.Header.{fill_lem}

-- The sum that the TCP checksum of `p` starts from.
abbrev pseudo_header : List ℕ → ℕ
pseudo_header p =
    word (slice 12 4 p) 0
    + word (slice 12 4 p) 2
    + word (slice 16 4 p) 0
    + word (slice 16 4 p) 2
    + tcplen p
    + ipproto_tcp

-- Writing the TCP check field leaves the pseudo header alone.
module _ (p : List ℕ) (i v : ℕ) (h : 20 ≤ i) where
  tcplen-put16 : tcplen (put16 p i v) ≡ tcplen p
  tcplen-put16 = rw (tot_len-put16 p i v (omega arith), tcp_start-put16 p i v (omega arith))

  pseudo_header-put16 : pseudo_header (put16 p i v) ≡ pseudo_header p
  pseudo_header-put16 =
      rw (tcplen-put16, slice-put16 12 4 p i v (omega arith), slice-put16 16 4 p i v (omega arith))

tcp_sum_lem :
    (p : List ℕ)
    → tcp_sum p
      ≡ complement (
          fold_carries fold_fuel
            (add_words (pseudo_header p) (take (tcplen p) (drop (tcp_start p) p))))
unfolding tcp_sum tcp_sum_calc
tcp_sum_lem p = refl

-- The segment of a packet with a field written at offset 16 of its TCP header.
segment-put16 :
    (p : List ℕ) (v : ℕ)
    → 20 ≤ tcp_start p
    → tcp_sum (put16 p (tcp_start p + 16) v)
      ≡ complement (
          fold_carries fold_fuel
            (add_words (pseudo_header p) (put16 (take (tcplen p) (drop (tcp_start p) p)) 16 v)))
segment-put16 p v h =
    let at = tcp_start p + 16 in
    tcp_sum_lem (put16 p at v)
    ∙ rw (
      pseudo_header-put16 p at v (omega arith),
      tcplen-put16 p at v (omega arith),
      tcp_start-put16 p at v (omega arith),
      drop-put16 (tcp_start p) p 16 v,
      take-put16 (tcplen p) (drop (tcp_start p) p) 16 v,
    )

fill_tcp_run :
    (p : List ℕ) (c : ℕ)
    → tcp_sum (put16 p (tcp_start p + 16) 0) ≡ some c
    → fill_tcp p ≡ some (put16 (put16 p (tcp_start p + 16) 0) (tcp_start p + 16) c)
unfolding fill_tcp
fill_tcp_run p c e = rw e

-- The same after the field was cleared first.
tcp_sum_run :
    (p : List ℕ) (c : ℕ)
    → 20 ≤ tcp_start p
    → complement (
        fold_carries fold_fuel (
          add_words
            (pseudo_header p)
            (put16 (put16 (take (tcplen p) (drop (tcp_start p) p)) 16 0) 16 c)))
      ≡ some 0
    → tcp_sum (put16 (put16 p (tcp_start p + 16) 0) (tcp_start p + 16) c) ≡ some 0
tcp_sum_run p c h valid =
    let at = tcp_start p + 16 in
    let p1 = put16 p at 0 in
    let start : tcp_start p1 ≡ tcp_start p = tcp_start-put16 p at 0 (omega arith) in
    let high : 20 ≤ tcp_start p1 = omega arith in
    let same : pseudo_header p1 ≡ pseudo_header p = pseudo_header-put16 p at 0 (omega arith) in
    let region : take (tcplen p1) (drop (tcp_start p1) p1)
        ≡ put16 (take (tcplen p) (drop (tcp_start p) p)) 16 0 =
      rw (
        start,
        tot_len-put16 p at 0 (omega arith),
        drop-put16 (tcp_start p) p 16 0,
        take-put16 (tcplen p) (drop (tcp_start p) p) 16 0,
      ) in
    ap (λ k. tcp_sum (put16 p1 (k + 16) c)) (sym start)
    ∙ segment-put16 p1 c high
    ∙ rw (same, region) valid

-- The TCP checksum of a packet whose TCP header lies within it.
pub fill_tcp_lem :
    (p : List ℕ)
    → AllBytes p
    → 20 ≤ tcp_start p
    → tcp_start p + 20 ≤ tot_len p
    → tot_len p ≤ length p
    → length p < 2 ^ 16
    → (c : ℕ) × (fill_tcp p ≡ some (put16 (put16 p (tcp_start p + 16) 0) (tcp_start p + 16) c))
      × (c < 2 ^ 16)
      × (tcp_sum (put16 (put16 p (tcp_start p + 16) 0) (tcp_start p + 16) c) ≡ some 0)
fill_tcp_lem p bytes hlen inside within fits =
    let off = tcp_start p in
    let at = off + 16 in
    let p0 = put16 p at 0 in
    let n = tcplen p in
    let n_val : n ≡ tot_len p - off = omega arith in
    let region = put16 (take n (drop off p)) 16 0 in
    let len : length region ≡ n = omega (
      arith,
      length-put16 (take n (drop off p)) 16 0,
      length-take n (drop off p),
      length-drop off p,
    ) in
    let clear : word region 16 ≡ 0 =
      word-put16 (take n (drop off p)) 16 0 (omega (arith, length-put16 (take n (drop off p)) 16 0))
        (omega arith) in
    let src = AllBytes-take 4 _ (AllBytes-drop 12 p bytes) in
    let dst = AllBytes-take 4 _ (AllBytes-drop 16 p bytes) in
    let (c, run, small, valid) =
      fill_lem 8 (pseudo_header p) region (omega arith) clear (omega arith)
        (omega (
          arith,
          word-lt (slice 12 4 p) 0 src,
          word-lt (slice 12 4 p) 2 src,
          word-lt (slice 16 4 p) 0 dst,
          word-lt (slice 16 4 p) 2 dst,
        ))
        (omega arith) (AllBytes-put16 _ 16 0 (AllBytes-take n _ (AllBytes-drop off p bytes))) in
    (c, fill_tcp_run p c (segment-put16 p 0 hlen ∙ run), small, tcp_sum_run p c hlen valid)

-- Writing the IP check field leaves the TCP checksum alone.
pub tcp_sum-put16 : (p : List ℕ) (v : ℕ) → 20 ≤ tcp_start p → tcp_sum (put16 p 10 v) ≡ tcp_sum p
tcp_sum-put16 p v h =
    let start = tcp_start-put16 p 10 v (omega arith) in
    let total = tot_len-put16 p 10 v (omega arith) in
    rw (
      tcp_sum_lem (put16 p 10 v),
      tcp_sum_lem p,
      slice-put16_before 12 4 p 10 v (omega arith),
      slice-put16_before 16 4 p 10 v (omega arith),
      total,
      start,
      drop-put16_before (tcp_start p) p 10 v (omega arith),
    )
