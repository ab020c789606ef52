-- ===== src/Checksum/Header.antt =====
-- The IP checksum of a packet that `checksum` has filled in.
use opennop.Prelude.{
  ℕ, ◌+◌, ◌*◌, ◌/◌, ◌^◌, ◌≤◌, ◌<◌, ◌≡◌, ◌∙◌, some, List, arith, length, take, length-take,
}
use opennop.Bytes.{byte, word, put16, tcp_start}
use opennop.Bytes.Frame.{
  take-put16, length-put16, word-put16, tcp_start-put16, byte-put16, byte-take, tcp_start-pos,
}
use opennop.Checksum.{add_words, fold_carries, fold_fuel, complement, ip_sum_calc, ip_sum, fill_ip}
use opennop.Checksum.Fold.{complement_lem, complement-zero}
use opennop.Checksum.Words.{
  AllBytes, AllBytes-put16, AllBytes-take, add_words-pos, add_words-put16, add_words-bound,
  add_words-acc,
}

-- A buffer whose field at an even place is zero, with any starting sum: once the complement of its
-- sum is written there, the complement of the sum is zero.
pub fill_lem :
    (k start : ℕ) (xs : List ℕ)
    → k * 2 + 1 < length xs
    → word xs (k * 2) ≡ 0
    → 0 < start + add_words 0 xs
    → start < 2 ^ 20
    → length xs < 2 ^ 16
    → AllBytes xs
    → (c : ℕ) × (complement (fold_carries fold_fuel (add_words start xs)) ≡ some c)
      × (c < 2 ^ 16)
      × (complement (fold_carries fold_fuel (add_words start (put16 xs (k * 2) c))) ≡ some 0)
fill_lem k start xs h clear pos low fits bytes =
    let acc = add_words-acc start xs in
    let bound = add_words-bound xs bytes in
    let (c, run, small, balanced) = complement_lem (add_words start xs) (omega arith) in
    let put = add_words-put16 k start c xs h small in
    (
      c,
      run,
      small,
      complement-zero (add_words start (put16 xs (k * 2) c)) (omega arith) (omega arith)
          (omega arith),
    )

module _ (p : List ℕ) (c : ℕ) where
  fill_ip_run :
      complement (fold_carries fold_fuel (add_words 0 (take (tcp_start p / 2 * 2) (put16 p 10 0))))
        ≡ some c
      → fill_ip p ≡ some (put16 (put16 p 10 0) 10 c)
  unfolding fill_ip ip_sum ip_sum_calc
  fill_ip_run e = rw (tcp_start-put16 p 10 0 (omega arith), e)

  ip_sum_run :
      complement (
          fold_carries fold_fuel
            (add_words 0 (put16 (take (tcp_start p / 2 * 2) (put16 p 10 0)) 10 c)))
        ≡ some 0
      → ip_sum (put16 (put16 p 10 0) 10 c) ≡ some 0
  unfolding ip_sum ip_sum_calc
  ip_sum_run e =
      rw
        (
          tcp_start-put16 (put16 p 10 0) 10 c (omega arith),
          tcp_start-put16 p 10 0 (omega arith),
          take-put16 (tcp_start p / 2 * 2) (put16 p 10 0) 10 c,
        )
        e

-- The header checksum of a packet whose IP header lies within it.
pub fill_ip_lem :
    (p : List ℕ)
    → AllBytes p
    → 20 ≤ tcp_start p
    → tcp_start p ≤ length p
    → length p < 2 ^ 16
    → (c : ℕ) × (fill_ip p ≡ some (put16 (put16 p 10 0) 10 c))
      × (c < 2 ^ 16)
      × (ip_sum (put16 (put16 p 10 0) 10 c) ≡ some 0)
fill_ip_lem p bytes hlen inside fits =
    let p0 = put16 p 10 0 in
    let n = tcp_start p / 2 * 2 in
    let len0 = length-put16 p 10 0 in
    let start0 = tcp_start-put16 p 10 0 (omega arith) in
    let region = take n p0 in
    let len : length region ≡ n = omega (arith, length-take n p0) in
    let clear : word region 10 ≡ 0 =
      rw (take-put16 n p 10 0)
        (word-put16 (take n p) 10 0 (omega (arith, length-take n p)) (omega arith)) in
    let head : byte region 0 ≡ byte p 0 =
      byte-take n p0 0 (omega arith) ∙ byte-put16 p 10 0 0 (omega arith) (omega arith) in
    let pos : 0 < 0 + add_words 0 region =
      omega (arith, head, tcp_start-pos p (omega arith), add_words-pos region) in
    let (c, run, small, valid) =
      fill_lem 5 0 region (omega arith) clear pos (omega arith) (omega arith)
        (AllBytes-take n p0 (AllBytes-put16 p 10 0 bytes)) in
    (c, fill_ip_run p c run, small, ip_sum_run p c valid)
