-- ===== src/Checksum/Verify.antt =====
-- What a receiver computes over a packet whose checksums have just been filled in.
use opennop.Prelude.{ℕ, ◌+◌, ◌^◌, ◌≤◌, ◌<◌, ◌≡◌, ◌∙◌, some, List, arith, length}
use opennop.Bytes.{put16, tot_len, protocol, ipproto_tcp, tcp_start}
use opennop.Bytes.Frame.{length-put16, tot_len-put16, tcp_start-put16}
use opennop.Checksum.{tcp_sum, ip_sum, fill_tcp, fill_ip, checksum}
use opennop.Checksum.Receiver.{IsVerified, tcp_sum_sound, ip_sum_sound}
use opennop.Checksum.Words.{AllBytes, AllBytes-put16}
use opennop.Checksum.Header.{fill_ip_lem}
use opennop.Checksum.Payload.{fill_tcp_lem, tcp_sum-put16}

checksum_run :
    (p q : List ℕ) → protocol p ≡ ipproto_tcp → fill_tcp p ≡ some q → checksum p ≡ fill_ip q
unfolding checksum
checksum_run p q tcp e = rw (tcp, e)

-- What filling the IP check field in does to a packet whose TCP checksum is right.
fill_ip_after :
    (q : List ℕ)
    → AllBytes q
    → 20 ≤ tcp_start q
    → tcp_start q ≤ length q
    → length q < 2 ^ 16
    → tcp_sum q ≡ some 0
    → (r : List ℕ) × (fill_ip q ≡ some r)
      × (length r ≡ length q)
      × (tot_len r ≡ tot_len q)
      × (tcp_start r ≡ tcp_start q)
      × (tcp_sum r ≡ some 0)
      × (ip_sum r ≡ some 0)
fill_ip_after q bytes header inside fits good =
    let (d, run, d_small, valid) = fill_ip_lem q bytes header inside fits in
    let q0 = put16 q 10 0 in
    let start : 20 ≤ tcp_start q0 = omega (arith, tcp_start-put16 q 10 0 (omega arith)) in
    (
      put16 q0 10 d,
      run,
      length-put16 q0 10 d ∙ length-put16 q 10 0,
      tot_len-put16 q0 10 d (omega arith) ∙ tot_len-put16 q 10 0 (omega arith),
      tcp_start-put16 q0 10 d (omega arith) ∙ tcp_start-put16 q 10 0 (omega arith),
      tcp_sum-put16 q0 d start ∙ tcp_sum-put16 q 0 header ∙ good,
      valid,
    )

-- The lengths that the IP and TCP headers of a packet give lie within it.
pub record IsSegment (p : List ℕ) : Type 0 where
  pub is_tcp : protocol p ≡ ipproto_tcp
  pub bytes : AllBytes p
  pub header : 20 ≤ tcp_start p
  pub inside : tcp_start p + 20 ≤ tot_len p
  pub within : tot_len p ≤ length p
  pub fits : length p < 2 ^ 16

filled_lem :
    (p : List ℕ) (c : ℕ)
    → IsSegment p
    → fill_tcp p ≡ some (put16 (put16 p (tcp_start p + 16) 0) (tcp_start p + 16) c)
    → tcp_sum (put16 (put16 p (tcp_start p + 16) 0) (tcp_start p + 16) c) ≡ some 0
    → (q : List ℕ) × (checksum p ≡ some q)
      × (length q ≡ length p)
      × (tot_len q ≡ tot_len p)
      × (tcp_start q ≡ tcp_start p)
      × IsVerified q
filled_lem p c s filled good =
    let at = tcp_start p + 16 in
    let p0 = put16 p at 0 in
    let q = put16 p0 at c in
    let start : tcp_start q ≡ tcp_start p =
      tcp_start-put16 p0 at c (omega arith) ∙ tcp_start-put16 p at 0 (omega arith) in
    let len : length q ≡ length p = length-put16 p0 at c ∙ length-put16 p at 0 in
    let in_header = s.header in
    let in_segment = s.inside in
    let in_packet = s.within in
    let in_word = s.fits in
    let total : tot_len q ≡ tot_len p =
      tot_len-put16 p0 at c (omega arith) ∙ tot_len-put16 p at 0 (omega arith) in
    let (r, run, len', total', start', tcp, ip) =
      fill_ip_after q (AllBytes-put16 p0 at c (AllBytes-put16 p at 0 (s.bytes))) (omega arith)
        (omega arith) (omega arith) good in
    (
      r,
      checksum_run p q (s.is_tcp) filled ∙ run,
      len' ∙ len,
      total' ∙ total,
      start' ∙ start,
      record { tcp = tcp_sum_sound r (omega arith) (omega arith) tcp; ip = ip_sum_sound r ip },
    )

-- For a TCP packet of bytes whose headers and length lie within it, `checksum` returns a packet of
-- the same length and with the same length fields. In ones' complement, the 16-bit words of its IP
-- header add up to zero, and so do those of its segment and pseudo header, an odd last byte being the
-- high half of a word.
pub checksum-valid :
    (p : List ℕ)
    → IsSegment p
    → (q : List ℕ) × (checksum p ≡ some q)
      × (length q ≡ length p)
      × (tot_len q ≡ tot_len p)
      × (tcp_start q ≡ tcp_start p)
      × IsVerified q
checksum-valid p s =
    let (c, filled, c_small, good) =
      fill_tcp_lem p (s.bytes) (s.header) (s.inside) (s.within) (s.fits) in
    filled_lem p c s filled good
