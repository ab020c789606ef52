-- ===== src/Compression/Segment.antt =====
-- opennopd/compression.c: a packet as a TCP segment with a sequence number and data.
use opennop.Prelude.{
  ℕ, zero, suc, ◌+◌, ◌*◌, ◌/◌, ◌%◌, ◌^◌, ◌≤◌, ◌<◌, ◌≡◌, ◌≢◌, refl, sym, ap, ◌∙◌, List, [], ◌∷◌,
  ◌++◌, arith, take, drop, length, length-append, length-take,
}
use opennop.Bytes.{byte, word, word32, put16, tot_len, tcp_start, doff, protocol}
use opennop.Bytes.Frame.{byte-put16, word-put16, drop-put16_before, length-put16}
use opennop.Tracking.{seq}
use opennop.TcpOptions.Grow.{drop-prefix, byte-prefix}
use opennop.Compression.{copied, put_seq}

-- The packet is a TCP segment: the offsets of its headers, its length, its sequence number and the
-- bytes from its data on.
pub record IsSegment (p : List ℕ) (start offset total sequence : ℕ) (tail : List ℕ) : Type 0 where
  pub starts : tcp_start p ≡ start
  pub offsets : doff p ≡ offset
  pub totals : tot_len p ≡ total
  pub sequences : seq p ≡ sequence
  pub is_tcp : protocol p ≡ 6
  pub ip_header : 20 ≤ start
  pub tcp_header : 5 ≤ offset
  pub tails : drop (start + offset * 4) p ≡ tail
  pub within : start + offset * 4 ≤ length p

-- The header bytes of one packet are those of the other, but for the length.
module _ (p q : List ℕ)
    (same : (i : ℕ) → i < tcp_start p + 20 → i ≢ 2 → i ≢ 3 → byte q i ≡ byte p i)
    (low : 20 ≤ tcp_start p) where
  pub tcp_start_kept : tcp_start q ≡ tcp_start p
  unfolding tcp_start
  tcp_start_kept = ap (λ b. b % 2 ^ 4 * 4) (same 0 (omega arith) (omega arith) (omega arith))

  pub doff_kept : doff q ≡ doff p
  unfolding doff
  doff_kept =
      ap (λ t. byte q (t + 12) / 2 ^ 4) tcp_start_kept
      ∙ ap (λ b. b / 2 ^ 4) (same (tcp_start p + 12) (omega arith) (omega arith) (omega arith))

  pub protocol_kept : protocol q ≡ protocol p
  unfolding protocol
  protocol_kept = same 9 (omega arith) (omega arith) (omega arith)

  pub seq_kept : seq q ≡ seq p
  unfolding seq word32 word
  seq_kept =
      ap (λ t. word32 q (t + 4)) tcp_start_kept
      ∙ rw
          (
            same (tcp_start p + 4) (omega arith) (omega arith) (omega arith),
            same (tcp_start p + 4 + 1) (omega arith) (omega arith) (omega arith),
            same (tcp_start p + 4 + 2) (omega arith) (omega arith) (omega arith),
            same (tcp_start p + 4 + 2 + 1) (omega arith) (omega arith) (omega arith),
          )
          refl

pub drop-nil : {A : Type 0} (m : ℕ) → drop {A = A} m [] ≡ []
drop-nil zero = refl
drop-nil (suc m) = refl

pub drop-drop : {A : Type 0} (m n k : ℕ) (xs : List A) → k ≡ n + m → drop m (drop n xs) ≡ drop k xs
drop-drop m zero k xs e = let e' : k ≡ m = omega arith in rw e' refl
drop-drop m (suc n) k [] e = drop-nil m ∙ sym (drop-nil k)
drop-drop m (suc n) zero (x ∷ xs) e = absurd (omega arith)
drop-drop m (suc n) (suc k) (x ∷ xs) e = drop-drop m n k xs (omega arith)

module _ {p : List ℕ} {start offset total sequence : ℕ} {tail : List ℕ}
    (s : IsSegment p start offset total sequence tail) where
  -- New data in front of the rest.
  pub copied-IsSegment :
      (n : ℕ) (bytes : List ℕ)
      → IsSegment
          (copied (start + offset * 4) n bytes p)
          start
          offset
          total
          sequence
          (take n bytes ++ drop n tail)
  unfolding copied
  copied-IsSegment n bytes =
      let at = start + offset * 4 in
      let rest = take n bytes ++ drop (at + n) p in
      let q = take at p ++ rest in
      let starts = s.starts in
      let low = s.ip_header in
      let high = s.tcp_header in
      let same = λ (i : ℕ) (h : i < at). byte-prefix at p rest i h s.within in
      let same' =
        λ (i : ℕ) (h : i < tcp_start p + 20) (a : i ≢ 2) (b : i ≢ 3). same i (omega arith) in
      record {
        starts = tcp_start_kept p q same' (omega arith) ∙ starts;
        offsets = doff_kept p q same' (omega arith) ∙ s.offsets;
        totals =
            unfold tot_len word in
            (rw (same 2 (omega arith), same 3 (omega arith)) refl) ∙ s.totals;
        sequences = seq_kept p q same' (omega arith) ∙ s.sequences;
        is_tcp = protocol_kept p q same' (omega arith) ∙ s.is_tcp;
        ip_header = low;
        tcp_header = high;
        tails =
            drop-prefix at p rest s.within
            ∙ ap (λ d. take n bytes ++ d)
                (sym (drop-drop n at (at + n) p refl) ∙ ap (drop n) s.tails);
        within =
            let inside = s.within in
            omega (arith, length-append (take at p) rest, length-take at p);
      }

  pub put_total-IsSegment :
      (v : ℕ) → v < 2 ^ 16 → IsSegment (put16 p 2 v) start offset v sequence tail
  put_total-IsSegment v small =
      let starts = s.starts in
      let low = s.ip_header in
      let inside = s.within in
      let same =
        λ (i : ℕ) (h : i < tcp_start p + 20) (a : i ≢ 2) (b : i ≢ 3). byte-put16 p 2 v i a b in
      record {
        starts = tcp_start_kept p (put16 p 2 v) same (omega arith) ∙ starts;
        offsets = doff_kept p (put16 p 2 v) same (omega arith) ∙ s.offsets;
        totals = unfold tot_len in word-put16 p 2 v (omega arith) small;
        sequences = seq_kept p (put16 p 2 v) same (omega arith) ∙ s.sequences;
        is_tcp = protocol_kept p (put16 p 2 v) same (omega arith) ∙ s.is_tcp;
        ip_header = low;
        tcp_header = s.tcp_header;
        tails = drop-put16_before (start + offset * 4) p 2 v (omega arith) ∙ s.tails;
        within = omega (arith, length-put16 p 2 v);
      }

  pub put_seq-IsSegment : (v : ℕ) → v < 2 ^ 32 → IsSegment (put_seq v p) start offset total v tail
  unfolding put_seq
  put_seq-IsSegment v small =
      let starts = s.starts in
      let low = s.ip_header in
      let high = s.tcp_header in
      let inside = s.within in
      let at = tcp_start p in
      let p1 = put16 p (at + 4) (v / 2 ^ 16 % 2 ^ 16) in
      let q = put16 p1 (at + 6) (v % 2 ^ 16) in
      let same = λ (i : ℕ) (a : i ≢ at + 4) (b : i ≢ at + 5) (c : i ≢ at + 6) (d : i ≢ at + 7).
        byte-put16 p1 (at + 6) (v % 2 ^ 16) i c (omega arith)
        ∙ byte-put16 p (at + 4) (v / 2 ^ 16 % 2 ^ 16) i a (omega arith) in
      let start_q : tcp_start q ≡ at =
        unfold tcp_start in
        ap (λ b. b % 2 ^ 4 * 4) (same 0 (omega arith) (omega arith) (omega arith) (omega arith)) in
      let l1 = length-put16 p (at + 4) (v / 2 ^ 16 % 2 ^ 16) in
      let l2 = length-put16 p1 (at + 6) (v % 2 ^ 16) in
      let offset_q : doff q ≡ doff p =
        unfold doff in
        ap (λ t. byte q (t + 12) / 2 ^ 4) start_q
        ∙ ap (λ b. b / 2 ^ 4)
            (same (at + 12) (omega arith) (omega arith) (omega arith) (omega arith)) in
      let apart : word q (at + 4) ≡ word p1 (at + 4) =
        unfold word in
        rw
          (
            byte-put16 p1 (at + 6) (v % 2 ^ 16) (at + 4) (omega arith) (omega arith),
            byte-put16 p1 (at + 6) (v % 2 ^ 16) (at + 4 + 1) (omega arith) (omega arith),
          )
          refl in
      let total_q : tot_len q ≡ tot_len p =
        unfold tot_len word in
        rw
          (
            same 2 (omega arith) (omega arith) (omega arith) (omega arith),
            same 3 (omega arith) (omega arith) (omega arith) (omega arith),
          )
          refl in
      let high_word : word q (at + 4) ≡ v / 2 ^ 16 % 2 ^ 16 =
        apart ∙ word-put16 p (at + 4) (v / 2 ^ 16 % 2 ^ 16) (omega arith) (omega arith) in
      let low_word : word q (at + 6) ≡ v % 2 ^ 16 =
        word-put16 p1 (at + 6) (v % 2 ^ 16) (omega arith) (omega arith) in
      let there : at + 4 + 2 ≡ at + 6 = omega arith in
      record {
        starts = start_q ∙ starts;
        offsets = offset_q ∙ s.offsets;
        totals = total_q ∙ s.totals;
        sequences =
            unfold seq word32 in
            (ap (λ t. word q (t + 4) * 2 ^ 16 + word q (t + 4 + 2)) start_q
              ∙ rw (there, high_word, low_word) (omega arith));
        is_tcp =
            unfold protocol in
            (same 9 (omega arith) (omega arith) (omega arith) (omega arith)
              ∙ unfold protocol in s.is_tcp);
        ip_header = low;
        tcp_header = high;
        tails =
            drop-put16_before (start + offset * 4) p1 (at + 6) (v % 2 ^ 16) (omega arith)
            ∙ drop-put16_before (start + offset * 4) p (at + 4) (v / 2 ^ 16 % 2 ^ 16) (omega arith)
            ∙ s.tails;
        within = omega arith;
      }
