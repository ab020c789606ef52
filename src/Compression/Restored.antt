-- ===== src/Compression/Restored.antt =====
-- opennopd/compression.c: what was compressed is restored.
use mathlib.Core.Path.{subst}
use opennop.Prelude.{
  ℕ, zero, suc, ◌+◌, ◌-◌, ◌*◌, ◌/◌, ◌%◌, ◌^◌, ◌≤◌, ◌<◌, ◌≡◌, ◌≢◌, refl, sym, ap, ◌∙◌, true, false,
  List, [], ◌∷◌, ◌++◌, arith, ltb, take, drop, set, length, length-set, length-append, length-take,
  length-drop, take-append-drop,
}
use opennop.Prelude.Run.{ok}
use opennop.Bytes.{
  word, byte, put16, slice, tot_len, tcp_start, doff, drop-set_before, get_or-set_ne,
}
use opennop.Bytes.Frame.{byte-put16}
use opennop.Queue.{success}
use opennop.Tracking.{seq}
use opennop.TcpOptions.{opt_start, opt_space}
use opennop.TcpOptions.Grow.{byte-prefix}
use opennop.OldOptions.{set_tcp_option}
use opennop.OldOptions.Rewrite.{HasOption, SameUpTo, First-SameUpTo, set_lem}
use opennop.Compression.{
  data_size, data_start, copied, put_seq, replace_data, tcp_compress, tcp_decompress,
}
use opennop.Compression.Segment.{
  IsSegment, drop-nil, copied-IsSegment, put_total-IsSegment, put_seq-IsSegment, tcp_start_kept,
  doff_kept, protocol_kept, seq_kept,
}

-- A segment whose options hold the one that says whether the data is compressed.
pub record IsMarked (p : List ℕ) (start offset total sequence : ℕ) (tail : List ℕ) (j : ℕ)
    : Type 0 where
  pub segment : IsSegment p start offset total sequence tail
  pub option : HasOption p 31 3 j
  pub inside : j + 23 ≤ offset * 4

module _ {start offset total sequence j : ℕ} {tail : List ℕ} (p : List ℕ)
    (m : IsMarked p start offset total sequence tail j) where
  -- The option stays when the bytes up to its length and the two offsets do.
  moved-IsMarked :
      (q : List ℕ) {total' sequence' : ℕ} {tail' : List ℕ}
      → IsSegment q start offset total' sequence' tail'
      → ((i : ℕ) → start + 20 ≤ i → i < start + j + 22 → byte q i ≡ byte p i)
      → IsMarked q start offset total' sequence' tail' j
  moved-IsMarked q s same =
      let o = m.option in
      let starts = m.segment.starts in
      let begins : tcp_start q ≡ tcp_start p = s.starts ∙ sym starts in
      let doffs : doff q ≡ doff p = s.offsets ∙ sym m.segment.offsets in
      let inside = m.inside in
      let within = s.within in
      let offsets = m.segment.offsets in
      let starting : opt_start q ≡ opt_start p = unfold opt_start in ap (λ t. t + 20) begins in
      let from : opt_start p ≡ start + 20 = unfold opt_start in ap (λ t. t + 20) starts in
      let upto : SameUpTo j p q = record {
        start = starting;
        space = unfold opt_space in ap (λ d. (d * 4 + 2 ^ 64 - 20) % 2 ^ 64) doffs;
        offset = doffs;
        same = λ i h.
            ap (λ t. byte q (t + i)) starting ∙ same (opt_start p + i) (omega arith) (omega arith);
      } in
      let space = upto.space in
      let small = o.space in
      let many = o.options in
      let fits = o.within in
      record {
        segment = s;
        option = record {
          first = First-SameUpTo p q 31 0 j upto o.first;
          space = omega arith;
          options = omega arith;
          length_byte = upto.same (j + 1) (omega arith) ∙ o.length_byte;
          within = omega arith;
          buffer = omega arith;
        };
        inside = inside;
      }

  copied-IsMarked :
      (n : ℕ) (bytes : List ℕ)
      → IsMarked
          (copied (start + offset * 4) n bytes p)
          start
          offset
          total
          sequence
          (take n bytes ++ drop n tail)
          j
  unfolding copied
  copied-IsMarked n bytes =
      moved-IsMarked (copied (start + offset * 4) n bytes p) (copied-IsSegment m.segment n bytes)
        (λ i low high.
          let inside = m.inside in
          byte-prefix (start + offset * 4) p _ i (omega arith) m.segment.within)

  put_total-IsMarked : (v : ℕ) → v < 2 ^ 16 → IsMarked (put16 p 2 v) start offset v sequence tail j
  put_total-IsMarked v small =
      let low = m.segment.ip_header in
      moved-IsMarked (put16 p 2 v) (put_total-IsSegment m.segment v small)
        (λ i h k. byte-put16 p 2 v i (omega arith) (omega arith))

  put_seq-IsMarked : (v : ℕ) → v < 2 ^ 32 → IsMarked (put_seq v p) start offset total v tail j
  unfolding put_seq
  put_seq-IsMarked v small =
      let starts = m.segment.starts in
      moved-IsMarked (put_seq v p) (put_seq-IsSegment m.segment v small) (λ i h k.
        byte-put16 (put16 p (tcp_start p + 4) (v / 2 ^ 16 % 2 ^ 16)) (tcp_start p + 6) (v % 2 ^ 16)
          i (omega arith) (omega arith)
        ∙ byte-put16 p (tcp_start p + 4) (v / 2 ^ 16 % 2 ^ 16) i (omega arith) (omega arith))

  mark-IsMarked :
      (v : ℕ)
      → (q : List ℕ) × (set_tcp_option 31 3 v p ≡ ok success q)
        × IsMarked q start offset total sequence tail j
  mark-IsMarked v =
      let o = m.option in
      let s = m.segment in
      let starts = s.starts in
      let low = s.ip_header in
      let inside = m.inside in
      let within = s.within in
      let at = opt_start p + j + 2 in
      let from : opt_start p ≡ start + 20 = unfold opt_start in ap (λ t. t + 20) starts in
      let w = v / 1 % 256 in
      let q = set p at w in
      let same = λ (i : ℕ) (h : i < start + j + 22). get_or-set_ne p at i w 0 (omega arith) in
      let same' =
        λ (i : ℕ) (h : i < tcp_start p + 20) (a : i ≢ 2) (b : i ≢ 3). same i (omega arith) in
      let total_q : tot_len q ≡ tot_len p =
        unfold tot_len word in rw (same 2 (omega arith), same 3 (omega arith)) refl in
      let s' : IsSegment q start offset total sequence tail = record {
        starts = tcp_start_kept p q same' (omega arith) ∙ starts;
        offsets = doff_kept p q same' (omega arith) ∙ s.offsets;
        totals = total_q ∙ s.totals;
        sequences = seq_kept p q same' (omega arith) ∙ s.sequences;
        is_tcp = protocol_kept p q same' (omega arith) ∙ s.is_tcp;
        ip_header = low;
        tcp_header = s.tcp_header;
        tails = drop-set_before (start + offset * 4) p at w (omega arith) ∙ s.tails;
        within = omega (arith, length-set p at w);
      } in
      (q, set_lem p 31 3 j v o (omega arith) (omega arith), moved-IsMarked q s' (λ i h k. same i k))

take-length : {A : Type 0} (xs : List A) → take (length xs) xs ≡ xs
take-length [] = refl
take-length (x ∷ xs) = ap (◌∷◌ x) (take-length xs)

-- What lies behind the compressed data is what lay behind as much of the old data.
drop-past :
    {A : Type 0} (k : ℕ) (xs ys : List A)
    → length xs ≤ k
    → drop k (xs ++ drop (length xs) ys) ≡ drop k ys
drop-past k [] ys h = refl
drop-past zero (x ∷ xs) ys h = absurd (omega arith)
drop-past (suc k) (x ∷ xs) [] h =
    ap (λ ys. drop k (xs ++ ys)) (sym (drop-nil (length xs)))
    ∙ drop-past k xs [] (omega arith)
    ∙ drop-nil k
drop-past (suc k) (x ∷ xs) (y ∷ ys) h = drop-past k xs ys (omega arith)

module _ {start offset total sequence j : ℕ} {tail : List ℕ} (p : List ℕ)
    (m : IsMarked p start offset total sequence tail j) (within : start + offset * 4 ≤ total)
    (short : total < 2 ^ 16) where
  data_start_lem : data_start p ≡ start + offset * 4
  unfolding data_start
  data_start_lem = let a = m.segment.starts in let b = m.segment.offsets in omega arith

  data_size_lem : data_size p ≡ total - (start + offset * 4)
  unfolding data_size
  data_size_lem =
      let a = m.segment.starts in
      let b = m.segment.offsets in let c = m.segment.totals in omega arith

  data_lem : slice (data_start p) (data_size p) p ≡ take (total - (start + offset * 4)) tail
  data_lem = rw (data_start_lem, data_size_lem, m.segment.tails) refl

-- The data of the segment.
abbrev pub size_of : ℕ → ℕ → ℕ → ℕ
size_of start offset total = total - (start + offset * 4)

module _ (qlz_compress qlz_decompress : List ℕ → List ℕ) {start offset total sequence j : ℕ}
    {tail : List ℕ} (p : List ℕ) (m : IsMarked p start offset total sequence tail j)
    (within : start + offset * 4 ≤ total) (short : total < 2 ^ 16) where
  compress_lem :
      let size = size_of start offset total in
      let z = qlz_compress (take size tail) in
      length z < size
      → (q : List ℕ) × (tcp_compress qlz_compress qlz_decompress true true p ≡ ok 1 q)
        × IsMarked q start offset
            (total - (size - length z))
            ((sequence + 8000) % 2 ^ 32)
            (z ++ drop (length z) tail)
            j
  unfolding tcp_compress replace_data
  compress_lem shorter =
      let size = size_of start offset total in
      let z = qlz_compress (take size tail) in
      let n = length z in
      let p1 = copied (start + offset * 4) n z p in
      let m1 = copied-IsMarked p m n z in
      let m2 = put_total-IsMarked p1 m1 (total - (size - n)) (omega arith) in
      let (q3, run, m3) = mark-IsMarked (put16 p1 2 (total - (size - n))) m2 1 in
      let m4 = put_seq-IsMarked q3 m3 ((sequence + 8000) % 2 ^ 32) (omega arith) in
      let some_data : ltb 0 size ≡ true = ground arith in
      let cut : n % 2 ^ 16 ≡ n = omega arith in
      let less : ltb n size ≡ true = ground arith in
      let total_lem : (total + 2 ^ 16 - (size - n)) % 2 ^ 16 ≡ total - (size - n) = omega arith in
      (
        put_seq ((sequence + 8000) % 2 ^ 32) q3,
        rw
            (
              m.segment.is_tcp,
              data_lem p m within short,
              data_size_lem p m within short,
              some_data,
              cut,
              less,
              data_start_lem p m within short,
              m.segment.totals,
              total_lem,
              run,
              m3.segment.sequences,
            )
            refl,
        subst
            (λ y.
              IsMarked (put_seq ((sequence + 8000) % 2 ^ 32) q3) start offset (total - (size - n))
                ((sequence + 8000) % 2 ^ 32) (y ++ drop n tail) j)
            (take-length z) m4,
      )

  decompress_lem :
      (d : List ℕ)
      → qlz_decompress tail ≡ d
      → start + offset * 4 < total
      → length d + (start + offset * 4) < 2 ^ 16
      → start + offset * 4 + length d ≤ length p
      → (q : List ℕ) × (tcp_decompress qlz_compress qlz_decompress true p ≡ ok 1 q)
        × IsMarked q start offset
            (start + offset * 4 + length d)
            ((sequence + 2 ^ 32 - 8000) % 2 ^ 32)
            (d ++ drop (length d) tail)
            j
  unfolding tcp_decompress
  decompress_lem d plain some room buffer =
      let size = size_of start offset total in
      let n = length d in
      let p1 = copied (start + offset * 4) n d p in
      let m1 = copied-IsMarked p m n d in
      let m2 = put_total-IsMarked p1 m1 (start + offset * 4 + n) (omega arith) in
      let (q3, run, m3) = mark-IsMarked (put16 p1 2 (start + offset * 4 + n)) m2 0 in
      let m4 = put_seq-IsMarked q3 m3 ((sequence + 2 ^ 32 - 8000) % 2 ^ 32) (omega arith) in
      let some_data : ltb 0 size ≡ true = ground arith in
      let cut : n % 2 ^ 16 ≡ n = omega arith in
      let fits : ltb (length p) (start + offset * 4 + n) ≡ false = ground arith in
      let total_lem : (total + n + 2 ^ 16 - size) % 2 ^ 16 ≡ start + offset * 4 + n = omega arith in
      (
        put_seq ((sequence + 2 ^ 32 - 8000) % 2 ^ 32) q3,
        rw
            (
              m.segment.is_tcp,
              data_size_lem p m within short,
              some_data,
              data_start_lem p m within short,
              m.segment.tails,
              plain,
              cut,
              fits,
              m.segment.totals,
              total_lem,
              run,
              m3.segment.sequences,
            )
            refl,
        subst
            (λ y.
              IsMarked (put_seq ((sequence + 2 ^ 32 - 8000) % 2 ^ 32) q3) start offset
                (start + offset * 4 + n) ((sequence + 2 ^ 32 - 8000) % 2 ^ 32) (y ++ drop n tail) j)
            (take-length d) m4,
      )

same_segment :
    {r : List ℕ} {start offset t s total sequence : ℕ} {rest tail : List ℕ}
    → IsSegment r start offset t s rest
    → t ≡ total
    → s ≡ sequence
    → rest ≡ tail
    → IsSegment r start offset total sequence tail
same_segment g a b c = record {
  starts = g.starts;
  offsets = g.offsets;
  totals = g.totals ∙ a;
  sequences = g.sequences ∙ b;
  is_tcp = g.is_tcp;
  ip_header = g.ip_header;
  tcp_header = g.tcp_header;
  tails = g.tails ∙ c;
  within = g.within;
}

module _ (qlz_compress qlz_decompress : List ℕ → List ℕ) {start offset total sequence j : ℕ}
    {tail : List ℕ} (p : List ℕ) where
  -- A segment with the option for compressed data in its header, whose data QuickLZ makes
  -- shorter, is shorter once compressed and its sequence number is 8000 higher; decompressed it is the
  -- segment it was: its headers' sizes, its length, its sequence number, its data and the bytes behind
  -- them. QuickLZ is supposed to find the data again in what it has made of it, whatever follows.
  pub tcp_decompress-tcp_compress :
      IsMarked p start offset total sequence tail j
      → start + offset * 4 ≤ total
      → total < 2 ^ 16
      → total ≤ length p
      → sequence < 2 ^ 32
      → let size = size_of start offset total in
        let data_bytes = take size tail in
        length (qlz_compress data_bytes) < size
        → ((rest : List ℕ) → qlz_decompress (qlz_compress data_bytes ++ rest) ≡ data_bytes)
        → 0 < length (qlz_compress data_bytes)
        → (q r : List ℕ) × (tcp_compress qlz_compress qlz_decompress true true p ≡ ok 1 q)
          × (tot_len q ≡ total - (size - length (qlz_compress data_bytes)))
          × (seq q ≡ (sequence + 8000) % 2 ^ 32)
          × (tcp_decompress qlz_compress qlz_decompress true q ≡ ok 1 r)
          × IsSegment r start offset total sequence tail
  tcp_decompress-tcp_compress m within short buffer small shorter restores some =
      let size = size_of start offset total in
      let data_bytes = take size tail in
      let z = qlz_compress data_bytes in
      let n = length z in
      let (q, run, mq) = compress_lem qlz_compress qlz_decompress p m within short shorter in
      let in_p = m.segment.within in
      let l0 = length-drop (start + offset * 4) p in
      let l1 = ap length m.segment.tails in
      let l2 = length-take size tail in
      let l3 = length-drop (start + offset * 4) q in
      let l4 = ap length mq.segment.tails in
      let l5 = length-append z (drop n tail) in
      let l6 = length-drop n tail in
      let in_q = mq.segment.within in
      let full : length data_bytes ≡ size = omega arith in
      let (r, back, mr) =
        decompress_lem qlz_compress qlz_decompress q mq (omega arith) (omega arith) data_bytes
          (restores (drop n tail)) (omega arith) (omega arith) (omega arith) in
      (
        q,
        r,
        run,
        mq.segment.totals,
        mq.segment.sequences,
        back,
        same_segment mr.segment (omega arith) (omega arith) (
            ap (λ k. data_bytes ++ drop k (z ++ drop n tail)) full
            ∙ ap (λ d. data_bytes ++ d) (drop-past size z tail (omega arith))
            ∙ take-append-drop size tail),
      )
