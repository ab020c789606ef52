-- ===== src/TcpOptions/Grow.antt =====
-- Making room for options: the packet's data moves back, the gap is zero.
use opennop.Prelude.{
  ℕ, zero, suc, ◌+◌, ◌-◌, ◌*◌, ◌/◌, ◌%◌, ◌^◌, ◌≤◌, ◌<◌, ◌≡◌, refl, ap, ◌≢◌, ◌∙◌, List, [], ◌∷◌,
  ◌++◌, arith, take, drop, replicate, length, length-take, length-append, length-set,
}
use opennop.Prelude.Run.{ok}
use opennop.Bytes.{
  byte, put16, slice, tot_len, tcp_start, doff, get_or-set_self, get_or-set_ne, drop-set_before,
}
use opennop.Bytes.Frame.{byte-put16, word-put16, drop-put16_before}
use opennop.Queue.{success}
use opennop.TcpOptions.{memmove, memset, set_doff, grown, add_tcpopt_addoff}

module _ {A : Type 0} where
  pub drop-prefix : (n : ℕ) (xs ys : List A) → n ≤ length xs → drop n (take n xs ++ ys) ≡ ys
  drop-prefix zero xs ys h = refl
  drop-prefix (suc n) [] ys h = absurd (omega arith)
  drop-prefix (suc n) (x ∷ xs) ys h = drop-prefix n xs ys (omega arith)

  take-prefix :
      (m n : ℕ) (xs ys : List A) → m ≤ n → n ≤ length xs → take m (take n xs ++ ys) ≡ take m xs
  take-prefix zero n xs ys h k = refl
  take-prefix (suc m) zero xs ys h k = absurd (omega arith)
  take-prefix (suc m) (suc n) [] ys h k = absurd (omega arith)
  take-prefix (suc m) (suc n) (x ∷ xs) ys h k =
      ap (◌∷◌ x) (take-prefix m n xs ys (omega arith) (omega arith))

pub byte-prefix :
    (n : ℕ) (xs ys : List ℕ) (i : ℕ) → i < n → n ≤ length xs → byte (take n xs ++ ys) i ≡ byte xs i
byte-prefix zero xs ys i h k = absurd (omega arith)
byte-prefix (suc n) [] ys i h k = absurd (omega arith)
byte-prefix (suc n) (x ∷ xs) ys zero h k = refl
byte-prefix (suc n) (x ∷ xs) ys (suc i) h k = byte-prefix n xs ys i (omega arith) (omega arith)

-- The data is moved back by `k` bytes and the gap is cleared.
abbrev opened : ℕ → ℕ → ℕ → List ℕ → List ℕ
opened at k n p = memset at 0 k (memmove (at + k) at n p)

opened_lem :
    (at k n : ℕ) (p : List ℕ)
    → at + k + n ≤ length p
    → opened at k n p ≡ take at p ++ (replicate k 0 ++ (slice at n p ++ drop (at + k + n) p))
unfolding memset memmove
opened_lem at k n p h = rw (
  take-prefix at (at + k) p (slice at n p ++ drop (at + k + n) p) (omega arith) (omega arith),
  drop-prefix (at + k) p (slice at n p ++ drop (at + k + n) p) (omega arith),
)

-- What is written into the two headers, over the opened packet.
module _ (q : List ℕ) (d v at : ℕ) (header : 0 < tcp_start q) (inside : tcp_start q + 12 < at)
    (fits : at ≤ length q) (low : 20 ≤ tcp_start q) where
  abbrev fields : List ℕ
  fields = put16 (set_doff d q) 2 v

  fields-drop : drop at fields ≡ drop at q
  unfolding set_doff
  fields-drop =
      drop-put16_before at _ 2 v (omega arith)
      ∙ drop-set_before at q (tcp_start q + 12) _ (omega arith)

  fields-byte : (i : ℕ) → i ≢ 2 → i ≢ 3 → i ≢ tcp_start q + 12 → byte fields i ≡ byte q i
  unfolding set_doff
  fields-byte i n2 n3 nd = byte-put16 _ 2 v i n2 n3 ∙ get_or-set_ne q (tcp_start q + 12) i _ 0 nd

  fields-tcp_start : tcp_start fields ≡ tcp_start q
  unfolding tcp_start
  fields-tcp_start =
      ap (λ b. b % 2 ^ 4 * 4) (fields-byte 0 (omega arith) (omega arith) (omega arith))

  fields-doff : d ≤ 15 → doff fields ≡ d
  unfolding doff set_doff tcp_start
  fields-doff small =
      let start = fields-tcp_start in
      let there : byte fields (tcp_start q + 12) ≡ d * 2 ^ 4 + byte q (tcp_start q + 12) % 2 ^ 4 =
        byte-put16 _ 2 v (tcp_start q + 12) (omega arith) (omega arith)
        ∙ get_or-set_self q (tcp_start q + 12) _ 0 (omega arith) in
      ap (λ k. byte fields (k + 12) / 2 ^ 4) start ∙ rw there (omega arith)

  fields-tot_len : v < 2 ^ 16 → tot_len fields ≡ v
  unfolding tot_len set_doff
  fields-tot_len small =
      word-put16 (set_doff d q) 2 v
        (omega
          (arith, length-set q (tcp_start q + 12) (d * 2 ^ 4 + byte q (tcp_start q + 12) % 2 ^ 4)))
        small

-- The headers lie within the packet, and the packet within the buffer after it has grown.
pub record CanGrow (addoff : ℕ) (p : List ℕ) : Type 0 where
  pub some_words : 0 < addoff
  pub room : doff p + addoff ≤ 15
  pub ip_header : 20 ≤ tcp_start p
  pub tcp_header : 5 ≤ doff p
  pub within : tcp_start p + doff p * 4 ≤ tot_len p
  pub buffer : tot_len p + addoff * 4 ≤ length p
  pub short : tot_len p + addoff * 4 < 2 ^ 16

-- The packet `q` is `p` with `addoff` words of zero bytes between its headers and its data.
pub record Grown (addoff : ℕ) (p q : List ℕ) : Type 0 where
  pub start : tcp_start q ≡ tcp_start p
  pub offset : doff q ≡ doff p + addoff
  pub total : tot_len q ≡ tot_len p + addoff * 4
  pub behind :
      let at = tcp_start p + doff p * 4 in
      drop at q
      ≡ replicate (addoff * 4) 0 ++ (slice at (tot_len p - at) p ++ drop (tot_len p + addoff * 4) p)
  pub headers :
      (i : ℕ)
      → i < tcp_start p + doff p * 4
      → i ≢ 2
      → i ≢ 3
      → i ≢ tcp_start p + 12
      → byte q i ≡ byte p i

module _ (addoff : ℕ) (p : List ℕ) (c : CanGrow addoff p) where
  abbrev data_at : ℕ
  data_at = tcp_start p + doff p * 4

  abbrev opening : List ℕ
  opening = opened data_at (addoff * 4) (tot_len p - data_at) p

  abbrev tail : List ℕ
  tail =
      replicate (addoff * 4) 0
      ++ (slice data_at (tot_len p - data_at) p
          ++ drop (data_at + addoff * 4 + (tot_len p - data_at)) p)

  opening_lem : opening ≡ take data_at p ++ tail
  opening_lem =
      let within = c.within in
      let buffer = c.buffer in opened_lem data_at (addoff * 4) (tot_len p - data_at) p (omega arith)

  in_buffer : data_at ≤ length p
  in_buffer = let within = c.within in let buffer = c.buffer in omega arith

  opening-byte : (i : ℕ) → i < data_at → byte opening i ≡ byte p i
  opening-byte i h = ap (λ q. byte q i) opening_lem ∙ byte-prefix data_at p tail i h in_buffer

  opening-drop : drop data_at opening ≡ tail
  opening-drop = ap (drop data_at) opening_lem ∙ drop-prefix data_at p tail in_buffer

  opening-length : data_at ≤ length opening
  opening-length =
      let inside = in_buffer in
      omega
        (arith, ap length opening_lem, length-append (take data_at p) tail, length-take data_at p)

  opening-start : tcp_start opening ≡ tcp_start p
  unfolding tcp_start
  opening-start = let low = c.ip_header in ap (λ b. b % 2 ^ 4 * 4) (opening-byte 0 (omega arith))

  abbrev total : ℕ
  total = (tot_len p + addoff * 4) % 2 ^ 16

  total_lem : total ≡ tot_len p + addoff * 4
  total_lem = let short = c.short in omega arith

  tail-end : data_at + addoff * 4 + (tot_len p - data_at) ≡ tot_len p + addoff * 4
  tail-end = let within = c.within in omega arith

  grown-Grown : Grown addoff p (grown addoff p)
  unfolding grown
  grown-Grown =
      let low = c.ip_header in
      let five = c.tcp_header in
      let room = c.room in
      let short = c.short in
      let start = opening-start in
      let fit = opening-length in
      let l1 : 0 < tcp_start opening = omega arith in
      let l2 : tcp_start opening + 12 < data_at = omega arith in
      let l3 : 20 ≤ tcp_start opening = omega arith in
      let d = doff p + addoff in
      record {
        start = fields-tcp_start opening d total data_at l1 l2 fit l3 ∙ start;
        offset = fields-doff opening d total data_at l1 l2 fit l3 room;
        total = fields-tot_len opening d total data_at l1 l2 fit l3 (omega arith) ∙ total_lem;
        behind =
            fields-drop opening d total data_at l1 l2 fit l3
            ∙ opening-drop
            ∙ ap
                (λ k.
                  replicate (addoff * 4) 0 ++ (slice data_at (tot_len p - data_at) p ++ drop k p))
                tail-end;
        headers = λ i h n2 n3 nd.
            fields-byte opening d total data_at l1 l2 fit l3 i n2 n3
              (λ e. nd (e ∙ ap (λ k. k + 12) start))
            ∙ opening-byte i h;
      }

-- For at least one word, when the headers lie within the packet, and the grown packet within the buffer, 65535 bytes and a
-- data offset of 15, `add_tcpopt_addoff` succeeds: the options are followed by `4 * addoff` zero
-- bytes and then the data, data offset and total length say so, no other header byte changes.
pub add_tcpopt_addoff-Grown :
    (addoff : ℕ) (p : List ℕ)
    → CanGrow addoff p
    → (q : List ℕ) × (add_tcpopt_addoff addoff p ≡ ok success q) × Grown addoff p q
unfolding add_tcpopt_addoff
add_tcpopt_addoff-Grown addoff p c =
    let h1 = c.some_words in
    let h2 = c.room in
    let h3 = c.within in let h4 = c.buffer in (grown addoff p, ground arith, grown-Grown addoff p c)
