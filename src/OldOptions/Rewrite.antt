-- ===== src/OldOptions/Rewrite.antt =====
-- opennopd/tcpoptions.c: the value of an option that a packet has is changed and read back.
use opennop.Prelude.{
  ℕ, zero, suc, ◌+◌, ◌-◌, ◌*◌, ◌/◌, ◌%◌, ◌^◌, ◌≤◌, ◌<◌, ◌≡◌, ◌≢◌, refl, sym, ap, ◌∙◌, true, false,
  some, List, arith, ltb, ◌==◌, length,
}
use opennop.Prelude.Run.{ok}
use opennop.Bytes.{byte, tcp_start, doff}
use opennop.Queue.{success}
use opennop.TcpOptions.{opt_start, opt_space, opt_at, optlen}
use opennop.OldOptions.{
  read_option, get_loop, match_loop, get_tcp_option, set_tcp_option, rewrite_or_insert,
}
use opennop.OldOptions.Read.{
  written, write_loop-written, written-byte, written-byte_after, length-written, read_loop-written,
}

-- From index `i` the first option of the kind is at `j`.
pub data First (p : List ℕ) (num : ℕ) : ℕ → ℕ → Type 0 where
  here : {i : ℕ} → i < opt_space p → opt_at p i ≡ num → First p num i i
  step :
      {i j : ℕ}
      → i < opt_space p
      → opt_at p i ≢ num
      → First p num (i + optlen p i) j
      → First p num i j

-- It has the length, and lies within the header and the buffer.
pub record HasOption (p : List ℕ) (num len j : ℕ) : Type 0 where
  pub first : First p num 0 j
  pub space : opt_space p ≤ 40
  pub options : 5 < doff p
  pub length_byte : opt_at p (j + 1) ≡ len
  pub within : len + j ≤ doff p * 4
  pub buffer : opt_start p + j + len ≤ length p

optlen-pos : (p : List ℕ) (i : ℕ) → 0 < optlen p i
unfolding optlen
optlen-pos p i = ground arith

First-le : (p : List ℕ) (num i j : ℕ) → First p num i j → (i ≤ j) × (j < opt_space p)
First-le p num i _ (here inside e) = (omega arith, inside)
First-le p num i j (step inside other rest) =
    let (below, end) = First-le p num (i + optlen p i) j rest in (omega arith, end)

-- Two packets have the same options up to and with the length byte of the one at `j`.
pub record SameUpTo (j : ℕ) (p q : List ℕ) : Type 0 where
  pub start : opt_start q ≡ opt_start p
  pub space : opt_space q ≡ opt_space p
  pub offset : doff q ≡ doff p
  pub same : (i : ℕ) → i ≤ j + 1 → opt_at q i ≡ opt_at p i

optlen-SameUpTo : (j : ℕ) (p q : List ℕ) (i : ℕ) → SameUpTo j p q → i ≤ j → optlen q i ≡ optlen p i
unfolding optlen
optlen-SameUpTo j p q i s h = rw (s.same i (omega arith), s.same (i + 1) (omega arith)) refl

pub First-SameUpTo :
    (p q : List ℕ) (num i j : ℕ) → SameUpTo j p q → First p num i j → First q num i j
First-SameUpTo p q num i j s (here inside e) =
    let space = s.space in here (omega arith) (s.same i (omega arith) ∙ e)
First-SameUpTo p q num i j s (step inside other rest) =
    let below = (First-le p num (i + optlen p i) j rest).0 in
    let space = s.space in
    step (omega arith) (λ e. other (sym (s.same i (omega arith)) ∙ e))
      (rw (optlen-SameUpTo j p q i s (omega arith)) (First-SameUpTo p q num _ j s rest))

match_loop-First :
    (p : List ℕ) (num len i j fuel : ℕ)
    → First p num i j
    → opt_space p ≤ 40
    → opt_at p (j + 1) ≡ len
    → len + j ≤ doff p * 4
    → opt_space p < fuel + i
    → match_loop fuel num len i p ≡ ok (some j) p
unfolding match_loop
match_loop-First p num len i j zero f small l fit enough =
    let (below, end) = First-le p num i j f in absurd (omega arith)
match_loop-First p num len i _ (suc fuel) (here inside e) small l fit enough = ground arith
match_loop-First p num len i j (suc fuel) (step inside other rest) small l fit enough =
    let (below, end) = First-le p num (i + optlen p i) j rest in
    let grows = optlen-pos p i in
    let wrap : (i + optlen p i) % 2 ^ 8 ≡ i + optlen p i = omega arith in
    let more = match_loop-First p num len (i + optlen p i) j fuel rest small l fit (omega arith) in
    rw wrap (ground (arith, more))

get_loop-First :
    (p : List ℕ) (num i j fuel : ℕ)
    → First p num i j
    → opt_space p ≤ 40
    → opt_at p (j + 1) + j ≤ doff p * 4
    → opt_space p < fuel + i
    → get_loop fuel num i p ≡ read_option j p
unfolding get_loop
get_loop-First p num i j zero f small fit enough =
    let (below, end) = First-le p num i j f in absurd (omega arith)
get_loop-First p num i _ (suc fuel) (here inside e) small fit enough = ground arith
get_loop-First p num i j (suc fuel) (step inside other rest) small fit enough =
    let (below, end) = First-le p num (i + optlen p i) j rest in
    let grows = optlen-pos p i in
    let wrap : (i + optlen p i) % 2 ^ 8 ≡ i + optlen p i = omega arith in
    let more = get_loop-First p num (i + optlen p i) j fuel rest small fit (omega arith) in
    rw wrap (ground (arith, more))

-- The bytes before the data of the option are those of the packet.
module _ (p q : List ℕ) (j : ℕ)
    (same : (i : ℕ) → i < opt_start p + j + 2 → byte q i ≡ byte p i) where
  start_lem : tcp_start q ≡ tcp_start p
  unfolding tcp_start
  start_lem = ap (λ b. b % 2 ^ 4 * 4) (same 0 (omega arith))

  opt_start_lem : opt_start q ≡ opt_start p
  unfolding opt_start
  opt_start_lem = ap (λ t. t + 20) start_lem

  doff_lem : doff q ≡ doff p
  unfolding doff opt_start
  doff_lem =
      ap (λ t. byte q (t + 12) / 2 ^ 4) start_lem
      ∙ ap (λ b. b / 2 ^ 4) (same (tcp_start p + 12) (unfold opt_start in omega arith))

  prefix-SameUpTo : SameUpTo j p q
  unfolding opt_space
  prefix-SameUpTo = record {
    start = opt_start_lem;
    space = ap (λ d. (d * 4 + 2 ^ 64 - 20) % 2 ^ 64) doff_lem;
    offset = doff_lem;
    same = λ i h. ap (λ t. byte q (t + i)) opt_start_lem ∙ same (opt_start p + i) (omega arith);
  }

module _ (p : List ℕ) (num len j v : ℕ) (o : HasOption p num len j) (low : 2 < len)
    (high : len ≤ 5) where
  abbrev pub at : ℕ
  at = opt_start p + j + 2

  abbrev pub rewritten : List ℕ
  rewritten = written (len - 2) at v p

  pub set_lem : set_tcp_option num len v p ≡ ok success rewritten
  unfolding set_tcp_option rewrite_or_insert
  set_lem =
      let many = o.options in
      let small = o.space in
      let test : ltb 5 (doff p) ≡ true = ground arith in
      let count : (len + 2 ^ 32 - 2) % 2 ^ 8 ≡ len - 2 = omega arith in
      rw
        (
          test,
          match_loop-First p num len 0 j 256 o.first small o.length_byte o.within (omega arith),
          count,
          write_loop-written (len - 2) at v p (omega arith),
        )
        refl

  pub rewritten-SameUpTo : SameUpTo j p rewritten
  rewritten-SameUpTo =
      prefix-SameUpTo p rewritten j (λ i below. written-byte (len - 2) at v p i below)

  read_lem : read_option j rewritten ≡ ok (v % 2 ^ (8 * (len - 2))) rewritten
  unfolding read_option
  read_lem =
      let s = rewritten-SameUpTo in
      let l : opt_at rewritten (j + 1) ≡ len = s.same (j + 1) (omega arith) ∙ o.length_byte in
      let start = s.start in
      let buffer = o.buffer in
      let other : (len == 2) ≡ false = ground arith in
      let count : (len + 2 ^ 8 - 2) % 2 ^ 8 ≡ len - 2 = omega arith in
      rw (l, other, count, start)
        (read_loop-written (len - 2) at v p (omega arith) (omega arith) (omega arith))

  get_lem : get_tcp_option num rewritten ≡ ok (v % 2 ^ (8 * (len - 2))) rewritten
  unfolding get_tcp_option
  get_lem =
      let s = rewritten-SameUpTo in
      let l : opt_at rewritten (j + 1) ≡ len = s.same (j + 1) (omega arith) ∙ o.length_byte in
      let small = o.space in
      let space = s.space in
      let offset = s.offset in
      let within = o.within in
      get_loop-First rewritten num 0 j 256 (First-SameUpTo p rewritten num 0 j s o.first)
        (omega arith) (omega arith) (omega arith)
      ∙ read_lem

-- When the first option of the kind has the length, with one to three bytes of data, and it and the
-- headers lie within the packet,
-- `__set_tcp_option` succeeds and changes only these bytes; `__get_tcp_option` then returns the new
-- number, cut to their size.
pub get_tcp_option-set_tcp_option :
    (p : List ℕ) (num len j v : ℕ)
    → HasOption p num len j
    → 2 < len
    → len ≤ 5
    → (q : List ℕ) × (set_tcp_option num len v p ≡ ok success q)
      × (get_tcp_option num q ≡ ok (v % 2 ^ (8 * (len - 2))) q)
      × (length q ≡ length p)
      × ((i : ℕ) → i < opt_start p + j + 2 → byte q i ≡ byte p i)
      × ((i : ℕ) → opt_start p + j + len ≤ i → byte q i ≡ byte p i)
get_tcp_option-set_tcp_option p num len j v o h k = (
  written (len - 2) (opt_start p + j + 2) v p,
  set_lem p num len j v o h k,
  get_lem p num len j v o h k,
  length-written (len - 2) _ v p,
  λ i below. written-byte (len - 2) _ v p i below,
  λ i above. written-byte_after (len - 2) _ v p i (omega arith),
)
