-- ===== src/Bytes.antt =====
-- The bytes of a packet in network order, and the fields of its IP and TCP headers
-- (netinet/ip.h and netinet/tcp.h) that the daemon reads and writes.
pub mod Frame
use opennop.Prelude.{
  ℕ, zero, suc, ◌+◌, ◌-◌, ◌*◌, ◌/◌, ◌%◌, ◌^◌, ◌≤◌, ◌<◌, ◌≡◌, refl, ap, ◌≢◌, Bool, true, false, List,
  [], ◌∷◌, ◌++◌, arith, ◌==◌, get_or, set, take, drop, length,
}

-- ntohs of the 16-bit word in two bytes.
abbrev pub be16 : ℕ → ℕ → ℕ
be16 hi lo = hi * 2 ^ 8 + lo

abbrev pub byte : List ℕ → ℕ → ℕ
byte p i = get_or p i 0

unfoldable pub word : List ℕ → ℕ → ℕ
word p i = be16 (byte p i) (byte p (i + 1))

-- A 16-bit field is written.
unfoldable pub put16 : List ℕ → ℕ → ℕ → List ℕ
put16 p i v = set (set p i (v / 2 ^ 8 % 2 ^ 8)) (i + 1) (v % 2 ^ 8)

unfoldable pub word32 : List ℕ → ℕ → ℕ
unfolding word
word32 p i = word p i * 2 ^ 16 + word p (i + 2)

abbrev pub slice : ℕ → ℕ → List ℕ → List ℕ
slice i n p = take n (drop i p)

-- The IP header.
unfoldable pub ihl : List ℕ → ℕ
ihl p = byte p 0 % 2 ^ 4

unfoldable pub tot_len : List ℕ → ℕ
unfolding word
tot_len p = word p 2

unfoldable pub protocol : List ℕ → ℕ
protocol p = byte p 9

abbrev pub ipproto_tcp : ℕ
ipproto_tcp = 6

-- Where the TCP header begins, and its data offset in words.
unfoldable pub tcp_start : List ℕ → ℕ
unfolding ihl
tcp_start p = ihl p * 4

unfoldable pub doff : List ℕ → ℕ
unfolding tcp_start
doff p = byte p (tcp_start p + 12) / 2 ^ 4

-- Writing into a list, seen from its parts.
module _ {ℓ} {A : Type ℓ} where
  pub get_or-set_self :
      (xs : List A) (i : ℕ) (v d : A) → i < length xs → get_or (set xs i v) i d ≡ v
  get_or-set_self [] i v d h = absurd (omega arith)
  get_or-set_self (x ∷ xs) zero v d h = refl
  get_or-set_self (x ∷ xs) (suc i) v d h = get_or-set_self xs i v d (omega arith)

  pub get_or-set_ne :
      (xs : List A) (i j : ℕ) (v d : A) → j ≢ i → get_or (set xs i v) j d ≡ get_or xs j d
  get_or-set_ne [] i j v d h = refl
  get_or-set_ne (x ∷ xs) zero zero v d h = absurd (h refl)
  get_or-set_ne (x ∷ xs) zero (suc j) v d h = refl
  get_or-set_ne (x ∷ xs) (suc i) zero v d h = refl
  get_or-set_ne (x ∷ xs) (suc i) (suc j) v d h = get_or-set_ne xs i j v d (λ e. h (ap suc e))

  pub take-set : (n : ℕ) (xs : List A) (i : ℕ) (v : A) → take n (set xs i v) ≡ set (take n xs) i v
  take-set zero xs i v = refl
  take-set (suc n) [] i v = refl
  take-set (suc n) (x ∷ xs) zero v = refl
  take-set (suc n) (x ∷ xs) (suc i) v = ap (◌∷◌ x) (take-set n xs i v)

  pub drop-set :
      (n : ℕ) (xs : List A) (i j : ℕ) (v : A)
      → j ≡ n + i
      → drop n (set xs j v) ≡ set (drop n xs) i v
  drop-set zero xs i j v e = let e' : j ≡ i = omega arith in rw e'
  drop-set (suc n) [] i j v e = refl
  drop-set (suc n) (x ∷ xs) i zero v e = absurd (omega arith)
  drop-set (suc n) (x ∷ xs) i (suc j) v e = drop-set n xs i j v (omega arith)

  pub drop-set_before :
      (n : ℕ) (xs : List A) (j : ℕ) (v : A) → j < n → drop n (set xs j v) ≡ drop n xs
  drop-set_before zero xs j v h = absurd (omega arith)
  drop-set_before (suc n) [] j v h = refl
  drop-set_before (suc n) (x ∷ xs) zero v h = refl
  drop-set_before (suc n) (x ∷ xs) (suc j) v h = drop-set_before n xs j v (omega arith)

  pub take-set_after :
      (n : ℕ) (xs : List A) (j : ℕ) (v : A) → n ≤ j → take n (set xs j v) ≡ take n xs
  take-set_after zero xs j v h = refl
  take-set_after (suc n) [] j v h = refl
  take-set_after (suc n) (x ∷ xs) zero v h = absurd (omega arith)
  take-set_after (suc n) (x ∷ xs) (suc j) v h = ap (◌∷◌ x) (take-set_after n xs j v (omega arith))
