-- ===== src/Bytes/Frame.antt =====
-- Which fields a write leaves alone.
use opennop.Prelude.{
  ℕ, zero, suc, ◌+◌, ◌-◌, ◌*◌, ◌/◌, ◌%◌, ◌^◌, ◌≤◌, ◌<◌, ◌≡◌, refl, ap, ◌∙◌, ◌≢◌, List, [], ◌∷◌,
  arith, get_or, set, length, take, drop, length-set,
}
use opennop.Bytes.{
  byte, word, put16, slice, tot_len, tcp_start, take-set, drop-set, drop-set_before, take-set_after,
  get_or-set_self, get_or-set_ne,
}

pub take-put16 : (n : ℕ) (xs : List ℕ) (i v : ℕ) → take n (put16 xs i v) ≡ put16 (take n xs) i v
unfolding put16
take-put16 n xs i v =
    take-set n _ (i + 1) _ ∙ ap (λ ys. set ys (i + 1) (v % 2 ^ 8)) (take-set n xs i _)

pub drop-put16 :
    (n : ℕ) (xs : List ℕ) (i v : ℕ) → drop n (put16 xs (n + i) v) ≡ put16 (drop n xs) i v
unfolding put16
drop-put16 n xs i v =
    drop-set n _ (i + 1) (n + i + 1) _ (omega arith)
    ∙ ap (λ ys. set ys (i + 1) (v % 2 ^ 8)) (drop-set n xs i (n + i) _ refl)

pub length-put16 : (xs : List ℕ) (i v : ℕ) → length (put16 xs i v) ≡ length xs
unfolding put16
length-put16 xs i v = length-set _ (i + 1) _ ∙ length-set xs i _

pub word-put16 :
    (xs : List ℕ) (i v : ℕ) → i + 1 < length xs → v < 2 ^ 16 → word (put16 xs i v) i ≡ v
unfolding word put16
word-put16 xs i v h small =
    let x1 = set xs i (v / 2 ^ 8 % 2 ^ 8) in
    let hi : get_or (set x1 (i + 1) (v % 2 ^ 8)) i 0 ≡ v / 2 ^ 8 % 2 ^ 8 =
      get_or-set_ne x1 (i + 1) i _ 0 (omega arith) ∙ get_or-set_self xs i _ 0 (omega arith) in
    let lo : get_or (set x1 (i + 1) (v % 2 ^ 8)) (i + 1) 0 ≡ v % 2 ^ 8 =
      get_or-set_self x1 (i + 1) _ 0 (omega (arith, length-set xs i (v / 2 ^ 8 % 2 ^ 8))) in
    rw (hi, lo) (omega arith)

pub byte-put16 : (xs : List ℕ) (i v j : ℕ) → j ≢ i → j ≢ i + 1 → byte (put16 xs i v) j ≡ byte xs j
unfolding put16
byte-put16 xs i v j ne ne' = get_or-set_ne _ (i + 1) j _ 0 ne' ∙ get_or-set_ne xs i j _ 0 ne

pub tcp_start-put16 : (xs : List ℕ) (i v : ℕ) → 0 < i → tcp_start (put16 xs i v) ≡ tcp_start xs
unfolding tcp_start
tcp_start-put16 xs i v h = ap (λ b. b % 2 ^ 4 * 4) (byte-put16 xs i v 0 (omega arith) (omega arith))

pub tot_len-put16 : (xs : List ℕ) (i v : ℕ) → 3 < i → tot_len (put16 xs i v) ≡ tot_len xs
unfolding tot_len
tot_len-put16 xs i v h = rw (
  byte-put16 xs i v 2 (omega arith) (omega arith),
  byte-put16 xs i v 3 (omega arith) (omega arith),
)

pub drop-put16_before :
    (n : ℕ) (xs : List ℕ) (i v : ℕ) → i + 1 < n → drop n (put16 xs i v) ≡ drop n xs
unfolding put16
drop-put16_before n xs i v h =
    drop-set_before n _ (i + 1) _ h ∙ drop-set_before n xs i _ (omega arith)

pub slice-put16_before :
    (k n : ℕ) (xs : List ℕ) (i v : ℕ) → i + 1 < k → slice k n (put16 xs i v) ≡ slice k n xs
slice-put16_before k n xs i v h = ap (take n) (drop-put16_before k xs i v h)

pub slice-put16 :
    (k n : ℕ) (xs : List ℕ) (i v : ℕ) → k + n ≤ i → slice k n (put16 xs i v) ≡ slice k n xs
unfolding put16
slice-put16 k n xs i v h =
    let x1 = set xs i (v / 2 ^ 8 % 2 ^ 8) in
    ap (take n) (drop-set k x1 (i + 1 - k) (i + 1) _ (omega arith))
    ∙ take-set_after n _ (i + 1 - k) _ (omega arith)
    ∙ ap (take n) (drop-set k xs (i - k) i _ (omega arith))
    ∙ take-set_after n _ (i - k) _ (omega arith)

pub byte-take : (n : ℕ) (xs : List ℕ) (i : ℕ) → i < n → byte (take n xs) i ≡ byte xs i
byte-take zero xs i h = absurd (omega arith)
byte-take (suc n) [] i h = refl
byte-take (suc n) (x ∷ xs) zero h = refl
byte-take (suc n) (x ∷ xs) (suc i) h = byte-take n xs i (omega arith)

pub tcp_start-pos : (xs : List ℕ) → 0 < tcp_start xs → 0 < byte xs 0
unfolding tcp_start
tcp_start-pos xs h = omega arith

pub tcp_start-le : (xs : List ℕ) → tcp_start xs ≤ 60
unfolding tcp_start
tcp_start-le xs = omega arith
