-- ===== src/Checksum/Receiver.antt =====
-- What a receiver checks (RFC 1071): the 16-bit words of a packet, an odd last byte being the high
-- half of one, add up to zero in ones' complement.
use mathlib.Core.Path.{subst}
use opennop.Prelude.{
  ℕ, zero, suc, ◌+◌, ◌-◌, ◌*◌, ◌/◌, ◌%◌, ◌^◌, ◌≤◌, ◌<◌, ◌≡◌, refl, ap, ◌∙◌, inl, inr, Bool, true,
  false, none, some, Option, List, [], ◌∷◌, arith, ◌==◌, Bool-cases, take, drop,
}
use opennop.Bytes.{be16, byte, word, slice, tot_len, tcp_start}
use opennop.Bytes.Frame.{byte-take}
use opennop.Checksum.{
  add_words, fold_carries, fold_fuel, complement, tcp_sum_calc, ip_sum_calc, tcplen, tcp_sum,
  ip_sum,
}

-- Each byte with its weight: the first one is a high byte or not.
abbrev pub weighted : Bool → List ℕ → ℕ
weighted high [] = 0
weighted true (x ∷ xs) = x * 256 + weighted false xs
weighted false (x ∷ xs) = x + weighted true xs

-- Zero in ones' complement, of words that are not all zero.
abbrev pub AddsUp : ℕ → Type 0
AddsUp sum = (0 < sum) × (sum % 65535 ≡ 0)

-- The segment with its pseudo header, and the IP header.
pub record IsVerified (q : List ℕ) : Type 0 where
  pub tcp :
      let len = tot_len q - tcp_start q in
      AddsUp (
        word q 12
        + word q 14
        + word q 16
        + word q 18
        + 6
        + len
        + weighted true (take len (drop (tcp_start q) q)))
  pub ip : AddsUp (weighted true (take (tcp_start q) q))

add_words-weighted : (sum : ℕ) (xs : List ℕ) → add_words sum xs ≡ sum + weighted true xs
unfolding add_words
add_words-weighted sum [] = omega arith
add_words-weighted sum (hi ∷ []) = omega arith
add_words-weighted sum (hi ∷ lo ∷ xs) = omega (arith, add_words-weighted (sum + be16 hi lo) xs)

fold_carries_sound :
    (fuel sum r : ℕ)
    → fold_carries fuel sum ≡ some r
    → (r < 2 ^ 16) × (r ≤ sum) × (r % 65535 ≡ sum % 65535)
unfolding fold_carries
fold_carries_sound zero sum r e = cc
fold_carries_sound (suc fuel) sum r e = elim (Bool-cases (sum / 2 ^ 16 == 0)) [
  | inl done ↦
      let same : sum ≡ r = ground (arith, e) in
      (ground arith, omega arith, ap (λ k. k % 65535) (ground arith))
  | inr more ↦
      let rest = fold_carries_sound fuel (sum % 2 ^ 16 + sum / 2 ^ 16) r (ground (arith, e)) in
      (rest.0, omega (arith, rest.1), omega (arith, rest.2))
]

complement-ones :
    (o : Option ℕ) → complement o ≡ some 0 → (r : ℕ) × (o ≡ some r) × (2 ^ 16 - 1 - r % 2 ^ 16 ≡ 0)
complement-ones none e = cc
complement-ones (some r) e = (r, refl, cc)

complement_sound : (sum : ℕ) → complement (fold_carries fold_fuel sum) ≡ some 0 → AddsUp sum
complement_sound sum e =
    let (r, run, ones) = complement-ones _ e in
    let (small, le, same) = fold_carries_sound fold_fuel sum r run in (omega arith, omega arith)

byte-drop : (n : ℕ) (xs : List ℕ) (i : ℕ) → byte (drop n xs) i ≡ byte xs (n + i)
byte-drop zero xs i = let e : 0 + i ≡ i = omega arith in rw e refl
byte-drop (suc n) [] i = refl
byte-drop (suc n) (x ∷ xs) i =
    let e : suc n + i ≡ suc (n + i) = omega arith in rw e (byte-drop n xs i)

word-slice :
    (k : ℕ) (q : List ℕ)
    → (word (slice k 4 q) 0 ≡ word q k) × (word (slice k 4 q) 2 ≡ word q (k + 2))
unfolding word
word-slice k q = (
  ground
      (arith, byte-take 4 (drop k q) 0, byte-take 4 (drop k q) 1, byte-drop k q 0, byte-drop k q 1),
  ground
      (arith, byte-take 4 (drop k q) 2, byte-take 4 (drop k q) 3, byte-drop k q 2, byte-drop k q 3),
)

pub tcp_sum_sound :
    (q : List ℕ)
    → tcp_start q ≤ tot_len q
    → tot_len q < 2 ^ 16
    → tcp_sum q ≡ some 0
    → let len = tot_len q - tcp_start q in
      AddsUp (
        word q 12
        + word q 14
        + word q 16
        + word q 18
        + 6
        + len
        + weighted true (take len (drop (tcp_start q) q)))
unfolding tcp_sum tcp_sum_calc
tcp_sum_sound q inside small e =
    let len : tcplen q ≡ tot_len q - tcp_start q = omega arith in
    let (w12, w14) = word-slice 12 q in
    let (w16, w18) = word-slice 16 q in
    subst AddsUp (add_words-weighted _ _ ∙ rw (len, w12, w14, w16, w18) (omega arith))
      (complement_sound _ e)

pub ip_sum_sound : (q : List ℕ) → ip_sum q ≡ some 0 → AddsUp (weighted true (take (tcp_start q) q))
unfolding ip_sum ip_sum_calc tcp_start
ip_sum_sound q e =
    let whole : tcp_start q / 2 * 2 ≡ tcp_start q = omega arith in
    subst AddsUp (add_words-weighted _ _ ∙ rw whole (omega arith)) (complement_sound _ e)
