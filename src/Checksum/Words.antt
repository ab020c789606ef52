-- ===== src/Checksum/Words.antt =====
-- The sum of the words of a buffer, and of one whose field has been written.
use opennop.Prelude.{
  ℕ, zero, suc, ◌+◌, ◌*◌, ◌/◌, ◌%◌, ◌^◌, ◌≤◌, ◌<◌, ◌≡◌, List, [], ◌∷◌, arith, set, length, take,
  drop,
}
use opennop.Bytes.{be16, byte, word, put16}
use opennop.Checksum.{add_words}

pub add_words-acc : (sum : ℕ) (xs : List ℕ) → add_words sum xs ≡ sum + add_words 0 xs
unfolding add_words
add_words-acc sum [] = omega arith
add_words-acc sum (hi ∷ []) = omega arith
add_words-acc sum (hi ∷ lo ∷ xs) =
    omega (arith, add_words-acc (sum + be16 hi lo) xs, add_words-acc (0 + be16 hi lo) xs)

-- A field at an even place counts with its value.
pub add_words-put16 :
    (k sum v : ℕ) (xs : List ℕ)
    → k * 2 + 1 < length xs
    → v < 2 ^ 16
    → add_words sum (put16 xs (k * 2) v) + word xs (k * 2) ≡ add_words sum xs + v
unfolding add_words put16 word
add_words-put16 k sum v [] h small = absurd (omega arith)
add_words-put16 k sum v (hi ∷ []) h small = absurd (omega arith)
add_words-put16 zero sum v (hi ∷ lo ∷ xs) h small = omega (
  arith,
  add_words-acc (sum + be16 hi lo) xs,
  add_words-acc (sum + be16 (v / 2 ^ 8 % 2 ^ 8) (v % 2 ^ 8)) xs,
)
add_words-put16 (suc k) sum v (hi ∷ lo ∷ xs) h small =
    let e : suc k * 2 ≡ suc (suc (k * 2)) = omega arith in
    let e' : suc (suc (k * 2)) + 1 ≡ suc (suc (k * 2 + 1)) = omega arith in
    rw (e, e') (add_words-put16 k (sum + be16 hi lo) v xs (omega arith) small)

-- The sum of bytes is bounded by their number.
abbrev pub AllBytes : List ℕ → Type 0
AllBytes [] = Unit
AllBytes (x ∷ xs) = (x < 2 ^ 8) × AllBytes xs

pub add_words-bound : (xs : List ℕ) → AllBytes xs → 2 * add_words 0 xs ≤ (length xs + 1) * 65535
unfolding add_words
add_words-bound [] h = omega arith
add_words-bound (hi ∷ []) h = omega arith
add_words-bound (hi ∷ lo ∷ xs) h =
    omega (arith, add_words-acc (0 + be16 hi lo) xs, add_words-bound xs h.1.1)

pub add_words-pos : (xs : List ℕ) → 0 < byte xs 0 → 0 < add_words 0 xs
unfolding add_words
add_words-pos [] h = h
add_words-pos (hi ∷ []) h = omega arith
add_words-pos (hi ∷ lo ∷ xs) h = omega (arith, add_words-acc (0 + be16 hi lo) xs)

pub AllBytes-set : (xs : List ℕ) (i v : ℕ) → AllBytes xs → v < 2 ^ 8 → AllBytes (set xs i v)
AllBytes-set [] i v h b = tt
AllBytes-set (x ∷ xs) zero v h b = (b, h.1)
AllBytes-set (x ∷ xs) (suc i) v h b = (h.0, AllBytes-set xs i v h.1 b)

pub AllBytes-put16 : (xs : List ℕ) (i v : ℕ) → AllBytes xs → AllBytes (put16 xs i v)
unfolding put16
AllBytes-put16 xs i v h =
    AllBytes-set _ (i + 1) _ (AllBytes-set xs i _ h (omega arith)) (omega arith)

pub AllBytes-take : (n : ℕ) (xs : List ℕ) → AllBytes xs → AllBytes (take n xs)
AllBytes-take zero xs h = tt
AllBytes-take (suc n) [] h = tt
AllBytes-take (suc n) (x ∷ xs) h = (h.0, AllBytes-take n xs h.1)

pub AllBytes-drop : (n : ℕ) (xs : List ℕ) → AllBytes xs → AllBytes (drop n xs)
AllBytes-drop zero xs h = h
AllBytes-drop (suc n) [] h = tt
AllBytes-drop (suc n) (x ∷ xs) h = AllBytes-drop n xs h.1

pub byte-lt : (xs : List ℕ) (i : ℕ) → AllBytes xs → byte xs i < 2 ^ 8
byte-lt [] i h = omega arith
byte-lt (x ∷ xs) zero h = h.0
byte-lt (x ∷ xs) (suc i) h = byte-lt xs i h.1

pub word-lt : (xs : List ℕ) (i : ℕ) → AllBytes xs → word xs i < 2 ^ 16
unfolding word
word-lt xs i h = omega (arith, byte-lt xs i h, byte-lt xs (i + 1) h)
