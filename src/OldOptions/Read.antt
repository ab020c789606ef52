-- ===== src/OldOptions/Read.antt =====
-- opennopd/tcpoptions.c: the data of an option as a number, written and read back.
use opennop.Prelude.{
  ℕ, zero, suc, ◌+◌, ◌*◌, ◌/◌, ◌%◌, ◌^◌, ◌≤◌, ◌<◌, ◌≡◌, refl, ap, ◌∙◌, List, arith, set, length,
  length-set,
}
use opennop.Prelude.Run.{ok}
use opennop.Bytes.{byte, get_or-set_self, get_or-set_ne}
use opennop.OldOptions.{shifted, read_loop, write_loop}

-- The bytes from an offset as a number, the first one the most significant.
abbrev pub value : ℕ → ℕ → ℕ → List ℕ → ℕ
value zero at acc p = acc
value (suc count) at acc p = value count (at + 1) (acc * 2 ^ 8 + byte p at) p

-- The packet after the data is written at an offset.
abbrev pub written : ℕ → ℕ → ℕ → List ℕ → List ℕ
written zero at v p = p
written (suc count) at v p = written count (at + 1) v (set p at (v / 2 ^ (8 * count) % 2 ^ 8))

pub write_loop-written :
    (count at v : ℕ) (p : List ℕ)
    → count ≤ 8
    → write_loop count at v p ≡ ok tt (written count at v p)
unfolding write_loop
write_loop-written zero at v p h = refl
write_loop-written (suc count) at v p h =
    let rest =
      write_loop-written count (at + 1) v (set p at (v / 2 ^ (8 * count) % 2 ^ 8)) (omega arith) in
    ground (arith, rest)

pub written-byte :
    (count at v : ℕ) (p : List ℕ) (i : ℕ) → i < at → byte (written count at v p) i ≡ byte p i
written-byte zero at v p i h = refl
written-byte (suc count) at v p i h =
    written-byte count (at + 1) v _ i (omega arith) ∙ get_or-set_ne p at i _ 0 (omega arith)

pub length-written : (count at v : ℕ) (p : List ℕ) → length (written count at v p) ≡ length p
length-written zero at v p = refl
length-written (suc count) at v p = length-written count (at + 1) v _ ∙ length-set p at _

-- The digit of a number in base 256.
abbrev digit : ℕ → ℕ → ℕ
digit c v = v / 2 ^ (8 * c) % 2 ^ 8

first_digit :
    (c at v : ℕ) (p : List ℕ) → at < length p → byte (written (suc c) at v p) at ≡ digit c v
first_digit c at v p h = written-byte c (at + 1) v _ at (omega arith) ∙ get_or-set_self p at _ 0 h

-- Up to three bytes read back give the number that was written, cut to their size.
pub read_loop-written :
    (n at v : ℕ) (p : List ℕ)
    → 0 < n
    → n ≤ 3
    → at + n ≤ length p
    → read_loop n at 0 (written n at v p) ≡ ok (v % 2 ^ (8 * n)) (written n at v p)
unfolding read_loop shifted
read_loop-written zero at v p h k fits = absurd (omega arith)
read_loop-written (suc zero) at v p h k fits =
    let q = written 1 at v p in
    let d0 = first_digit 0 at v p (omega arith) in ap (λ x. ok x q) (omega (arith, d0))
read_loop-written (suc (suc zero)) at v p h k fits =
    let q = written 2 at v p in
    let p1 = set p at (digit 1 v) in
    let d1 = first_digit 1 at v p (omega arith) in
    let d0 = first_digit 0 (at + 1) v p1 (omega (arith, length-set p at (digit 1 v))) in
    ap (λ x. ok x q) (omega (arith, d0, d1))
read_loop-written (suc (suc (suc zero))) at v p h k fits =
    let q = written 3 at v p in
    let p2 = set p at (digit 2 v) in
    let p1 = set p2 (at + 1) (digit 1 v) in
    let l2 = length-set p at (digit 2 v) in
    let l1 = length-set p2 (at + 1) (digit 1 v) in
    let d2 = first_digit 2 at v p (omega arith) in
    let d1 = first_digit 1 (at + 1) v p2 (omega arith) in
    let d0 = first_digit 0 (at + 1 + 1) v p1 (omega arith) in
    ap (λ x. ok x q) (omega (arith, d0, d1, d2))
read_loop-written (suc (suc (suc (suc n)))) at v p h k fits = absurd (omega arith)

pub written-byte_after :
    (count at v : ℕ) (p : List ℕ) (i : ℕ)
    → at + count ≤ i
    → byte (written count at v p) i ≡ byte p i
written-byte_after zero at v p i h = refl
written-byte_after (suc count) at v p i h =
    written-byte_after count (at + 1) v _ i (omega arith) ∙ get_or-set_ne p at i _ 0 (omega arith)
