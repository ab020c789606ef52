-- ===== src/TcpOptions/Walk.antt =====
-- The walk over the options of a packet.
use native.Mathlib.Decide.{ℕ_discrete}
use opennop.Prelude.{
  ℕ, zero, suc, ◌+◌, ◌%◌, ◌^◌, ◌≤◌, ◌<◌, ◌≡◌, refl, sym, ◌≢◌, ◌∙◌, inl, inr, Option, none, some,
  List, arith, ltb, Bool-cases,
}
use opennop.Prelude.Run.{ok, out_of_fuel}
use opennop.TcpOptions.{opt_start, opt_space, opt_at, optlen, find_loop, get_tcpopt}

-- From the option at one index the walk comes to the other.
pub data Walk (p : List ℕ) : ℕ → ℕ → Type 0 where
  here : {i : ℕ} → Walk p i i
  step : {i j : ℕ} → i < opt_space p → Walk p (i + optlen p i) j → Walk p i j

-- No option of the packet takes the index past a byte.
pub record IsWalkable (p : List ℕ) : Type 0 where
  pub space : opt_space p ≤ 40
  pub no_wrap : (i : ℕ) → i < opt_space p → i + optlen p i < 2 ^ 8

-- The walk from one index comes to an option of the kind at the other, and to none before.
pub data First (p : List ℕ) (num : ℕ) : ℕ → ℕ → Type 0 where
  hit : {i : ℕ} → i < opt_space p → opt_at p i ≡ num → First p num i i
  onto :
      {i j : ℕ}
      → i < opt_space p
      → opt_at p i ≢ num
      → First p num (i + optlen p i) j
      → First p num i j

-- What the search for an option from an index returns.
pub data Searched (p : List ℕ) (num i : ℕ) : Option ℕ → Type 0 where
  missing : ((j : ℕ) → Walk p i j → j < opt_space p → opt_at p j ≢ num) → Searched p num i none
  found : {j : ℕ} → First p num i j → Searched p num i (some (opt_start p + j))

optlen-pos : (p : List ℕ) (i : ℕ) → 0 < optlen p i
unfolding optlen
optlen-pos p i = ground arith

Walk-le : (p : List ℕ) (i j : ℕ) → Walk p i j → i ≤ j
Walk-le p i _ here = omega arith
Walk-le p i j (step h w) = omega (arith, Walk-le p _ _ w)

module _ (p : List ℕ) (num i : ℕ) where
  find-end : (fuel : ℕ) → opt_space p ≤ i → find_loop (suc fuel) num i p ≡ ok none p
  unfolding find_loop
  find-end fuel h = ground arith

  find-hit :
      (fuel : ℕ)
      → i < opt_space p
      → opt_at p i ≡ num
      → find_loop (suc fuel) num i p ≡ ok (some (opt_start p + i)) p
  unfolding find_loop
  find-hit fuel h e = ground arith

  find-next :
      (fuel : ℕ)
      → i < opt_space p
      → opt_at p i ≢ num
      → i + optlen p i < 2 ^ 8
      → find_loop (suc fuel) num i p ≡ find_loop fuel num (i + optlen p i) p
  unfolding find_loop
  find-next fuel h ne small =
      let wrap : (i + optlen p i) % 2 ^ 8 ≡ i + optlen p i = omega arith in rw wrap (ground arith)

Walk-none :
    (p : List ℕ) (num i : ℕ)
    → opt_at p i ≢ num
    → ((j : ℕ) → Walk p (i + optlen p i) j → j < opt_space p → opt_at p j ≢ num)
    → (j : ℕ) → Walk p i j
    → j < opt_space p
    → opt_at p j ≢ num
Walk-none p num i ne none_left _ here small = ne
Walk-none p num i ne none_left j (step _ w) small = none_left j w small

-- What the rest of the walk yields, seen from one option before.
Searched-step :
    (p : List ℕ) (num i : ℕ) (r : Option ℕ)
    → i < opt_space p
    → opt_at p i ≢ num
    → Searched p num (i + optlen p i) r
    → Searched p num i r
Searched-step p num i _ h ne (missing none_left) = missing (Walk-none p num i ne none_left)
Searched-step p num i _ h ne (found w) = found (onto h ne w)

abbrev Returns : List ℕ → ℕ → ℕ → ℕ → Type 0
Returns p num fuel i = (r : Option ℕ) × (find_loop fuel num i p ≡ ok r p) × Searched p num i r

module _ (p : List ℕ) (num : ℕ) (walkable : IsWalkable p) (fuel i : ℕ) where
  past_end : opt_space p ≤ i → Returns p num (suc fuel) i
  past_end past = (
    none,
    find-end p num i fuel past,
    missing (λ j w small. absurd (omega (arith, Walk-le p i j w))),
  )

  onward :
      i < opt_space p
      → opt_at p i ≢ num
      → Returns p num fuel (i + optlen p i)
      → Returns p num (suc fuel) i
  onward inside other (r, run, searched) = (
    r,
    find-next p num i fuel inside other (walkable.no_wrap i inside) ∙ run,
    Searched-step p num i r inside other searched,
  )

  search : Returns p num fuel (i + optlen p i) → Returns p num (suc fuel) i
  search rest = elim (Bool-cases (ltb i (opt_space p))) [
    | inr past ↦ past_end (ground arith)
    | inl below ↦
        let inside : i < opt_space p = ground arith in
        elim (ℕ_discrete (opt_at p i) num) [
          | yes same ↦
              (some (opt_start p + i), find-hit p num i fuel inside same, found (hit inside same))
          | no other ↦ onward inside other rest
        ]
  ]

-- The search ends within as many rounds as there are bytes left.
find_loop-Searched :
    (p : List ℕ) (num : ℕ)
    → IsWalkable p
    → (fuel i : ℕ) → opt_space p ≤ fuel + i
    → Returns p num (suc fuel) i
find_loop-Searched p num walkable zero i enough = past_end p num walkable 0 i (omega arith)
find_loop-Searched p num walkable (suc fuel) i enough =
    search p num walkable (suc fuel) i
      (find_loop-Searched p num walkable fuel (i + optlen p i) (omega (arith, optlen-pos p i)))

-- In a packet whose options never take the index past a byte, `get_tcpopt` returns, within 256
-- rounds, the first option of the kind on the walk, or NULL when the walk meets none.
pub get_tcpopt-Searched :
    (p : List ℕ) (num : ℕ)
    → IsWalkable p
    → (r : Option ℕ) × (get_tcpopt num p ≡ ok r p) × Searched p num 0 r
unfolding get_tcpopt
get_tcpopt-Searched p num walkable =
    let small = walkable.space in find_loop-Searched p num walkable 255 0 (omega arith)

-- Three one-byte options and one of length 253 take the index back to where the walk began.
pub record IsLoop (p : List ℕ) : Type 0 where
  pub room : 3 < opt_space p
  pub nops : (i : ℕ) → i < 3 → opt_at p i ≡ 1
  pub long : 1 < opt_at p 3
  pub len : opt_at p 4 ≡ 253

loop-round :
    (p : List ℕ) (num fuel i j : ℕ)
    → i < opt_space p
    → opt_at p i ≢ num
    → (i + optlen p i) % 2 ^ 8 ≡ j
    → find_loop fuel num j p ≡ out_of_fuel
    → find_loop (suc fuel) num i p ≡ out_of_fuel
unfolding find_loop
loop-round p num fuel i j h ne e rest = rw e (ground arith)

optlen-nop : (p : List ℕ) (i : ℕ) → opt_at p i ≡ 1 → optlen p i ≡ 1
unfolding optlen
optlen-nop p i e = ground arith

optlen-long :
    (p : List ℕ) (i : ℕ) → 1 < opt_at p i → 0 < opt_at p (i + 1) → optlen p i ≡ opt_at p (i + 1)
unfolding optlen
optlen-long p i h h' = ground arith

-- In a packet whose options begin with three one-byte options and one that gives its length as 253,
-- the search for any kind that is not among them ends in no number of rounds.
pub find_loop-endless :
    (p : List ℕ) (num : ℕ)
    → IsLoop p
    → num ≢ 1
    → num ≢ opt_at p 3
    → (fuel i : ℕ) → i ≤ 3
    → find_loop fuel num i p ≡ out_of_fuel
unfolding find_loop
find_loop-endless p num loop ne ne' zero i h = refl
find_loop-endless p num loop ne ne' (suc fuel) i h =
    let room = loop.room in
    elim (ℕ_discrete i 3) [
      | yes e ↦
          let back = find_loop-endless p num loop ne ne' fuel 0 (omega arith) in
          let len = loop.len in
          let skip = optlen-long p 3 (loop.long) (omega arith) in
          rw e (loop-round p num fuel 3 0 room (λ eq. ne' (sym eq)) (omega arith) back)
      | no other ↦
          let on = find_loop-endless p num loop ne ne' fuel (i + 1) (omega arith) in
          let nop = loop.nops i (omega arith) in
          let skip = optlen-nop p i nop in
          loop-round p num fuel i (i + 1) (omega arith) (λ eq. ne (sym eq ∙ nop)) (omega arith) on
    ]
