-- ===== src/Checksum/Fold.antt =====
-- The carry loop: ones' complement arithmetic.
use opennop.Prelude.{ℕ, ◌+◌, ◌-◌, ◌/◌, ◌%◌, ◌^◌, ◌<◌, ◌≡◌, ap, ◌∙◌, some, arith}
use opennop.Checksum.{fold_carries, fold_fuel, complement}

step : ℕ → ℕ
step s = s % 2 ^ 16 + s / 2 ^ 16

step_mod : (s : ℕ) → step s % 65535 ≡ s % 65535
unfolding step
step_mod s = omega arith

step_pos : (s : ℕ) → 0 < s → 0 < step s
unfolding step
step_pos s h = omega arith

step_twice : (s : ℕ) → s < 2 ^ 32 → step (step s) < 2 ^ 16
unfolding step
step_twice s h = omega arith

fold_run : (s : ℕ) → s < 2 ^ 32 → fold_carries fold_fuel s ≡ some (step (step s))
unfolding fold_carries step
fold_run s h = ground arith

-- Three rounds end the loop for every sum of 32 bits. The result has 16 bits, is the sum modulo
-- 65535, and is zero only for a zero sum.
pub fold_carries_lem :
    (sum : ℕ)
    → sum < 2 ^ 32
    → (r : ℕ) × (fold_carries fold_fuel sum ≡ some r)
      × (r < 2 ^ 16)
      × (r % 65535 ≡ sum % 65535)
      × (0 < sum → 0 < r)
fold_carries_lem sum h = (
  step (step sum),
  fold_run sum h,
  step_twice sum h,
  step_mod (step sum) ∙ step_mod sum,
  λ pos. step_pos (step sum) (step_pos sum pos),
)

-- A sum that is zero modulo 65535 folds to all ones, and its checksum to zero.
pub complement-zero :
    (sum : ℕ)
    → sum < 2 ^ 32
    → 0 < sum
    → sum % 65535 ≡ 0
    → complement (fold_carries fold_fuel sum) ≡ some 0
complement-zero sum h pos zero =
    let (r, run, small, same, keeps) = fold_carries_lem sum h in
    rw run (ap some (omega (arith, keeps pos)))

-- The checksum makes up what the sum lacks.
pub complement_lem :
    (sum : ℕ)
    → sum < 2 ^ 32
    → (c : ℕ) × (complement (fold_carries fold_fuel sum) ≡ some c)
      × (c < 2 ^ 16)
      × ((sum + c) % 65535 ≡ 0)
complement_lem sum h =
    let (r, run, small, same, keeps) = fold_carries_lem sum h in
    (2 ^ 16 - 1 - r % 2 ^ 16, rw run, omega arith, omega arith)
