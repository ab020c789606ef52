-- ===== src/Sessions/Balance.antt =====
-- The worker that `insertsession` chooses.
use native.Mathlib.Decide.{ℕ_discrete}
use opennop.Prelude.{
  ℕ, zero, suc, ◌+◌, ◌%◌, ◌^◌, ◌≤◌, ◌<◌, ◌≡◌, refl, ◌∙◌, ◌⊎◌, inl, inr, true, arith, ltb,
  Bool-cases,
}
use opennop.Sessions.{Table, least_loop, chosen_worker}

least_step :
    (sessions : ℕ → ℕ) (workers left i q : ℕ)
    → i < workers
    → workers ≤ 2 ^ 8
    → (q' : ℕ) × (least_loop sessions workers (suc left) i q
        ≡ least_loop sessions workers left (i + 1) q')
      × (sessions q' ≤ sessions q)
      × (sessions q' ≤ sessions i)
      × ((q' ≡ q) ⊎ (q' ≡ i))
unfolding least_loop
least_step sessions workers left i q h small =
    let inside : ltb i workers ≡ true = ground arith in
    let wrap : i % 2 ^ 8 ≡ i = omega arith in
    elim (Bool-cases (ltb (sessions i) (sessions q))) [
      | inl less ↦ (i, rw (less, inside, wrap), ground arith, omega arith, inr refl)
      | inr more ↦ (q, rw more, omega arith, ground arith, inl refl)
    ]

least_end : (sessions : ℕ → ℕ) (workers i q : ℕ) → least_loop sessions workers 0 i q ≡ q
unfolding least_loop
least_end sessions workers i q = refl

below : (q q' i workers : ℕ) → q < workers → i < workers → (q' ≡ q) ⊎ (q' ≡ i) → q' < workers
below q q' i workers h h' (inl e) = omega arith
below q q' i workers h h' (inr e) = omega arith

least_loop_lem :
    (sessions : ℕ → ℕ) (workers left i q : ℕ)
    → i + left ≡ workers
    → workers ≤ 2 ^ 8
    → q < workers
    → (r : ℕ) × (least_loop sessions workers left i q ≡ r)
      × (r < workers)
      × (sessions r ≤ sessions q)
      × ((j : ℕ) → i ≤ j → j < workers → sessions r ≤ sessions j)
least_loop_lem sessions workers zero i q e small h =
    (q, least_end sessions workers i q, h, omega arith, λ j a b. absurd (omega arith))
least_loop_lem sessions workers (suc left) i q e small h =
    let (q', run, le_q, le_i, which) = least_step sessions workers left i q (omega arith) small in
    let (r, rest, inside, le, least) =
      least_loop_lem sessions workers left (i + 1) q' (omega arith) small
        (below q q' i workers h (omega arith) which) in
    (
      r,
      run ∙ rest,
      inside,
      omega arith,
      λ j a b. elim (ℕ_discrete j i) [
        | yes same ↦ rw same (omega arith)
        | no ne ↦ least j (omega arith) b
      ],
    )

-- Among at least one and at most 256 workers, the one that `insertsession` chooses is a worker, and
-- no worker has fewer sessions.
pub chosen_worker_lem :
    (t : Table) (j : ℕ)
    → 0 < t.numworkers
    → t.numworkers ≤ 2 ^ 8
    → j < t.numworkers
    → (chosen_worker t < t.numworkers) × (t.sessions (chosen_worker t) ≤ t.sessions j)
chosen_worker_lem t j some_worker small inside =
    let (r, run, below_all, le, least) =
      least_loop_lem (t.sessions) (t.numworkers) (t.numworkers) 0 0 (omega arith) small
        some_worker in
    (rw run below_all, rw run (least j (omega arith) inside))
