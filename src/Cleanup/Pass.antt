-- ===== src/Cleanup/Pass.antt =====
-- One pass over all the buckets.
use mathlib.Core.Path.{subst}
use opennop.Prelude.{
  ℕ, zero, suc, ◌+◌, ◌^◌, ◌≤◌, ◌<◌, ◌≡◌, refl, sym, ap, ◌∙◌, ◌≢◌, ◌⊎◌, inl, inr, true, List, ◌==◌,
  arith, length, Bool-cases,
}
use opennop.Prelude.Run.{ok, and_then}
use opennop.Heap.{Ptr, null, update}
use opennop.Heap.Points.{update_self, update_ne}
use opennop.Sessions.{Session, Keepalive, Table}
use opennop.Sessions.Invariant.{IsTable}
use opennop.Cleanup.{cleanuplist, cleanup_pass}
use opennop.Cleanup.Fates.{Fates, cleanuplist-Fates}

cleanuplist_empty :
    (i : ℕ) (t : Table) → ((t.buckets.heads i).next == null) ≡ true → cleanuplist i t ≡ ok tt t
unfolding cleanuplist
cleanuplist_empty i t e = rw e

pass_step :
    (left i : ℕ) (t u : Table)
    → cleanuplist i t ≡ ok tt u
    → cleanup_pass (suc left) i t ≡ cleanup_pass left (i + 1) u
unfolding cleanup_pass
pass_step left i t u run = elim (Bool-cases ((t.buckets.heads i).next == null)) [
  | inl none_there ↦ rw none_there (
      ap (λ r. and_then r (λ _. cleanup_pass left (i + 1)))
        (sym (cleanuplist_empty i t none_there) ∙ run))
  | inr some_there ↦ rw (some_there, run)
]

-- The buckets from `i` on, one after the other: the sessions' fates, the workers' counts and the
-- keepalives sent.
pub data Rounds (lists after : ℕ → List (Ptr × Session))
    : ℕ → ℕ → (ℕ → ℕ) → (ℕ → ℕ) → List Keepalive → List Keepalive → Type 0 where
  done : {i : ℕ} {w : ℕ → ℕ} {k : List Keepalive} → Rounds lists after 0 i w w k k
  round :
      {left i : ℕ} {w w1 w' : ℕ → ℕ} {k k1 k' : List Keepalive}
      → Fates (lists i) (after i) w w1 k k1
      → Rounds lists after left (i + 1) w1 w' k1 k'
      → Rounds lists after (suc left) i w w' k k'

-- The buckets from `i` to below `i + left` were swept, and the others hold what they held.
pub record Passed (t : Table) (lists : ℕ → List (Ptr × Session)) (left i : ℕ) (u : Table)
    : Type 0 where
  pub after : ℕ → List (Ptr × Session)
  pub table : IsTable u after
  pub swept : Rounds lists after left i t.sessions u.sessions t.sent u.sent
  pub spared : (b : ℕ) → (b < i) ⊎ (i + left ≤ b) → after b ≡ lists b

-- Rounds look at the buckets from `i` on only.
Rounds-same :
    (lists lists' after : ℕ → List (Ptr × Session)) (left i : ℕ) (w w' : ℕ → ℕ)
    (k k' : List Keepalive)
    → ((b : ℕ) → i ≤ b → lists' b ≡ lists b)
    → Rounds lists' after left i w w' k k'
    → Rounds lists after left i w w' k k'
Rounds-same lists lists' after _ i w _ k _ same done = done
Rounds-same lists lists' after _ i w w' k k' same (round {w1 = w1} {k1 = k1} f rest) =
    round (subst (λ xs. Fates xs (after i) w w1 k k1) (same i (omega arith)) f)
      (Rounds-same lists lists' after _ (i + 1) w1 w' k1 k' (λ b h. same b (omega arith)) rest)

module _ (left i b : ℕ) where
  widen : (b < i) ⊎ (i + suc left ≤ b) → (b < i + 1) ⊎ (i + 1 + left ≤ b)
  widen (inl h) = inl (omega arith)
  widen (inr h) = inr (omega arith)

  apart : (b < i) ⊎ (i + suc left ≤ b) → b ≢ i
  apart (inl h) = omega arith
  apart (inr h) = omega arith

Passed-step :
    (t u v : Table) (lists : ℕ → List (Ptr × Session)) (left i : ℕ) (ys : List (Ptr × Session))
    → Fates (lists i) ys t.sessions u.sessions t.sent u.sent
    → Passed u (update lists i ys) left (i + 1) v
    → Passed t lists (suc left) i v
Passed-step t u v lists left i ys fates p =
    let here : p.after i ≡ ys = p.spared i (inl (omega arith)) ∙ update_self lists i ys in
    record {
      after = p.after;
      table = p.table;
      swept =
          round
            (subst (λ xs. Fates (lists i) xs t.sessions u.sessions t.sent u.sent) (sym here) fates)
            (Rounds-same lists (update lists i ys) p.after left (i + 1) u.sessions v.sessions u.sent
              v.sent (λ b h. update_ne lists i ys b (omega arith)) p.swept);
      spared = λ b h. p.spared b (widen left i b h) ∙ update_ne lists i ys b (apart left i b h);
    }

pass_end : (i : ℕ) (t : Table) → cleanup_pass 0 i t ≡ ok tt t
unfolding cleanup_pass
pass_end i t = refl

later :
    (lists : ℕ → List (Ptr × Session)) (i b : ℕ) (ys : List (Ptr × Session))
    → b ≢ i
    → length (lists b) < 2 ^ 32
    → length (update lists i ys b) < 2 ^ 32
later lists i b ys ne fits = rw (update_ne lists i ys b ne) fits

-- A pass over `left` buckets from `i` ends without a fault when these and all later ones hold fewer
-- than 2 ^ 32 sessions each. It sweeps these buckets one after the other, clearing the sessions whose
-- counter is above 2 and checking the others; the other buckets stay as they were.
pub cleanup_pass-Passed :
    (left i : ℕ) (t : Table) (lists : ℕ → List (Ptr × Session))
    → IsTable t lists
    → ((b : ℕ) → i ≤ b → length (lists b) < 2 ^ 32)
    → (u : Table) × (cleanup_pass left i t ≡ ok tt u) × Passed t lists left i u
cleanup_pass-Passed zero i t lists inv fits =
    (t, pass_end i t, record { after = lists; table = inv; swept = done; spared = λ b h. refl })
cleanup_pass-Passed (suc left) i t lists inv fits =
    let (u, run, (ys, table, fates)) = cleanuplist-Fates t lists i inv (fits i (omega arith)) in
    let (v, rest, passed) =
      cleanup_pass-Passed left (i + 1) u (update lists i ys) table
        (λ b h. later lists i b ys (omega arith) (fits b (omega arith))) in
    (v, pass_step left i t u run ∙ rest, Passed-step t u v lists left i ys fates passed)
