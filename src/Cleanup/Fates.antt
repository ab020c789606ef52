-- ===== src/Cleanup/Fates.antt =====
-- What becomes of each session of a bucket, in terms of its own fields.
use opennop.Prelude.{
  ℕ, ◌+◌, ◌-◌, ◌%◌, ◌^◌, ◌≤◌, ◌<◌, ◌≡◌, ◌≢◌, inl, inr, List, [], ◌∷◌, ◌++◌, arith, ◌==◌, length,
  Bool-cases,
}
use opennop.Prelude.Run.{ok}
use opennop.Heap.{Ptr, update}
use opennop.Sessions.{Session, Keepalive, Table}
use opennop.Sessions.Invariant.{IsTable}
use opennop.Cleanup.{probes, checked, is_dead, cleanuplist}
use opennop.Cleanup.Sweep.{survivors, all_probes, released, cleanuplist_run}

-- Both endpoints' last sequence numbers are remembered, with a new count.
abbrev pub seen : ℕ → Session → Session
seen count a = record a {
  deadcounter = count;
  larger = record (a.larger) { previoussequence = a.larger.sequence };
  smaller = record (a.smaller) { previoussequence = a.smaller.sequence };
}

-- A session that is not cleared, as it was and as it is, and the keepalive that was sent, if any.
pub data Check (a : Session) : Session → List Keepalive → Type 0 where
  larger_idle :
      a.larger.sequence ≡ a.larger.previoussequence
      → Check a (seen ((a.deadcounter + 1) % 2 ^ 8) a) (
          record {
            saddr = a.smaller.address;
            source = a.smaller.port;
            seq = a.smaller.sequence;
            daddr = a.larger.address;
            dest = a.larger.port;
            ack_seq = a.larger.sequence;
          }
          ∷ [])
  smaller_idle :
      a.larger.sequence ≢ a.larger.previoussequence
      → a.smaller.sequence ≡ a.smaller.previoussequence
      → Check a (seen ((a.deadcounter + 1) % 2 ^ 8) a) (
          record {
            saddr = a.larger.address;
            source = a.larger.port;
            seq = a.larger.sequence;
            daddr = a.smaller.address;
            dest = a.smaller.port;
            ack_seq = a.smaller.sequence;
          }
          ∷ [])
  active :
      a.larger.sequence ≢ a.larger.previoussequence
      → a.smaller.sequence ≢ a.smaller.previoussequence
      → Check a (seen 0 a) []

-- The sessions of a list before and after a sweep, with the workers' counts and the keepalives sent
-- before and after: a session whose counter is above 2 goes and its worker is counted down, any other
-- is checked.
pub data Fates
    : List (Ptr × Session)
      → List (Ptr × Session)
      → (ℕ → ℕ)
      → (ℕ → ℕ)
      → List Keepalive
      → List Keepalive
      → Type 0 where
  done : {w : ℕ → ℕ} {k : List Keepalive} → Fates [] [] w w k k
  cleared :
      {p : Ptr} {a : Session} {xs ys : List (Ptr × Session)} {w w' : ℕ → ℕ} {k k' : List Keepalive}
      → 2 < a.deadcounter
      → Fates xs ys (update w a.queue ((w a.queue + 2 ^ 32 - 1) % 2 ^ 32)) w' k k'
      → Fates ((p, a) ∷ xs) ys w w' k k'
  kept :
      {p : Ptr} {a a' : Session} {xs ys : List (Ptr × Session)} {w w' : ℕ → ℕ}
      {ks k k' : List Keepalive}
      → a.deadcounter ≤ 2
      → Check a a' ks
      → Fates xs ys w w' (ks ++ k) k'
      → Fates ((p, a) ∷ xs) ((p, a') ∷ ys) w w' k k'

checked-Check : (a : Session) → Check a (checked a) (probes a)
unfolding checked probes
checked-Check a = elim (Bool-cases (a.larger.sequence == a.larger.previoussequence)) [
  | inl idle ↦ rw idle (larger_idle (ground arith))
  | inr moved ↦ elim (Bool-cases (a.smaller.sequence == a.smaller.previoussequence)) [
    | inl idle ↦ rw moved (rw idle (smaller_idle (ground arith) (ground arith)))
    | inr moved' ↦ rw moved (rw moved' (active (ground arith) (ground arith)))
  ]
]

survivors-Fates :
    (xs : List (Ptr × Session)) (w : ℕ → ℕ) (k : List Keepalive)
    → Fates xs (survivors xs) w (released xs w) k (all_probes xs k)
unfolding survivors released all_probes
survivors-Fates [] w k = done
survivors-Fates ((p, a) ∷ xs) w k = elim (Bool-cases (is_dead a)) [
  | inl dead ↦ rw dead (cleared (ground arith) (survivors-Fates xs _ k))
  | inr alive ↦
      rw alive (kept (ground arith) (checked-Check a) (survivors-Fates xs w (probes a ++ k)))
]

-- On a bucket of fewer than 2 ^ 32 sessions `cleanuplist` ends without a fault. It clears the
-- sessions whose counter is above 2, giving their worker's place back, and keeps the others in order.
-- Of these, one whose larger endpoint has not moved since the last sweep gets a keepalive to it, else
-- one whose smaller endpoint has not moved gets one to that, and either is counted up in 8 bits; the
-- counter of any other is reset. All other buckets hold what they held.
pub cleanuplist-Fates :
    (t : Table) (lists : ℕ → List (Ptr × Session)) (b : ℕ)
    → IsTable t lists
    → length (lists b) < 2 ^ 32
    → (u : Table) × (cleanuplist b t ≡ ok tt u)
      × ((ys : List (Ptr × Session)) × IsTable u (update lists b ys)
          × Fates (lists b) ys t.sessions u.sessions t.sent u.sent)
cleanuplist-Fates t lists b inv fits =
    let (u, run, swept) = cleanuplist_run t lists b inv fits in
    (
      u,
      run,
      (
        survivors (lists b),
        swept.table,
        rw (swept.workers, swept.sent) (survivors-Fates (lists b) t.sessions t.sent),
      ),
    )
