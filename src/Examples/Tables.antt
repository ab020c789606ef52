-- ===== src/Examples/Tables.antt =====
-- A table with one session.
use opennop.Prelude.{
  ◌^◌, ◌<◌, ◌≤◌, ℕ, ◌≡◌, refl, ◌≢◌, ◌⊎◌, true, some, none, List, [], ◌∷◌, ◌++◌, arith, replicate,
  ap, length,
}
use native.Mathlib.Decide.{ℕ_discrete}
use mathlib.Core.Logic.{◌↔◌}
use opennop.Prelude.Run.{ok}
use opennop.Heap.{Ptr, null, node, head, Store, load, write, update}
use opennop.Heap.Points.{write_self, update_self, update_ne}
use opennop.Queue.{success, failure}
use opennop.Sessions.{
  Session, Table, new_session, bucket_of, is_match, getsession, insertsession, clearsession,
  chosen_worker,
}
use opennop.Sessions.Invariant.{IsTable, IsTable-update}
use opennop.Sessions.Lookup.{FirstWith, getsession-find}
use opennop.Sessions.Insert.{Added, insertsession-Added}
use opennop.Sessions.Balance.{chosen_worker_lem}
use opennop.Sessions.Clear.{Cleared, clearsession-Cleared}
use opennop.Sessions.Map.{insertsession-getsession, clearsession-getsession}
use opennop.Heap.Link.{IsCounted}
use opennop.Tracking.{
  closingsession, updateseq, sourceisclient, saveacceleratorid, side_of, client_is, accelerator_is,
  session_accelerated,
}
use opennop.Tracking.Closing.{closing, closingsession-Cleared}
use opennop.Tracking.Sender.{Tracked, Client, Accelerated, updates-IsTable}
use opennop.Tracking.Accelerator.{session_accelerated_iff}
use opennop.Cleanup.{cleanuplist, cleanup_pass, sessionbuckets}
use opennop.Cleanup.Pass.{Passed, cleanup_pass-Passed}
use opennop.Cleanup.Fates.{Fates, cleanuplist-Fates}

abbrev home : ℕ
home = bucket_of 10 1000 9 2000

abbrev item : Session
item = record (new_session home 0 10 1000 9 2000) { state = 1 }

abbrev dead_item : Session
dead_item = record item { deadcounter = 3 }

abbrev accelerated : Session
accelerated = record item {
  larger = record (item.larger) { accelerator = 1 ∷ 2 ∷ 3 ∷ 4 ∷ [] };
  smaller = record (item.smaller) { accelerator = 5 ∷ 2 ∷ 3 ∷ 4 ∷ [] };
}

-- A packet with two 20-byte headers and 20 bytes of data, at a sequence number.
abbrev segment : ℕ → List ℕ
segment n =
    (69 ∷ 0 ∷ 0 ∷ 60 ∷ [])
    ++ (replicate 20 0 ++ ((0 ∷ 0 ∷ 0 ∷ n ∷ []) ++ (replicate 4 0 ++ (80 ∷ replicate 27 0))))

abbrev empty : Table
empty = record {
  buckets = record { heads = λ _. head null null 0; heap = λ _. none };
  numworkers = 1;
  sessions = λ _. 0;
  sent = [];
}

-- The session stands alone in its bucket, at address 5.
abbrev table_of : Session → Table
table_of a = record {
  buckets = record {
    heads = update (λ _. head null null 0) home (head 5 5 1);
    heap = write (λ _. none) 5 (some (node null null a));
  };
  numworkers = 1;
  sessions = λ _. 1;
  sent = [];
}

abbrev lists_of : Session → ℕ → List (Ptr × Session)
lists_of a = update (λ _. []) home ((5, a) ∷ [])

empty-IsTable : IsTable empty (λ _. [])
empty-IsTable = record {
  bucket = λ b. record { list = record { chain = tt; next = refl; tail = tt }; count = refl };
  apart = λ b c ne p i. refl;
  placed = λ b. tt;
}

table_of-IsCounted : (a : Session) → IsCounted ((table_of a).buckets) home null ((5, a) ∷ [])
table_of-IsCounted a =
    let at : update (λ _. head null null 0) home (head 5 5 1) home ≡ head 5 5 1 =
      update_self _ home _ in
    record {
      list = record {
        chain = (omega arith, write_self _ 5 _, refl, tt);
        next = rw at;
        tail = rw at;
      };
      count = rw at;
    }

table_of-IsTable : (a : Session) → a.head ≡ home → IsTable (table_of a) (lists_of a)
table_of-IsTable a at =
    IsTable-update empty (table_of a) (λ _. []) home ((5, a) ∷ []) empty-IsTable
      (table_of-IsCounted a) (at, tt) (λ c ne p i. cc) (λ c ne. update_ne _ home _ c ne)

lists_of-home : (a : Session) → lists_of a home ≡ (5, a) ∷ []
lists_of-home a = update_self _ home _

getsession-find_example :
    (r : Ptr) × (getsession 10 1000 9 2000 (table_of item).buckets ≡ ok r (table_of item).buckets)
    × FirstWith 10 1000 9 2000 ((5, item) ∷ []) r
getsession-find_example =
    getsession-find (table_of item).buckets 10 1000 9 2000 ((5, item) ∷ [])
      (table_of-IsCounted item)

missed : getsession 10 1000 9 2001 empty.buckets ≡ ok null empty.buckets
unfolding getsession
missed = refl

insertsession-Added_example :
    (u : Table) × (insertsession 7 10 1000 9 2000 empty ≡ ok 7 u)
    × Added empty (λ _. []) home 7 (new_session home (chosen_worker empty) 10 1000 9 2000) u
insertsession-Added_example =
    insertsession-Added empty (λ _. []) 7 10 1000 9 2000 empty-IsTable (omega arith) (omega arith)
      (λ c. refl)

insertsession-getsession_example :
    (u : Table) × (insertsession 7 10 1000 9 2001 empty ≡ ok 7 u)
    × (getsession 10 1000 9 2001 u.buckets ≡ ok 7 u.buckets)
insertsession-getsession_example =
    insertsession-getsession empty (λ _. []) 7 10 1000 9 2001 10 1000 9 2001 null empty-IsTable
      (omega arith) (omega arith) (λ c. refl) missed

clearsession-Cleared_example :
    (u : Table) × (clearsession 5 (table_of item) ≡ ok null u)
    × Cleared (table_of item) (lists_of item) home 5 item [] [] u
clearsession-Cleared_example =
    clearsession-Cleared (table_of item) (lists_of item) home 5 item [] []
      (table_of-IsTable item refl) (lists_of-home item) (omega arith)

other_missed : getsession 10 1000 9 2001 (table_of item).buckets ≡ ok null (table_of item).buckets
unfolding getsession load write update is_match bucket_of
other_missed = refl

clearsession-getsession_example :
    (u : Table) × (clearsession 5 (table_of item) ≡ ok null u)
    × (getsession 10 1000 9 2001 u.buckets ≡ ok null u.buckets)
unfolding is_match
clearsession-getsession_example =
    clearsession-getsession (table_of item) (lists_of item) home 5 item [] [] 10 1000 9 2001 null
      (table_of-IsTable item refl) (lists_of-home item) (omega arith) refl other_missed

cleanuplist-Fates_example :
    (u : Table) × (cleanuplist home (table_of dead_item) ≡ ok tt u)
    × ((ys : List (Ptr × Session)) × IsTable u (update (lists_of dead_item) home ys)
        × Fates
            (lists_of dead_item home)
            ys
            (table_of dead_item).sessions
            u.sessions
            (table_of dead_item).sent
            u.sent)
cleanuplist-Fates_example =
    cleanuplist-Fates (table_of dead_item) (lists_of dead_item) home
      (table_of-IsTable dead_item refl) (omega (arith, ap length (lists_of-home dead_item)))

updates-IsTable_example :
    let packet : List ℕ = replicate 40 0 in
    let id : List ℕ = 1 ∷ 2 ∷ 3 ∷ 4 ∷ [] in
    let buckets = (table_of accelerated).buckets in
    let holds = λ (s : Store Session) (a' : Session).
      IsTable
        (record (table_of accelerated) { buckets = s })
        (update (lists_of accelerated) home ([] ++ (5, a') ∷ [])) in
    ((s : Store Session) × (a' : Session) × (updateseq 10 packet 5 buckets ≡ ok success s)
      × holds s a'
      × Tracked 10 packet accelerated a')
    × ((s : Store Session) × (a' : Session) × (sourceisclient 10 packet 5 buckets ≡ ok success s)
        × holds s a'
        × Client 10 packet accelerated a')
    × ((s : Store Session) × (a' : Session) × (saveacceleratorid 10 id packet 5 buckets
          ≡ ok success s)
        × holds s a'
        × Accelerated 10 packet id accelerated a')
    × (updateseq 10 packet null buckets ≡ ok failure buckets)
    × (sourceisclient 10 packet null buckets ≡ ok failure buckets)
    × (saveacceleratorid 10 id packet null buckets ≡ ok failure buckets)
updates-IsTable_example =
    updates-IsTable (table_of accelerated) (lists_of accelerated) home 5 accelerated [] [] 10
      (replicate 40 0) (1 ∷ 2 ∷ 3 ∷ 4 ∷ []) (table_of-IsTable accelerated refl)
      (lists_of-home accelerated) (omega arith) refl refl refl

closingsession-Cleared_example :
    (u : Table) × (closingsession 5 (table_of item) ≡ ok 5 u)
    × IsTable u (update (lists_of item) home ([] ++ (5, closing item) ∷ []))
    × (w : Table) × (closingsession 5 u ≡ ok null w)
    × Cleared u
        (update (lists_of item) home ([] ++ (5, closing item) ∷ []))
        home
        5
        (closing item)
        []
        []
        w
closingsession-Cleared_example =
    closingsession-Cleared (table_of item) (lists_of item) home 5 item [] []
      (table_of-IsTable item refl) (lists_of-home item) (omega arith) refl

session_accelerated_iff_example :
    let s = accelerated in
    (session_accelerated (1 ∷ 2 ∷ 3 ∷ 4 ∷ []) s ≡ true) ↔ (
      ((s.larger.accelerator ≡ 1 ∷ 2 ∷ 3 ∷ 4 ∷ []) ⊎ (s.smaller.accelerator ≡ 1 ∷ 2 ∷ 3 ∷ 4 ∷ []))
      × (s.larger.accelerator ≢ replicate 4 0)
      × (s.smaller.accelerator ≢ replicate 4 0)
      × (s.larger.accelerator ≢ s.smaller.accelerator))
session_accelerated_iff_example =
    session_accelerated_iff (1 ∷ 2 ∷ 3 ∷ 4 ∷ []) accelerated refl refl refl

lists_of-fits : (a : Session) (b : ℕ) → length (lists_of a b) < 2 ^ 32
lists_of-fits a b = elim (ℕ_discrete b home) [
  | yes e ↦ rw e (rw (lists_of-home a) (omega arith))
  | no ne ↦
      let none_there : lists_of a b ≡ [] = update_ne (λ _. []) home ((5, a) ∷ []) b ne in
      rw none_there (omega arith)
]

cleanup_pass-Passed_example :
    (u : Table) × (cleanup_pass sessionbuckets 0 (table_of dead_item) ≡ ok tt u)
    × Passed (table_of dead_item) (lists_of dead_item) sessionbuckets 0 u
cleanup_pass-Passed_example =
    cleanup_pass-Passed sessionbuckets 0 (table_of dead_item) (lists_of dead_item)
      (table_of-IsTable dead_item refl) (λ b h. lists_of-fits dead_item b)

chosen_worker_lem_example :
    (chosen_worker (table_of item) < 1)
    × ((table_of item).sessions (chosen_worker (table_of item)) ≤ (table_of item).sessions 0)
chosen_worker_lem_example =
    chosen_worker_lem (table_of item) 0 (omega arith) (omega arith) (omega arith)
