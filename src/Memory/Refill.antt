-- ===== src/Memory/Refill.antt =====
-- The manager's rounds: new buffers are staged and moved behind the pool.
use mathlib.Core.List.{append-nil}
use opennop.Prelude.{
  ℕ, suc, ◌+◌, ◌%◌, ◌^◌, ◌<◌, ◌≡◌, refl, sym, ap, ◌∙◌, ◌≢◌, false, some, List, [], ◌∷◌, ◌++◌, arith,
  ◌==◌, length, length-append, append_snoc,
}
use opennop.Prelude.Run.{ok}
use opennop.Heap.{Ptr, null, node, Store, write}
use opennop.Heap.Points.{write_self, write_ne}
use opennop.Heap.Segment.{◌∈◌, ◌∉◌, has, Disjoint, Seg-frame, not_mem_middle}
use opennop.Queue.{Packet, zero_packet, newpacket, queue_packet, move_queued_packets, success}
use opennop.Queue.Fifo.{IsQueue, queue_packet-append}
use opennop.Queue.Move.{move_queued_packets-append}
use opennop.Memory.{
  Memory, freepacketbuffers, packetbufferstaging, allocatefreepacketbuffers, refill,
}
use opennop.Memory.Buffers.{IsQueue-write}

-- The packets that `newpacket` makes of the addresses.
abbrev pub blanks : List Ptr → List (Ptr × Packet)
blanks [] = []
blanks (p ∷ ps) = (p, zero_packet) ∷ blanks ps

-- Distinct addresses, none of them NULL or in the queue.
abbrev pub Fresh : List (Ptr × Packet) → List Ptr → Type 0
Fresh xs [] = Unit
Fresh xs (p ∷ ps) = (p ≢ null) × (p ∉ xs) × Fresh (xs ++ (p, zero_packet) ∷ []) ps

-- What the loop of `allocatefreepacketbuffers` leaves behind.
pub record Allocated (s : Store Packet) (i : ℕ) (xs : List (Ptr × Packet)) (t : Store Packet)
    : Type 0 where
  pub queue : IsQueue t i xs
  pub same : (c : Ptr) → c ∉ xs → t.heap c ≡ s.heap c
  pub others : (j : ℕ) → j ≢ i → t.heads j ≡ s.heads j

allocate_step :
    (s t : Store Packet) (i p : ℕ) (ps : List Ptr)
    → p ≢ null
    → queue_packet i p (record s { heap = write s.heap p (some (node null null zero_packet)) })
      ≡ ok success t
    → allocatefreepacketbuffers i (p ∷ ps) s ≡ allocatefreepacketbuffers i ps t
unfolding allocatefreepacketbuffers newpacket
allocate_step s t i p ps ne run = let ne' : (p == null) ≡ false = ground arith in rw (ne', run)

allocate_end : (s : Store Packet) (i : ℕ) → allocatefreepacketbuffers i [] s ≡ ok tt s
unfolding allocatefreepacketbuffers
allocate_end s i = refl

-- The first buffer and the others together.
Allocated-step :
    (s t u : Store Packet) (i p : ℕ) (a : Packet) (xs ys : List (Ptr × Packet))
    → ((c : Ptr) → c ∉ xs → c ≢ p → t.heap c ≡ write s.heap p (some (node null null a)) c)
    → ((j : ℕ) → j ≢ i → t.heads j ≡ s.heads j)
    → Allocated t i ((xs ++ (p, a) ∷ []) ++ ys) u
    → Allocated s i (xs ++ (p, a) ∷ ys) u
Allocated-step s t u i p a xs ys same others made =
    let snoc = append_snoc xs ys (p, a) in
    record {
      queue = rw (sym snoc) (made.queue);
      same = λ c o.
          let (o1, ne, o2) = not_mem_middle c p a xs ys o in
          made.same c (ap (has c) snoc ∙ o) ∙ same c o1 ne ∙ write_ne s.heap p _ c ne;
      others = λ j d. made.others j d ∙ others j d;
    }

-- Distinct buffers that `calloc` gives, none of them NULL or in the queue, go to its end in turn,
-- each of them zero, if it then has fewer than 2 ^ 32; no node outside the queue and no other
-- queue's head changes.
pub allocatefreepacketbuffers-Allocated :
    (s : Store Packet) (i : ℕ) (xs : List (Ptr × Packet)) (ps : List Ptr)
    → IsQueue s i xs
    → Fresh xs ps
    → length xs + length ps < 2 ^ 32
    → (t : Store Packet) × (allocatefreepacketbuffers i ps s ≡ ok tt t)
      × Allocated s i (xs ++ blanks ps) t
allocatefreepacketbuffers-Allocated s i xs [] q fresh fits = (
  s,
  allocate_end s i,
  record { queue = rw (append-nil xs) q; same = λ c o. refl; others = λ j d. refl },
)
allocatefreepacketbuffers-Allocated s i xs (p ∷ ps) q fresh fits =
    let s1 : Store Packet = record s {
      heap = write s.heap p (some (node null null zero_packet));
    } in
    let (_, t, run, queue, same, others) =
      queue_packet-append s1 i p zero_packet xs (IsQueue-write s i xs p zero_packet q (fresh.1))
        (omega arith) (fresh.0) (write_self s.heap p _) (fresh.1) in
    let (u, rest, made) =
      allocatefreepacketbuffers-Allocated t i (xs ++ (p, zero_packet) ∷ []) ps queue (fresh.2)
        (omega (arith, length-append xs ((p, zero_packet) ∷ []))) in
    (
      u,
      allocate_step s t i p ps (fresh.0) run ∙ rest,
      Allocated-step s t u i p zero_packet xs (blanks ps) same others made,
    )

-- A queue whose packets and head stay.
IsQueue-frame :
    (s t : Store Packet) (i : ℕ) (xs : List (Ptr × Packet))
    → IsQueue s i xs
    → ((c : Ptr) → c ∈ xs → t.heap c ≡ s.heap c)
    → t.heads i ≡ s.heads i
    → IsQueue t i xs
IsQueue-frame s t i xs q same head =
    let l = q.counted in
    record {
      before = q.before;
      counted = record {
        list = record {
          chain = Seg-frame s.heap t.heap q.before null xs l.chain same;
          next = rw head (l.next);
          tail = rw head (l.tail);
        };
        count = rw head (l.count);
      };
    }

length-blanks : (ps : List Ptr) → length (blanks ps) ≡ length ps
length-blanks [] = refl
length-blanks (p ∷ ps) = ap suc (length-blanks ps)

refill_run :
    (m : Memory) (fresh : List Ptr) (s1 s2 : Store Packet) (n : ℕ)
    → allocatefreepacketbuffers packetbufferstaging fresh (m.packets) ≡ ok tt s1
    → move_queued_packets packetbufferstaging freepacketbuffers s1 ≡ ok n s2
    → refill fresh m
      ≡ ok n (record {
        packets = s2;
        allocatedpacketbuffers = (m.allocatedpacketbuffers + n) % 2 ^ 32;
        signals = m.signals;
      })
unfolding refill
refill_run m fresh s1 s2 n run move = rw (run, move)

-- When the staging queue is empty and `calloc` gives at least one buffer, distinct and outside the
-- pool, a round of the memory manager puts them all, zero, behind the pool's packets, in order,
-- empties the staging queue, and adds their number to the count of the allocated buffers.
pub refill-append :
    (m : Memory) (ys : List (Ptr × Packet)) (p : Ptr) (ps : List Ptr)
    → IsQueue (m.packets) packetbufferstaging []
    → IsQueue (m.packets) freepacketbuffers ys
    → Fresh [] (p ∷ ps)
    → Disjoint ys (blanks (p ∷ ps))
    → length ys + length ps + 1 < 2 ^ 32
    → (t : Memory) × (refill (p ∷ ps) m ≡ ok (length ps + 1) t)
      × IsQueue (t.packets) packetbufferstaging []
      × IsQueue (t.packets) freepacketbuffers (ys ++ blanks (p ∷ ps))
      × (t.allocatedpacketbuffers ≡ (m.allocatedpacketbuffers + (length ps + 1)) % 2 ^ 32)
refill-append m ys p ps staging pool fresh apart fits =
    let (s1, run, made) =
      allocatefreepacketbuffers-Allocated (m.packets) packetbufferstaging [] (p ∷ ps) staging fresh
        (omega arith) in
    let pool1 =
      IsQueue-frame (m.packets) s1 freepacketbuffers ys pool (λ c i. made.same c (apart c i))
        (made.others freepacketbuffers (omega arith)) in
    let (s2, move, moved) =
      move_queued_packets-append s1 packetbufferstaging freepacketbuffers p zero_packet (blanks ps)
        ys (omega arith) (made.queue) pool1 apart (omega (arith, length-blanks ps)) in
    let n = length-blanks ps in
    (
      _,
      refill_run m (p ∷ ps) s1 s2 (length ps + 1) run (move ∙ ap (λ k. ok (k + 1) s2) n),
      moved.source,
      moved.target,
      refl,
    )
