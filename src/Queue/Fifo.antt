-- ===== src/Queue/Fifo.antt =====
-- `queue_packet` and `dequeue_packet` are those of a first-in-first-out queue.
use opennop.Prelude.{
  ℕ, suc, ◌+◌, ◌-◌, ◌%◌, ◌^◌, ◌<◌, ◌≡◌, refl, ◌∙◌, ◌≢◌, Bool, true, false, some, List, [], ◌∷◌,
  ◌++◌, arith, length,
}
use opennop.Prelude.Run.{ok, Cmd}
use opennop.Heap.{Ptr, null, node, Store, write, update}
use opennop.Heap.Points.{
  load-ok, set_next-ok, set_prev-ok, write_self, write_ne, update_self, update_ne,
}
use opennop.Heap.Segment.{◌∉◌, first_or, Seg-write}
use opennop.Heap.Link.{TailAt, IsCounted, link_tail_lem}
use opennop.Queue.{Packet, success, failure, queue_packet, take_first, dequeue_packet}

-- Queue `i` holds the packets `xs`. The first one's `prev` is left over from an earlier packet.
pub record IsQueue (s : Store Packet) (i : ℕ) (xs : List (Ptr × Packet)) : Type 0 where
  pub before : Ptr
  pub counted : IsCounted s i before xs

abbrev stale : Ptr → List (Ptr × Packet) → Ptr
stale b [] = null
stale b (x ∷ xs) = b

IsCounted-stale :
    (s : Store Packet) (i b : ℕ) (xs : List (Ptr × Packet))
    → IsCounted s i b xs
    → IsCounted s i (stale b xs) xs
IsCounted-stale s i b [] l = record {
  list = record { chain = tt; next = l.next; tail = tt };
  count = l.count;
}
IsCounted-stale s i b (x ∷ xs) l = l

stale-nil : (b : Ptr) (xs : List (Ptr × Packet)) → xs ≡ [] → stale b xs ≡ null
stale-nil b [] e = refl
stale-nil b (x ∷ xs) e = cc

-- A packet with no links that is not in the queue goes to its end, if it then has fewer than 2 ^
-- 32; the call says so, and leaves the nodes outside the queue and the other queues' heads alone.
-- NULL is refused and changes nothing.
pub queue_packet-append :
    (s : Store Packet) (i : ℕ) (p : Ptr) (a : Packet) (xs : List (Ptr × Packet))
    → IsQueue s i xs
    → length xs + 1 < 2 ^ 32
    → p ≢ null
    → s.heap p ≡ some (node null null a)
    → p ∉ xs
    → (queue_packet i null s ≡ ok failure s)
      × (t : Store Packet) × (queue_packet i p s ≡ ok success t)
      × IsQueue t i (xs ++ (p, a) ∷ [])
      × ((c : Ptr) → c ∉ xs → c ≢ p → t.heap c ≡ s.heap c)
      × ((j : ℕ) → j ≢ i → t.heads j ≡ s.heads j)
unfolding queue_packet
queue_packet-append s i p a xs q room ne at out =
    let (t, run, ins) =
      link_tail_lem s i (stale q.before xs) p a xs (IsCounted-stale s i q.before xs q.counted)
        (stale-nil q.before xs) room ne at out in
    (
      refl,
      t,
      ground arith,
      record { before = stale q.before xs; counted = ins.list },
      ins.same,
      ins.others,
    )

-- The first packet leaves, with no links, and the others stay in order.
pub record Taken (s : Store Packet) (i : ℕ) (p : Ptr) (a : Packet) (xs : List (Ptr × Packet))
    (t : Store Packet) : Type 0 where
  pub queue : IsQueue t i xs
  pub unlinked : t.heap p ≡ some (node null null a)
  pub same : (c : Ptr) → c ≢ p → t.heap c ≡ s.heap c
  pub others : (j : ℕ) → j ≢ i → t.heads j ≡ s.heads j

TailAt-drop :
    (q p : Ptr) (a : Packet) (xs : List (Ptr × Packet)) → TailAt q ((p, a) ∷ xs) → TailAt q xs
TailAt-drop q p a [] e = tt
TailAt-drop q p a ((r, c) ∷ xs) e = e

take_first_run :
    (s : Store Packet) (i p b q : Ptr) (a : Packet)
    → p ≢ null
    → (s.heads i).next ≡ p
    → s.heap p ≡ some (node q b a)
    → take_first i s
      ≡ ok p (record {
        heads =
            update s.heads i
              (record (s.heads i) { next = q; qlen = ((s.heads i).qlen + 2 ^ 32 - 1) % 2 ^ 32 });
        heap = write (write s.heap p (some (node null b a))) p (some (node null null a));
      })
unfolding take_first
take_first_run s i p b q a ne e at =
    let hs =
      update s.heads i
        (record (s.heads i) { next = q; qlen = ((s.heads i).qlen + 2 ^ 32 - 1) % 2 ^ 32 }) in
    let s1 : Store Packet = record s { heads = hs } in
    let s2 : Store Packet = record { heads = hs; heap = write s.heap p (some (node null b a)) } in
    ground (
      arith,
      load-ok p s _ ne at,
      set_next-ok p s1 _ ne at null,
      set_prev-ok p s2 _ ne (write_self s.heap p _) null,
    )

take_first-Taken :
    (s : Store Packet) (i : ℕ) (p : Ptr) (a : Packet) (xs : List (Ptr × Packet))
    → IsQueue s i ((p, a) ∷ xs)
    → length xs + 1 < 2 ^ 32
    → (t : Store Packet) × (take_first i s ≡ ok p t) × Taken s i p a xs t
take_first-Taken s i p a xs q fits =
    let l = q.counted in
    let b = q.before in
    let at = l.chain.1 in
    (
      _,
      take_first_run s i p b (first_or xs null) a l.chain.0 l.next at,
      record {
        queue = record {
          before = p;
          counted = record {
            list = record {
              chain =
                  Seg-write _ p null xs p _ (Seg-write s.heap p null xs p _ l.chain.3 l.chain.2)
                    l.chain.2;
              next = simp update_self;
              tail = simp update_self (TailAt-drop (s.heads i).prev p a xs l.tail);
            };
            count = simp (update_self, l.count) (omega arith);
          };
        };
        unlinked = write_self _ p _;
        same = λ c d. write_ne _ p _ c d ∙ write_ne s.heap p _ c d;
        others = λ j d. update_ne s.heads i _ j d;
      },
    )

take_first-nil : (s : Store Packet) (i : ℕ) → IsQueue s i [] → take_first i s ≡ ok null s
unfolding take_first
take_first-nil s i q = ground (arith, q.counted.next)

dequeue_start :
    (wait : Cmd (Store Packet) (Unit {0})) (signal : Bool) (s : Store Packet) (i : ℕ) {n : ℕ}
    → (s.heads i).qlen ≡ suc n
    → dequeue_packet wait i signal s ≡ take_first i s
unfolding dequeue_packet
dequeue_start wait signal s i e = ground arith

-- A queue that holds a packet, and fewer than 2 ^ 32 of them, gives its oldest one at once, with
-- both links cleared, and keeps the others in their order; no node but that packet and no other
-- queue's head changes.
pub dequeue_packet-Taken :
    (wait : Cmd (Store Packet) (Unit {0})) (signal : Bool) (s : Store Packet) (i : ℕ) (p : Ptr)
    (a : Packet) (xs : List (Ptr × Packet))
    → IsQueue s i ((p, a) ∷ xs)
    → length xs + 1 < 2 ^ 32
    → (t : Store Packet) × (dequeue_packet wait i signal s ≡ ok p t) × Taken s i p a xs t
dequeue_packet-Taken wait signal s i p a xs q fits =
    let (t, run, taken) = take_first-Taken s i p a xs q fits in
    (t, dequeue_start wait signal s i q.counted.count ∙ run, taken)

-- On an empty queue the caller that does not wait gets NULL and changes nothing. One that waits does,
-- in whatever state `s1` the others leave, what a caller that does not wait would do there.
pub dequeue_packet-nil :
    (wait : Cmd (Store Packet) (Unit {0})) (s s1 : Store Packet) (i : ℕ)
    → IsQueue s i []
    → wait s ≡ ok tt s1
    → (dequeue_packet wait i false s ≡ ok null s)
      × (dequeue_packet wait i true s ≡ dequeue_packet wait i false s1)
unfolding dequeue_packet
dequeue_packet-nil wait s s1 i q woken =
    (rw q.counted.count (take_first-nil s i q), rw (q.counted.count, woken) (ground arith))
