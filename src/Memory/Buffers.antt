-- ===== src/Memory/Buffers.antt =====
-- Buffers taken from the pool are clean.
use opennop.Prelude.{
  ℕ, ◌+◌, ◌%◌, ◌^◌, ◌<◌, ◌≡◌, refl, ap, ◌∙◌, ◌≢◌, false, some, List, [], ◌∷◌, arith, ltb, ◌==◌,
  length, if◌then◌else◌, lt→ltb, Bool-cases, inl, inr,
}
use opennop.Prelude.Run.{ok, Cmd, pure}
use opennop.Heap.{Ptr, null, node, Store, write}
use opennop.Heap.Points.{write_self}
use opennop.Heap.Segment.{◌∉◌, Seg-write}
use opennop.Queue.{Packet, zero_packet, newpacket, dequeue_packet}
use opennop.Queue.Fifo.{IsQueue, dequeue_packet-Taken}
use opennop.Memory.{
  Memory, freepacketbuffers, clear_packet, from_pool, from_calloc, get_freepacket_buffer,
}

-- Writing to a packet that is in no queue.
pub IsQueue-write :
    (s : Store Packet) (i : ℕ) (xs : List (Ptr × Packet)) (p : Ptr) (a : Packet)
    → IsQueue s i xs
    → p ∉ xs
    → IsQueue (record s { heap = write s.heap p (some (node null null a)) }) i xs
IsQueue-write s i xs p a q out =
    let l = q.counted in
    record {
      before = q.before;
      counted = record {
        list = record {
          chain = Seg-write s.heap q.before null xs p _ l.chain out;
          next = l.next;
          tail = l.tail;
        };
        count = l.count;
      };
    }

clear_packet_run :
    (m : Memory) (p : Ptr)
    → p ≢ null
    → clear_packet p m
      ≡ ok p (record m {
        packets = record (m.packets) {
          heap = write (m.packets.heap) p (some (node null null zero_packet));
        };
      })
unfolding clear_packet
clear_packet_run m p ne = ground arith

get_run :
    (others : Cmd (Store Packet) (Unit {0})) (minfree : ℕ) (fresh : Ptr) (m : Memory)
    (s1 t : Store Packet) (p : Ptr)
    → 0 < (m.packets.heads freepacketbuffers).qlen
    → others (m.packets) ≡ ok tt s1
    → dequeue_packet (pure tt) freepacketbuffers false s1 ≡ ok p t
    → get_freepacket_buffer others minfree fresh m
      ≡ clear_packet p (record {
        packets = t;
        allocatedpacketbuffers = m.allocatedpacketbuffers;
        signals =
            m.signals + (if ltb (m.packets.heads freepacketbuffers).qlen minfree then 1 else 0);
      })
unfolding get_freepacket_buffer from_pool
get_run others minfree fresh m s1 t p some_left run taken =
    elim (Bool-cases (ltb (m.packets.heads freepacketbuffers).qlen minfree)) [
      | inl low ↦ rw (lt→ltb 0 _ some_left, low, run, taken)
      | inr high ↦
          rw (lt→ltb 0 _ some_left, high, run, taken)
            (ap
              (λ k. clear_packet p (record {
                packets = t;
                allocatedpacketbuffers = m.allocatedpacketbuffers;
                signals = k;
              }))
              (omega arith))
    ]

-- While the pool holds packets, `get_freepacket_buffer` returns its oldest one, as the other threads
-- leave the pool, with no links and every byte zero, keeps the others in order, allocates nothing,
-- and wakes the memory manager just when fewer than the minimum were left.
pub get_freepacket_buffer-Taken :
    (others : Cmd (Store Packet) (Unit {0})) (minfree : ℕ) (fresh : Ptr) (m : Memory)
    (s1 : Store Packet) (p : Ptr) (a : Packet) (xs : List (Ptr × Packet))
    → 0 < (m.packets.heads freepacketbuffers).qlen
    → others (m.packets) ≡ ok tt s1
    → IsQueue s1 freepacketbuffers ((p, a) ∷ xs)
    → length xs + 1 < 2 ^ 32
    → (t : Memory) × (get_freepacket_buffer others minfree fresh m ≡ ok p t)
      × IsQueue (t.packets) freepacketbuffers xs
      × (t.packets.heap p ≡ some (node null null zero_packet))
      × (t.allocatedpacketbuffers ≡ m.allocatedpacketbuffers)
      × (t.signals
          ≡ m.signals + (if ltb (m.packets.heads freepacketbuffers).qlen minfree then 1 else 0))
get_freepacket_buffer-Taken others minfree fresh m s1 p a xs some_left run q fits =
    let (t, took, taken) =
      dequeue_packet-Taken (pure tt) false s1 freepacketbuffers p a xs q fits in
    let chain = q.counted.chain in
    (
      _,
      get_run others minfree fresh m s1 t p some_left run took ∙ clear_packet_run _ p (chain.0),
      IsQueue-write t freepacketbuffers xs p zero_packet (taken.queue) (chain.2),
      write_self (t.heap) p _,
      refl,
      refl,
    )

calloc_run :
    (others : Cmd (Store Packet) (Unit {0})) (minfree : ℕ) (fresh : Ptr) (m : Memory)
    → (m.packets.heads freepacketbuffers).qlen ≡ 0
    → fresh ≢ null
    → get_freepacket_buffer others minfree fresh m
      ≡ clear_packet fresh (record {
        packets = record (m.packets) {
          heap = write (m.packets.heap) fresh (some (node null null zero_packet));
        };
        allocatedpacketbuffers = (m.allocatedpacketbuffers + 1) % 2 ^ 32;
        signals = m.signals + 1;
      })
unfolding get_freepacket_buffer from_calloc newpacket
calloc_run others minfree fresh m empty ne =
    let fresh_ne : (fresh == null) ≡ false = ground arith in rw (empty, fresh_ne)

-- When the pool is empty, `get_freepacket_buffer` wakes the memory manager and returns the buffer
-- that `calloc` gave, with no links and every byte zero, and counts it; the pool stays empty.
pub get_freepacket_buffer-allocated :
    (others : Cmd (Store Packet) (Unit {0})) (minfree : ℕ) (fresh : Ptr) (m : Memory)
    → IsQueue (m.packets) freepacketbuffers []
    → fresh ≢ null
    → (t : Memory) × (get_freepacket_buffer others minfree fresh m ≡ ok fresh t)
      × IsQueue (t.packets) freepacketbuffers []
      × (t.packets.heap fresh ≡ some (node null null zero_packet))
      × (t.allocatedpacketbuffers ≡ (m.allocatedpacketbuffers + 1) % 2 ^ 32)
      × (t.signals ≡ m.signals + 1)
get_freepacket_buffer-allocated others minfree fresh m q ne = (
  _,
  calloc_run others minfree fresh m (q.counted.count) ne ∙ clear_packet_run _ fresh ne,
  IsQueue-write _ freepacketbuffers [] fresh zero_packet
      (IsQueue-write (m.packets) freepacketbuffers [] fresh zero_packet q refl) refl,
  write_self _ fresh _,
  refl,
  refl,
)
