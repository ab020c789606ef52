-- ===== src/Examples/Packets.antt =====
-- A queue with two packets, one with a third, and a packet in neither.
use opennop.Prelude.{
  ℕ, ◌+◌, ◌%◌, ◌^◌, ◌<◌, ◌≡◌, refl, ◌≢◌, true, some, none, List, [], ◌∷◌, ◌++◌, arith, ltb,
  if◌then◌else◌,
}
use opennop.Prelude.Run.{ok, fault, pure}
use opennop.Heap.{Ptr, null, node, head, Store, write, update}
use opennop.Heap.Segment.{◌∉◌, Disjoint}
use opennop.Queue.{
  Packet, zero_packet, queue_packet, dequeue_packet, move_queued_packets, success, failure,
}
use opennop.Queue.Fifo.{IsQueue, Taken, queue_packet-append, dequeue_packet-Taken}
use opennop.Queue.Move.{Moved, move_queued_packets-append, move_queued_packets-fault}
use opennop.Memory.{Memory, refill, allocatefreepacketbuffers, get_freepacket_buffer}
use opennop.Memory.Refill.{blanks, Allocated, allocatefreepacketbuffers-Allocated, refill-append}
use opennop.Memory.Buffers.{get_freepacket_buffer-Taken, get_freepacket_buffer-allocated}

abbrev packet : ℕ → Packet
packet n = record { hq = 0; id = n; bytes = 69 ∷ n ∷ [] }

abbrev two : List (Ptr × Packet)
two = (3, packet 1) ∷ (4, packet 2) ∷ []

abbrev one : List (Ptr × Packet)
one = (6, packet 3) ∷ []

-- Queue 0 holds two packets, queue 1 one, the others none; the packet at 7 is free.
abbrev queues : Store Packet
queues = record {
  heads = update (update (λ _. head null null 0) 0 (head 3 4 2)) 1 (head 6 6 1);
  heap =
      write
        (write
          (write (write (λ _. none) 3 (some (node 4 null (packet 1)))) 4
            (some (node null 3 (packet 2))))
          6 (some (node null null (packet 3))))
        7 (some (node null null (packet 4)));
}

two-IsQueue : IsQueue queues 0 two
unfolding write update
two-IsQueue = record {
  before = null;
  counted = record {
    list = record {
      chain = (omega arith, refl, refl, (omega arith, refl, refl, tt));
      next = refl;
      tail = refl;
    };
    count = refl;
  };
}

one-IsQueue : IsQueue queues 1 one
unfolding write update
one-IsQueue = record {
  before = null;
  counted = record {
    list = record { chain = (omega arith, refl, refl, tt); next = refl; tail = refl };
    count = refl;
  };
}

none-IsQueue : IsQueue queues 2 []
unfolding write update
none-IsQueue = record {
  before = null;
  counted = record { list = record { chain = tt; next = refl; tail = tt }; count = refl };
}

loose : queues.heap 7 ≡ some (node null null (packet 4))
unfolding write
loose = refl

queue_packet-append_example :
    (queue_packet 0 null queues ≡ ok failure queues)
    × (t : Store Packet) × (queue_packet 0 7 queues ≡ ok success t)
    × IsQueue t 0 (two ++ (7, packet 4) ∷ [])
    × ((c : Ptr) → c ∉ two → c ≢ 7 → t.heap c ≡ queues.heap c)
    × ((j : ℕ) → j ≢ 0 → t.heads j ≡ queues.heads j)
queue_packet-append_example =
    queue_packet-append queues 0 7 (packet 4) two two-IsQueue (omega arith) (omega arith) loose refl

dequeue_packet-Taken_example :
    (t : Store Packet) × (dequeue_packet (pure tt) 0 true queues ≡ ok 3 t)
    × Taken queues 0 3 (packet 1) ((4, packet 2) ∷ []) t
dequeue_packet-Taken_example =
    dequeue_packet-Taken (pure tt) true queues 0 3 (packet 1) ((4, packet 2) ∷ []) two-IsQueue
      (omega arith)

apart : Disjoint two one
apart a i = ground arith

move_queued_packets-append_example :
    (t : Store Packet) × (move_queued_packets 1 0 queues ≡ ok 1 t)
    × Moved queues 1 0 ((6, packet 3) ∷ []) two t
move_queued_packets-append_example =
    move_queued_packets-append queues 1 0 6 (packet 3) [] two (omega arith) one-IsQueue two-IsQueue
      apart (omega arith)

move_queued_packets-fault_example : move_queued_packets 2 1 queues ≡ fault
move_queued_packets-fault_example =
    move_queued_packets-fault queues 2 1 6 (packet 3) [] (omega arith) none-IsQueue one-IsQueue

abbrev memory : Memory
memory = record { packets = queues; allocatedpacketbuffers = 4; signals = 0 }

-- The pool is empty and so is the staging queue.
abbrev drained : Memory
drained = record {
  packets = record { heads = λ _. head null null 0; heap = λ _. none };
  allocatedpacketbuffers = 0;
  signals = 0;
}

drained-IsQueue : (i : ℕ) → IsQueue (drained.packets) i []
drained-IsQueue i = record {
  before = null;
  counted = record { list = record { chain = tt; next = refl; tail = tt }; count = refl };
}

two_left : 0 < (queues.heads 0).qlen
unfolding update
two_left = omega arith

get_freepacket_buffer-Taken_example :
    (t : Memory) × (get_freepacket_buffer (pure tt) 10 9 memory ≡ ok 3 t)
    × IsQueue (t.packets) 0 ((4, packet 2) ∷ [])
    × (t.packets.heap 3 ≡ some (node null null zero_packet))
    × (t.allocatedpacketbuffers ≡ 4)
    × (t.signals ≡ 0 + (if ltb (queues.heads 0).qlen 10 then 1 else 0))
get_freepacket_buffer-Taken_example =
    get_freepacket_buffer-Taken (pure tt) 10 9 memory queues 3 (packet 1) ((4, packet 2) ∷ [])
      two_left refl two-IsQueue (omega arith)

get_freepacket_buffer-allocated_example :
    (t : Memory) × (get_freepacket_buffer (pure tt) 10 9 drained ≡ ok 9 t)
    × IsQueue (t.packets) 0 []
    × (t.packets.heap 9 ≡ some (node null null zero_packet))
    × (t.allocatedpacketbuffers ≡ (0 + 1) % 2 ^ 32)
    × (t.signals ≡ 0 + 1)
get_freepacket_buffer-allocated_example =
    get_freepacket_buffer-allocated (pure tt) 10 9 drained (drained-IsQueue 0) (omega arith)

allocatefreepacketbuffers-Allocated_example :
    (t : Store Packet) × (allocatefreepacketbuffers 0 (8 ∷ 9 ∷ []) queues ≡ ok tt t)
    × Allocated queues 0 (two ++ blanks (8 ∷ 9 ∷ [])) t
allocatefreepacketbuffers-Allocated_example =
    allocatefreepacketbuffers-Allocated queues 0 two (8 ∷ 9 ∷ []) two-IsQueue
      (omega arith, refl, (omega arith, refl, tt)) (omega arith)

refill-append_example :
    (t : Memory) × (refill (8 ∷ 9 ∷ []) drained ≡ ok 2 t)
    × IsQueue (t.packets) 1 []
    × IsQueue (t.packets) 0 (blanks (8 ∷ 9 ∷ []))
    × (t.allocatedpacketbuffers ≡ (0 + (1 + 1)) % 2 ^ 32)
refill-append_example =
    refill-append drained [] 8 (9 ∷ []) (drained-IsQueue 1) (drained-IsQueue 0)
      (omega arith, refl, (omega arith, refl, tt)) (λ a i. cc) (omega arith)
