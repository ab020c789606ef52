-- ===== src/Memory.antt =====
-- opennopd/subsystems/memorymanager.c: the pool of free packet buffers and its refilling through a
-- staging queue. What other threads do between two locks is an argument.
pub mod Buffers
pub mod Refill
use opennop.Prelude.{
  ℕ, ◌+◌, ◌%◌, ◌^◌, Bool, true, false, List, [], ◌∷◌, ltb, ◌==◌, if◌then◌else◌, some,
}
use opennop.Prelude.Run.{Run, ok, fault, out_of_fuel, Cmd, pure, when, ◌>>=◌, ◌>>◌}
use opennop.Heap.{Ptr, null, node, Store, store}
use opennop.Queue.{
  Packet, zero_packet, newpacket, Status, queue_packet, dequeue_packet, move_queued_packets,
}

abbrev pub freepacketbuffers : ℕ
freepacketbuffers = 0

abbrev pub packetbufferstaging : ℕ
packetbufferstaging = 1

-- `signals` counts the wake-ups sent to the memory manager.
pub record Memory : Type 0 where
  pub packets : Store Packet
  pub allocatedpacketbuffers : ℕ
  pub signals : ℕ

abbrev pub lift_run : {A : Type 0} → Memory → Run (Store Packet) A → Run Memory A
lift_run m (ok a s) = ok a (record m { packets = s })
lift_run m fault = fault
lift_run m out_of_fuel = out_of_fuel

abbrev pub lift : {A : Type 0} → Cmd (Store Packet) A → Cmd Memory A
lift c m = lift_run m (c m.packets)

abbrev pub signal : Cmd Memory (Unit {0})
signal m = ok tt (record m { signals = m.signals + 1 })

abbrev pub count_allocated : ℕ → Cmd Memory (Unit {0})
count_allocated n m =
    ok tt (record m { allocatedpacketbuffers = (m.allocatedpacketbuffers + n) % 2 ^ 32 })

-- The loop runs once for each of the buffers that `calloc` returns.
unfoldable pub allocatefreepacketbuffers : ℕ → List Ptr → Cmd (Store Packet) (Unit {0})
allocatefreepacketbuffers queue [] = pure tt
allocatefreepacketbuffers queue (fresh ∷ rest) = do
  p ← newpacket fresh
  queue_packet queue p
  allocatefreepacketbuffers queue rest

-- One round of the manager: it stages new buffers and moves them to the pool.
unfoldable pub refill : List Ptr → Cmd Memory ℕ
refill fresh = do
  lift (allocatefreepacketbuffers packetbufferstaging fresh)
  n ← lift (move_queued_packets packetbufferstaging freepacketbuffers)
  count_allocated n
  pure n

-- `memset` of the whole packet, its links included.
unfoldable pub clear_packet : Ptr → Cmd Memory Ptr
clear_packet p =
    if p == null then pure null else do lift (store p (some (node null null zero_packet))); pure p

-- The branch of a pool that was not empty.
unfoldable pub from_pool : Cmd (Store Packet) (Unit {0}) → ℕ → ℕ → Cmd Memory Ptr
from_pool others minfreepacketbuffers qlen = do
  when (ltb qlen minfreepacketbuffers) signal
  lift others
  lift (dequeue_packet (pure tt) freepacketbuffers false)

unfoldable pub from_calloc : Ptr → Cmd Memory Ptr
from_calloc fresh = do signal; p ← lift (newpacket fresh); count_allocated 1; pure p

-- `others` is what the other threads do before `dequeue_packet` takes the lock.
unfoldable pub get_freepacket_buffer : Cmd (Store Packet) (Unit {0}) → ℕ → Ptr → Cmd Memory Ptr
get_freepacket_buffer others minfreepacketbuffers fresh m =
    let qlen = (m.packets.heads freepacketbuffers).qlen in
    (do
      p ← if ltb 0 qlen then from_pool others minfreepacketbuffers qlen else from_calloc fresh
      clear_packet p)
      m

unfoldable pub put_freepacket_buffer : Ptr → Cmd Memory Status
put_freepacket_buffer p = lift (queue_packet freepacketbuffers p)
