-- ===== src/Queue.antt =====
-- opennopd/queuemanager.c with include/packet.h and opennopd/packet.c: the packet queues. A queue
-- is named by a number. Each function holds the queue's lock throughout, so it is one step; the wait
-- of `dequeue_packet`, which gives the lock away, is an argument.
pub mod Fifo
pub mod Move
use opennop.Prelude.{
  ℕ, zero, suc, ◌+◌, ◌-◌, ◌%◌, ◌^◌, Bool, true, false, ◌&&◌, List, [], ◌∷◌, ◌++◌, none, some, ◌==◌,
  if◌then◌else◌, take, drop, replicate, length,
}
use opennop.Prelude.Run.{ok, fault, Cmd, pure, when, ◌>>=◌, ◌>>◌}
use opennop.Heap.{
  Ptr, null, Node, node, Store, load, store, set_next, set_prev, set_item, get_head, set_head,
  link_tail,
}

abbrev pub bufsize : ℕ
bufsize = 2048

-- `hq` is the handle of the Netfilter queue.
pub record Packet : Type 0 where
  pub hq : ℕ
  pub id : ℕ
  pub bytes : List ℕ

abbrev pub zero_packet : Packet
zero_packet = record { hq = 0; id = 0; bytes = replicate bufsize 0 }

-- `fresh` is what `calloc` returns; the result is written to at once, so NULL is a fault.
unfoldable pub newpacket : Ptr → Cmd (Store Packet) Ptr
newpacket fresh =
    if fresh == null
    then (λ _. fault)
    else do store fresh (some (node null null zero_packet)); pure fresh

-- `memmove` of the first `ret` bytes of the original packet.
unfoldable pub save_packet : Ptr → ℕ → ℕ → ℕ → List ℕ → Cmd (Store Packet) (Unit {0})
save_packet p hq id ret original = do
  n ← load p
  set_item p (record { hq = hq; id = id; bytes = take ret original ++ drop ret n.item.bytes })

-- The C result 0 or -1.
pub data Status : Type 0 where
  success failure : Status

unfoldable pub queue_packet : ℕ → Ptr → Cmd (Store Packet) Status
queue_packet i p = if p == null then pure failure else do link_tail i p; pure success

unfoldable pub take_first : ℕ → Cmd (Store Packet) Ptr
take_first i = do
  hd ← get_head i
  if hd.next == null then pure null else do
    n ← load hd.next
    set_head i (record hd { next = n.next; qlen = (hd.qlen + 2 ^ 32 - 1) % 2 ^ 32 })
    set_next hd.next null
    set_prev hd.next null
    pure hd.next

-- `wait` is what the other threads do while this one waits for the signal.
unfoldable pub dequeue_packet : Cmd (Store Packet) (Unit {0}) → ℕ → Bool → Cmd (Store Packet) Ptr
dequeue_packet wait i signal = do hd ← get_head i; when (hd.qlen == 0 && signal) wait; take_first i

-- Returns how many packets were moved.
unfoldable pub move_queued_packets : ℕ → ℕ → Cmd (Store Packet) ℕ
move_queued_packets from to = do
  hd ← get_head from
  set_head from (record { next = null; prev = null; qlen = 0 })
  dest ← get_head to
  if dest.next == null
      then set_head to (record { next = hd.next; prev = hd.prev; qlen = hd.qlen })
      else do
        set_prev hd.next dest.prev
        set_next dest.prev hd.next
        set_head to (record dest { prev = hd.prev; qlen = (dest.qlen + hd.qlen) % 2 ^ 32 })
  pure hd.qlen
