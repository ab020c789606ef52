-- ===== src/Fetcher/Queued.antt =====
-- opennopd/subsystems/fetcher.c: a packet of a known session goes to the session's worker.
use opennop.Prelude.{
  ℕ, ◌+◌, ◌%◌, ◌^◌, ◌≤◌, ◌<◌, ◌≡◌, ◌≢◌, refl, Bool, true, false, Option, some, List, [], ◌∷◌, ◌++◌,
  arith, leb, ◌==◌, if◌then◌else◌, take, drop, length,
}
use opennop.Prelude.Run.{ok, Cmd}
use opennop.Bytes.{tot_len, protocol}
use opennop.Heap.{Ptr, null, Node, node, Store, write}
use opennop.Heap.Points.{load-ok, set_item-ok, write_self}
use opennop.Heap.Segment.{◌∉◌}
use opennop.Queue.{Packet, zero_packet, success, save_packet, queue_packet}
use opennop.Queue.Fifo.{IsQueue, queue_packet-append}
use opennop.Memory.{Memory, get_freepacket_buffer}
use opennop.Memory.Buffers.{IsQueue-write}
use opennop.Sessions.{Session, getsession}
use opennop.Tracking.{syn}
use opennop.Nod.{HdrData, onop, get_nod_header_data}
use opennop.Daemon.{
  Daemon, sockets, id_at, in_domain, optimization, deoptimization, optimize_packet,
  deoptimize_packet,
}
use opennop.Fetcher.{remote_id, queue_copy, known, other_traffic, fetch_tcp, fetcher_callback}

-- What the buffer holds once the packet is copied.
abbrev pub copy_of : ℕ → ℕ → ℕ → List ℕ → Packet
copy_of hq id ret original = record {
  hq = hq;
  id = id;
  bytes = take ret original ++ drop ret zero_packet.bytes;
}

-- The queue for a packet of a session of this worker.
abbrev pub queue_for : Bool → ℕ → ℕ
queue_for deoptimize worker = if deoptimize then deoptimization worker else optimization worker

abbrev saved : Memory → Ptr → Packet → Store Packet
saved m p a = record (m.packets) { heap = write (m.packets.heap) p (some (node null null a)) }

save_packet-saved :
    (m : Memory) (p : Ptr) (hq id ret : ℕ) (original : List ℕ)
    → p ≢ null
    → m.packets.heap p ≡ some (node null null zero_packet)
    → save_packet p hq id ret original m.packets ≡ ok tt (saved m p (copy_of hq id ret original))
unfolding save_packet
save_packet-saved m p hq id ret original ne at =
    rw
      (
        load-ok p m.packets (node null null zero_packet) ne at,
        set_item-ok p m.packets (node null null zero_packet) ne at,
      )
      refl

enqueue_lem :
    (deoptimize : Bool) (q p : ℕ) (s t : Store Packet)
    → queue_packet (queue_for deoptimize q) p s ≡ ok success t
    → (if deoptimize then deoptimize_packet q p else optimize_packet q p) s ≡ ok success t
unfolding deoptimize_packet optimize_packet
enqueue_lem true q p s t run = run
enqueue_lem false q p s t run = run

module _ (nod_var nodh_var hq id ret : ℕ) (new_session new_buffer : Ptr) (minfree : ℕ)
    (others : Cmd (Store Packet) (Unit {0})) (deoptimize : Bool) (d : Daemon) (s p : Ptr)
    (n : Node Session) (m : Memory) (xs : List (Ptr × Packet)) (s_there : s ≢ null)
    (session : d.table.buckets.heap s ≡ some n)
    (taken : get_freepacket_buffer others minfree new_buffer d.memory ≡ ok p m) (p_there : p ≢ null)
    (clean : m.packets.heap p ≡ some (node null null zero_packet))
    (queue : IsQueue m.packets (queue_for deoptimize n.item.queue) xs) (loose : p ∉ xs)
    (room : length xs + 1 < 2 ^ 32) where
  queue_copy-Queued :
      (t : Store Packet) × (queue_copy nod_var nodh_var hq id ret new_session new_buffer minfree
          others deoptimize s d
        ≡ ok tt (record d {
          memory = record m { packets = t };
          metrics = record (d.metrics) { packets = (d.metrics.packets + 1) % 2 ^ 32 };
        }))
      × IsQueue t (queue_for deoptimize n.item.queue) (xs ++ (p, copy_of hq id ret d.original) ∷ [])
  unfolding queue_copy
  queue_copy-Queued =
      let a = copy_of hq id ret d.original in
      let (fails, t, run, queued, spared, heads) =
        queue_packet-append (saved m p a) (queue_for deoptimize n.item.queue) p a xs
          (IsQueue-write m.packets _ xs p a queue loose) room p_there
          (write_self m.packets.heap p _) loose in
      let there : (p == null) ≡ false = ground arith in
      (
        t,
        rw
            (
              taken,
              there,
              save_packet-saved m p hq id ret d.original p_there clean,
              load-ok s d.table.buckets n s_there session,
              enqueue_lem deoptimize n.item.queue p (saved m p a) t run,
            )
            refl,
        queued,
      )

-- A packet that `fetcher_callback` sends to the workers: TCP with a number, no SYN, its accelerator's
-- header can be read, and its session is in the table.
pub record IsTraffic (nod_var nodh_var id : ℕ) (d : Daemon) (header : HdrData) (s : Ptr)
    (n : Node Session) : Type 0 where
  pub numbered : id ≢ 0
  pub is_tcp : protocol d.original ≡ 6
  pub no_syn : syn d.original ≡ false
  pub readable : get_nod_header_data nod_var nodh_var onop d.original ≡ ok header d.original
  pub found :
      let (lip, lport, sip, sport) = sockets d.original in
      getsession lip lport sip sport d.table.buckets ≡ ok s d.table.buckets
  pub there : s ≢ null
  pub session : d.table.buckets.heap s ≡ some n

-- The remote ID in the packet.
abbrev pub remote_of : HdrData → Daemon → Option (List ℕ)
remote_of header d = id_at header.data_at d.original

module _ (nod_var nodh_var hq id ret servicestate : ℕ) (new_session new_buffer : Ptr) (minfree : ℕ)
    (others : Cmd (Store Packet) (Unit {0})) (d : Daemon) (header : HdrData) (s p : Ptr)
    (n : Node Session) (m : Memory) (xs : List (Ptr × Packet)) where
  -- While the service runs, a TCP packet with a number, no SYN and a readable accelerator's header,
  -- whose session is in the table, is copied to the buffer that `get_freepacket_buffer` returns, which
  -- goes to the end of the worker's queue of the session: the one for decompression when the
  -- header's ID is that of a neighbor that is up, the other one else. The packet is counted with its
  -- length, it gets no verdict yet, and neither it nor the table is changed.
  pub fetcher_callback-Queued :
      1 ≤ servicestate
      → IsTraffic nod_var nodh_var id d header s n
      → get_freepacket_buffer others minfree new_buffer d.memory ≡ ok p m
      → p ≢ null
      → m.packets.heap p ≡ some (node null null zero_packet)
      → let queue = queue_for (in_domain (remote_of header d) d.neighbors) n.item.queue in
        IsQueue m.packets queue xs
        → p ∉ xs
        → length xs + 1 < 2 ^ 32
        → (t : Store Packet) × (fetcher_callback nod_var nodh_var hq id ret new_session new_buffer
              minfree others servicestate d
            ≡ ok tt (record d {
              memory = record m { packets = t };
              metrics = record (d.metrics) {
                packets = (d.metrics.packets + 1) % 2 ^ 32;
                bytesin = (d.metrics.bytesin + tot_len d.original) % 2 ^ 32;
              };
            }))
          × IsQueue t queue (xs ++ (p, copy_of hq id ret d.original) ∷ [])
  unfolding fetcher_callback fetch_tcp remote_id other_traffic known
  fetcher_callback-Queued runs traffic taken p_there clean queue loose room =
      let counted : Daemon = record d {
        metrics = record (d.metrics) {
          bytesin = (d.metrics.bytesin + tot_len d.original) % 2 ^ 32;
        };
      } in
      let (t, run, queued) =
        queue_copy-Queued nod_var nodh_var hq id ret new_session new_buffer minfree others
          (in_domain (remote_of header d) d.neighbors) counted s p n m xs traffic.there
          traffic.session taken p_there clean queue loose room in
      let service : leb 1 servicestate ≡ true = ground arith in
      let numbered : (id == 0) ≡ false = let ne = traffic.numbered in ground arith in
      let there : (s == null) ≡ false = let ne = traffic.there in ground arith in
      (
        t,
        rw
            (
              service, traffic.is_tcp, numbered, traffic.readable, traffic.no_syn, traffic.found,
              there, traffic.no_syn,
            )
            run,
        queued,
      )
