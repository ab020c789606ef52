-- ===== src/Worker/Passed.antt =====
-- opennopd/subsystems/worker.c: a packet of no session goes on as it is.
use opennop.Prelude.{ℕ, ◌+◌, ◌%◌, ◌^◌, ◌<◌, ◌≡◌, ◌≢◌, refl, some, List, [], ◌∷◌, ◌++◌, length}
use opennop.Prelude.Run.{ok, Cmd}
use opennop.Bytes.{tot_len}
use opennop.Heap.{Ptr, null, node, Store, write}
use opennop.Heap.Points.{load-ok, set_item-ok, write_self}
use opennop.Heap.Segment.{◌∉◌}
use opennop.Queue.{Packet}
use opennop.Queue.Fifo.{IsQueue, queue_packet-append}
use opennop.Memory.{freepacketbuffers, put_freepacket_buffer}
use opennop.Memory.Buffers.{IsQueue-write}
use opennop.Sessions.{getsession}
use opennop.Nod.{HdrData, onop, get_nod_header_data}
use opennop.Daemon.{unchanged, Daemon, on_buffer, sockets}
use opennop.Worker.{bytes_of, conclude, serve, work_packet}

-- The packet in a buffer that is in no queue, with a readable accelerator's header and no session.
pub record IsStray (nod_var nodh_var : ℕ) (d : Daemon) (p : Ptr) (a : Packet) (header : HdrData)
    : Type 0 where
  pub there : p ≢ null
  pub at : d.memory.packets.heap p ≡ some (node null null a)
  pub readable : get_nod_header_data nod_var nodh_var onop a.bytes ≡ ok header a.bytes
  pub unknown :
      let (lip, lport, sip, sport) = sockets a.bytes in
      getsession lip lport sip sport d.table.buckets ≡ ok null d.table.buckets

-- For a packet of no session on which `get_nod_header_data` ends without a fault, a worker ends its
-- round: the packet goes on unchanged, its buffer is
-- the last one of the pool, its length is counted in and out, and the sessions are as they were.
pub work_packet-Passed :
    (qlz_compress qlz_decompress : List ℕ → List ℕ) (nod_var nodh_var : ℕ)
    (wait : Cmd (Store Packet) (Unit {0})) (d : Daemon) (p : Ptr) (a : Packet) (header : HdrData)
    (xs : List (Ptr × Packet))
    → IsStray nod_var nodh_var d p a header
    → IsQueue d.memory.packets freepacketbuffers xs
    → p ∉ xs
    → length xs + 1 < 2 ^ 32
    → (t : Store Packet) × (work_packet qlz_compress qlz_decompress nod_var nodh_var wait p d
        ≡ ok tt (record d {
          memory = record (d.memory) { packets = t };
          metrics = record {
            packets = (d.metrics.packets + 1) % 2 ^ 32;
            bytesin = (d.metrics.bytesin + tot_len a.bytes) % 2 ^ 32;
            bytesout = (d.metrics.bytesout + tot_len a.bytes) % 2 ^ 32;
          };
          verdicts = unchanged a.hq a.id ∷ d.verdicts;
        }))
      × IsQueue t freepacketbuffers (xs ++ (p, a) ∷ [])
unfolding work_packet serve conclude bytes_of on_buffer put_freepacket_buffer
work_packet-Passed qlz_compress qlz_decompress nod_var nodh_var wait d p a header xs stray pool
      loose room =
    let n = node null null a in
    let s : Store Packet = record (d.memory.packets) {
      heap = write (d.memory.packets.heap) p (some n);
    } in
    let (fails, t, run, queued, spared, heads) =
      queue_packet-append s freepacketbuffers p a xs
        (IsQueue-write d.memory.packets _ xs p a pool loose) room stray.there
        (write_self d.memory.packets.heap p _) loose in
    (
      t,
      rw
          (
            load-ok p d.memory.packets n stray.there stray.at,
            load-ok p d.memory.packets n stray.there stray.at,
            stray.readable,
            set_item-ok p d.memory.packets n stray.there stray.at,
            load-ok p s n stray.there (write_self d.memory.packets.heap p _),
            stray.unknown,
            run,
          )
          refl,
      queued,
    )
