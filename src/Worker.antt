-- ===== src/Worker.antt =====
-- opennopd/subsystems/worker.c: what `worker_thread` does with the packets of its queue. The packet's
-- bytes are changed in their buffer. QuickLZ, the wait for a packet and the addresses of
-- `get_nod_next_header`'s parameters are arguments.
pub mod Served
pub mod Passed
use opennop.Prelude.{
  ℕ, zero, suc, ◌+◌, ◌*◌, ◌%◌, ◌^◌, Bool, true, false, ◌&&◌, ◌||◌, Option, none, some, List, [],
  ◌∷◌, leb, ◌==◌, if◌then◌else◌,
}
use opennop.Prelude.Run.{Run, ok, fault, out_of_fuel, Cmd, pure, when, ◌>>=◌, ◌>>◌}
use opennop.Bytes.{tot_len}
use opennop.Heap.{Ptr, null, Store, Head, load}
use opennop.Queue.{Packet, Status, dequeue_packet}
use opennop.Memory.{put_freepacket_buffer}
use opennop.Sessions.{Session, larger_side, smaller_side, getsession, clearsession}
use opennop.Tracking.{
  saddr, syn, updateseq, saveacceleratorid, closingsession, compare_opennopid, check_opennopid,
  tcp_established,
}
use opennop.Checksum.{checksum}
use opennop.OldOptions.{get_tcp_option}
use opennop.Nod.{HdrData, onop, get_nod_header_data, set_nod_header_data}
use opennop.Compression.{tcp_compress, tcp_decompress}
use opennop.Daemon.{
  Verdict, accepted, unchanged, dropped, Daemon, on_table, on_sessions, on_memory, on_packets,
  on_buffer, set_verdict, count_packet, count_bytesin, count_bytesout, sockets, ack, fin, rst,
  id_at, in_domain,
}

abbrev pub is_null : Ptr → Bool
is_null p = p == null

-- The bytes in a buffer.
unfoldable pub bytes_of : Ptr → Cmd Daemon (List ℕ)
bytes_of p = on_packets (do n ← load p; pure n.item.bytes)

unfoldable pub checksum_bytes : Cmd (List ℕ) (Unit {0})
checksum_bytes p = elim (checksum p) [ none ↦ out_of_fuel | some q ↦ pure tt q ]

-- The packet goes back to Netfilter with a verdict, its buffer to the pool.
unfoldable pub conclude : Verdict → Ptr → Cmd Daemon (Unit {0})
conclude v p = do set_verdict v; on_memory (put_freepacket_buffer p); pure tt

abbrev not_local : List ℕ → List ℕ → Bool
not_local localid id = if compare_opennopid id localid then false else true

-- The packet comes from an end of the session that this accelerator serves, and the other end has
-- another accelerator.
unfoldable pub is_between : List ℕ → ℕ → ℕ → ℕ → Session → Bool
is_between localid from larger_ip smaller_ip s =
    (((from == larger_ip)
        && compare_opennopid s.larger.accelerator localid
        && check_opennopid s.smaller.accelerator
        && not_local localid s.smaller.accelerator)
      || ((from == smaller_ip)
          && compare_opennopid s.smaller.accelerator localid
          && check_opennopid s.larger.accelerator
          && not_local localid s.larger.accelerator))
    && (s.state == tcp_established)

-- The packet goes to an end of the session that this accelerator serves.
unfoldable pub is_receiver : List ℕ → ℕ → ℕ → ℕ → Session → Bool
is_receiver localid from larger_ip smaller_ip s =
    ((from == larger_ip) && compare_opennopid s.smaller.accelerator localid)
    || ((from == smaller_ip) && compare_opennopid s.larger.accelerator localid)

module _ (qlz_compress qlz_decompress : List ℕ → List ℕ) (nod_var nodh_var : ℕ)
    (wait : Cmd (Store Packet) (Unit {0})) where
  -- `hq` and `id` of the packet in the buffer, and the two addresses of its session.
  module _ (hq id : ℕ) (p s : Ptr) (larger_ip smaller_ip : ℕ) where
    -- A session is changed by what the packet says now.
    unfoldable pub by_packet : (List ℕ → Cmd (Store Session) Status) → Cmd Daemon (Unit {0})
    unfolding bytes_of
    by_packet f = do bytes ← bytes_of p; on_sessions (f bytes); pure tt

    unfoldable pub follow : Cmd Daemon (Unit {0})
    unfolding by_packet
    follow = by_packet (λ bytes. updateseq larger_ip bytes s)

    -- The first accelerator on the way.
    unfoldable pub optimize : Cmd Daemon (Unit {0})
    unfolding by_packet follow bytes_of is_between
    optimize = do
      λ d. by_packet (λ bytes. saveacceleratorid larger_ip d.localid bytes s) d
      λ d. on_buffer p (set_nod_header_data nod_var nodh_var onop d.localid) d
      bytes ← bytes_of p
      n ← on_sessions (load s)
      follow
      λ d.
          when (is_between d.localid (saddr bytes) larger_ip smaller_ip n.item)
            (do on_buffer p (tcp_compress qlz_compress qlz_decompress d.compression true); pure tt)
            d

    -- Decompression, or the drop of the packet; the result says whether it is still there.
    unfoldable pub decompress : Cmd Daemon Bool
    unfolding conclude follow
    decompress = do
      done ← on_buffer p (tcp_decompress qlz_compress qlz_decompress true)
      if done == 0 then (do conclude (dropped hq id) p; pure false) else (do follow; pure true)

    -- The second accelerator on the way.
    unfoldable pub deoptimize : List ℕ → Cmd Daemon Bool
    unfolding by_packet follow bytes_of decompress is_receiver
    deoptimize remote = do
      by_packet (λ bytes. saveacceleratorid larger_ip remote bytes s)
      flag ← on_buffer p (get_tcp_option 31)
      bytes ← bytes_of p
      n ← on_sessions (load s)
      if flag == 0 then (do follow; pure true) else λ d.
          if is_receiver d.localid (saddr bytes) larger_ip smaller_ip n.item
          then decompress d
          else pure true d

    -- A segment of an open connection.
    unfoldable pub accelerate : Option (List ℕ) → Cmd Daemon Bool
    unfolding optimize deoptimize
    accelerate none = do optimize; pure true
    accelerate (some remote) = λ d.
        if in_domain (some remote) d.neighbors
        then deoptimize remote d
        else (do optimize; pure true) d

    -- The flags are read from the buffer, which after a drop is in the pool.
    unfoldable pub end_session : Cmd Daemon (Unit {0})
    unfolding bytes_of
    end_session = do
      bytes ← bytes_of p
      s' ← (if rst bytes then on_table (clearsession s) else pure s)
      (if fin bytes then (do on_table (closingsession s'); pure tt) else pure tt)

    unfoldable pub finish : Bool → Cmd Daemon (Unit {0})
    unfolding checksum_bytes bytes_of conclude
    finish false = pure tt
    finish true = do
      on_buffer p checksum_bytes
      bytes ← bytes_of p
      count_bytesout (tot_len bytes)
      conclude (accepted hq id (tot_len bytes) bytes) p

    unfoldable pub work_session : Option (List ℕ) → Cmd Daemon (Unit {0})
    unfolding bytes_of accelerate end_session finish
    work_session remote = do
      bytes ← bytes_of p
      there ←
          (if (if syn bytes then false else true)
              && ack bytes
              && (if fin bytes then false else true)
            then accelerate remote
            else pure true)
      end_session
      finish there

  -- The search for the session, and the packet with it or without.
  unfoldable pub serve : ℕ → ℕ → Ptr → Option (List ℕ) → List ℕ → Cmd Daemon (Unit {0})
  unfolding work_session conclude
  serve hq id p remote bytes =
      let (larger_ip, larger_port, smaller_ip, smaller_port) = sockets bytes in
      (do
        s ← on_sessions (getsession larger_ip larger_port smaller_ip smaller_port)
        (if is_null s
            then (do count_bytesout (tot_len bytes); conclude (unchanged hq id) p)
            else work_session hq id p s larger_ip smaller_ip remote))

  unfoldable pub work_packet : Ptr → Cmd Daemon (Unit {0})
  unfolding bytes_of serve
  work_packet p = do
    n ← on_packets (load p)
    count_bytesin (tot_len n.item.bytes)
    found ← on_buffer p (get_nod_header_data nod_var nodh_var onop)
    bytes ← bytes_of p
    serve n.item.hq n.item.id p (id_at found.data_at bytes) bytes
    count_packet

  -- A round of the loop, for the queue of this thread.
  unfoldable pub worker_round : ℕ → Cmd Daemon (Unit {0})
  unfolding work_packet
  worker_round queue = do
    p ← on_packets (dequeue_packet wait queue true)
    if is_null p then pure tt else work_packet p
