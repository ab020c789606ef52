-- ===== src/Fetcher.antt =====
-- opennopd/subsystems/fetcher.c: what `fetcher_callback` does with a packet that Netfilter hands over.
-- The packet's bytes and the number of them are `nfq_get_payload`'s; what `calloc` returns for a
-- session and for a buffer, and what other threads do meanwhile, are arguments. The remote ID that is
-- found lies in the packet, which does not change while the code still reads it.
pub mod Queued
use opennop.Prelude.{
  ℕ, ◌+◌, ◌-◌, ◌%◌, ◌^◌, Bool, true, false, ◌&&◌, Option, none, some, List, ltb, leb, ◌==◌,
  if◌then◌else◌,
}
use opennop.Prelude.Run.{Run, ok, fault, out_of_fuel, Cmd, pure, when, ◌>>=◌, ◌>>◌}
use opennop.Bytes.{tot_len, protocol, ipproto_tcp}
use opennop.Heap.{Ptr, null, Store, load, set_item}
use opennop.Queue.{Packet, Status, save_packet}
use opennop.Memory.{get_freepacket_buffer}
use opennop.Sessions.{Session, getsession, insertsession}
use opennop.Tracking.{syn, updateseq, sourceisclient, saveacceleratorid, tcp_established}
use opennop.Checksum.{checksum}
use opennop.OldOptions.{get_tcp_option, set_tcp_option}
use opennop.Nod.{HdrData, onop, get_nod_header_data, set_nod_header_data}
use opennop.Daemon.{
  Verdict, accepted, unchanged, Daemon, on_table, on_sessions, on_memory, on_packets, on_original,
  set_verdict, count_packet, count_bytesin, sockets, ack, fin, id_at, in_domain, optimize_packet,
  deoptimize_packet,
}

abbrev pub tcp_syn_sent : ℕ
tcp_syn_sent = 2

abbrev pub running : ℕ
running = 1

-- A `checksum` on the packet in place; its loop that does not end is one without fuel.
unfoldable pub checksum_original : Cmd Daemon (Unit {0})
checksum_original d = elim (checksum d.original) [
  | none ↦ out_of_fuel
  | some p ↦ pure tt (record d { original = p })
]

abbrev pub is_null : Ptr → Bool
is_null p = p == null

unfoldable pub set_state : Ptr → ℕ → Cmd (Store Session) (Unit {0})
set_state p s = do n ← load p; set_item p (record (n.item) { state = s })

abbrev pub queue_of : Ptr → Cmd (Store Session) ℕ
queue_of p = do n ← load p; pure n.item.queue

-- One packet: the addresses of `get_nod_next_header`'s parameters, the queue's handle, the packet's
-- number and size, what `calloc` returns, and the pool's low mark.
module _ (nod_var nodh_var hq id ret : ℕ) (new_session new_buffer : Ptr) (minfree : ℕ)
    (others : Cmd (Store Packet) (Unit {0})) where
  -- The packet goes on as it is.
  abbrev pub accept : Cmd Daemon (Unit {0})
  accept = do count_packet; λ d. set_verdict (accepted hq id (tot_len d.original) d.original) d

  -- The packet goes on untouched.
  abbrev pub bypass : Cmd Daemon (Unit {0})
  bypass = do count_packet; set_verdict (unchanged hq id)

  unfoldable pub remote_id : Cmd Daemon (Option (List ℕ))
  remote_id = do
    found ← on_original (get_nod_header_data nod_var nodh_var onop)
    λ d. pure (id_at found.data_at d.original) d

  -- The local ID is written into the packet and the session.
  unfoldable pub sign : ℕ → Ptr → Cmd Daemon (Unit {0})
  sign larger_ip s = do
    λ d. on_original (set_nod_header_data nod_var nodh_var onop d.localid) d
    λ d. on_sessions (saveacceleratorid larger_ip d.localid d.original s) d
    pure tt

  -- The maximum segment size makes room for the options; `after` follows when it did.
  unfoldable pub announce : ℕ → Ptr → Cmd Daemon (Unit {0}) → Cmd Daemon (Unit {0})
  unfolding sign
  announce larger_ip s after = do
    mms ← on_original (get_tcp_option 2)
    when (ltb 60 (mms % 2 ^ 16))
        (do on_original (set_tcp_option 2 4 (mms % 2 ^ 16 - 60)); sign larger_ip s; after)

  -- The ID of a packet that opens a connection: the local one, or the neighbor's.
  unfoldable pub greet : ℕ → Ptr → Option (List ℕ) → Cmd Daemon (Unit {0}) → Cmd Daemon (Unit {0})
  unfolding announce
  greet larger_ip s none after d = announce larger_ip s after d
  greet larger_ip s (some remote) after d =
      if in_domain (some remote) d.neighbors
      then (do on_sessions (saveacceleratorid larger_ip remote d.original s); pure tt) d
      else announce larger_ip s after d

  -- A SYN: the session is found or made.
  unfoldable pub admit_syn : ℕ × ℕ × ℕ × ℕ → Option (List ℕ) → Cmd Daemon (Unit {0})
  unfolding greet checksum_original set_state
  admit_syn (larger_ip, larger_port, smaller_ip, smaller_port) remote = do
    old ← on_sessions (getsession larger_ip larger_port smaller_ip smaller_port)
    s ←
        (if is_null old
          then on_table (insertsession new_session larger_ip larger_port smaller_ip smaller_port)
          else pure old)
    (if is_null s then pure tt else (do
      λ d. on_sessions (sourceisclient larger_ip d.original s) d
      λ d. on_sessions (updateseq larger_ip d.original s) d
      greet larger_ip s remote checksum_original
      on_sessions (set_state s tcp_syn_sent)))
    accept

  -- A SYN/ACK of a known session.
  unfoldable pub admit_syn_ack : ℕ → Ptr → Option (List ℕ) → Cmd Daemon (Unit {0})
  unfolding greet checksum_original set_state
  admit_syn_ack larger_ip s remote = do
    λ d. on_sessions (updateseq larger_ip d.original s) d
    greet larger_ip s remote (pure tt)
    on_sessions (set_state s tcp_established)
    checksum_original
    accept

  -- The packet is copied to a buffer, which goes to one of the queues of the session's worker. With
  -- no buffer the packet gets neither a queue nor a verdict.
  unfoldable pub queue_copy : Bool → Ptr → Cmd Daemon (Unit {0})
  queue_copy deoptimize s = do
    p ← on_memory (get_freepacket_buffer others minfree new_buffer)
    (if is_null p then pure tt else (do
      λ d. on_packets (save_packet p hq id ret d.original) d
      queue ← on_sessions (queue_of s)
      on_packets (if deoptimize then deoptimize_packet queue p else optimize_packet queue p)
      pure tt))
    count_packet

  -- A packet of a session that only the other accelerator knows.
  unfoldable pub adopt : ℕ × ℕ × ℕ × ℕ → List ℕ → Cmd Daemon (Unit {0})
  unfolding sign queue_copy set_state
  adopt (larger_ip, larger_port, smaller_ip, smaller_port) remote = do
    s ← on_table (insertsession new_session larger_ip larger_port smaller_ip smaller_port)
    (if is_null s then accept else (do
      on_sessions (set_state s tcp_established)
      λ d.
          (if in_domain (some remote) d.neighbors
            then (do on_sessions (saveacceleratorid larger_ip remote d.original s); pure tt) d
            else sign larger_ip s d)
      queue_copy true s))

  -- A packet that is no SYN, of a session that was found or was not.
  unfoldable pub known : ℕ → Ptr → Option (List ℕ) → Cmd Daemon (Unit {0})
  unfolding admit_syn_ack queue_copy
  known larger_ip s remote d =
      if syn d.original && ack d.original
      then admit_syn_ack larger_ip s remote d
      else queue_copy (in_domain remote d.neighbors) s d

  unfoldable pub unknown : ℕ × ℕ × ℕ × ℕ → Option (List ℕ) → Cmd Daemon (Unit {0})
  unfolding adopt
  unknown ends none = accept
  unknown ends (some remote) = λ d.
      if (if syn d.original then false else true)
        && ack d.original
        && (if fin d.original then false else true)
      then adopt ends remote d
      else accept d

  unfoldable pub other_traffic : ℕ × ℕ × ℕ × ℕ → Option (List ℕ) → Cmd Daemon (Unit {0})
  unfolding known unknown
  other_traffic (larger_ip, larger_port, smaller_ip, smaller_port) remote = do
    s ← on_sessions (getsession larger_ip larger_port smaller_ip smaller_port)
    if is_null s
        then unknown (larger_ip, larger_port, smaller_ip, smaller_port) remote
        else known larger_ip s remote

  unfoldable pub fetch_tcp : Cmd Daemon (Unit {0})
  unfolding remote_id admit_syn other_traffic
  fetch_tcp d =
      let ends = sockets d.original in
      (do
        remote ← remote_id
        λ e.
            (if syn e.original && (if ack e.original then false else true)
              then admit_syn ends remote e
              else other_traffic ends remote e))
        d

  unfoldable pub fetcher_callback : ℕ → Cmd Daemon (Unit {0})
  unfolding fetch_tcp
  fetcher_callback servicestate d =
      if leb running servicestate
      then (do
        count_bytesin (tot_len d.original)
        (if (protocol d.original == ipproto_tcp) && (if id == 0 then false else true)
            then fetch_tcp
            else bypass))
          d
      else bypass d
