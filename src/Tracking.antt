-- ===== src/Tracking.antt =====
-- opennopd/sessionmanager.c, opennopd/subsystems/ipc.c and opennopd/subsystems/worker.c: what a packet
-- changes in its session. A field in host order is `ntohl` of it; `iph->saddr` stays as it is read on a
-- little-endian host. An accelerator's ID is a list of its four bytes.
pub mod Accelerator
pub mod Update
pub mod Sender
pub mod Closing
use opennop.Prelude.{
  ℕ, zero, suc, ◌+◌, ◌-◌, ◌*◌, ◌/◌, ◌%◌, ◌^◌, Bool, true, false, ◌&&◌, ◌||◌, Option, none, some,
  List, [], ◌∷◌, ltb, ◌==◌, if◌then◌else◌, get_or, set,
}
use opennop.Prelude.Run.{ok, Cmd, pure, ◌>>=◌, ◌>>◌}
use opennop.Heap.{Ptr, null, Store, load, set_item}
use opennop.Bytes.{byte, word32, tot_len, tcp_start, doff}
use opennop.Queue.{Status, success, failure}
use opennop.Sessions.{Endpoint, Side, larger_side, smaller_side, Session, Table, lift, clearsession}

abbrev pub opennop_ipc_id_length : ℕ
opennop_ipc_id_length = 4

-- The three loops over the bytes of an ID, from index `i` with `left` rounds to go.
unfoldable pub compare_loop : ℕ → ℕ → List ℕ → List ℕ → Bool
compare_loop zero i first second = true
compare_loop (suc left) i first second =
    if byte first i == byte second i then compare_loop left (i + 1) first second else false

unfoldable pub compare_opennopid : List ℕ → List ℕ → Bool
compare_opennopid = compare_loop opennop_ipc_id_length 0

unfoldable pub check_loop : ℕ → ℕ → List ℕ → Bool
check_loop zero i opennopid = false
check_loop (suc left) i opennopid =
    if byte opennopid i == 0 then check_loop left (i + 1) opennopid else true

unfoldable pub check_opennopid : List ℕ → Bool
check_opennopid = check_loop opennop_ipc_id_length 0

unfoldable pub save_loop : ℕ → ℕ → List ℕ → List ℕ → List ℕ
save_loop zero i source destination = destination
save_loop (suc left) i source destination =
    save_loop left (i + 1) source (set destination i (byte source i))

-- The destination's new bytes.
unfoldable pub save_opennopid : List ℕ → List ℕ → List ℕ
save_opennopid = save_loop opennop_ipc_id_length 0

-- `localid` is what `get_opennop_id` points at.
unfoldable pub session_accelerated : List ℕ → Session → Bool
session_accelerated localid s =
    (compare_opennopid s.larger.accelerator localid
      || compare_opennopid s.smaller.accelerator localid)
    && (check_opennopid s.larger.accelerator && check_opennopid s.smaller.accelerator)
    && (if compare_opennopid s.larger.accelerator s.smaller.accelerator then false else true)

unfoldable pub saddr : List ℕ → ℕ
saddr p = byte p 12 + byte p 13 * 2 ^ 8 + byte p 14 * 2 ^ 16 + byte p 15 * 2 ^ 24

unfoldable pub seq : List ℕ → ℕ
seq p = word32 p (tcp_start p + 4)

unfoldable pub syn : List ℕ → Bool
syn p = byte p (tcp_start p + 13) / 2 % 2 == 1

-- The sequence number behind the packet, in 32 bits.
unfoldable pub end_of : List ℕ → ℕ
end_of p =
    if syn p
    then (seq p + 1) % 2 ^ 32
    else (seq p + tot_len p + 2 ^ 32 - tcp_start p - doff p * 4) % 2 ^ 32

abbrev pub is_keepalive : List ℕ → Endpoint → Bool
is_keepalive p e =
    (if seq p == e.nextsequence then false else true)
    && (seq p == (e.sequence + 2 ^ 32 - 1) % 2 ^ 32)

abbrev pub endpoint_of : Side → Session → Endpoint
endpoint_of larger_side s = s.larger
endpoint_of smaller_side s = s.smaller

abbrev pub with_endpoint : Side → Endpoint → Session → Session
with_endpoint larger_side e s = record s { larger = e }
with_endpoint smaller_side e s = record s { smaller = e }

-- `__updateseq`: a keepalive changes nothing.
unfoldable pub tracked : List ℕ → Side → Session → Session
tracked p side s =
    if is_keepalive p (endpoint_of side s)
    then s
    else with_endpoint side
        (record (endpoint_of side s) { sequence = seq p; nextsequence = end_of p })
        (record s { deadcounter = 0 })

abbrev pub side_of : ℕ → List ℕ → Side
side_of larger_ip p = if saddr p == larger_ip then larger_side else smaller_side

abbrev pub other : Side → Side
other larger_side = smaller_side
other smaller_side = larger_side

-- The three updates share their guard; the packet's headers are there.
unfoldable pub update_session : ℕ → (Session → Session) → Ptr → Cmd (Store Session) Status
update_session larger_ip f p =
    if larger_ip == 0 || (p == null)
    then pure failure
    else do n ← load p; set_item p (f n.item); pure success

unfoldable pub updateseq : ℕ → List ℕ → Ptr → Cmd (Store Session) Status
updateseq larger_ip packet = update_session larger_ip (tracked packet (side_of larger_ip packet))

abbrev pub client_is : Side → Session → Session
client_is side s = record s { client = some side; server = some (other side) }

unfoldable pub sourceisclient : ℕ → List ℕ → Ptr → Cmd (Store Session) Status
sourceisclient larger_ip packet = update_session larger_ip (client_is (side_of larger_ip packet))

abbrev pub accelerator_is : List ℕ → Side → Session → Session
accelerator_is id side s =
    with_endpoint side
      (record (endpoint_of side s) {
        accelerator = save_opennopid id (endpoint_of side s).accelerator;
      })
      s

unfoldable pub saveacceleratorid : ℕ → List ℕ → List ℕ → Ptr → Cmd (Store Session) Status
saveacceleratorid larger_ip id packet =
    update_session larger_ip (accelerator_is id (side_of larger_ip packet))

-- netinet/tcp.h.
abbrev pub tcp_established : ℕ
tcp_established = 1

abbrev pub tcp_closing : ℕ
tcp_closing = 11

-- For a packet with the FIN flag.
unfoldable pub closingsession : Ptr → Cmd Table Ptr
closingsession p = if p == null then pure null else do
  n ← lift (load p)
  if n.item.state == tcp_established
      then (do lift (set_item p (record (n.item) { state = tcp_closing })); pure p)
      else if n.item.state == tcp_closing
      then clearsession p
      else pure p
