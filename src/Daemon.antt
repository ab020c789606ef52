-- ===== src/Daemon.antt =====
-- opennopd/subsystems/fetcher.c and opennopd/subsystems/worker.c: the state that the thread which
-- reads from Netfilter and the workers' threads share. Verdicts are listed newest first. The packet
-- that Netfilter hands over is read and changed where it lies (`original`).
pub mod Told
use opennop.Prelude.{
  ℕ, ◌+◌, ◌*◌, ◌/◌, ◌%◌, ◌==◌, ◌^◌, Bool, true, false, Option, none, some, List, [], ◌∷◌,
  if◌then◌else◌,
}
use opennop.Prelude.Run.{Run, ok, fault, out_of_fuel, Cmd, pure, and_then, ◌>>=◌, ◌>>◌}
use opennop.Bytes.{byte, slice, word, tcp_start, tot_len}
use opennop.Heap.{Ptr, Store, load, set_item}
use opennop.Queue.{Packet, Status, queue_packet}
use opennop.Memory
use opennop.Memory.{Memory}
use opennop.Sessions
use opennop.Sessions.{Session, Table, sort_sockets}
use opennop.Tracking.{saddr}
use opennop.Ipc.{Neighbor, verify_neighbor_in_domain}

-- `nfq_set_verdict` with a packet's bytes, or with none.
pub data Verdict : Type 0 where
  accepted : (hq id len : ℕ) → List ℕ → Verdict
  unchanged dropped : (hq id : ℕ) → Verdict

-- `struct fetchercounters` or `struct workercounters` of the thread that runs, as far as it counts.
pub record Metrics : Type 0 where
  pub packets : ℕ
  pub bytesin : ℕ
  pub bytesout : ℕ

pub record Daemon : Type 0 where
  pub table : Table
  pub memory : Memory
  pub neighbors : List Neighbor
  pub localid : List ℕ
  pub compression : Bool
  pub metrics : Metrics
  pub verdicts : List Verdict
  pub original : List ℕ

module _ {A : Type 0} where
  abbrev pub table_run : Daemon → Run Table A → Run Daemon A
  table_run d (ok a t) = ok a (record d { table = t })
  table_run d fault = fault
  table_run d out_of_fuel = out_of_fuel

  abbrev pub on_table : Cmd Table A → Cmd Daemon A
  on_table c d = table_run d (c d.table)

  abbrev pub on_sessions : Cmd (Store Session) A → Cmd Daemon A
  on_sessions c = on_table (Sessions.lift c)

  abbrev pub memory_run : Daemon → Run Memory A → Run Daemon A
  memory_run d (ok a m) = ok a (record d { memory = m })
  memory_run d fault = fault
  memory_run d out_of_fuel = out_of_fuel

  abbrev pub on_memory : Cmd Memory A → Cmd Daemon A
  on_memory c d = memory_run d (c d.memory)

  abbrev pub on_packets : Cmd (Store Packet) A → Cmd Daemon A
  on_packets c = on_memory (Memory.lift c)

  abbrev pub original_run : Daemon → Run (List ℕ) A → Run Daemon A
  original_run d (ok a p) = ok a (record d { original = p })
  original_run d fault = fault
  original_run d out_of_fuel = out_of_fuel

  -- A command on the packet that Netfilter handed over.
  abbrev pub on_original : Cmd (List ℕ) A → Cmd Daemon A
  on_original c d = original_run d (c d.original)

  abbrev pub buffer_run : Ptr → Packet → Run (List ℕ) A → Cmd (Store Packet) A
  buffer_run p item (ok a bytes) = do set_item p (record item { bytes = bytes }); pure a
  buffer_run p item fault = λ s. fault
  buffer_run p item out_of_fuel = λ s. out_of_fuel

  -- A command on the bytes in a packet's buffer.
  unfoldable pub on_buffer : Ptr → Cmd (List ℕ) A → Cmd Daemon A
  on_buffer p c = on_packets (do n ← load p; buffer_run p n.item (c n.item.bytes))

abbrev pub set_verdict : Verdict → Cmd Daemon (Unit {0})
set_verdict v d = pure tt (record d { verdicts = v ∷ d.verdicts })

abbrev pub count_packet : Cmd Daemon (Unit {0})
count_packet d =
    let m = d.metrics in
    pure tt (record d { metrics = record m { packets = (m.packets + 1) % 2 ^ 32 } })

abbrev pub count_bytesin : ℕ → Cmd Daemon (Unit {0})
count_bytesin n d =
    let m = d.metrics in
    pure tt (record d { metrics = record m { bytesin = (m.bytesin + n) % 2 ^ 32 } })

abbrev pub count_bytesout : ℕ → Cmd Daemon (Unit {0})
count_bytesout n d =
    let m = d.metrics in
    pure tt (record d { metrics = record m { bytesout = (m.bytesout + n) % 2 ^ 32 } })

-- The addresses and ports as they are read on a little-endian host.
unfoldable pub daddr : List ℕ → ℕ
daddr p = byte p 16 + byte p 17 * 2 ^ 8 + byte p 18 * 2 ^ 16 + byte p 19 * 2 ^ 24

unfoldable pub source : List ℕ → ℕ
source p = byte p (tcp_start p) + byte p (tcp_start p + 1) * 2 ^ 8

unfoldable pub dest : List ℕ → ℕ
dest p = byte p (tcp_start p + 2) + byte p (tcp_start p + 3) * 2 ^ 8

-- The sorted sockets of a packet.
unfoldable pub sockets : List ℕ → ℕ × ℕ × ℕ × ℕ
unfolding sort_sockets daddr source dest
sockets p = sort_sockets (saddr p) (source p) (daddr p) (dest p)

-- The flags of the TCP header.
unfoldable pub ack : List ℕ → Bool
ack p = byte p (tcp_start p + 13) / 16 % 2 == 1

unfoldable pub fin : List ℕ → Bool
fin p = byte p (tcp_start p + 13) % 2 == 1

unfoldable pub rst : List ℕ → Bool
rst p = byte p (tcp_start p + 13) / 4 % 2 == 1

-- The accelerator's ID that a pointer of `get_nod_header_data` points at, if it is not NULL.
abbrev pub id_at : Option ℕ → List ℕ → Option (List ℕ)
id_at none p = none
id_at (some at) p = some (slice at 4 p)

-- The remote ID is there and its neighbor is up.
unfoldable pub in_domain : Option (List ℕ) → List Neighbor → Bool
in_domain none neighbors = false
in_domain (some id) neighbors = verify_neighbor_in_domain id neighbors

-- The queues of a worker, behind the two of the memory manager.
abbrev pub optimization : ℕ → ℕ
optimization queue = 2 + 2 * (queue % 2 ^ 8)

abbrev pub deoptimization : ℕ → ℕ
deoptimization queue = 3 + 2 * (queue % 2 ^ 8)

unfoldable pub optimize_packet : ℕ → Ptr → Cmd (Store Packet) Status
optimize_packet queue = queue_packet (optimization queue)

unfoldable pub deoptimize_packet : ℕ → Ptr → Cmd (Store Packet) Status
deoptimize_packet queue = queue_packet (deoptimization queue)
