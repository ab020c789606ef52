-- ===== src/Sessions.antt =====
-- opennopd/sessionmanager.c with include/session.h: the hash table of TCP sessions, and the session
-- counts of opennopd/subsystems/worker.c that it keeps up to date.
pub mod Invariant
pub mod Lookup
pub mod Insert
pub mod Balance
pub mod Clear
pub mod Map
pub mod Modify
use Prim.Native.Nat.{bit_xor}
use opennop.Prelude.{
  ℕ, zero, suc, ◌+◌, ◌-◌, ◌*◌, ◌/◌, ◌%◌, ◌^◌, Bool, true, false, ◌&&◌, Option, none, some, List, [],
  ◌∷◌, ◌==◌, ltb, if◌then◌else◌, replicate,
}
use opennop.Prelude.Run.{Run, ok, fault, out_of_fuel, Cmd, pure, ◌>>=◌, ◌>>◌}
use opennop.Heap.{
  Ptr, null, Node, node, Store, load, store, free, get_head, link_tail, unlink, update,
}

pub record Endpoint : Type 0 where
  pub address : ℕ
  pub port : ℕ
  pub previoussequence : ℕ
  pub sequence : ℕ
  pub nextsequence : ℕ
  pub accelerator : List ℕ

-- `client` and `server` point at the address of one of the two endpoints, or nowhere.
pub data Side : Type 0 where
  larger_side smaller_side : Side

-- `head` is the index of the session's bucket; `next` and `prev` are the node's.
pub record Session : Type 0 where
  pub head : ℕ
  pub client : Option Side
  pub server : Option Side
  pub larger : Endpoint
  pub larger_ip_start_seq : ℕ
  pub larger_ip_next_ack : ℕ
  pub smaller : Endpoint
  pub smaller_ip_start_seq : ℕ
  pub smaller_ip_next_ack : ℕ
  pub deadcounter : ℕ
  pub state : ℕ
  pub queue : ℕ

-- What `sendkeepalive` is called with.
pub record Keepalive : Type 0 where
  pub saddr : ℕ
  pub source : ℕ
  pub seq : ℕ
  pub daddr : ℕ
  pub dest : ℕ
  pub ack_seq : ℕ

-- The buckets and their sessions, the number of workers and the sessions of each, and the
-- keepalives sent so far, newest first.
pub record Table : Type 0 where
  pub buckets : Store Session
  pub numworkers : ℕ
  pub sessions : ℕ → ℕ
  pub sent : List Keepalive

abbrev pub lift_run : {A : Type 0} → Table → Run (Store Session) A → Run Table A
lift_run t (ok a s) = ok a (record t { buckets = s })
lift_run t fault = fault
lift_run t out_of_fuel = out_of_fuel

-- A command on the buckets, as one on the whole state.
abbrev pub lift : {A : Type 0} → Cmd (Store Session) A → Cmd Table A
lift m t = lift_run t (m t.buckets)

-- Both hashes of a pair of addresses are cut to 16 bits when they are stored.
unfoldable pub sessionhash : ℕ → ℕ → ℕ → ℕ → ℕ
sessionhash larger_ip larger_ip_port smaller_ip smaller_ip_port =
    let hash1 = bit_xor larger_ip smaller_ip / 2 ^ 16 % 2 ^ 16 in
    let hash2 = bit_xor larger_ip smaller_ip % 2 ^ 16 in
    let hash3 = bit_xor hash1 hash2 % 2 ^ 16 in
    let hash4 = bit_xor larger_ip_port smaller_ip_port % 2 ^ 16 in bit_xor hash3 hash4 % 2 ^ 16

-- The bucket as its callers compute it: they pass (largerIP, smallerIP, largerIPPort, smallerIPPort)
-- for the parameters (largerIP, largerIPPort, smallerIP, smallerIPPort), so the smaller address is
-- cut to 16 bits.
unfoldable pub bucket_of : ℕ → ℕ → ℕ → ℕ → ℕ
unfolding sessionhash
bucket_of larger_ip larger_ip_port smaller_ip smaller_ip_port =
    sessionhash larger_ip (smaller_ip % 2 ^ 16) larger_ip_port smaller_ip_port

-- The loop that chooses a worker, at index `i` with `left` rounds to go.
unfoldable pub least_loop : (ℕ → ℕ) → ℕ → ℕ → ℕ → ℕ → ℕ
least_loop sessions workers zero i queuenum = queuenum
least_loop sessions workers (suc left) i queuenum = least_loop sessions workers left (i + 1) (
    if ltb (sessions i) (sessions queuenum)
    then (if ltb i workers then i % 2 ^ 8 else queuenum)
    else queuenum)

unfoldable pub increment_worker_sessions : ℕ → Cmd Table (Unit {0})
increment_worker_sessions i t =
    ok tt (record t { sessions = update t.sessions i ((t.sessions i + 1) % 2 ^ 32) })

unfoldable pub decrement_worker_sessions : ℕ → Cmd Table (Unit {0})
decrement_worker_sessions i t =
    ok tt (record t { sessions = update t.sessions i ((t.sessions i + 2 ^ 32 - 1) % 2 ^ 32) })

abbrev pub new_endpoint : ℕ → ℕ → Endpoint
new_endpoint address port = record {
  address = address;
  port = port;
  previoussequence = 0;
  sequence = 0;
  nextsequence = 0;
  accelerator = replicate 4 0;
}

abbrev pub new_session : ℕ → ℕ → ℕ → ℕ → ℕ → ℕ → Session
new_session hash queuenum larger_ip larger_ip_port smaller_ip smaller_ip_port = record {
  head = hash;
  client = none;
  server = none;
  larger = new_endpoint larger_ip larger_ip_port;
  larger_ip_start_seq = 0;
  larger_ip_next_ack = 0;
  smaller = new_endpoint smaller_ip smaller_ip_port;
  smaller_ip_start_seq = 0;
  smaller_ip_next_ack = 0;
  deadcounter = 0;
  state = 0;
  queue = queuenum;
}

-- The part of `insertsession` behind the allocation: the session is filled in, counted and linked.
add_session : Ptr → ℕ → ℕ → Session → Cmd Table Ptr
add_session fresh hash queuenum item = do
  lift (store fresh (some (node null null item)))
  increment_worker_sessions queuenum
  lift (link_tail hash fresh)
  pure fresh

abbrev pub chosen_worker : Table → ℕ
chosen_worker t = least_loop t.sessions t.numworkers t.numworkers 0 0

-- `fresh` is what `calloc` returns.
unfoldable pub insertsession : Ptr → ℕ → ℕ → ℕ → ℕ → Cmd Table Ptr
unfolding add_session increment_worker_sessions
insertsession fresh larger_ip larger_ip_port smaller_ip smaller_ip_port t =
    let hash = bucket_of larger_ip larger_ip_port smaller_ip smaller_ip_port in
    let queuenum = chosen_worker t in
    let item = new_session hash queuenum larger_ip larger_ip_port smaller_ip smaller_ip_port in
    if fresh == null then ok null t else add_session fresh hash queuenum item t

-- The test of `getsession`.
unfoldable pub is_match : ℕ → ℕ → ℕ → ℕ → Session → Bool
is_match larger_ip larger_ip_port smaller_ip smaller_ip_port s =
    s.larger.address == larger_ip
    && s.larger.port == larger_ip_port
    && s.smaller.address == smaller_ip
    && s.smaller.port == smaller_ip_port

unfoldable pub getsession_loop : (Session → Bool) → ℕ → Ptr → Cmd (Store Session) Ptr
getsession_loop test zero p = λ _. out_of_fuel
getsession_loop test (suc fuel) p = if p == null then pure null else do
  n ← load p
  if test n.item
      then pure p
      else if n.next == null
      then pure null
      else getsession_loop test fuel n.next

-- The loop is given one round more than the bucket counts sessions.
unfoldable pub getsession : ℕ → ℕ → ℕ → ℕ → Cmd (Store Session) Ptr
unfolding getsession_loop
getsession larger_ip larger_ip_port smaller_ip smaller_ip_port = do
  hd ← get_head (bucket_of larger_ip larger_ip_port smaller_ip smaller_ip_port)
  if hd.next == null
      then pure null
      else getsession_loop (is_match larger_ip larger_ip_port smaller_ip smaller_ip_port)
          (hd.qlen + 1) hd.next

unfoldable pub clearsession : Ptr → Cmd Table Ptr
unfolding decrement_worker_sessions
clearsession p = if p == null then pure null else do
  n ← lift (load p)
  lift (unlink n.item.head p)
  n' ← lift (load p)
  decrement_worker_sessions n'.item.queue
  lift (free p)
  pure null

-- The larger endpoint's address and port, then the smaller one's.
unfoldable pub sort_sockets : ℕ → ℕ → ℕ → ℕ → ℕ × ℕ × ℕ × ℕ
sort_sockets saddr source daddr dest =
    if ltb daddr saddr then (saddr, source, daddr, dest) else (daddr, dest, saddr, source)
