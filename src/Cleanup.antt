-- ===== src/Cleanup.antt =====
-- opennopd/subsystems/sessioncleanup.c: `cleanuplist`, the sweep of one bucket for dead sessions.
-- `sendkeepalive` is recorded in the state; its packet is not built here.
pub mod Sweep
pub mod Fates
pub mod Pass
use opennop.Prelude.{
  ℕ, zero, suc, ◌+◌, ◌-◌, ◌%◌, ◌^◌, Bool, true, false, List, [], ◌∷◌, ◌++◌, ◌==◌, ltb,
  if◌then◌else◌,
}
use opennop.Prelude.Run.{ok, out_of_fuel, Cmd, pure, ◌>>=◌, ◌>>◌}
use opennop.Heap.{Ptr, null, load, set_item, get_head}
use opennop.Sessions.{Endpoint, Session, Keepalive, Table, lift, clearsession}

-- Towards `daddr`, from the other endpoint of the session.
abbrev pub keepalive : Endpoint → Endpoint → Keepalive
keepalive from to = record {
  saddr = from.address;
  source = from.port;
  seq = from.sequence;
  daddr = to.address;
  dest = to.port;
  ack_seq = to.sequence;
}

-- Which keepalive the idle check sends, if any.
unfoldable pub probes : Session → List Keepalive
probes s =
    if s.larger.sequence == s.larger.previoussequence
    then keepalive s.smaller s.larger ∷ []
    else if s.smaller.sequence == s.smaller.previoussequence
    then keepalive s.larger s.smaller ∷ []
    else []

abbrev pub remember : Endpoint → Endpoint
remember e = record e { previoussequence = e.sequence }

-- The session after the idle check.
unfoldable pub checked : Session → Session
checked s = record s {
  deadcounter =
      if s.larger.sequence == s.larger.previoussequence
      then (s.deadcounter + 1) % 2 ^ 8
      else if s.smaller.sequence == s.smaller.previoussequence
      then (s.deadcounter + 1) % 2 ^ 8
      else 0;
  larger = remember s.larger;
  smaller = remember s.smaller;
}

abbrev pub send : List Keepalive → Cmd Table (Unit {0})
send ks t = ok tt (record t { sent = ks ++ t.sent })

abbrev pub is_dead : Session → Bool
is_dead s = ltb 2 s.deadcounter

-- The `while` over the sessions of the list, on fuel.
unfoldable pub cleanup_loop : ℕ → Ptr → Cmd Table (Unit {0})
cleanup_loop zero p = λ _. out_of_fuel
cleanup_loop (suc fuel) p = if p == null then pure tt else do
  n ← lift (load p)
  if is_dead n.item
      then (if n.next == null
          then clearsession p >> pure tt
          else do m ← lift (load n.next); clearsession m.prev; cleanup_loop fuel n.next)
      else do send (probes n.item); lift (set_item p (checked n.item)); cleanup_loop fuel n.next

-- One round more than the list counts sessions.
unfoldable pub cleanuplist : ℕ → Cmd Table (Unit {0})
unfolding cleanup_loop
cleanuplist b = do
  hd ← lift (get_head b)
  if hd.next == null then pure tt else cleanup_loop (hd.qlen + 1) hd.next

-- include/sessionmanager.h.
abbrev pub sessionbuckets : ℕ
sessionbuckets = 65536

-- The `for` loop of `cleanup_function` over the buckets, from index `i` with `left` rounds to go.
unfoldable pub cleanup_pass : ℕ → ℕ → Cmd Table (Unit {0})
cleanup_pass zero i = pure tt
cleanup_pass (suc left) i = do
  hd ← lift (get_head i)
  if hd.next == null then pure tt else cleanuplist i
  cleanup_pass left (i + 1)
