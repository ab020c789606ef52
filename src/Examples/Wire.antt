-- ===== src/Examples/Wire.antt =====
-- Packets and messages written out in bytes.
use opennop.Prelude.{
  ◌%◌, ◌-◌, ◌≤◌, ℕ, zero, suc, ◌+◌, ◌*◌, ◌^◌, ◌<◌, ◌≡◌, refl, ◌≢◌, ◌⊎◌, true, Option, some, List,
  [], ◌∷◌, ◌++◌, arith, replicate, length, take,
}
use opennop.Prelude.Run.{ok, out_of_fuel}
use opennop.Bytes.{tot_len, protocol, tcp_start, doff, slice}
use opennop.Checksum.{checksum}
use opennop.Checksum.Receiver.{IsVerified}
use opennop.Checksum.Verify.{IsSegment, checksum-valid}
use opennop.Queue.{success, failure}
use opennop.TcpOptions.{
  opt_start, opt_space, optlen, get_tcpopt, find_loop, opt_at, add_tcpopt_addoff,
}
use opennop.TcpOptions.Walk.{IsWalkable, Searched, get_tcpopt-Searched, IsLoop, find_loop-endless}
use opennop.TcpOptions.Grow.{CanGrow, Grown, add_tcpopt_addoff-Grown}
use opennop.Ipc.{
  find_neighbor_by_u32, Neighbor, NeighborState, attempt, Ipc, MessageType, i_see_you, write_at,
  security, find_neighbor_by_socket, calculate_hmac_sha256, ipc_message, check_security,
  ipc_handler, verify_neighbor_in_domain,
}
use opennop.Ipc.Security.{received, check_security-authentic, ipc_handler-ipc_message}
use opennop.Counters.{WorkerCounters, counter_updateworkermetrics}
use opennop.Counters.Rate.{Reads, counter_updateworkermetrics_lem}
use opennop.Ipc.Domain.{ipc_handler-verify_neighbor_in_domain}

-- An IP header, a TCP header with a data offset and options, and two bytes of data.
abbrev tcp_packet : ℕ → ℕ → List ℕ → List ℕ
tcp_packet total offset options =
    (69 ∷ 0 ∷ 0 ∷ total ∷ [])
    ++ ((0 ∷ 0 ∷ 0 ∷ 0 ∷ 64 ∷ 6 ∷ 0 ∷ 0 ∷ 10 ∷ 0 ∷ 0 ∷ 1 ∷ 10 ∷ 0 ∷ 0 ∷ 2 ∷ [])
        ++ (replicate 12 0 ++ ((offset * 16 ∷ replicate 7 0) ++ (options ++ (65 ∷ 66 ∷ [])))))

abbrev small : List ℕ
small = tcp_packet 42 5 []

small-IsSegment : IsSegment small
unfolding protocol tcp_start tot_len
small-IsSegment = record {
  is_tcp = refl;
  bytes = ground arith;
  header = omega arith;
  inside = omega arith;
  within = omega arith;
  fits = omega arith;
}

checksum-valid_example :
    (q : List ℕ) × (checksum small ≡ some q)
    × (length q ≡ 42)
    × (tot_len q ≡ tot_len small)
    × (tcp_start q ≡ tcp_start small)
    × IsVerified q
checksum-valid_example = checksum-valid small small-IsSegment

abbrev roomy : List ℕ
roomy = small ++ replicate 8 0

roomy-CanGrow : CanGrow 2 roomy
unfolding tcp_start tot_len doff
roomy-CanGrow = record {
  some_words = omega arith;
  room = omega arith;
  ip_header = omega arith;
  tcp_header = omega arith;
  within = omega arith;
  buffer = omega arith;
  short = omega arith;
}

add_tcpopt_addoff-Grown_example :
    (q : List ℕ) × (add_tcpopt_addoff 2 roomy ≡ ok success q) × Grown 2 roomy q
add_tcpopt_addoff-Grown_example = add_tcpopt_addoff-Grown 2 roomy roomy-CanGrow

-- Two NOPs and the end of the options.
abbrev optioned : List ℕ
optioned = tcp_packet 46 6 (1 ∷ 1 ∷ 0 ∷ 0 ∷ [])

optioned-space : opt_space optioned ≡ 4
unfolding opt_space doff
optioned-space = refl

optioned-optlen : (i : ℕ) → i < 4 → i + optlen optioned i < 2 ^ 8
unfolding optlen opt_start tcp_start
optioned-optlen zero h = omega arith
optioned-optlen (suc zero) h = omega arith
optioned-optlen (suc (suc zero)) h = omega arith
optioned-optlen (suc (suc (suc zero))) h = omega arith
optioned-optlen (suc (suc (suc (suc i)))) h = absurd (omega arith)

optioned-IsWalkable : IsWalkable optioned
optioned-IsWalkable = record {
  space = omega (arith, optioned-space);
  no_wrap = λ i h. optioned-optlen i (omega (arith, optioned-space));
}

get_tcpopt-Searched_example :
    (r : Option ℕ) × (get_tcpopt 1 optioned ≡ ok r optioned) × Searched optioned 1 0 r
get_tcpopt-Searched_example = get_tcpopt-Searched optioned 1 optioned-IsWalkable

abbrev circular : List ℕ
circular = tcp_packet 50 7 (1 ∷ 1 ∷ 1 ∷ 254 ∷ 253 ∷ 0 ∷ 0 ∷ 0 ∷ [])

circular-nops : (i : ℕ) → i < 3 → opt_at circular i ≡ 1
unfolding opt_start tcp_start
circular-nops zero h = refl
circular-nops (suc zero) h = refl
circular-nops (suc (suc zero)) h = refl
circular-nops (suc (suc (suc i))) h = absurd (omega arith)

circular-IsLoop : IsLoop circular
unfolding opt_start tcp_start opt_space doff
circular-IsLoop = record {
  room = omega arith;
  nops = circular-nops;
  long = omega arith;
  len = refl;
}

not_long : 33 ≢ opt_at circular 3
unfolding opt_start tcp_start
not_long = omega arith

find_loop-endless_example : find_loop 1000 33 0 circular ≡ out_of_fuel
find_loop-endless_example =
    find_loop-endless circular 33 circular-IsLoop (omega arith) not_long 1000 0 (omega arith)

-- A node with one neighbor, whose key is a single letter.
abbrev peer : ℕ → Option ℕ
peer fd = some 10

abbrev hmac : List ℕ → List ℕ → List ℕ
hmac key m = replicate 32 (length m)

abbrev friend : Neighbor
friend = record {
  neighbor_ip = 10;
  state = attempt;
  id = replicate 4 0;
  sock = 8;
  key = 107 ∷ replicate 64 0;
  timer = 0;
  hellotimer = 0;
}

abbrev node_state : Ipc
node_state = record {
  neighbors = friend ∷ [];
  localid = 5 ∷ 6 ∷ 7 ∷ 8 ∷ [];
  key = 107 ∷ replicate 64 0;
  sent = [];
}

friend_known : find_neighbor_by_socket hmac peer 99 8 (friend ∷ []) ≡ some friend
unfolding find_neighbor_by_socket opennop.Ipc.find_neighbor_by_u32
friend_known = refl

ipc_handler-ipc_message_example :
    ipc_handler hmac peer 99 8
      (ipc_message hmac peer 98 i_see_you (107 ∷ replicate 64 0) (1 ∷ 2 ∷ 3 ∷ 4 ∷ []))
      node_state
    ≡ (success, received hmac peer 99 8 (1 ∷ 2 ∷ 3 ∷ 4 ∷ []) i_see_you node_state)
ipc_handler-ipc_message_example =
    ipc_handler-ipc_message hmac peer peer 99 98 8 i_see_you node_state friend (1 ∷ 2 ∷ 3 ∷ 4 ∷ [])
      (λ k xs. refl) refl friend_known

ipc_handler-verify_neighbor_in_domain_example :
    verify_neighbor_in_domain (1 ∷ 2 ∷ 3 ∷ 4 ∷ []) (
      (ipc_handler hmac peer 99 8
        (ipc_message hmac peer 98 i_see_you (107 ∷ replicate 64 0) (1 ∷ 2 ∷ 3 ∷ 4 ∷ []))
        node_state).1.neighbors)
    ≡ true
ipc_handler-verify_neighbor_in_domain_example =
    ipc_handler-verify_neighbor_in_domain hmac peer peer 99 98 8 node_state friend
      (1 ∷ 2 ∷ 3 ∷ 4 ∷ []) (λ k xs. refl) refl refl friend_known

-- 48 bytes, whose security data is not their HMAC.
abbrev signed : List ℕ
signed = (1 ∷ 0 ∷ 1 ∷ 0 ∷ 48 ∷ 0 ∷ 1 ∷ 0 ∷ []) ++ replicate 40 7

check_security-authentic_example :
    (check_security hmac peer 99 8 signed node_state ≡ (failure, node_state))
    ⊎ ((security signed ≡ 1)
        × (slice 8 32 signed
            ≡ hmac (107 ∷ replicate 63 0) (take 48 (write_at 8 (replicate 32 0) signed))))
check_security-authentic_example =
    check_security-authentic hmac peer 99 8 signed node_state friend friend_known refl (omega arith)
      (omega arith)

-- The packet counter has rolled over since the last reading.
abbrev metrics : WorkerCounters
metrics = record {
  packets = 14;
  packetsprevious = 2 ^ 32 - 6;
  pps = 0;
  bytesin = 100;
  bytesinprevious = 0;
  bpsin = 0;
  bytesout = 7;
  bytesoutprevious = 7;
  bpsout = 0;
}

reads : (a b : ℕ) → a ≤ b → b - a < 2 ^ 32 → Reads (a % 2 ^ 32) (b % 2 ^ 32) a b
reads a b grows small = record { last = refl; this = refl; grows = grows; small = small }

counter_updateworkermetrics_lem_example :
    let n = counter_updateworkermetrics metrics in
    (n.pps ≡ 4)
    × (n.bpsin ≡ 20)
    × (n.bpsout ≡ 0)
    × (n.packetsprevious ≡ 14)
    × (n.bytesinprevious ≡ 100)
    × (n.bytesoutprevious ≡ 7)
counter_updateworkermetrics_lem_example =
    counter_updateworkermetrics_lem metrics (2 ^ 32 - 6) (2 ^ 32 + 14) 0 100 7 7
      (reads (2 ^ 32 - 6) (2 ^ 32 + 14) (omega arith) (omega arith))
      (reads 0 100 (omega arith) (omega arith)) (reads 7 7 (omega arith) (omega arith))
