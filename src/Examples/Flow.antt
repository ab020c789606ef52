-- ===== src/Examples/Flow.antt =====
-- A packet on its way through the daemon.
use opennop.Prelude.{
  ℕ, ◌+◌, ◌%◌, ◌^◌, ◌≡◌, refl, true, none, some, List, [], ◌∷◌, ◌++◌, arith, replicate,
}
use opennop.Prelude.Run.{ok, pure}
use opennop.Bytes.{tot_len, tcp_start, ihl, doff, protocol}
use opennop.Heap.{null, node, head, Store, write, load}
use opennop.Queue.{Packet, zero_packet, newpacket}
use opennop.Queue.Fifo.{IsQueue}
use opennop.Memory.{Memory, get_freepacket_buffer, from_calloc, clear_packet}
use opennop.Sessions.{
  Session, Table, getsession, getsession_loop, is_match, sort_sockets, new_session, bucket_of,
}
use opennop.Tracking.{syn, saddr}
use opennop.TcpOptions.{find_loop, get_tcpopt, opt_space, opt_start}
use opennop.Nod.{no_data, onop, get_nod_header_data, get_nod_header, header_of, hdrdata_of}
use opennop.Daemon.{Daemon, sockets, source, dest, daddr, in_domain, unchanged}
use opennop.Daemon.Told.{Ends}
use opennop.Fetcher.{fetcher_callback}
use opennop.Fetcher.Queued.{IsTraffic, copy_of, queue_for, remote_of, fetcher_callback-Queued}
use opennop.Worker.{work_packet}
use opennop.Worker.Served.{Served, work_packet-Served}
use opennop.Worker.Passed.{IsStray, work_packet-Passed}

-- An acknowledgement with two bytes of data, from address 2 and port 3 to address 1 and port 4.
abbrev segment : List ℕ
segment =
    69 ∷ 0 ∷ 0 ∷ 42 ∷ replicate 5 0
    ++ (6 ∷ 0 ∷ 0 ∷ 2 ∷ 0 ∷ 0 ∷ 0 ∷ 1 ∷ 0 ∷ 0 ∷ 0 ∷ 3 ∷ 0 ∷ 4 ∷ 0 ∷ replicate 8 0
        ++ (80 ∷ 16 ∷ replicate 6 0 ++ (65 ∷ 66 ∷ [])))

abbrev its_session : Session
its_session = new_session (bucket_of 2 3 1 4) 0 2 3 1 4

-- The one session is found in each bucket.
abbrev table : Table
table = record {
  buckets = record {
    heads = λ b. head 9 9 1;
    heap = write (λ p. none) 9 (some (node null null its_session));
  };
  numworkers = 1;
  sessions = λ w. 1;
  sent = [];
}

abbrev memory : Memory
memory = record {
  packets = record { heads = λ i. head null null 0; heap = λ p. none };
  allocatedpacketbuffers = 0;
  signals = 0;
}

abbrev state : Daemon
state = record {
  table = table;
  memory = memory;
  neighbors = [];
  localid = 10 ∷ 0 ∷ 0 ∷ 1 ∷ [];
  compression = true;
  metrics = record { packets = 0; bytesin = 0; bytesout = 0 };
  verdicts = [];
  original = segment;
}

segment-readable : get_nod_header_data 8 0 onop segment ≡ ok no_data segment
unfolding get_nod_header_data get_nod_header header_of hdrdata_of get_tcpopt find_loop opt_space
    opt_start tcp_start ihl doff
segment-readable = refl

segment-IsTraffic : IsTraffic 8 0 5 state no_data 9 (node null null its_session)
unfolding protocol syn tcp_start ihl sockets source dest daddr saddr sort_sockets getsession
    getsession_loop is_match load write
segment-IsTraffic = record {
  numbered = omega arith;
  is_tcp = refl;
  no_syn = refl;
  readable = segment-readable;
  found = refl;
  there = omega arith;
  session = refl;
}

-- The pool is empty, and `calloc` returns 7.
abbrev with_buffer : Memory
with_buffer = record {
  packets = record {
    heads = λ i. head null null 0;
    heap =
        write (write (λ p. none) 7 (some (node null null zero_packet))) 7
          (some (node null null zero_packet));
  };
  allocatedpacketbuffers = 1;
  signals = 1;
}

buffer_taken : get_freepacket_buffer (pure tt) 1 7 memory ≡ ok 7 with_buffer
unfolding get_freepacket_buffer from_calloc newpacket clear_packet
buffer_taken = refl

queue_free : IsQueue with_buffer.packets 2 []
queue_free = record {
  before = null;
  counted = record { list = record { chain = tt; next = refl; tail = tt }; count = refl };
}

segment_clean : with_buffer.packets.heap 7 ≡ some (node null null zero_packet)
unfolding write
segment_clean = refl

fetcher_callback-Queued_example :
    (t : Store Packet) × (fetcher_callback 8 0 1 5 42 null 7 1 (pure tt) 1 state
      ≡ ok tt (record state {
        memory = record with_buffer { packets = t };
        metrics = record {
          packets = (0 + 1) % 2 ^ 32;
          bytesin = (0 + tot_len segment) % 2 ^ 32;
          bytesout = 0;
        };
      }))
    × IsQueue t
        (queue_for (in_domain (remote_of no_data state) []) 0)
        ([] ++ (7, copy_of 1 5 42 segment) ∷ [])
unfolding in_domain
fetcher_callback-Queued_example =
    fetcher_callback-Queued 8 0 1 5 42 1 null 7 1 (pure tt) state no_data 9 7
      (node null null its_session) with_buffer [] (omega arith) segment-IsTraffic buffer_taken
      (omega arith) segment_clean queue_free refl (omega arith)

-- A worker that holds the packet, and a table with no session.
abbrev held : Packet
held = record { hq = 1; id = 5; bytes = segment }

abbrev worker_state : Daemon
worker_state = record state {
  table = record table { buckets = record { heads = λ b. head null null 0; heap = λ p. none } };
  memory = record memory {
    packets = record {
      heads = λ i. head null null 0;
      heap = write (λ p. none) 7 (some (node null null held));
    };
  };
}

held_there : worker_state.memory.packets.heap 7 ≡ some (node null null held)
unfolding write
held_there = refl

work_packet-Served_example :
    Ends
      (λ a e. Served 1 5 worker_state e)
      (work_packet (λ b. b) (λ b. b) 8 0 (pure tt) 7 worker_state)
work_packet-Served_example =
    work_packet-Served (λ b. b) (λ b. b) 8 0 (pure tt) 7 worker_state (node null null held)
      (omega arith) held_there

held-IsStray : IsStray 8 0 worker_state 7 held no_data
unfolding sockets source dest daddr saddr sort_sockets getsession
held-IsStray = record {
  there = omega arith;
  at = held_there;
  readable = segment-readable;
  unknown = refl;
}

pool_empty : IsQueue worker_state.memory.packets 0 []
pool_empty = record {
  before = null;
  counted = record { list = record { chain = tt; next = refl; tail = tt }; count = refl };
}

work_packet-Passed_example :
    (t : Store Packet) × (work_packet (λ b. b) (λ b. b) 8 0 (pure tt) 7 worker_state
      ≡ ok tt (record worker_state {
        memory = record (worker_state.memory) { packets = t };
        metrics = record {
          packets = (0 + 1) % 2 ^ 32;
          bytesin = (0 + tot_len segment) % 2 ^ 32;
          bytesout = (0 + tot_len segment) % 2 ^ 32;
        };
        verdicts = unchanged 1 5 ∷ [];
      }))
    × IsQueue t 0 ([] ++ (7, held) ∷ [])
work_packet-Passed_example =
    work_packet-Passed (λ b. b) (λ b. b) 8 0 (pure tt) worker_state 7 held no_data [] held-IsStray
      pool_empty refl (omega arith)
