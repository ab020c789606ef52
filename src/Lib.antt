-- ===== src/Lib.antt =====
-- The OpenNOP daemon: what it does to TCP sessions and packets between two accelerators.
--
-- A packet that Netfilter hands over is copied to a buffer from the memory manager's pool and queued
-- for a worker. The session table finds the session by the two sockets; the packet updates it, gets
-- TCP options added or taken away, its checksums filled in, and is handed back. Idle sessions are
-- swept out of the table. Accelerators tell each other their IDs in messages with an HMAC.
--
-- Prelude: the shared names, lists, Boolean tests, and commands over a state that may fault or run
-- out of fuel. Heap: the doubly linked lists behind a head, with `link_tail` for the insertion and
-- `unlink` for the removal that opennopd/queuemanager.c and opennopd/sessionmanager.c write out; an
-- address that holds no node is a fault. Heap/Segment says what list a chain of nodes stands for.
-- Sessions: insertsession, getsession, clearsession and their helpers of opennopd/sessionmanager.c,
-- with the workers' counts of opennopd/subsystems/worker.c; Sessions/Invariant is the table's
-- invariant. Cleanup: cleanuplist and the pass over all buckets of
-- opennopd/subsystems/sessioncleanup.c.
-- Tracking: updateseq, sourceisclient, saveacceleratorid and session_accelerated of
-- opennopd/sessionmanager.c, the IDs of opennopd/subsystems/ipc.c, closingsession of
-- opennopd/subsystems/worker.c. Queue: opennopd/queuemanager.c and opennopd/packet.c.
-- Memory: opennopd/subsystems/memorymanager.c. Bytes: the fields of the IP and TCP headers.
-- Checksum: opennopd/csum.c. TcpOptions: opennopd/tcpoptions.c up to set_tcpopt; Nod: the headers
-- for an accelerator's ID there; OldOptions: its __get_tcp_option and __set_tcp_option.
-- Ipc: the messages of opennopd/subsystems/ipc.c, their checks, the list of neighbors, the rounds of
-- hellos (Ipc/Hello), the commands that set neighbors and the local key (Ipc/Commands), and the
-- neighbors' links (Ipc/Links); the others work on the list that the links make, as Ipc/Links/View
-- relates the two.
-- Counters: the rates of opennopd/subsystems/counters.c and opennopd/subsystems/worker.c.
-- Daemon: the state that the threads share. Fetcher: fetcher_callback of
-- opennopd/subsystems/fetcher.c. Worker: the round of worker_thread of
-- opennopd/subsystems/worker.c. Compression: opennopd/compression.c.
-- Cli: the commands of opennopd/subsystems/clicommands.c and the loop of
-- opennopd/subsystems/climanager.c.
-- Examples: concrete runs.
--
-- The state is passed explicitly: a store of heads and nodes, with the other fields of the component
-- in a record around it. Machine integers wrap where they are written; addresses are numbers and 0 is
-- NULL. A function that holds a lock throughout is one step. What `calloc` returns, what other
-- threads do meanwhile, `getpeername`, `inet_pton`, new sockets, failures of `send`, `time` and OpenSSL's
-- HMAC are arguments.
-- The loops over a list get one round more than its head counts, which is enough under the
-- invariant; the loop that folds a checksum's carries gets 3 rounds, enough below 2 ^ 32; a loop over
-- TCP options gets 256, since its index is a byte.
--
-- Not modelled: sockets, logging, the handlers of most commands, the kernel module, Netfilter, QuickLZ
-- (lib/quicklz.c is another project's library), WCCP, the list of counters and the
-- health agent.
pub mod Bytes
pub mod Checksum
pub mod Cleanup
pub mod Cli
pub mod Compression
pub mod Counters
pub mod Daemon
pub mod Examples
pub mod Fetcher
pub mod Heap
pub mod Ipc
pub mod Memory
pub mod Nod
pub mod OldOptions
pub mod Prelude
pub mod Queue
pub mod Sessions
pub mod TcpOptions
pub mod Tracking
pub mod Worker
