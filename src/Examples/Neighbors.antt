-- ===== src/Examples/Neighbors.antt =====
-- A node's neighbors (opennopd/subsystems/ipc.c): one that is up and silent, and one that is down.
use opennop.Prelude.{
  ◌≡◌, arith, ℕ, refl, Bool, false, Option, none, some, List, [], ◌∷◌, ◌==◌, if◌then◌else◌,
  replicate, length,
}
use opennop.Prelude.Run.{ok}
use opennop.Heap.{Ptr, null, node, head, Store, write}
use opennop.Heap.Link.{IsList}
use opennop.Ipc.Links.{ipchead, del_neighbor}
use opennop.Ipc.Links.Removed.{Deleted, del_neighbor-Deleted}
use opennop.Ipc.Links.Added.{Added}
use opennop.Ipc.{
  here_i_am, ipc_message, Neighbor, up, down, Ipc, find_neighbor_by_u32, ipc_check_neighbor,
}
use opennop.Ipc.Commands.{cli_neighbor}
use opennop.Ipc.Neighbors.{Distinct}
use opennop.Ipc.Hello.{Greeting, hello_neighbors}
use opennop.Ipc.Hello.Round.{Steps, Connected, traffic_of, hello_neighbors-Steps}
use opennop.Ipc.Reachable.{Reachable, started, configured, connected, greeted, Reachable-Distinct}

abbrev neighbor : ℕ → Neighbor
neighbor ip = record {
  neighbor_ip = ip;
  state = down;
  id = replicate 4 0;
  sock = 0;
  key = replicate 65 0;
  timer = 0;
  hellotimer = 0;
}

abbrev silent : Neighbor
silent = record (neighbor 10) { state = up; sock = 8 }

abbrev hmac : List ℕ → List ℕ → List ℕ
hmac key m = replicate 32 (length m)

abbrev peer : ℕ → Option ℕ
peer fd = if fd == 8 then some 10 else none

abbrev new_ip_client : ℕ → Option ℕ
new_ip_client ip = some 9

abbrev send_fails : ℕ → Bool
send_fails fd = false

abbrev alone : Ipc
alone = record { neighbors = []; localid = replicate 4 1; key = replicate 65 0; sent = [] }

abbrev two : Ipc
two = record alone { neighbors = silent ∷ neighbor 11 ∷ [] }

abbrev greeting : Ipc → Greeting
greeting s = record { ipc = s; registered = []; closed = [] }

two-Distinct : Distinct (two.neighbors)
unfolding find_neighbor_by_u32
two-Distinct = (refl, (refl, tt))

two-Connected : Connected peer (two.neighbors)
two-Connected = (λ h. refl, (λ h. absurd (h refl), tt))

hello_neighbors-Steps_example :
    let s = greeting two in
    let t = hello_neighbors hmac peer new_ip_client send_fails 100 101 s in
    Steps new_ip_client send_fails 100 101
      (ipc_message hmac peer 100 here_i_am (replicate 65 0) (replicate 4 1))
      (two.neighbors)
      (traffic_of s)
      (t.ipc.neighbors)
      (traffic_of t)
hello_neighbors-Steps_example =
    hello_neighbors-Steps hmac peer new_ip_client send_fails 100 101 (greeting two) two-Distinct
      two-Connected

-- Both neighbors are configured, the first connects, and a round of hellos follows.
abbrev inet_pton : List ℕ → Option ℕ
inet_pton [] = none
inet_pton (c ∷ cs) = some c

abbrev one_known : Ipc
one_known = (cli_neighbor inet_pton (neighbor 0) 5 ((10 ∷ []) ∷ []) alone).1

abbrev both_known : Ipc
both_known = (cli_neighbor inet_pton (neighbor 0) 6 ((11 ∷ []) ∷ (107 ∷ []) ∷ []) one_known).1

abbrev connection : Ipc
connection = (ipc_check_neighbor hmac peer 50 8 both_known).1

abbrev round : Ipc
round = (hello_neighbors hmac peer new_ip_client send_fails 100 101 (greeting connection)).ipc

round-Reachable : Reachable hmac round
round-Reachable = greeted (greeting connection) peer new_ip_client send_fails 100 101 (
    connected both_known peer 50 8 (
      configured one_known inet_pton (neighbor 0) 6 ((11 ∷ []) ∷ (107 ∷ []) ∷ [])
        (configured alone inet_pton (neighbor 0) 5 ((10 ∷ []) ∷ []) (started alone refl))))

Reachable-Distinct_example : Distinct (round.neighbors)
Reachable-Distinct_example = Reachable-Distinct hmac round round-Reachable

-- The two neighbors as they are linked, at 5 and 6.
abbrev linked : Store Neighbor
linked = record {
  heads = λ _. head 5 6 0;
  heap =
      write (write (λ _. none) 6 (some (node null 5 (neighbor 11)))) 5 (some (node 6 null silent));
}

abbrev nodes : List (Ptr × Neighbor)
nodes = (5, silent) ∷ (6, neighbor 11) ∷ []

linked-IsList : IsList linked ipchead null nodes
unfolding write
linked-IsList = record {
  chain = (omega arith, refl, refl, (omega arith, refl, refl, tt));
  next = refl;
  tail = refl;
}

del_neighbor-Deleted_example :
    (t : Store Neighbor) × (del_neighbor 3 11 linked ≡ ok tt t) × Deleted 11 linked nodes t
del_neighbor-Deleted_example = del_neighbor-Deleted linked 11 nodes linked-IsList
