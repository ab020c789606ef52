-- ===== src/Ipc/Hello.antt =====
-- hello_neighbors of opennopd/subsystems/ipc.c. A neighbor is reached by its position, since
-- `ipc_set_neighbor_state` reaches it by its socket's address. `new_ip_client`, an error of `send`,
-- and the time that `ipc_set_neighbor_state` reads are arguments.
pub mod Greeted
pub mod Round
pub mod Kept
use opennop.Prelude.{
  ℕ, zero, suc, ◌+◌, Bool, true, false, ◌&&◌, Option, none, some, List, [], ◌∷◌, ◌==◌, ltb, leb,
  if◌then◌else◌, length, get_elem?,
}
use opennop.Ipc.{
  Neighbor, down, attempt, up, is_down, is_up, Ipc, here_i_am, ipc_send_message,
  ipc_set_neighbor_state,
}

-- The sockets that were registered with epoll and the sockets that were closed, newest first.
pub record Greeting : Type 0 where
  pub ipc : Ipc
  pub registered : List ℕ
  pub closed : List ℕ

unfoldable pub assign_at : ℕ → (Neighbor → Neighbor) → List Neighbor → List Neighbor
assign_at k f [] = []
assign_at zero f (n ∷ ns) = f n ∷ ns
assign_at (suc k) f (n ∷ ns) = n ∷ assign_at k f ns

abbrev pub assign : ℕ → (Neighbor → Neighbor) → Greeting → Greeting
assign k f s = record s { ipc = record s.ipc { neighbors = assign_at k f (s.ipc.neighbors) } }

module _ (hmac : List ℕ → List ℕ → List ℕ) (peer : ℕ → Option ℕ) (new_ip_client : ℕ → Option ℕ)
    (send_fails : ℕ → Bool) (now later : ℕ) where
  -- The branch of a neighbor that is down.
  unfoldable pub attempt_neighbor : ℕ → Neighbor → Greeting → Greeting
  attempt_neighbor k n s =
      let s1 = assign k (λ m. record m { hellotimer = now }) s in
      if n.sock == 0
      then elim (new_ip_client n.neighbor_ip) [
        | none ↦ s1
        | some fd ↦ record (assign k (λ m. record m { sock = fd; state = attempt }) s1) {
          registered = fd ∷ s.registered;
        }
      ]
      else assign k (λ m. record m { state = attempt }) s1

  -- A neighbor that is up and silent for more than 30 seconds is no longer up.
  unfoldable pub check_silence : Neighbor → Ipc → Ipc
  check_silence n s =
      if is_up n.state && ltb (n.timer + 30) now
      then ipc_set_neighbor_state hmac peer later n.sock down s
      else s

  unfoldable pub send_hello : ℕ → ℕ → Greeting → Greeting
  send_hello k socket s =
      let s1 = record s { ipc = ipc_send_message hmac peer now socket here_i_am (s.ipc) } in
      if send_fails socket
      then record (assign k (λ m. record m { state = down; sock = 0 }) s1) {
        closed = socket ∷ s.closed;
      }
      else s1

  -- The body of the loop.
  unfoldable pub hello_neighbor : ℕ → Neighbor → Greeting → Greeting
  unfolding attempt_neighbor check_silence send_hello
  hello_neighbor k n s =
      if is_down n.state
      then (if leb (n.hellotimer + 30) now then attempt_neighbor k n s else s)
      else if leb (n.hellotimer + 10) now
      then (if n.sock == 0
          then s
          else (let s1 = assign k (λ m. record m { hellotimer = now }) s in
              send_hello k n.sock (record s1 { ipc = check_silence n (s1.ipc) })))
      else s

  -- The loop from the `k`-th neighbor on, over the `count` that are left.
  unfoldable pub hello_loop : ℕ → ℕ → Greeting → Greeting
  unfolding hello_neighbor
  hello_loop zero k s = s
  hello_loop (suc count) k s = elim (get_elem? (s.ipc.neighbors) k) [
    | none ↦ s
    | some n ↦ hello_loop count (suc k) (hello_neighbor k n s)
  ]

  unfoldable pub hello_neighbors : Greeting → Greeting
  unfolding hello_loop
  hello_neighbors s = hello_loop (length (s.ipc.neighbors)) 0 s
