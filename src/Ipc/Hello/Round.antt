-- ===== src/Ipc/Hello/Round.antt =====
-- The whole round of hello_neighbors.
use opennop.Prelude.{
  ℕ, suc, ◌≡◌, refl, sym, ap, ◌∙◌, ◌≢◌, Bool, Option, none, some, List, [], ◌∷◌, ◌++◌, arith,
  length, append_snoc, length_snoc, get_elem?, get_elem?-middle,
}
use opennop.Ipc.{Neighbor, Ipc, here_i_am, ipc_message, find_neighbor_by_u32}
use opennop.Ipc.Neighbors.{Distinct}
use opennop.Ipc.Hello.{Greeting, hello_neighbor, hello_loop, hello_neighbors}
use opennop.Ipc.Hello.Greeted.{Traffic, Step, Step-ip, world, hello_neighbor-Step}

-- The neighbors one by one, with the traffic before and after.
pub data Steps (new_ip_client : ℕ → Option ℕ) (send_fails : ℕ → Bool) (now later : ℕ)
    (hello : List ℕ) : List Neighbor → Traffic → List Neighbor → Traffic → Type 0 where
  nil : {w : Traffic} → Steps new_ip_client send_fails now later hello [] w [] w
  cons :
      {n n' : Neighbor} {ns ns' : List Neighbor} {w w' w'' : Traffic}
      → Step new_ip_client send_fails now later hello n w n' w'
      → Steps new_ip_client send_fails now later hello ns w' ns' w''
      → Steps new_ip_client send_fails now later hello (n ∷ ns) w (n' ∷ ns') w''

abbrev pub traffic_of : Greeting → Traffic
traffic_of s = record { sent = s.ipc.sent; registered = s.registered; closed = s.closed }

-- The socket of each neighbor that has one is connected to its address.
abbrev pub Connected : (ℕ → Option ℕ) → List Neighbor → Type 0
Connected peer [] = Unit
Connected peer (n ∷ ns) = (n.sock ≢ 0 → peer n.sock ≡ some n.neighbor_ip) × Connected peer ns

-- No address of the second list is one of the first.
abbrev Outside : List Neighbor → List Neighbor → Type 0
Outside done [] = Unit
Outside done (n ∷ ns) = (find_neighbor_by_u32 n.neighbor_ip done ≡ none) × Outside done ns

find-snoc :
    (ip : ℕ) (done : List Neighbor) (n : Neighbor)
    → find_neighbor_by_u32 ip done ≡ none
    → n.neighbor_ip ≢ ip
    → find_neighbor_by_u32 ip (done ++ n ∷ []) ≡ none
unfolding find_neighbor_by_u32
find-snoc ip [] n out ne = ground arith
find-snoc ip (x ∷ xs) n out ne = let rest = find-snoc ip xs n (ground arith) ne in ground arith

Outside-snoc :
    (ip : ℕ) (done rest : List Neighbor) (n : Neighbor)
    → n.neighbor_ip ≡ ip
    → find_neighbor_by_u32 ip rest ≡ none
    → Outside done rest
    → Outside (done ++ n ∷ []) rest
unfolding find_neighbor_by_u32
Outside-snoc ip done [] n e absent out = tt
Outside-snoc ip done (m ∷ ms) n e absent out = (
  find-snoc m.neighbor_ip done n (out.0) (ground arith),
  Outside-snoc ip done ms n e (ground arith) (out.1),
)

Outside-nil : (rest : List Neighbor) → Outside [] rest
unfolding find_neighbor_by_u32
Outside-nil [] = tt
Outside-nil (n ∷ ns) = (refl, Outside-nil ns)

module _ (hmac : List ℕ → List ℕ → List ℕ) (peer : ℕ → Option ℕ) (new_ip_client : ℕ → Option ℕ)
    (send_fails : ℕ → Bool) (now later : ℕ) where
  abbrev Looped : Ipc → Traffic → List Neighbor → List Neighbor → Greeting → Type 0
  Looped base w done rest s =
      (rest' : List Neighbor) × (w' : Traffic) × Steps new_ip_client send_fails now later
        (ipc_message hmac peer now here_i_am (base.key) (base.localid)) rest w rest' w'
      × (hello_loop hmac peer new_ip_client send_fails now later (length rest) (length done) s
          ≡ world base (done ++ rest') w')

  hello_loop_step :
      (count k : ℕ) (n : Neighbor) (s : Greeting)
      → get_elem? (s.ipc.neighbors) k ≡ some n
      → hello_loop hmac peer new_ip_client send_fails now later (suc count) k s
        ≡ hello_loop hmac peer new_ip_client send_fails now later count
            (suc k)
            (hello_neighbor hmac peer new_ip_client send_fails now later k n s)
  unfolding hello_loop
  hello_loop_step count k n s e = rw (e, hello_loop) refl

  hello_loop-Steps :
      (base : Ipc) (w : Traffic) (done rest : List Neighbor) (s : Greeting)
      → Outside done rest
      → Distinct rest
      → Connected peer rest
      → s ≡ world base (done ++ rest) w
      → Looped base w done rest s
  unfolding hello_loop
  hello_loop-Steps base w done [] s out d c at = ([], w, nil, at)
  hello_loop-Steps base w done (n ∷ ns) s out d c at =
      let (n', w', step, at') =
        hello_neighbor-Step hmac peer new_ip_client send_fails now later base w done ns n s (out.0)
          (c.0) at in
      let next = hello_neighbor hmac peer new_ip_client send_fails now later (length done) n s in
      let out' =
        Outside-snoc n.neighbor_ip done ns n'
          (Step-ip new_ip_client send_fails now later _ n n' w w' step) (d.0) (out.1) in
      let (ns', w'', steps, run) =
        hello_loop-Steps base w' (done ++ n' ∷ []) ns next out' (d.1) (c.1)
          (at' ∙ ap (λ xs. world base xs w') (sym (append_snoc done ns n'))) in
      let reached =
        ap (λ t. get_elem? (t.ipc.neighbors) (length done)) at ∙ get_elem?-middle done ns n in
      (
        n' ∷ ns',
        w'',
        cons step steps,
        hello_loop_step (length ns) (length done) n s reached
            ∙ ap (λ k. hello_loop hmac peer new_ip_client send_fails now later (length ns) k next)
                (sym (length_snoc done n'))
            ∙ run
            ∙ ap (λ xs. world base xs w'') (append_snoc done ns' n'),
      )

  -- When no two neighbors have the same address and the socket of each neighbor that has one is
  -- connected to the neighbor's address, a round of `hello_neighbors` takes one step of the state
  -- machine with each neighbor, in order. Down, it waits for 30 seconds since its hello timer and is
  -- then attempted, with a new socket, which is registered, if it has none. Otherwise, after 10
  -- seconds and with a socket, it is handed exactly one hello message to its socket; it is then down
  -- if it was up and silent for more than 30 seconds, and down with its socket closed if `send`
  -- fails. Nothing else is sent, registered or closed.
  pub hello_neighbors-Steps :
      (s : Greeting)
      → Distinct (s.ipc.neighbors)
      → Connected peer (s.ipc.neighbors)
      → let t = hello_neighbors hmac peer new_ip_client send_fails now later s in
        Steps new_ip_client send_fails now later
          (ipc_message hmac peer now here_i_am (s.ipc.key) (s.ipc.localid))
          (s.ipc.neighbors)
          (traffic_of s)
          (t.ipc.neighbors)
          (traffic_of t)
  unfolding hello_neighbors
  hello_neighbors-Steps s d c =
      let (ns', w', steps, run) =
        hello_loop-Steps (s.ipc) (traffic_of s) [] (s.ipc.neighbors) s
          (Outside-nil (s.ipc.neighbors)) d c refl in
      rw run steps
