-- ===== src/Ipc/Hello/Greeted.antt =====
-- What hello_neighbors makes of each neighbor, when a neighbor's socket is connected to its address.
use opennop.Prelude.{
  ℕ, ◌+◌, ◌≤◌, ◌<◌, ◌≡◌, refl, ap, ◌∙◌, ◌≢◌, inl, inr, Bool, true, false, ◌&&◌, Option, none, some,
  List, [], ◌∷◌, ◌++◌, arith, ◌==◌, ltb, leb, if◌then◌else◌, Bool-cases, Option-cases, length,
}
use opennop.Ipc.{
  Neighbor, down, attempt, is_down, is_up, Ipc, here_i_am, ipc_message, find_neighbor_by_u32,
  update_neighbor, ipc_send_message, update_by_socket, ipc_set_neighbor_state,
}
use opennop.Ipc.Domain.{update_run}
use opennop.Ipc.Hello.{
  Greeting, assign_at, assign, attempt_neighbor, check_silence, send_hello, hello_neighbor,
}

-- The neighbor after a silence was noticed.
abbrev pub fallen : ℕ → Neighbor → Neighbor
fallen later n = record n { state = down; timer = later }

abbrev pub dropped : Neighbor → Neighbor
dropped n = record n { state = down; sock = 0 }

-- Messages handed to `send` with their sockets, sockets registered and sockets closed, newest first.
pub record Traffic : Type 0 where
  pub sent : List (ℕ × List ℕ)
  pub registered : List ℕ
  pub closed : List ℕ

-- The step of a neighbor in a round, with what it adds to the traffic `w`; `hello` is the message.
pub data Step (new_ip_client : ℕ → Option ℕ) (send_fails : ℕ → Bool) (now later : ℕ)
    (hello : List ℕ) (n : Neighbor) (w : Traffic) : Neighbor → Traffic → Type 0 where
  waits_down :
      is_down n.state ≡ true
      → now < n.hellotimer + 30
      → Step new_ip_client send_fails now later hello n w n w
  waits :
      is_down n.state ≡ false
      → now < n.hellotimer + 10
      → Step new_ip_client send_fails now later hello n w n w
  unconnected :
      is_down n.state ≡ false → n.sock ≡ 0 → Step new_ip_client send_fails now later hello n w n w
  unreachable :
      is_down n.state ≡ true
      → n.hellotimer + 30 ≤ now
      → n.sock ≡ 0
      → new_ip_client n.neighbor_ip ≡ none
      → Step new_ip_client send_fails now later hello n w (record n { hellotimer = now }) w
  connects :
      (fd : ℕ)
      → is_down n.state ≡ true
      → n.hellotimer + 30 ≤ now
      → n.sock ≡ 0
      → new_ip_client n.neighbor_ip ≡ some fd
      → Step new_ip_client send_fails now later hello n w
          (record n { hellotimer = now; sock = fd; state = attempt })
          (record w { registered = fd ∷ w.registered })
  retries :
      is_down n.state ≡ true
      → n.hellotimer + 30 ≤ now
      → n.sock ≢ 0
      → Step new_ip_client send_fails now later hello n w
          (record n { hellotimer = now; state = attempt })
          w
  greets :
      (silent : Bool)
      → is_down n.state ≡ false
      → n.hellotimer + 10 ≤ now
      → n.sock ≢ 0
      → (is_up n.state && ltb (n.timer + 30) now) ≡ silent
      → send_fails n.sock ≡ false
      → Step new_ip_client send_fails now later hello n w
          (let m : Neighbor = record n { hellotimer = now } in if silent then fallen later m else m)
          (record w { sent = (n.sock, hello) ∷ w.sent })
  fails :
      (silent : Bool)
      → is_down n.state ≡ false
      → n.hellotimer + 10 ≤ now
      → n.sock ≢ 0
      → (is_up n.state && ltb (n.timer + 30) now) ≡ silent
      → send_fails n.sock ≡ true
      → Step new_ip_client send_fails now later hello n w
          (let m : Neighbor = record n { hellotimer = now } in
            dropped (if silent then fallen later m else m))
          (record w { sent = (n.sock, hello) ∷ w.sent; closed = n.sock ∷ w.closed })

module _ (new_ip_client : ℕ → Option ℕ) (send_fails : ℕ → Bool) (now later : ℕ)
    (hello : List ℕ) where
  pub Step-ip :
      (n n' : Neighbor) (w w' : Traffic)
      → Step new_ip_client send_fails now later hello n w n' w'
      → n'.neighbor_ip ≡ n.neighbor_ip
  Step-ip n _ w _ (waits_down _ _) = refl
  Step-ip n _ w _ (waits _ _) = refl
  Step-ip n _ w _ (unconnected _ _) = refl
  Step-ip n _ w _ (unreachable _ _ _ _) = refl
  Step-ip n _ w _ (connects _ _ _ _ _) = refl
  Step-ip n _ w _ (retries _ _ _) = refl
  Step-ip n _ w _ (greets true _ _ _ _ _) = refl
  Step-ip n _ w _ (greets false _ _ _ _ _) = refl
  Step-ip n _ w _ (fails true _ _ _ _ _) = refl
  Step-ip n _ w _ (fails false _ _ _ _ _) = refl

-- The node's ID and key stay those of `base`.
abbrev pub world : Ipc → List Neighbor → Traffic → Greeting
world base ns w = record {
  ipc = record base { neighbors = ns; sent = w.sent };
  registered = w.registered;
  closed = w.closed;
}

abbrev with_ipc : (Ipc → Ipc) → Greeting → Greeting
with_ipc f s = record s { ipc = f (s.ipc) }

abbrev close_socket : ℕ → Greeting → Greeting
close_socket fd s = record s { closed = fd ∷ s.closed }

abbrev register : ℕ → Greeting → Greeting
register fd s = record s { registered = fd ∷ s.registered }

-- The neighbor at the end of `done`.
abbrev pub At : Ipc → Traffic → List Neighbor → Neighbor → List Neighbor → Greeting → Type 0
At base w done n rest s = s ≡ world base (done ++ n ∷ rest) w

assign_at-append :
    (f : Neighbor → Neighbor) (done rest : List Neighbor) (n : Neighbor)
    → assign_at (length done) f (done ++ n ∷ rest) ≡ done ++ f n ∷ rest
unfolding assign_at
assign_at-append f [] rest n = refl
assign_at-append f (x ∷ xs) rest n = ap (◌∷◌ x) (assign_at-append f xs rest n)

update_neighbor-append :
    (f : Neighbor → Neighbor) (ip : ℕ) (done rest : List Neighbor) (n : Neighbor)
    → find_neighbor_by_u32 ip done ≡ none
    → n.neighbor_ip ≡ ip
    → update_neighbor ip f (done ++ n ∷ rest) ≡ done ++ f n ∷ rest
unfolding update_neighbor find_neighbor_by_u32
update_neighbor-append f ip [] rest n out e = ground arith
update_neighbor-append f ip (x ∷ xs) rest n out e = elim (Bool-cases (x.neighbor_ip == ip)) [
  | inl same ↦ absurd (ground arith)
  | inr differ ↦ rw differ (ap (◌∷◌ x) (update_neighbor-append f ip xs rest n (ground arith) e))
]

assign-At :
    (f : Neighbor → Neighbor) (base : Ipc) (w : Traffic) (done rest : List Neighbor) (n : Neighbor)
    (s : Greeting)
    → At base w done n rest s
    → At base w done (f n) rest (assign (length done) f s)
assign-At f base w done rest n s at =
    ap (assign (length done) f) at ∙ ap (λ ns. world base ns w) (assign_at-append f done rest n)

module _ (hmac : List ℕ → List ℕ → List ℕ) (peer : ℕ → Option ℕ) (new_ip_client : ℕ → Option ℕ)
    (send_fails : ℕ → Bool) (now later : ℕ) (base : Ipc) (w : Traffic) (done rest : List Neighbor)
    (n : Neighbor) where
  abbrev hello : List ℕ
  hello = ipc_message hmac peer now here_i_am (base.key) (base.localid)

  abbrev Stepped : Greeting → Type 0
  Stepped s =
      (n' : Neighbor) × (w' : Traffic) × Step new_ip_client send_fails now later hello n w n' w'
      × At base w' done n' rest s

  send_hello-sent :
      (m : Neighbor) (socket : ℕ) (s : Greeting)
      → At base w done m rest s
      → send_fails socket ≡ false
      → At base
          (record w { sent = (socket, hello) ∷ w.sent })
          done
          m
          rest
          (send_hello hmac peer new_ip_client send_fails now later (length done) socket s)
  unfolding send_hello ipc_send_message
  send_hello-sent m socket s at b =
      rw b (ap (with_ipc (ipc_send_message hmac peer now socket here_i_am)) at)

  send_hello-failed :
      (m : Neighbor) (socket : ℕ) (s : Greeting)
      → At base w done m rest s
      → send_fails socket ≡ true
      → At base
          (record w { sent = (socket, hello) ∷ w.sent; closed = socket ∷ w.closed })
          done
          (dropped m)
          rest
          (send_hello hmac peer new_ip_client send_fails now later (length done) socket s)
  unfolding send_hello ipc_send_message
  send_hello-failed m socket s at b =
      let s1 : Greeting = record s {
        ipc = ipc_send_message hmac peer now socket here_i_am (s.ipc);
      } in
      let at1 : At base (record w { sent = (socket, hello) ∷ w.sent }) done m rest s1 =
        ap (with_ipc (ipc_send_message hmac peer now socket here_i_am)) at in
      rw b (ap (close_socket socket) (assign-At dropped base _ done rest m s1 at1))

  check_silence-At :
      (m : Neighbor) (s : Greeting)
      → find_neighbor_by_u32 n.neighbor_ip done ≡ none
      → peer n.sock ≡ some n.neighbor_ip
      → m.neighbor_ip ≡ n.neighbor_ip
      → At base w done m rest s
      → At base w done
          (if is_up n.state && ltb (n.timer + 30) now then fallen later m else m)
          rest
          (record s { ipc = check_silence hmac peer new_ip_client send_fails now later n (s.ipc) })
  unfolding check_silence ipc_set_neighbor_state update_by_socket
  check_silence-At m s out address e at =
      let fall : Ipc → Ipc =
        λ x. record x { neighbors = update_neighbor n.neighbor_ip (fallen later) x.neighbors } in
      elim (Bool-cases (is_up n.state && ltb (n.timer + 30) now)) [
        | inl b ↦ rw b (
            ap (λ x. with_ipc (λ _. x) s)
              (update_run hmac peer later n.sock n.neighbor_ip (fallen later) (s.ipc) address)
            ∙ ap (with_ipc fall) at
            ∙ ap (λ ns. world base ns w)
                (update_neighbor-append (fallen later) n.neighbor_ip done rest m out e))
        | inr b ↦ rw b at
      ]

  attempt_neighbor-Step :
      (s : Greeting)
      → At base w done n rest s
      → is_down n.state ≡ true
      → n.hellotimer + 30 ≤ now
      → Stepped (attempt_neighbor hmac peer new_ip_client send_fails now later (length done) n s)
  unfolding attempt_neighbor
  attempt_neighbor-Step s at isdown due =
      let at1 = assign-At (λ m. record m { hellotimer = now }) base w done rest n s at in
      let s1 = assign (length done) (λ m. record m { hellotimer = now }) s in
      elim (Bool-cases (n.sock == 0)) [
        | inl closed ↦ elim (Option-cases (new_ip_client n.neighbor_ip)) [
          | inl refused ↦
              (_, w, unreachable isdown due (ground arith) refused, rw closed (rw refused at1))
          | inr (fd, given) ↦ (
            _,
            _,
            connects fd isdown due (ground arith) given,
            rw closed (
                rw given (
                  ap (register fd) (
                    assign-At (λ m. record m { sock = fd; state = attempt }) base w done rest _ s1
                      at1))),
          )
        ]
        | inr opened ↦ (
          _,
          w,
          retries isdown due (ground arith),
          rw opened (assign-At (λ m. record m { state = attempt }) base w done rest _ s1 at1),
        )
      ]

  pub hello_neighbor-Step :
      (s : Greeting)
      → find_neighbor_by_u32 n.neighbor_ip done ≡ none
      → (n.sock ≢ 0 → peer n.sock ≡ some n.neighbor_ip)
      → At base w done n rest s
      → Stepped (hello_neighbor hmac peer new_ip_client send_fails now later (length done) n s)
  unfolding hello_neighbor
  hello_neighbor-Step s out address at = elim (Bool-cases (is_down n.state)) [
    | inl isdown ↦ elim (Bool-cases (leb (n.hellotimer + 30) now)) [
      | inl due ↦
          let (n', w', step, at') = attempt_neighbor-Step s at isdown (ground arith) in
          (n', w', step, rw isdown (rw due at'))
      | inr early ↦ (n, w, waits_down isdown (ground arith), rw isdown (rw early at))
    ]
    | inr active ↦ elim (Bool-cases (leb (n.hellotimer + 10) now)) [
      | inr early ↦ (n, w, waits active (ground arith), rw active (rw early at))
      | inl due ↦ elim (Bool-cases (n.sock == 0)) [
        | inl closed ↦ (n, w, unconnected active (ground arith), rw active (rw due (rw closed at)))
        | inr opened ↦
            let ne : n.sock ≢ 0 = ground arith in
            let at1 = assign-At (λ m. record m { hellotimer = now }) base w done rest n s at in
            let s1 = assign (length done) (λ m. record m { hellotimer = now }) s in
            let at2 = check_silence-At _ s1 out (address ne) refl at1 in
            elim (Bool-cases (send_fails n.sock)) [
              | inl failed ↦ (
                _,
                _,
                fails _ active (ground arith) ne refl failed,
                rw active (rw due (rw opened (send_hello-failed _ n.sock _ at2 failed))),
              )
              | inr sent ↦ (
                _,
                _,
                greets _ active (ground arith) ne refl sent,
                rw active (rw due (rw opened (send_hello-sent _ n.sock _ at2 sent))),
              )
            ]
      ]
    ]
  ]
