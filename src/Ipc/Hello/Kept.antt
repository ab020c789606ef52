-- ===== src/Ipc/Hello/Kept.antt =====
-- A round of hello_neighbors keeps the neighbors' addresses.
use opennop.Prelude.{
  ℕ, zero, suc, ◌≡◌, refl, ◌∙◌, inl, inr, Bool, ◌&&◌, ltb, leb, ◌+◌, Option, List, ◌==◌, Bool-cases,
  Option-cases, length, get_elem?,
}
use opennop.Ipc.{Neighbor, down, attempt, is_down, is_up, ipc_send_message}
use opennop.Ipc.Hello.{
  Greeting, assign, attempt_neighbor, check_silence, send_hello, hello_neighbor, hello_loop,
  hello_neighbors,
}
use opennop.Ipc.Addresses.{Same, Same-assign, Same-state}

abbrev pub Kept : Greeting → Greeting → Type 0
Kept s t = Same (s.ipc.neighbors) (t.ipc.neighbors)

Kept-assign :
    (k : ℕ) (f : Neighbor → Neighbor) (s t : Greeting)
    → ((n : Neighbor) → (f n).neighbor_ip ≡ n.neighbor_ip)
    → Kept s t
    → Kept s (assign k f t)
Kept-assign k f s t keep e = e ∙ Same-assign k f (t.ipc.neighbors) keep

module _ (hmac : List ℕ → List ℕ → List ℕ) (peer : ℕ → Option ℕ) (new_ip_client : ℕ → Option ℕ)
    (send_fails : ℕ → Bool) (now later : ℕ) where
  Kept-attempt :
      (k : ℕ) (n : Neighbor) (s : Greeting)
      → Kept s (attempt_neighbor hmac peer new_ip_client send_fails now later k n s)
  unfolding attempt_neighbor
  Kept-attempt k n s =
      let s1 = assign k (λ m. record m { hellotimer = now }) s in
      let e1 = Kept-assign k (λ m. record m { hellotimer = now }) s s (λ m. refl) refl in
      elim (Bool-cases (n.sock == 0)) [
        | inr opened ↦
            rw opened (Kept-assign k (λ m. record m { state = attempt }) s s1 (λ m. refl) e1)
        | inl closed ↦ elim (Option-cases (new_ip_client n.neighbor_ip)) [
          | inl refused ↦ rw closed (rw refused e1)
          | inr (fd, given) ↦ rw closed (
              rw given
                (Kept-assign k (λ m. record m { sock = fd; state = attempt }) s s1 (λ m. refl) e1))
        ]
      ]

  Kept-silence :
      (n : Neighbor) (s : Greeting)
      → Kept s
          (record s { ipc = check_silence hmac peer new_ip_client send_fails now later n (s.ipc) })
  unfolding check_silence
  Kept-silence n s = elim (Bool-cases (is_up n.state && ltb (n.timer + 30) now)) [
    | inl silent ↦ rw silent (Same-state hmac peer later n.sock down (s.ipc))
    | inr heard ↦ rw heard refl
  ]

  Kept-send :
      (k socket : ℕ) (s : Greeting)
      → Kept s (send_hello hmac peer new_ip_client send_fails now later k socket s)
  unfolding send_hello ipc_send_message
  Kept-send k socket s = elim (Bool-cases (send_fails socket)) [
    | inl fails ↦
        rw fails (Kept-assign k (λ m. record m { state = down; sock = 0 }) s s (λ m. refl) refl)
    | inr sent ↦ rw sent refl
  ]

  Kept-hello :
      (k : ℕ) (n : Neighbor) (s : Greeting)
      → Kept s (hello_neighbor hmac peer new_ip_client send_fails now later k n s)
  unfolding hello_neighbor
  Kept-hello k n s = elim (Bool-cases (is_down n.state)) [
    | inl isdown ↦ elim (Bool-cases (leb (n.hellotimer + 30) now)) [
      | inl due ↦ rw isdown (rw due (Kept-attempt k n s))
      | inr early ↦ rw isdown (rw early refl)
    ]
    | inr active ↦ elim (Bool-cases (leb (n.hellotimer + 10) now)) [
      | inr early ↦ rw active (rw early refl)
      | inl due ↦ elim (Bool-cases (n.sock == 0)) [
        | inl closed ↦ rw active (rw due (rw closed refl))
        | inr opened ↦
            let s1 = assign k (λ m. record m { hellotimer = now }) s in
            let s2 : Greeting = record s1 {
              ipc = check_silence hmac peer new_ip_client send_fails now later n (s1.ipc);
            } in
            rw active (
              rw due (
                rw opened (
                  Kept-assign k (λ m. record m { hellotimer = now }) s s (λ m. refl) refl
                  ∙ Kept-silence n s1
                  ∙ Kept-send k n.sock s2)))
      ]
    ]
  ]

  Kept-loop :
      (count k : ℕ) (s : Greeting)
      → Kept s (hello_loop hmac peer new_ip_client send_fails now later count k s)
  unfolding hello_loop
  Kept-loop zero k s = refl
  Kept-loop (suc count) k s = elim (Option-cases (get_elem? (s.ipc.neighbors) k)) [
    | inl past ↦ rw (past, hello_loop) refl
    | inr (n, reached) ↦
        let t = hello_neighbor hmac peer new_ip_client send_fails now later k n s in
        rw (reached, hello_loop) (Kept-hello k n s ∙ Kept-loop count (suc k) t)
  ]

  pub Kept-hellos :
      (s : Greeting) → Kept s (hello_neighbors hmac peer new_ip_client send_fails now later s)
  unfolding hello_neighbors
  Kept-hellos s = Kept-loop (length (s.ipc.neighbors)) 0 s
