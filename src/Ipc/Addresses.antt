-- ===== src/Ipc/Addresses.antt =====
-- The neighbors' addresses through the handlers of opennopd/subsystems/ipc.c.
use mathlib.Core.Path.{subst}
use opennop.Prelude.{
  ℕ, ◌≡◌, refl, sym, ap, ◌∙◌, inl, inr, Bool, true, false, Option, none, List, [], ◌∷◌, arith, ◌==◌,
  if◌then◌else◌, Bool-cases, Option-cases, zero, suc, drop, replicate,
}
use opennop.Bytes.{slice}
use opennop.Tracking.{save_opennopid}
use opennop.Ipc.{
  Neighbor, Ipc, i_see_you, up, attempt, is_empty, write_at, get_header_data, NeighborState,
  find_neighbor_by_u32, update_neighbor, find_neighbor_by_socket, update_by_socket,
  ipc_set_neighbor_state, ipc_check_neighbor, ipc_send_message, save_id, process_message,
  check_hmac_sha256, validate_security, check_security, ipc_handler, same_bytes, msg_type, security,
  word_le, calculate_hmac_sha256,
}
use opennop.Ipc.Neighbors.{Distinct}
use opennop.Ipc.Hello.{assign_at}

abbrev pub addresses : List Neighbor → List ℕ
addresses [] = []
addresses (n ∷ ns) = n.neighbor_ip ∷ addresses ns

abbrev pub absent : ℕ → List ℕ → Bool
absent ip [] = true
absent ip (a ∷ rest) = if a == ip then false else absent ip rest

abbrev Unique : List ℕ → Type 0
Unique [] = Unit
Unique (a ∷ rest) = (absent a rest ≡ true) × Unique rest

find→absent :
    (ip : ℕ) (ns : List Neighbor)
    → find_neighbor_by_u32 ip ns ≡ none
    → absent ip (addresses ns) ≡ true
unfolding find_neighbor_by_u32
find→absent ip [] e = refl
find→absent ip (n ∷ ns) e = elim (Bool-cases (n.neighbor_ip == ip)) [
  | inl same ↦ absurd (ground arith)
  | inr differ ↦ rw differ (find→absent ip ns (ground arith))
]

absent→find :
    (ip : ℕ) (ns : List Neighbor)
    → absent ip (addresses ns) ≡ true
    → find_neighbor_by_u32 ip ns ≡ none
unfolding find_neighbor_by_u32
absent→find ip [] e = refl
absent→find ip (n ∷ ns) e = elim (Bool-cases (n.neighbor_ip == ip)) [
  | inl same ↦ absurd (ground arith)
  | inr differ ↦ rw differ (absent→find ip ns (ground arith))
]

Distinct→Unique : (ns : List Neighbor) → Distinct ns → Unique (addresses ns)
Distinct→Unique [] d = tt
Distinct→Unique (n ∷ ns) d = (find→absent n.neighbor_ip ns (d.0), Distinct→Unique ns (d.1))

Unique→Distinct : (ns : List Neighbor) → Unique (addresses ns) → Distinct ns
Unique→Distinct [] u = tt
Unique→Distinct (n ∷ ns) u = (absent→find n.neighbor_ip ns (u.0), Unique→Distinct ns (u.1))

-- The addresses stay.
abbrev pub Same : List Neighbor → List Neighbor → Type 0
Same ns ms = addresses ns ≡ addresses ms

pub Distinct-Same : (ns ms : List Neighbor) → Same ns ms → Distinct ns → Distinct ms
Distinct-Same ns ms e d = Unique→Distinct ms (subst Unique e (Distinct→Unique ns d))

Same-update :
    (ip : ℕ) (f : Neighbor → Neighbor) (ns : List Neighbor)
    → ((n : Neighbor) → (f n).neighbor_ip ≡ n.neighbor_ip)
    → Same ns (update_neighbor ip f ns)
unfolding update_neighbor
Same-update ip f [] keep = refl
Same-update ip f (n ∷ ns) keep = elim (Bool-cases (n.neighbor_ip == ip)) [
  | inl same ↦ rw same (ap (λ a. a ∷ addresses ns) (sym (keep n)))
  | inr differ ↦ rw differ (ap (◌∷◌ n.neighbor_ip) (Same-update ip f ns keep))
]

pub Same-assign :
    (k : ℕ) (f : Neighbor → Neighbor) (ns : List Neighbor)
    → ((n : Neighbor) → (f n).neighbor_ip ≡ n.neighbor_ip)
    → Same ns (assign_at k f ns)
unfolding assign_at
Same-assign k f [] keep = refl
Same-assign zero f (n ∷ ns) keep = ap (λ a. a ∷ addresses ns) (sym (keep n))
Same-assign (suc k) f (n ∷ ns) keep = ap (◌∷◌ n.neighbor_ip) (Same-assign k f ns keep)

module _ (hmac : List ℕ → List ℕ → List ℕ) (peer : ℕ → Option ℕ) (now : ℕ) where
  Same-socket :
      (fd : ℕ) (f : Neighbor → Neighbor) (s : Ipc)
      → ((n : Neighbor) → (f n).neighbor_ip ≡ n.neighbor_ip)
      → Same (s.neighbors) ((update_by_socket hmac peer now fd f s).neighbors)
  unfolding update_by_socket
  Same-socket fd f s keep = elim (Option-cases (peer fd)) [
    | inl unknown ↦ rw (unknown, update_by_socket) refl
    | inr (ip, known) ↦ rw (known, update_by_socket) (Same-update ip f (s.neighbors) keep)
  ]

  pub Same-state :
      (fd : ℕ) (state : NeighborState) (s : Ipc)
      → Same (s.neighbors) ((ipc_set_neighbor_state hmac peer now fd state s).neighbors)
  unfolding ipc_set_neighbor_state
  Same-state fd state s = Same-socket fd _ s (λ n. refl)

  Same-save :
      (fd : ℕ) (m : List ℕ) (s : Ipc)
      → Same (s.neighbors) ((save_id hmac peer now fd m s).neighbors)
  Same-save fd m s =
      Same-socket fd (λ n. record n { id = save_opennopid (slice 4 4 m) n.id }) s (λ n. refl)

  Same-process :
      (fd : ℕ) (m : List ℕ) (s : Ipc)
      → Same (s.neighbors) ((process_message hmac peer now fd m s).1.neighbors)
  unfolding process_message ipc_send_message
  Same-process fd m s =
      let message = drop ((get_header_data m).1) m in
      let answered = ipc_send_message hmac peer now fd i_see_you s in
      let saved = save_id hmac peer now fd message s in
      elim (Bool-cases (word_le message 0 == 1)) [
        | inl here ↦ rw here (Same-save fd message answered)
        | inr other ↦ elim (Bool-cases (word_le message 0 == 2)) [
          | inl seen ↦ rw other (rw seen (Same-save fd message s ∙ Same-state fd up saved))
          | inr unread ↦ rw other (rw unread refl)
        ]
      ]

  Same-checked :
      (fd : ℕ) (m : List ℕ) (s : Ipc)
      → Same (s.neighbors) ((check_hmac_sha256 hmac peer now fd m s).1.neighbors)
  unfolding check_hmac_sha256
  Same-checked fd m s =
      elim (Option-cases (find_neighbor_by_socket hmac peer now fd (s.neighbors))) [
        | inl unknown ↦ rw (unknown, check_hmac_sha256) refl
        | inr (n, known) ↦
            let cleared = write_at 8 (replicate 32 0) m in
            let computed = calculate_hmac_sha256 hmac peer now cleared (n.key) in
            elim (Bool-cases (same_bytes (slice 8 32 m) computed)) [
              | inl equal ↦
                  rw (known, check_hmac_sha256)
                    (rw equal (Same-process fd (write_at 8 computed cleared) s))
              | inr differ ↦ rw (known, check_hmac_sha256) (rw differ refl)
            ]
      ]

  Same-validated :
      (fd : ℕ) (m : List ℕ) (required : ℕ) (s : Ipc)
      → Same (s.neighbors) ((validate_security hmac peer now fd m required s).1.neighbors)
  unfolding validate_security
  Same-validated fd m required s = elim (Bool-cases (security m == required)) [
    | inr wrong ↦ rw wrong refl
    | inl right ↦ elim (Bool-cases (security m == 0)) [
      | inl plain ↦ rw right (rw plain (Same-process fd m s))
      | inr signed ↦ rw right (rw signed (Same-checked fd m s))
    ]
  ]

  pub Same-handled :
      (fd : ℕ) (buf : List ℕ) (s : Ipc)
      → Same (s.neighbors) ((ipc_handler hmac peer now fd buf s).1.neighbors)
  unfolding ipc_handler check_security
  Same-handled fd buf s = elim (Bool-cases (msg_type buf == 1)) [
    | inr other ↦ rw other refl
    | inl ours ↦ elim (Option-cases (find_neighbor_by_socket hmac peer now fd (s.neighbors))) [
      | inl unknown ↦ rw ours (rw (unknown, check_security) refl)
      | inr (n, known) ↦
          rw ours (
            rw (known, check_security)
              (Same-validated fd buf (if is_empty (n.key) then 0 else 1) s))
    ]
  ]

  pub Same-connected :
      (fd : ℕ) (s : Ipc) → Same (s.neighbors) ((ipc_check_neighbor hmac peer now fd s).1.neighbors)
  unfolding ipc_check_neighbor
  Same-connected fd s =
      elim (Option-cases (find_neighbor_by_socket hmac peer now fd (s.neighbors))) [
        | inl unknown ↦ rw (unknown, ipc_check_neighbor) refl
        | inr (n, known) ↦
            rw (known, ipc_check_neighbor)
              (Same-socket fd (λ n. record n { sock = fd; state = attempt; timer = now }) s
                (λ n. refl))
      ]
