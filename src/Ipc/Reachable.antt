-- ===== src/Ipc/Reachable.antt =====
-- The neighbors of a node over any run: commands, connections, messages and rounds of hellos.
use opennop.Prelude.{
  ℕ, ◌≡◌, inl, inr, Bool, ltb, Option, none, some, List, [], ◌∷◌, Bool-cases, Option-cases, length,
}
use opennop.Ipc.{Neighbor, Ipc, ipc_check_neighbor, ipc_handler}
use opennop.Ipc.Commands.{
  NeighborCommand, key_too_long, validate_neighbor_input, cli_neighbor, cli_no_neighbor,
  cli_set_key,
}
use opennop.Ipc.Neighbors.{with_neighbor, without_neighbor, Distinct, add-Distinct, del-Distinct}
use opennop.Ipc.Hello.{Greeting, hello_neighbors}
use opennop.Ipc.Addresses.{Distinct-Same, Same-handled, Same-connected}
use opennop.Ipc.Hello.Kept.{Kept-hellos}

-- The states of a node from its start: what the system answers may differ at each step.
pub data Reachable (hmac : List ℕ → List ℕ → List ℕ) : Ipc → Type 0 where
  started : (s : Ipc) → s.neighbors ≡ [] → Reachable hmac s
  configured :
      (s : Ipc) (inet_pton : List ℕ → Option ℕ) (raw : Neighbor) (now : ℕ) (words : List (List ℕ))
      → Reachable hmac s
      → Reachable hmac ((cli_neighbor inet_pton raw now words s).1)
  removed :
      (s : Ipc) (inet_pton : List ℕ → Option ℕ) (words : List (List ℕ))
      → Reachable hmac s
      → Reachable hmac ((cli_no_neighbor inet_pton words s).1)
  keyed :
      (s : Ipc) (words : List (List ℕ))
      → Reachable hmac s
      → Reachable hmac ((cli_set_key words s).1)
  connected :
      (s : Ipc) (peer : ℕ → Option ℕ) (now fd : ℕ)
      → Reachable hmac s
      → Reachable hmac ((ipc_check_neighbor hmac peer now fd s).1)
  received :
      (s : Ipc) (peer : ℕ → Option ℕ) (now fd : ℕ) (buf : List ℕ)
      → Reachable hmac s
      → Reachable hmac ((ipc_handler hmac peer now fd buf s).1)
  greeted :
      (s : Greeting) (peer new_ip_client : ℕ → Option ℕ) (send_fails : ℕ → Bool) (now later : ℕ)
      → Reachable hmac (s.ipc)
      → Reachable hmac ((hello_neighbors hmac peer new_ip_client send_fails now later s).ipc)

validated :
    (inet_pton : List ℕ → Option ℕ) (stringip : List ℕ) (key : Option (List ℕ))
    (command : NeighborCommand) (ns : List Neighbor)
    → ((ip : ℕ) → Distinct (command ip key ns))
    → Distinct ns
    → Distinct ((validate_neighbor_input inet_pton stringip key command ns).1)
unfolding validate_neighbor_input
validated inet_pton stringip key command ns keep d = elim (Option-cases (inet_pton stringip)) [
  | inl wrong ↦ rw (wrong, validate_neighbor_input) d
  | inr (ip, parsed) ↦ elim (Bool-cases (key_too_long key)) [
    | inl long ↦ rw (parsed, validate_neighbor_input) (rw long d)
    | inr fits ↦ rw (parsed, validate_neighbor_input) (rw fits (keep ip))
  ]
]

cli_neighbor-Distinct :
    (inet_pton : List ℕ → Option ℕ) (raw : Neighbor) (now : ℕ) (words : List (List ℕ)) (s : Ipc)
    → Distinct (s.neighbors)
    → Distinct ((cli_neighbor inet_pton raw now words s).1.neighbors)
unfolding cli_neighbor
cli_neighbor-Distinct inet_pton raw now [] s d = d
cli_neighbor-Distinct inet_pton raw now (ip ∷ []) s d =
    validated inet_pton ip none (with_neighbor raw now) (s.neighbors)
      (λ a. add-Distinct raw now a none (s.neighbors) d) d
cli_neighbor-Distinct inet_pton raw now (ip ∷ key ∷ []) s d =
    validated inet_pton ip (some key) (with_neighbor raw now) (s.neighbors)
      (λ a. add-Distinct raw now a (some key) (s.neighbors) d) d
cli_neighbor-Distinct inet_pton raw now (ip ∷ key ∷ word ∷ words) s d = d

cli_no_neighbor-Distinct :
    (inet_pton : List ℕ → Option ℕ) (words : List (List ℕ)) (s : Ipc)
    → Distinct (s.neighbors)
    → Distinct ((cli_no_neighbor inet_pton words s).1.neighbors)
unfolding cli_no_neighbor
cli_no_neighbor-Distinct inet_pton [] s d = d
cli_no_neighbor-Distinct inet_pton (ip ∷ []) s d =
    validated inet_pton ip none (λ a key ns. without_neighbor a ns) (s.neighbors)
      (λ a. del-Distinct a (s.neighbors) d) d
cli_no_neighbor-Distinct inet_pton (ip ∷ word ∷ words) s d = d

cli_set_key-Distinct :
    (words : List (List ℕ)) (s : Ipc)
    → Distinct (s.neighbors)
    → Distinct ((cli_set_key words s).1.neighbors)
unfolding cli_set_key
cli_set_key-Distinct [] s d = d
cli_set_key-Distinct (key ∷ []) s d = elim (Bool-cases (ltb 64 (length key))) [
  | inl long ↦ rw long d
  | inr fits ↦ rw fits d
]
cli_set_key-Distinct (key ∷ word ∷ words) s d = d

-- From a node without neighbors, after any sequence of the commands `neighbor`, `no neighbor` and the
-- one that sets the local key, with any parameters, of connections, messages and rounds of hellos, no
-- two neighbors have the same address.
pub Reachable-Distinct :
    (hmac : List ℕ → List ℕ → List ℕ) (s : Ipc) → Reachable hmac s → Distinct (s.neighbors)
Reachable-Distinct hmac s (started _ e) = rw e tt
Reachable-Distinct hmac _ (configured s inet_pton raw now words r) =
    cli_neighbor-Distinct inet_pton raw now words s (Reachable-Distinct hmac s r)
Reachable-Distinct hmac _ (removed s inet_pton words r) =
    cli_no_neighbor-Distinct inet_pton words s (Reachable-Distinct hmac s r)
Reachable-Distinct hmac _ (keyed s words r) =
    cli_set_key-Distinct words s (Reachable-Distinct hmac s r)
Reachable-Distinct hmac _ (connected s peer now fd r) =
    Distinct-Same (s.neighbors) _ (Same-connected hmac peer now fd s) (Reachable-Distinct hmac s r)
Reachable-Distinct hmac _ (received s peer now fd buf r) =
    Distinct-Same (s.neighbors) _ (Same-handled hmac peer now fd buf s)
      (Reachable-Distinct hmac s r)
Reachable-Distinct hmac _ (greeted s peer new_ip_client send_fails now later r) =
    Distinct-Same (s.ipc.neighbors) _ (Kept-hellos hmac peer new_ip_client send_fails now later s)
      (Reachable-Distinct hmac (s.ipc) r)
