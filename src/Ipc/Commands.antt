-- ===== src/Ipc/Commands.antt =====
-- The commands of opennopd/subsystems/ipc.c that change the neighbors and the local key. A string is
-- the list of its bytes, without the zero at its end; `inet_pton` is an argument, and gives nothing
-- where it does not return 1.
use opennop.Prelude.{
  ℕ, Bool, false, Option, none, some, List, [], ◌∷◌, ltb, if◌then◌else◌, replicate, length,
}
use opennop.Cli.{Feedback, said, Reply}
use opennop.Ipc.{Neighbor, Ipc}
use opennop.Ipc.Neighbors.{stored_key, with_neighbor, without_neighbor}

-- `t_neighbor_command`.
abbrev pub NeighborCommand : Type 0
NeighborCommand = ℕ → Option (List ℕ) → List Neighbor → List Neighbor

unfoldable pub cli_neighbor_help : List Feedback
cli_neighbor_help = said "Usage: [no] neighbor <ip address> [key]\n" ∷ []

abbrev pub key_too_long : Option (List ℕ) → Bool
key_too_long none = false
key_too_long (some key) = ltb 64 (length key)

unfoldable pub validate_neighbor_input :
    (List ℕ → Option ℕ)
    → List ℕ
    → Option (List ℕ)
    → NeighborCommand
    → List Neighbor
    → List Feedback × List Neighbor
validate_neighbor_input inet_pton stringip key neighbor_command ns = elim (inet_pton stringip) [
  | none ↦ (cli_neighbor_help, ns)
  | some ip ↦ if key_too_long key then (cli_neighbor_help, ns) else ([], neighbor_command ip key ns)
]

abbrev pub reply : List Feedback → Reply
reply feedback = record { finished = 0; mode = none; data_ptr = 0; feedback = feedback }

abbrev pub answer : List Feedback × List Neighbor → Ipc → Reply × Ipc
answer r s = (reply r.0, record s { neighbors = r.1 })

unfoldable pub cli_no_neighbor : (List ℕ → Option ℕ) → List (List ℕ) → Ipc → Reply × Ipc
cli_no_neighbor inet_pton (stringip ∷ []) s =
    answer
      (validate_neighbor_input inet_pton stringip none (λ ip key ns. without_neighbor ip ns)
        s.neighbors)
      s
cli_no_neighbor inet_pton _ s = (reply cli_neighbor_help, s)

-- `raw` is the memory of a new neighbor.
unfoldable pub cli_neighbor : (List ℕ → Option ℕ) → Neighbor → ℕ → List (List ℕ) → Ipc → Reply × Ipc
cli_neighbor inet_pton raw now (stringip ∷ []) s =
    answer (validate_neighbor_input inet_pton stringip none (with_neighbor raw now) s.neighbors) s
cli_neighbor inet_pton raw now (stringip ∷ key ∷ []) s =
    answer
      (validate_neighbor_input inet_pton stringip (some key) (with_neighbor raw now) s.neighbors) s
cli_neighbor inet_pton raw now _ s = (reply cli_neighbor_help, s)

-- Without a parameter the local key is cleared.
unfoldable pub cli_set_key : List (List ℕ) → Ipc → Reply × Ipc
cli_set_key [] s = (reply [], record s { key = replicate 65 0 })
cli_set_key (key ∷ []) s =
    if ltb 64 (length key) then (reply [], s) else (reply [], record s { key = stored_key key })
cli_set_key _ s = (reply [], s)
