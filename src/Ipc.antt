-- ===== src/Ipc.antt =====
-- opennopd/subsystems/ipc.c with include/ipc.h: the messages between accelerators and the neighbors'
-- states. The neighbors are listed in the order of their links, without their names. The fields of a message are in the byte order of a little-endian host.
-- `getpeername`, OpenSSL's HMAC and `time` are arguments.
pub mod Messages
pub mod Security
pub mod Domain
pub mod Neighbors
pub mod Hello
pub mod Commands
pub mod Addresses
pub mod Reachable
pub mod Links
use opennop.Prelude.{
  ℕ, zero, suc, ◌+◌, ◌-◌, ◌*◌, ◌/◌, ◌%◌, ◌^◌, Bool, true, false, ◌&&◌, Option, none, some, List, [],
  ◌∷◌, ◌++◌, ◌==◌, if◌then◌else◌, take, drop, replicate, length,
}
use opennop.Bytes.{byte, slice}
use opennop.Queue.{Status, success, failure}
use opennop.Tracking.{compare_opennopid, save_opennopid}

pub data NeighborState : Type 0 where
  down attempt established shuttingdown up : NeighborState

abbrev pub is_down : NeighborState → Bool
is_down down = true
is_down _ = false

abbrev pub is_up : NeighborState → Bool
is_up up = true
is_up _ = false

-- `key` has 65 bytes, the last of them zero.
pub record Neighbor : Type 0 where
  pub neighbor_ip : ℕ
  pub state : NeighborState
  pub id : List ℕ
  pub sock : ℕ
  pub key : List ℕ
  pub timer : ℕ
  pub hellotimer : ℕ

-- The list, the local ID and key, and what was handed to `send`: sockets and messages, newest first.
pub record Ipc : Type 0 where
  pub neighbors : List Neighbor
  pub localid : List ℕ
  pub key : List ℕ
  pub sent : List (ℕ × List ℕ)

unfoldable pub find_neighbor_by_u32 : ℕ → List Neighbor → Option Neighbor
find_neighbor_by_u32 ip [] = none
find_neighbor_by_u32 ip (n ∷ ns) =
    if n.neighbor_ip == ip then some n else find_neighbor_by_u32 ip ns

-- An assignment through the pointer that the search for `ip` returned, if it is not NULL.
unfoldable pub update_neighbor : ℕ → (Neighbor → Neighbor) → List Neighbor → List Neighbor
update_neighbor ip f [] = []
update_neighbor ip f (n ∷ ns) =
    if n.neighbor_ip == ip then f n ∷ ns else n ∷ update_neighbor ip f ns

unfoldable pub verify_neighbor_in_domain : List ℕ → List Neighbor → Bool
verify_neighbor_in_domain neighborid [] = false
verify_neighbor_in_domain neighborid (n ∷ ns) =
    if compare_opennopid n.id neighborid && is_up n.state
    then true
    else verify_neighbor_in_domain neighborid ns

-- `strcmp(key, "") == 0`.
abbrev pub is_empty : List ℕ → Bool
is_empty key = byte key 0 == 0

abbrev pub word_le : List ℕ → ℕ → ℕ
word_le m i = byte m i + byte m (i + 1) * 2 ^ 8

abbrev pub bytes_le : ℕ → List ℕ
bytes_le v = v % 2 ^ 8 ∷ v / 2 ^ 8 % 2 ^ 8 ∷ []

-- A copy of bytes into a buffer.
abbrev pub write_at : ℕ → List ℕ → List ℕ → List ℕ
write_at i xs m = take i m ++ (xs ++ drop (i + length xs) m)

-- `memcmp(...) == 0`.
unfoldable pub same_bytes : List ℕ → List ℕ → Bool
same_bytes [] [] = true
same_bytes [] (y ∷ ys) = false
same_bytes (x ∷ xs) [] = false
same_bytes (x ∷ xs) (y ∷ ys) = if x == y then same_bytes xs ys else false

-- The fields of `struct opennop_ipc_header`.
abbrev pub msg_type : List ℕ → ℕ
msg_type m = byte m 0

abbrev pub msg_length : List ℕ → ℕ
msg_length m = word_le m 4

abbrev pub security : List ℕ → ℕ
security m = byte m 6

unfoldable pub initialize_opennop_ipc_header : List ℕ → List ℕ → List ℕ
initialize_opennop_ipc_header key m =
    let kept = byte m 1 in
    write_at 0 (1 ∷ kept ∷ 1 ∷ 0 ∷ 8 ∷ 0 ∷ (if is_empty key then 0 else 1) ∷ 0 ∷ []) m

-- The header with its new length, and where the messages begin.
unfoldable pub get_header_data : List ℕ → List ℕ × ℕ
get_header_data m =
    if security m == 1 then (write_at 4 (bytes_le (msg_length m + 32)) m, 40) else (m, 8)

pub data MessageType : Type 0 where
  here_i_am i_see_you : MessageType

abbrev pub type_code : MessageType → ℕ
type_code here_i_am = 1
type_code i_see_you = 2

-- `add_hello_message` and `ipc_add_i_see_you_message`.
unfoldable pub add_message : MessageType → List ℕ → List ℕ → List ℕ
add_message kind localid m =
    let at = msg_length m in
    let added = write_at at (type_code kind ∷ 0 ∷ 8 ∷ 0 ∷ take 4 localid) m in
    write_at 4 (bytes_le (at + 8)) added

abbrev pub ipc_max_message_size : ℕ
ipc_max_message_size = 1024

module _ (hmac : List ℕ → List ℕ → List ℕ) (peer : ℕ → Option ℕ) (now : ℕ) where
  -- A length field that leaves the buffer, where the code reads on, counts here to the buffer's end.
  unfoldable pub calculate_hmac_sha256 : List ℕ → List ℕ → List ℕ
  calculate_hmac_sha256 m key = hmac (take 64 key) (take (msg_length m) m)

  -- The bytes that `ipc_send_message` hands to `send`.
  unfoldable pub ipc_message : MessageType → List ℕ → List ℕ → List ℕ
  ipc_message kind key localid =
      let header = initialize_opennop_ipc_header key (replicate ipc_max_message_size 0) in
      let m = add_message kind localid ((get_header_data header).0) in
      let signed = if security m == 1 then write_at 8 (calculate_hmac_sha256 m key) m else m in
      take (msg_length signed) signed

  unfoldable pub ipc_send_message : ℕ → MessageType → Ipc → Ipc
  ipc_send_message socket kind s = record s {
    sent = (socket, ipc_message kind (s.key) (s.localid)) ∷ s.sent;
  }

  unfoldable pub find_neighbor_by_socket : ℕ → List Neighbor → Option Neighbor
  find_neighbor_by_socket fd ns = elim (peer fd) [
    | none ↦ none
    | some ip ↦ find_neighbor_by_u32 ip ns
  ]

  unfoldable pub update_by_socket : ℕ → (Neighbor → Neighbor) → Ipc → Ipc
  update_by_socket fd f s = elim (peer fd) [
    | none ↦ s
    | some ip ↦ record s { neighbors = update_neighbor ip f (s.neighbors) }
  ]

  unfoldable pub ipc_set_neighbor_state : ℕ → NeighborState → Ipc → Ipc
  ipc_set_neighbor_state fd state =
      update_by_socket fd (λ n. record n { state = state; timer = now })

  -- A new connection: is it from a neighbor?
  unfoldable pub ipc_check_neighbor : ℕ → Ipc → Bool × Ipc
  ipc_check_neighbor fd s = elim (find_neighbor_by_socket fd (s.neighbors)) [
    | none ↦ (false, s)
    | some _ ↦
        (true, update_by_socket fd (λ n. record n { sock = fd; state = attempt; timer = now }) s)
  ]

  abbrev pub save_id : ℕ → List ℕ → Ipc → Ipc
  save_id fd message =
      update_by_socket fd (λ n. record n { id = save_opennopid (slice 4 4 message) n.id })

  unfoldable pub process_message : ℕ → List ℕ → Ipc → Status × Ipc
  process_message fd m s =
      let message = drop ((get_header_data m).1) m in
      (
        success,
        if word_le message 0 == 1
            then save_id fd message (ipc_send_message fd i_see_you s)
            else if word_le message 0 == 2
            then ipc_set_neighbor_state fd up (save_id fd message s)
            else s,
      )

  -- The security data is set aside and cleared before it is computed again.
  unfoldable pub check_hmac_sha256 : ℕ → List ℕ → Ipc → Status × Ipc
  check_hmac_sha256 fd m s = elim (find_neighbor_by_socket fd (s.neighbors)) [
    | none ↦ (failure, s)
    | some n ↦
        let securitydata = slice 8 32 m in
        let cleared = write_at 8 (replicate 32 0) m in
        let computed = calculate_hmac_sha256 cleared (n.key) in
        if same_bytes securitydata computed
        then process_message fd (write_at 8 computed cleared) s
        else (failure, s)
  ]

  unfoldable pub validate_security : ℕ → List ℕ → ℕ → Ipc → Status × Ipc
  validate_security fd m required s =
      if security m == required
      then (if security m == 0 then process_message fd m s else check_hmac_sha256 fd m s)
      else (failure, s)

  unfoldable pub check_security : ℕ → List ℕ → Ipc → Status × Ipc
  check_security fd m s = elim (find_neighbor_by_socket fd (s.neighbors)) [
    | none ↦ (failure, s)
    | some n ↦ validate_security fd m (if is_empty (n.key) then 0 else 1) s
  ]

  -- A message of another type is dropped.
  unfoldable pub ipc_handler : ℕ → List ℕ → Ipc → Status × Ipc
  ipc_handler fd buf s = if msg_type buf == 1 then check_security fd buf s else (success, s)
