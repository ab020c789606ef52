-- ===== src/Nod.antt =====
-- opennopd/tcpoptions.c with include/tcpoptions.h: the headers that an accelerator puts in the TCP
-- option for network optimization detection. A header is the offset of its first byte; an ID is its
-- bytes. Reading a header past the buffer's end is a fault, and so is using a NULL pointer.
use opennop.Prelude.{
  ℕ, zero, suc, ◌+◌, ◌-◌, ◌*◌, ◌/◌, ◌%◌, ◌^◌, Bool, true, ◌&&◌, Option, none, some, List, [], ◌∷◌,
  ltb, leb, ◌==◌, if◌then◌else◌, set, length,
}
use opennop.Prelude.Run.{fault, out_of_fuel, Cmd, pure, ◌>>=◌, ◌>>◌}
use opennop.Bytes.{byte}
use opennop.Queue.{success, failure}
use opennop.TcpOptions.{
  get_tcpopt, set_tcpopt, add_tcpopt_bytes, get_tcpopt_freespace, shift_tcpopt_space,
}

-- The option's kind, and the bytes of "ONOP".
abbrev pub nod_kind : ℕ
nod_kind = 33

abbrev pub onop : List ℕ
onop = 79 ∷ 78 ∷ 79 ∷ 80 ∷ []

-- The fields of a header: two of them share its second byte.
abbrev pub header_tot_len : List ℕ → ℕ → ℕ
header_tot_len p h = byte p h

abbrev pub idlen : List ℕ → ℕ → ℕ
idlen p h = byte p (h + 1) % 2 ^ 3

abbrev pub hdr_len : List ℕ → ℕ → ℕ
hdr_len p h = byte p (h + 1) / 2 ^ 3

-- The loop over the bytes of the ID.
unfoldable pub check_nod_header : List ℕ → List ℕ → ℕ → Bool
check_nod_header p [] at = true
check_nod_header p (c ∷ cs) at = (c == byte p at) && check_nod_header p cs (at + 1)

-- Bytes written one after the other.
unfoldable pub put_bytes : List ℕ → ℕ → List ℕ → List ℕ
put_bytes [] at p = p
put_bytes (c ∷ cs) at p = put_bytes cs (at + 1) (set p at (c % 2 ^ 8))

-- A pointer got from another function, which the code uses unchecked.
abbrev pub deref : Option ℕ → Cmd (List ℕ) ℕ
deref none = λ p. fault
deref (some a) = pure a

-- `data_len` and `data` of `struct hdrdata`.
pub record HdrData : Type 0 where
  pub data_len : ℕ
  pub data_at : Option ℕ

abbrev pub no_data : HdrData
no_data = record { data_len = 0; data_at = none }

-- The addresses of the two parameters of `get_nod_next_header`.
module _ (nod_var nodh_var : ℕ) where
  -- The addresses of the parameters are compared, not what they point to; the step is counted in
  -- headers of three bytes.
  unfoldable pub get_nod_next_header : ℕ → ℕ → List ℕ → Option ℕ
  get_nod_next_header nod h p =
      if ltb (nod_var + byte p (nod + 1)) (nodh_var + header_tot_len p h)
      then some (h + 3 * header_tot_len p h)
      else none

  -- The loop over the headers: one round for each byte of the buffer, of which a header takes
  -- three unless its length is zero.
  unfoldable pub header_loop : ℕ → ℕ → List ℕ → ℕ → Cmd (List ℕ) (Option ℕ)
  unfolding get_nod_next_header check_nod_header
  header_loop zero nod id h p = out_of_fuel
  header_loop (suc fuel) nod id h p =
      if leb (length p) (h + 1)
      then fault
      else if (idlen p h == length id) && check_nod_header p id (h + 2)
      then pure (some h) p
      else elim (get_nod_next_header nod h p) [
        | none ↦ pure none p
        | some h' ↦ header_loop fuel nod id h' p
      ]

  unfoldable pub header_of : List ℕ → Option ℕ → Cmd (List ℕ) (Option ℕ)
  unfolding header_loop
  header_of id none p = pure none p
  header_of id (some nod) p =
      if ltb 2 (byte p (nod + 1)) then header_loop (length p) nod id (nod + 2) p else pure none p

  unfoldable pub get_nod_header : List ℕ → Cmd (List ℕ) (Option ℕ)
  unfolding header_of
  get_nod_header id = do nod ← get_tcpopt nod_kind; header_of id nod

  -- The new header behind the others, once there is room for it.
  unfoldable pub write_header : List ℕ → ℕ → Cmd (List ℕ) ℕ
  unfolding put_bytes
  write_header id nod p =
      let headerlen = (2 + length id) % 2 ^ 8 in
      let h = nod + byte p (nod + 1) in
      let longer = set p (nod + 1) ((byte p (nod + 1) + headerlen) % 2 ^ 8) in
      let fields =
        set (set longer h headerlen) (h + 1) (length id % 2 ^ 3 + headerlen % 2 ^ 5 * 2 ^ 3) in
      pure h (put_bytes id (h + 2) fields)

  unfoldable pub new_header : List ℕ → Option ℕ → Cmd (List ℕ) ℕ
  unfolding write_header
  new_header id found = do
    nod ← deref found
    add_tcpopt_bytes ((2 + length id) % 2 ^ 8)
    λ p. shift_tcpopt_space (nod + byte p (nod + 1)) ((2 + length id) % 2 ^ 8) p
    write_header id nod

  unfoldable pub set_nod_header : List ℕ → Cmd (List ℕ) ℕ
  unfolding get_nod_header new_header
  set_nod_header id = do
    nod ← set_tcpopt nod_kind 2
    found ← get_nod_header id
    h ← (elim found [ none ↦ new_header id nod | some old ↦ pure old ])
    get_nod_header id
    pure h

  unfoldable pub hdrdata_of : Option ℕ → List ℕ → HdrData
  hdrdata_of none p = no_data
  hdrdata_of (some h) p =
      if ltb (idlen p h + 2) (hdr_len p h)
      then record { data_len = hdr_len p h - (idlen p h + 2); data_at = some (h + idlen p h + 2) }
      else no_data

  unfoldable pub get_nod_header_data : List ℕ → Cmd (List ℕ) HdrData
  unfolding get_nod_header hdrdata_of
  get_nod_header_data id = do found ← get_nod_header id; λ p. pure (hdrdata_of found p) p

  -- The three lengths grow, and the data goes behind the ID.
  unfoldable pub write_data : ℕ → ℕ → List ℕ → List ℕ → List ℕ
  unfolding put_bytes
  write_data nod h header_data p =
      let n = length header_data in
      let longer = set p (nod + 1) ((byte p (nod + 1) + n) % 2 ^ 8) in
      let total = set longer h ((header_tot_len longer h + n) % 2 ^ 8) in
      let sized = set total (h + 1) (idlen total h + (hdr_len total h + n) % 2 ^ 5 * 2 ^ 3) in
      put_bytes header_data (h + idlen sized h + 2) sized

  -- Once `add_tcpopt_bytes` has returned 0.
  unfoldable pub place_data : ℕ → ℕ → List ℕ → Cmd (List ℕ) (Unit {0})
  unfolding write_data
  place_data nod h header_data = do
    free ← get_tcpopt_freespace
    λ p.
        (if leb (length header_data) free
          then (do
            shift_tcpopt_space (h + hdr_len p h) (length header_data)
            λ q. pure tt (write_data nod h header_data q))
              p
          else pure tt p)

  unfoldable pub add_data : ℕ → List ℕ → Option ℕ → Cmd (List ℕ) (Unit {0})
  unfolding place_data
  add_data h header_data none p = pure tt p
  add_data h header_data (some nod) p =
      if hdr_len p h == idlen p h + 2
      then (do
        status ← add_tcpopt_bytes (length header_data)
        elim status [ success ↦ place_data nod h header_data | failure ↦ pure tt ])
          p
      else pure tt p

  unfoldable pub set_nod_header_data : List ℕ → List ℕ → Cmd (List ℕ) (Unit {0})
  unfolding set_nod_header add_data
  set_nod_header_data id header_data = do
    h ← set_nod_header id
    nod ← get_tcpopt nod_kind
    add_data h header_data nod
