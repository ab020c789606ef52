-- ===== src/TcpOptions.antt =====
-- opennopd/tcpoptions.c: finding and making room for options in the TCP header of a packet. The
-- state is the packet's buffer; a pointer into it is an offset. A `__u8` index wraps at 256, so a
-- loop may never end: the loops are on fuel.
pub mod Walk
pub mod Grow
use opennop.Prelude.{
  ℕ, zero, suc, ◌+◌, ◌-◌, ◌*◌, ◌/◌, ◌%◌, ◌^◌, Bool, true, false, ◌||◌, Option, none, some, List, [],
  ◌∷◌, ◌++◌, ltb, leb, ◌==◌, if◌then◌else◌, set, take, drop, replicate, length,
}
use opennop.Prelude.Run.{Run, ok, fault, out_of_fuel, Cmd, pure, ◌>>=◌, ◌>>◌}
use opennop.Bytes.{byte, put16, slice, tot_len, tcp_start, doff}
use opennop.Queue.{Status, success, failure}

-- Where the options begin, and `doff*4 - sizeof(struct tcphdr)`, which is a 64-bit unsigned number.
unfoldable pub opt_start : List ℕ → ℕ
opt_start p = tcp_start p + 20

unfoldable pub opt_space : List ℕ → ℕ
opt_space p = (doff p * 4 + 2 ^ 64 - 20) % 2 ^ 64

abbrev pub tcpopt_eol : ℕ
tcpopt_eol = 0

abbrev pub tcpopt_nop : ℕ
tcpopt_nop = 1

-- `opt[offset]`.
abbrev pub opt_at : List ℕ → ℕ → ℕ
opt_at p offset = byte p (opt_start p + offset)

unfoldable pub optlen : List ℕ → ℕ → ℕ
optlen p offset =
    if leb (opt_at p offset) tcpopt_nop || (opt_at p (offset + 1) == 0)
    then 1
    else opt_at p (offset + 1)

-- The `for` loop that looks for an option, from index `i`.
unfoldable pub find_loop : ℕ → ℕ → ℕ → Cmd (List ℕ) (Option ℕ)
find_loop zero num i p = out_of_fuel
find_loop (suc fuel) num i p =
    let rest = find_loop fuel num ((i + optlen p i) % 2 ^ 8) p in
    if ltb i (opt_space p)
    then (if opt_at p i == num then pure (some (opt_start p + i)) p else rest)
    else pure none p

-- An index has 256 values: a loop that has not ended after as many rounds never will.
abbrev pub opt_fuel : ℕ
opt_fuel = 2 ^ 8

unfoldable pub get_tcpopt : ℕ → Cmd (List ℕ) (Option ℕ)
get_tcpopt tcpoptionnum = find_loop opt_fuel tcpoptionnum 0

-- The C library's `memmove`, within the buffer.
unfoldable pub memmove : ℕ → ℕ → ℕ → List ℕ → List ℕ
memmove dst src n p = take dst p ++ (slice src n p ++ drop (dst + n) p)

unfoldable pub memset : ℕ → ℕ → ℕ → List ℕ → List ℕ
memset dst v n p = take dst p ++ (replicate n v ++ drop (dst + n) p)

-- The option at `i` goes, the ones behind it move up.
unfoldable pub remove_at : ℕ → List ℕ → List ℕ
remove_at i p =
    set (memmove (opt_start p + i) (opt_start p + i + 1) (opt_space p - i - 1) p)
      (opt_start p + opt_space p - 1) 0

-- `while (opt[i] == TCPOPT_NOP)`.
unfoldable pub nop_loop : ℕ → ℕ → Cmd (List ℕ) (Unit {0})
nop_loop zero i p = out_of_fuel
nop_loop (suc fuel) i p =
    let rest = nop_loop fuel i (remove_at i p) in
    if opt_at p i == tcpopt_nop then rest else pure tt p

unfoldable pub remove_loop : ℕ → ℕ → Cmd (List ℕ) (Unit {0})
remove_loop zero i p = out_of_fuel
remove_loop (suc fuel) i p =
    if ltb i (opt_space p)
    then (do nop_loop opt_fuel i; λ q. remove_loop fuel ((i + optlen q i) % 2 ^ 8) q) p
    else pure tt p

unfoldable pub remove_tcpopt_nop : Cmd (List ℕ) (Unit {0})
remove_tcpopt_nop p = if ltb 5 (doff p) then remove_loop opt_fuel 0 p else pure tt p

-- The loop for the free space is the one that looks for TCPOPT_EOL.
unfoldable pub space_loop : Cmd (List ℕ) ℕ
space_loop = do
  found ← find_loop opt_fuel tcpopt_eol 0
  λ p. pure (elim found [ none ↦ 0 | some at ↦ (opt_start p + opt_space p - at) % 2 ^ 8 ]) p

unfoldable pub get_tcpopt_freespace : Cmd (List ℕ) ℕ
get_tcpopt_freespace = do remove_tcpopt_nop; λ p. if ltb 5 (doff p) then space_loop p else pure 0 p

-- How many words the data offset must grow by.
unfoldable pub words_needed : ℕ → ℕ → ℕ
words_needed optspace bytestoadd =
    let spaceneeded = (bytestoadd - optspace) % 2 ^ 8 in
    if ltb optspace bytestoadd then spaceneeded / 4 + (if spaceneeded % 4 == 0 then 0 else 1) else 0

unfoldable pub get_tcpopt_addoff_needed : ℕ → Cmd (List ℕ) ℕ
get_tcpopt_addoff_needed bytestoadd = do
  optspace ← get_tcpopt_freespace
  pure (words_needed optspace bytestoadd)

unfoldable pub set_doff : ℕ → List ℕ → List ℕ
set_doff d p = set p (tcp_start p + 12) (d * 2 ^ 4 + byte p (tcp_start p + 12) % 2 ^ 4)

-- The packet with its data moved back by `addoff` words, the gap zero, and the lengths updated.
unfoldable pub grown : ℕ → List ℕ → List ℕ
grown addoff p =
    let at = tcp_start p + doff p * 4 in
    let moved = memmove (at + addoff * 4) at (tot_len p - at) p in
    put16 (set_doff (doff p + addoff) (memset at 0 (addoff * 4) moved)) 2
      ((tot_len p + addoff * 4) % 2 ^ 16)

-- A negative length and a move past the buffer's end are faults.
unfoldable pub add_tcpopt_addoff : ℕ → Cmd (List ℕ) Status
add_tcpopt_addoff addoff p =
    if addoff == 0
    then pure failure p
    else if ltb 15 (doff p + addoff)
    then pure failure p
    else if ltb (tot_len p) (tcp_start p + doff p * 4) || ltb (length p) (tot_len p + addoff * 4)
    then fault
    else pure success (grown addoff p)

unfoldable pub add_tcpopt_bytes : ℕ → Cmd (List ℕ) Status
add_tcpopt_bytes bytes = do addoff ← get_tcpopt_addoff_needed bytes; add_tcpopt_addoff addoff

unfoldable pub write_option : ℕ → ℕ → Option ℕ → Cmd (List ℕ) (Option ℕ)
write_option tcpoptionnum tcpoptionlen none p = pure none p
write_option tcpoptionnum tcpoptionlen (some at) p =
    pure (some at) (set (set p at tcpoptionnum) (at + 1) tcpoptionlen)

unfoldable pub make_option : ℕ → ℕ → Cmd (List ℕ) (Option ℕ)
make_option tcpoptionnum tcpoptionlen = do
  addoff ← get_tcpopt_addoff_needed 2
  add_tcpopt_addoff addoff
  end ← get_tcpopt tcpopt_eol
  write_option tcpoptionnum tcpoptionlen end

unfoldable pub set_tcpopt : ℕ → ℕ → Cmd (List ℕ) (Option ℕ)
set_tcpopt tcpoptionnum tcpoptionlen = do
  opt ← get_tcpopt tcpoptionnum
  elim opt [ none ↦ make_option tcpoptionnum tcpoptionlen | some at ↦ pure (some at) ]

-- `bytestotcpoptend` has 8 bits. The room made is zero but for a mark at either end.
unfoldable pub shift_tcpopt_space : ℕ → ℕ → Cmd (List ℕ) ℕ
shift_tcpopt_space location bytes = do
  optend ← get_tcpopt tcpopt_eol
  λ p. elim optend [
    | none ↦ pure 0 p
    | some e ↦
        let moved = memmove (location + bytes) location ((e + 2 ^ 16 - location) % 2 ^ 8) p in
        pure bytes (set (set (memset location 0 bytes moved) location 65) (location + bytes - 1) 90)
  ]
