-- ===== src/OldOptions.antt =====
-- opennopd/tcpoptions.c: `__get_tcp_option` and `__set_tcp_option`, which read and write an option of a
-- kind with its data as one number. A shift by more bits than its operand has is a fault, and so
-- are a negative length and a move past the buffer's end.
pub mod Read
pub mod Rewrite
use opennop.Prelude.{
  ℕ, zero, suc, ◌+◌, ◌-◌, ◌*◌, ◌/◌, ◌%◌, ◌^◌, Bool, true, false, ◌&&◌, ◌||◌, Option, none, some,
  List, ltb, leb, ◌==◌, if◌then◌else◌, set, length,
}
use opennop.Prelude.Run.{Run, ok, fault, out_of_fuel, Cmd, pure, and_then, ◌>>=◌, ◌>>◌}
use opennop.Bytes.{byte, put16, tot_len, tcp_start, doff}
use opennop.Queue.{Status, success, failure}
use opennop.TcpOptions.{
  opt_start, opt_space, opt_at, optlen, opt_fuel, tcpopt_eol, memmove, memset, nop_loop,
  words_needed, set_doff,
}

-- `opt[..] << 8 * count`, an `int`, added to a `__u64`: the top byte's sign is extended.
unfoldable pub shifted : ℕ → ℕ → Option ℕ
shifted b count =
    if ltb 3 count
    then none
    else some
        (if (count == 3) && leb 128 b then b * 2 ^ 24 + 2 ^ 64 - 2 ^ 32 else b * 2 ^ (8 * count))

-- The loop over the data bytes, `count` of them left, from an offset.
unfoldable pub read_loop : ℕ → ℕ → ℕ → Cmd (List ℕ) ℕ
unfolding shifted
read_loop zero at tcpoptdata p = pure tcpoptdata p
read_loop (suc count) at tcpoptdata p = elim (shifted (byte p at) count) [
  | none ↦ fault
  | some v ↦ read_loop count (at + 1) ((tcpoptdata + v) % 2 ^ 64) p
]

-- The option at index `i`.
unfoldable pub read_option : ℕ → Cmd (List ℕ) ℕ
unfolding read_loop
read_option i p =
    let tcpoptlen = opt_at p (i + 1) in
    if tcpoptlen == 2
    then pure 1 p
    else read_loop ((tcpoptlen + 2 ^ 8 - 2) % 2 ^ 8) (opt_start p + i + 2) 0 p

unfoldable pub get_loop : ℕ → ℕ → ℕ → Cmd (List ℕ) ℕ
unfolding read_option
get_loop zero tcpoptnum i p = out_of_fuel
get_loop (suc fuel) tcpoptnum i p =
    let rest = get_loop fuel tcpoptnum ((i + optlen p i) % 2 ^ 8) p in
    if ltb i (opt_space p)
    then (if (opt_at p i == tcpoptnum) && leb (opt_at p (i + 1) + i) (doff p * 4)
        then read_option i p
        else rest)
    else pure 0 p

unfoldable pub get_tcp_option : ℕ → Cmd (List ℕ) ℕ
unfolding get_loop
get_tcp_option tcpoptnum = get_loop opt_fuel tcpoptnum 0

-- The loop that writes the data, most significant byte first.
unfoldable pub write_loop : ℕ → ℕ → ℕ → Cmd (List ℕ) (Unit {0})
write_loop zero at tcpoptdata p = pure tt p
write_loop (suc count) at tcpoptdata p =
    if ltb 7 count
    then fault
    else write_loop count (at + 1) tcpoptdata (set p at (tcpoptdata / 2 ^ (8 * count) % 2 ^ 8))

-- The loop that looks for an option of the kind and the length.
unfoldable pub match_loop : ℕ → ℕ → ℕ → ℕ → Cmd (List ℕ) (Option ℕ)
match_loop zero tcpoptnum tcpoptlen i p = out_of_fuel
match_loop (suc fuel) tcpoptnum tcpoptlen i p =
    let rest = match_loop fuel tcpoptnum tcpoptlen ((i + optlen p i) % 2 ^ 8) p in
    if ltb i (opt_space p)
    then (if (opt_at p i == tcpoptnum)
          && leb (tcpoptlen + i) (doff p * 4)
          && (opt_at p (i + 1) == tcpoptlen)
        then pure (some i) p
        else rest)
    else pure none p

-- The option at `i` after its NOPs are gone: the end of the options, or the rest of the loop.
abbrev free_at : ℕ → List ℕ → Run (List ℕ) ℕ → Run (List ℕ) ℕ
free_at i q rest = if opt_at q i == tcpopt_eol then pure ((opt_space q - i) % 2 ^ 8) q else rest

-- The loop that removes the NOPs up to the end of the options, and counts the bytes from there.
unfoldable pub free_loop : ℕ → ℕ → Cmd (List ℕ) ℕ
free_loop zero i p = out_of_fuel
free_loop (suc fuel) i p =
    if ltb i (opt_space p)
    then (do nop_loop opt_fuel i; λ q. free_at i q (free_loop fuel ((i + optlen q i) % 2 ^ 8) q)) p
    else pure 0 p

-- The data moves back by `addoff` words, the gap is zero.
unfoldable pub opened : ℕ → List ℕ → List ℕ
opened addoff p =
    let at = tcp_start p + doff p * 4 in
    if addoff == 0
    then p
    else memset at 0 (addoff * 4) (memmove (at + addoff * 4) at (tot_len p - at) p)

-- The kind and the length of a new first option.
unfoldable pub put_kind : ℕ → ℕ → List ℕ → List ℕ
put_kind tcpoptnum tcpoptlen p =
    set (set p (opt_start p) (tcpoptnum % 2 ^ 8)) (opt_start p + 1) (tcpoptlen % 2 ^ 8)

-- The data offset and the length of the packet.
unfoldable pub put_lengths : ℕ → List ℕ → List ℕ
put_lengths addoff p =
    put16 (if addoff == 0 then p else set_doff (doff p + addoff) p) 2
      ((tot_len p + addoff * 4) % 2 ^ 16)

-- A new option goes before the others.
unfoldable pub add_option : ℕ → ℕ → ℕ → ℕ → Cmd (List ℕ) Status
unfolding write_loop opened put_kind put_lengths
add_option tcpoptnum tcpoptlen tcpoptdata optspace p =
    let addoff = words_needed optspace tcpoptlen in
    if ltb 15 (doff p + addoff)
    then pure failure p
    else if ltb 0 addoff
        && (ltb (tot_len p) (tcp_start p + doff p * 4) || ltb (length p) (tot_len p + addoff * 4))
    then fault
    else (let at = opt_start p in
        let moved = memmove (at + tcpoptlen) at (opt_space p - optspace) (opened addoff p) in
        (do
          write_loop ((tcpoptlen + 2 ^ 32 - 2) % 2 ^ 8) (at + 2) tcpoptdata
          λ q. pure success (put_lengths addoff q))
          (put_kind tcpoptnum tcpoptlen moved))

-- When no option is found.
unfoldable pub insert_option : ℕ → ℕ → ℕ → Cmd (List ℕ) Status
unfolding free_loop add_option
insert_option tcpoptnum tcpoptlen tcpoptdata p =
    and_then (if ltb 5 (doff p) then free_loop opt_fuel 0 p else pure 0 p)
      (add_option tcpoptnum tcpoptlen tcpoptdata)

unfoldable pub rewrite_or_insert : ℕ → ℕ → ℕ → Option ℕ → Cmd (List ℕ) Status
unfolding write_loop insert_option
rewrite_or_insert tcpoptnum tcpoptlen tcpoptdata none = insert_option tcpoptnum tcpoptlen tcpoptdata
rewrite_or_insert tcpoptnum tcpoptlen tcpoptdata (some i) = λ p.
    and_then (write_loop ((tcpoptlen + 2 ^ 32 - 2) % 2 ^ 8) (opt_start p + i + 2) tcpoptdata p)
      (λ u. pure success)

unfoldable pub set_tcp_option : ℕ → ℕ → ℕ → Cmd (List ℕ) Status
unfolding match_loop rewrite_or_insert
set_tcp_option tcpoptnum tcpoptlen tcpoptdata p =
    and_then (if ltb 5 (doff p) then match_loop opt_fuel tcpoptnum tcpoptlen 0 p else pure none p)
      (rewrite_or_insert tcpoptnum tcpoptlen tcpoptdata)
