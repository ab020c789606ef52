-- ===== src/Examples/Segments.antt =====
-- TCP segments with options that are rewritten, and with a header for an accelerator's ID.
use opennop.Prelude.{
  true, ℕ, ◌+◌, ◌-◌, ◌*◌, ◌%◌, ◌^◌, ◌≤◌, ◌<◌, ◌≡◌, refl, some, List, [], ◌∷◌, ◌++◌, arith,
  replicate, length,
}
use opennop.Prelude.Run.{ok}
use opennop.Bytes.{protocol, word, word32, tot_len, byte, ihl, tcp_start, doff}
use opennop.Queue.{success}
use opennop.TcpOptions.{
  opt_start, opt_space, optlen, find_loop, get_tcpopt, get_tcpopt_freespace, remove_tcpopt_nop,
  remove_loop, nop_loop, remove_at, space_loop, words_needed, memmove, memset,
  get_tcpopt_addoff_needed, add_tcpopt_addoff, add_tcpopt_bytes, write_option, make_option,
  set_tcpopt, shift_tcpopt_space, grown, set_doff,
}
use opennop.OldOptions.{get_tcp_option, set_tcp_option}
use opennop.OldOptions.Rewrite.{here, HasOption, get_tcp_option-set_tcp_option}
use opennop.Nod.{
  nod_kind, onop, set_nod_header, get_nod_header, new_header, header_of, header_loop,
  check_nod_header, get_nod_next_header, write_header, put_bytes,
}
use opennop.Tracking.{seq}
use opennop.Compression.{tcp_compress, tcp_decompress}
use opennop.Compression.Segment.{IsSegment}
use opennop.Compression.Restored.{IsMarked, tcp_decompress-tcp_compress}

-- A segment with the option for the maximum segment size, 1460.
abbrev syn_packet : List ℕ
syn_packet =
    69 ∷ 0 ∷ 0 ∷ 44 ∷ replicate 5 0
    ++ (6 ∷ replicate 22 0 ++ (96 ∷ replicate 7 0 ++ (2 ∷ 4 ∷ 5 ∷ 180 ∷ [])))

syn_packet-HasOption : HasOption syn_packet 2 4 0
unfolding opt_start opt_space tcp_start ihl doff
syn_packet-HasOption = record {
  first = here (omega arith) refl;
  space = omega arith;
  options = omega arith;
  length_byte = refl;
  within = omega arith;
  buffer = omega arith;
}

get_tcp_option-set_tcp_option_example :
    (q : List ℕ) × (set_tcp_option 2 4 1400 syn_packet ≡ ok success q)
    × (get_tcp_option 2 q ≡ ok (1400 % 2 ^ (8 * (4 - 2))) q)
    × (length q ≡ length syn_packet)
    × ((i : ℕ) → i < opt_start syn_packet + 0 + 2 → byte q i ≡ byte syn_packet i)
    × ((i : ℕ) → opt_start syn_packet + 0 + 4 ≤ i → byte q i ≡ byte syn_packet i)
get_tcp_option-set_tcp_option_example =
    get_tcp_option-set_tcp_option syn_packet 2 4 0 1400 syn_packet-HasOption (omega arith)
      (omega arith)

-- A segment with 40 bytes of free option space.
abbrev roomy : List ℕ
roomy = 69 ∷ 0 ∷ 0 ∷ 80 ∷ replicate 5 0 ++ (6 ∷ replicate 22 0 ++ (240 ∷ replicate 47 0))

-- The same with an empty header.
abbrev headed : List ℕ
headed =
    69 ∷ 0 ∷ 0 ∷ 80 ∷ replicate 5 0
    ++ (6 ∷ replicate 22 0 ++ (240 ∷ replicate 7 0 ++ (33 ∷ 8 ∷ 6 ∷ 52 ∷ onop ++ replicate 32 0)))

roomy-set_nod_header : set_nod_header 8 0 onop roomy ≡ ok 42 headed
unfolding set_nod_header get_nod_header new_header header_of header_loop check_nod_header
    get_nod_next_header write_header put_bytes opt_start opt_space optlen tcp_start ihl doff
    find_loop get_tcpopt get_tcpopt_freespace remove_tcpopt_nop remove_loop nop_loop remove_at
    space_loop words_needed memmove memset get_tcpopt_addoff_needed add_tcpopt_addoff
    add_tcpopt_bytes write_option make_option set_tcpopt shift_tcpopt_space grown set_doff
roomy-set_nod_header = refl

headed-get_tcpopt : get_tcpopt nod_kind headed ≡ ok (some 40) headed
unfolding get_tcpopt find_loop opt_space opt_start optlen tcp_start ihl doff
headed-get_tcpopt = refl

headed-freespace : get_tcpopt_freespace headed ≡ ok 32 headed
unfolding get_tcpopt_freespace remove_tcpopt_nop remove_loop nop_loop space_loop find_loop opt_space
    opt_start optlen tcp_start ihl doff
headed-freespace = refl

-- Four equal bytes of data behind the option that says whether they are compressed.
abbrev marked : List ℕ
marked =
    69 ∷ 0 ∷ 0 ∷ 48 ∷ replicate 5 0
    ++ (6 ∷ replicate 17 0
        ++ (7 ∷ replicate 4 0 ++ (96 ∷ replicate 7 0 ++ (31 ∷ 3 ∷ 0 ∷ 0 ∷ replicate 4 65))))

marked-IsMarked : IsMarked marked 20 6 48 7 (replicate 4 65) 0
unfolding opt_start opt_space tcp_start ihl doff tot_len seq protocol word word32
marked-IsMarked = record {
  segment = record {
    starts = refl;
    offsets = refl;
    totals = refl;
    sequences = refl;
    is_tcp = refl;
    ip_header = omega arith;
    tcp_header = omega arith;
    tails = refl;
    within = omega arith;
  };
  option = record {
    first = here (omega arith) refl;
    space = omega arith;
    options = omega arith;
    length_byte = refl;
    within = omega arith;
    buffer = omega arith;
  };
  inside = omega arith;
}

tcp_decompress-tcp_compress_example :
    (q r : List ℕ) × (tcp_compress (λ x. 200 ∷ []) (λ x. replicate 4 65) true true marked ≡ ok 1 q)
    × (tot_len q ≡ 48 - (4 - 1))
    × (seq q ≡ (7 + 8000) % 2 ^ 32)
    × (tcp_decompress (λ x. 200 ∷ []) (λ x. replicate 4 65) true q ≡ ok 1 r)
    × IsSegment r 20 6 48 7 (replicate 4 65)
tcp_decompress-tcp_compress_example =
    tcp_decompress-tcp_compress (λ x. 200 ∷ []) (λ x. replicate 4 65) marked marked-IsMarked
      (omega arith) (omega arith) (omega arith) (omega arith) (omega arith) (λ rest. refl)
      (omega arith)
