-- ===== src/Checksum.antt =====
-- opennopd/csum.c: the TCP and IP checksums, over the bytes of the packet in network order. The
-- host is taken to be little-endian, as the padding of an odd last byte supposes.
pub mod Fold
pub mod Words
mod Header
mod Payload
pub mod Receiver
pub mod Verify
use opennop.Prelude.{
  ℕ, zero, suc, ◌+◌, ◌-◌, ◌*◌, ◌/◌, ◌%◌, ◌^◌, ◌≡◌, Option, none, some, List, [], ◌∷◌, ltb,
  if◌then◌else◌, ◌==◌, take, drop,
}
use opennop.Bytes.{be16, word, put16, slice, ihl, tot_len, protocol, ipproto_tcp, tcp_start}

-- The loop over the 16-bit words of `buff`; an odd last byte is padded with a zero byte.
unfoldable pub add_words : ℕ → List ℕ → ℕ
add_words sum [] = sum
add_words sum (hi ∷ []) = sum + be16 hi 0
add_words sum (hi ∷ lo ∷ rest) = add_words (sum + be16 hi lo) rest

-- `while (sum >> 16) sum = (sum & 0xFFFF) + (sum >> 16)` on fuel.
unfoldable pub fold_carries : ℕ → ℕ → Option ℕ
fold_carries zero sum = none
fold_carries (suc fuel) sum =
    let rest = fold_carries fuel (sum % 2 ^ 16 + sum / 2 ^ 16) in
    if sum / 2 ^ 16 == 0 then some sum else rest

-- The complement, cut to 16 bits.
abbrev pub complement : Option ℕ → Option ℕ
complement none = none
complement (some sum) = some (2 ^ 16 - 1 - sum % 2 ^ 16)

-- Three rounds fold any sum below 2 ^ 32.
abbrev pub fold_fuel : ℕ
fold_fuel = 3

-- The addresses are lists of four bytes. The pseudo header comes first.
unfoldable pub tcp_sum_calc : ℕ → List ℕ → List ℕ → List ℕ → Option ℕ
tcp_sum_calc len_tcp src_addr dest_addr buff = complement (
    fold_carries fold_fuel (
      add_words
        (word src_addr 0
          + word src_addr 2
          + word dest_addr 0
          + word dest_addr 2
          + len_tcp
          + ipproto_tcp)
        (take len_tcp buff)))

-- `len_ip_header` is four times the header's word count, so no byte is left over.
unfoldable pub ip_sum_calc : ℕ → List ℕ → Option ℕ
ip_sum_calc len_ip_header buff =
    complement (fold_carries fold_fuel (add_words 0 (take (len_ip_header / 2 * 2) buff)))

infixl 5 ◌>>=◌
abbrev ◌>>=◌ : Option ℕ → (ℕ → Option (List ℕ)) → Option (List ℕ)
none >>= f = none
some v >>= f = f v

abbrev pub tcplen : List ℕ → ℕ
tcplen p = (tot_len p + 2 ^ 16 - tcp_start p) % 2 ^ 16

-- The TCP checksum of the packet as it stands, and the IP checksum.
unfoldable pub tcp_sum : List ℕ → Option ℕ
tcp_sum p = tcp_sum_calc (tcplen p) (slice 12 4 p) (slice 16 4 p) (drop (tcp_start p) p)

unfoldable pub ip_sum : List ℕ → Option ℕ
ip_sum p = ip_sum_calc (tcp_start p) p

unfoldable pub fill_tcp : List ℕ → Option (List ℕ)
fill_tcp p = do
  let cleared = put16 p (tcp_start p + 16) 0
  check ← tcp_sum cleared
  some (put16 cleared (tcp_start p + 16) check)

unfoldable pub fill_ip : List ℕ → Option (List ℕ)
fill_ip p = do let cleared = put16 p 10 0; check ← ip_sum cleared; some (put16 cleared 10 check)

unfoldable pub checksum : List ℕ → Option (List ℕ)
checksum p =
    if protocol p == ipproto_tcp
    then elim (fill_tcp p) [ none ↦ none | some q ↦ fill_ip q ]
    else some p
