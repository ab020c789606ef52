-- ===== src/Compression.antt =====
-- opennopd/compression.c: the data of a TCP segment is compressed and decompressed in place. QuickLZ
-- (lib/quicklz.c), called with a state that has just been cleared, is two arguments: what
-- `qlz_compress` writes for the source's bytes, and what `qlz_decompress` writes for the bytes from
-- the source on, where it finds the length itself. The workers' states are not NULL.
pub mod Segment
pub mod Restored
use opennop.Prelude.{
  ℕ, ◌+◌, ◌-◌, ◌*◌, ◌/◌, ◌%◌, ◌^◌, Bool, ◌&&◌, List, ◌++◌, ltb, ◌==◌, if◌then◌else◌, take, drop,
  length,
}
use opennop.Prelude.Run.{fault, Cmd, pure, ◌>>◌}
use opennop.Bytes.{put16, slice, tot_len, tcp_start, doff, protocol, ipproto_tcp}
use opennop.Tracking.{seq}
use opennop.OldOptions.{set_tcp_option}

-- `oldsize`, in 16 bits.
unfoldable pub data_size : List ℕ → ℕ
data_size p = ((tot_len p + 2 ^ 16 - tcp_start p) % 2 ^ 16 + 2 ^ 16 - doff p * 4) % 2 ^ 16

unfoldable pub data_start : List ℕ → ℕ
data_start p = tcp_start p + doff p * 4

-- The first `n` of the given bytes go to an offset.
unfoldable pub copied : ℕ → ℕ → List ℕ → List ℕ → List ℕ
copied at n bytes p = take at p ++ (take n bytes ++ drop (at + n) p)

unfoldable pub put_seq : ℕ → List ℕ → List ℕ
put_seq v p = put16 (put16 p (tcp_start p + 4) (v / 2 ^ 16 % 2 ^ 16)) (tcp_start p + 6) (v % 2 ^ 16)

abbrev pub compressed_kind : ℕ
compressed_kind = 31

module _ (qlz_compress qlz_decompress : List ℕ → List ℕ) where
  -- When the compressed data is shorter.
  unfoldable pub replace_data : List ℕ → Cmd (List ℕ) ℕ
  unfolding copied data_size data_start put_seq
  replace_data compressed p =
      let oldsize = data_size p in
      let newsize = length compressed % 2 ^ 16 in
      let moved = copied (data_start p) newsize compressed p in
      (do set_tcp_option compressed_kind 3 1; λ q. pure 1 (put_seq ((seq q + 8000) % 2 ^ 32) q))
        (put16 moved 2 ((tot_len p + 2 ^ 16 - (oldsize - newsize)) % 2 ^ 16))

  -- `compression` is the flag that the commands set; the `lzbuffer` may be NULL.
  unfoldable pub tcp_compress : Bool → Bool → Cmd (List ℕ) ℕ
  unfolding replace_data
  tcp_compress compression lzbuffer p =
      let compressed = qlz_compress (slice (data_start p) (data_size p) p) in
      if compression && (protocol p == ipproto_tcp) && ltb 0 (data_size p)
      then (if lzbuffer
          then (if ltb (length compressed % 2 ^ 16) (data_size p)
              then replace_data compressed p
              else pure 1 p)
          else pure 0 p)
      else pure 1 p

  -- The decompressed data may run past the packet's buffer.
  unfoldable pub tcp_decompress : Bool → Cmd (List ℕ) ℕ
  unfolding copied data_size data_start put_seq
  tcp_decompress lzbuffer p =
      let plain = qlz_decompress (drop (data_start p) p) in
      let newsize = length plain % 2 ^ 16 in
      if (protocol p == ipproto_tcp) && ltb 0 (data_size p) && lzbuffer
      then (if ltb (length p) (data_start p + newsize)
          then fault
          else (do
            set_tcp_option compressed_kind 3 0
            λ q. pure 1 (put_seq ((seq q + 2 ^ 32 - 8000) % 2 ^ 32) q))
              (put16 (copied (data_start p) newsize plain p) 2
                ((tot_len p + newsize + 2 ^ 16 - data_size p) % 2 ^ 16)))
      else pure 0 p
