-- ===== src/Worker/Served.antt =====
-- opennopd/subsystems/worker.c: each packet that a worker takes gets one verdict.
use opennop.Prelude.{
  ℕ, ◌+◌, ◌%◌, ◌^◌, ◌≡◌, ◌≢◌, refl, ap, ◌∙◌, Bool, true, false, ◌&&◌, Option, none, some, List, ◌∷◌,
  ◌==◌, if◌then◌else◌,
}
use opennop.Prelude.Run.{Cmd, pure, ◌>>=◌, ◌>>◌}
use opennop.Bytes.{tot_len}
use opennop.Heap.{Ptr, null, Node, Store, load}
use opennop.Heap.Points.{load-ok}
use opennop.Queue.{Packet, Status}
use opennop.Memory.{put_freepacket_buffer}
use opennop.Sessions.{Session, getsession, clearsession}
use opennop.Tracking.{saddr, syn, updateseq, saveacceleratorid, closingsession}
use opennop.OldOptions.{get_tcp_option}
use opennop.Nod.{onop, get_nod_header_data, set_nod_header_data}
use opennop.Compression.{tcp_compress, tcp_decompress}
use opennop.Daemon.{
  Verdict, accepted, unchanged, dropped, Daemon, on_sessions, on_memory, count_packet,
  count_bytesin, count_bytesout, ack, fin, rst, in_domain, id_at, sockets,
}
use opennop.Daemon.Told.{
  Ends, Silent, Keeps, Ends-bind, Ends-imp, if-Ends, on_table-Keeps, on_sessions-Keeps,
  on_memory-Keeps, on_packets-Keeps, on_buffer-Keeps, pure-Keeps, if-Keeps, bind-Keeps, bind-after,
}
use opennop.Worker.{
  bytes_of, checksum_bytes, conclude, is_between, is_receiver, by_packet, follow, optimize,
  decompress, deoptimize, accelerate, end_session, finish, work_session, serve, work_packet,
}

-- The verdict is about the packet with this handle and number.
abbrev pub IsAbout : ℕ → ℕ → Verdict → Type 0
IsAbout hq id (accepted h i len bytes) = (h ≡ hq) × (i ≡ id)
IsAbout hq id (unchanged h i) = (h ≡ hq) × (i ≡ id)
IsAbout hq id (dropped h i) = (h ≡ hq) × (i ≡ id)

-- One verdict more, about the packet.
abbrev pub One : ℕ → ℕ → Daemon → Daemon → Type 0
One hq id d e =
    ((v : Verdict) × IsAbout hq id v × (e.verdicts ≡ v ∷ d.verdicts))
    × (e.metrics.packets ≡ d.metrics.packets)

-- No verdict yet while the packet is there, one when it is not.
abbrev Still : ℕ → ℕ → Bool → Daemon → Daemon → Type 0
Still hq id true d e = Silent d e
Still hq id false d e = One hq id d e

One-stable : (hq id : ℕ) (d e f : Daemon) → Silent d e → One hq id e f → One hq id d f
One-stable hq id d e f s ((v, about, told), count) =
    ((v, about, told ∙ ap (λ vs. v ∷ vs) s.0), count ∙ s.1)

Still-stable :
    (hq id : ℕ) (there : Bool) (d e f : Daemon)
    → Silent d e
    → Still hq id there e f
    → Still hq id there d f
Still-stable hq id true d e f s h = (h.0 ∙ s.0, h.1 ∙ s.1)
Still-stable hq id false d e f s h = One-stable hq id d e f s h

count_bytesout-Keeps : (n : ℕ) → Keeps (count_bytesout n)
count_bytesout-Keeps n d = (refl, refl)

bytes_of-Keeps : (p : Ptr) → Keeps (bytes_of p)
unfolding bytes_of
bytes_of-Keeps p = on_packets-Keeps (load p >>= λ n. pure n.item.bytes)

conclude-One :
    (hq id : ℕ) (v : Verdict) (p : Ptr) (d : Daemon)
    → IsAbout hq id v
    → Ends (λ a e. One hq id d e) (conclude v p d)
unfolding conclude
conclude-One hq id v p d about =
    let told : Daemon = record d { verdicts = v ∷ d.verdicts } in
    Ends-bind (λ a e. Silent told e) (λ a e. One hq id d e)
      (on_memory (put_freepacket_buffer p) told) (λ x. pure tt)
      (on_memory-Keeps (put_freepacket_buffer p) told) (λ a e s. ((v, about, s.0), s.1))

module _ (qlz_compress qlz_decompress : List ℕ → List ℕ) (nod_var nodh_var : ℕ)
    (wait : Cmd (Store Packet) (Unit {0})) (hq id : ℕ) (p s : Ptr) (larger_ip smaller_ip : ℕ) where
  by_packet-Keeps :
      (f : List ℕ → Cmd (Store Session) Status)
      → Keeps (
          by_packet qlz_compress qlz_decompress nod_var nodh_var wait hq id p s larger_ip smaller_ip
            f)
  unfolding by_packet
  by_packet-Keeps f =
      bind-Keeps (bytes_of p) (λ bytes. on_sessions (f bytes) >>= λ x. pure tt) (bytes_of-Keeps p)
        (λ bytes.
          bind-Keeps (on_sessions (f bytes)) (λ x. pure tt) (on_sessions-Keeps (f bytes))
            (λ x. pure-Keeps tt))

  follow-Keeps :
      Keeps
        (follow qlz_compress qlz_decompress nod_var nodh_var wait hq id p s larger_ip smaller_ip)
  unfolding follow
  follow-Keeps = by_packet-Keeps (λ bytes. updateseq larger_ip bytes s)

  optimize-Keeps :
      Keeps
        (optimize qlz_compress qlz_decompress nod_var nodh_var wait hq id p s larger_ip smaller_ip)
  unfolding optimize
  optimize-Keeps =
      bind-Keeps _ _
        (λ d. by_packet-Keeps (λ bytes. saveacceleratorid larger_ip d.localid bytes s) d)
        (λ x.
          bind-Keeps _ _
            (λ d. on_buffer-Keeps p (set_nod_header_data nod_var nodh_var onop d.localid) d)
            (λ x. bind-Keeps _ _ (bytes_of-Keeps p) (λ bytes.
              bind-Keeps _ _ (on_sessions-Keeps (load s)) (λ n. bind-Keeps _ _ follow-Keeps (λ x d.
                if-Keeps (is_between d.localid (saddr bytes) larger_ip smaller_ip n.item) _ _
                  (bind-Keeps _ _
                    (on_buffer-Keeps p
                      (tcp_compress qlz_compress qlz_decompress d.compression true))
                    (λ x. pure-Keeps tt))
                  (pure-Keeps tt) d)))))

  follow-Still :
      (d : Daemon)
      → Ends
          (λ b e. Still hq id b d e)
          ((follow qlz_compress qlz_decompress nod_var nodh_var wait hq id p s larger_ip smaller_ip
              >> pure true)
            d)
  follow-Still d =
      Ends-bind (λ a e. Silent d e) (λ b e. Still hq id b d e) _ (λ x. pure true) (follow-Keeps d)
        (λ x e h. h)

  there-Still : (d : Daemon) → Ends (λ b e. Still hq id b d e) (pure true d)
  there-Still d = (refl, refl)

  drop-Still :
      (d : Daemon) → Ends (λ b e. Still hq id b d e) ((conclude (dropped hq id) p >> pure false) d)
  drop-Still d =
      Ends-bind (λ a e. One hq id d e) (λ b e. Still hq id b d e) _ (λ x. pure false)
        (conclude-One hq id (dropped hq id) p d (refl, refl)) (λ x e h. h)

  if-Still :
      (b : Bool) (c c' : Cmd Daemon Bool) (d : Daemon)
      → Ends (λ a e. Still hq id a d e) (c d)
      → Ends (λ a e. Still hq id a d e) (c' d)
      → Ends (λ a e. Still hq id a d e) ((if b then c else c') d)
  if-Still true c c' d h h' = h
  if-Still false c c' d h h' = h'

  decompress-Still :
      (d : Daemon)
      → Ends
          (λ b e. Still hq id b d e)
          (decompress qlz_compress qlz_decompress nod_var nodh_var wait hq id p s larger_ip
            smaller_ip d)
  unfolding decompress
  decompress-Still =
      bind-after (Still hq id) (Still-stable hq id) _ _
        (on_buffer-Keeps p (tcp_decompress qlz_compress qlz_decompress true))
        (λ done e. if-Still (done == 0) _ _ e (drop-Still e) (follow-Still e))

  deoptimize-Still :
      (remote : List ℕ) (d : Daemon)
      → Ends
          (λ b e. Still hq id b d e)
          (deoptimize qlz_compress qlz_decompress nod_var nodh_var wait hq id p s larger_ip
            smaller_ip remote d)
  unfolding deoptimize
  deoptimize-Still remote =
      bind-after (Still hq id) (Still-stable hq id) _ _
        (by_packet-Keeps (λ bytes. saveacceleratorid larger_ip remote bytes s))
        (λ x.
          bind-after (Still hq id) (Still-stable hq id) _ _ (on_buffer-Keeps p (get_tcp_option 31))
            (λ flag. bind-after (Still hq id) (Still-stable hq id) _ _ (bytes_of-Keeps p) (λ bytes.
              bind-after (Still hq id) (Still-stable hq id) _ _ (on_sessions-Keeps (load s)) (λ n e.
                if-Still (flag == 0) _ _ e (follow-Still e) (
                  if-Ends (λ b f. Still hq id b e f)
                    (is_receiver e.localid (saddr bytes) larger_ip smaller_ip n.item) _ _
                    (decompress-Still e) (there-Still e))))))

  accelerate-Still :
      (remote : Option (List ℕ)) (d : Daemon)
      → Ends
          (λ b e. Still hq id b d e)
          (accelerate qlz_compress qlz_decompress nod_var nodh_var wait hq id p s larger_ip
            smaller_ip remote d)
  unfolding accelerate
  accelerate-Still none d =
      bind-after (Still hq id) (Still-stable hq id) _ _ optimize-Keeps (λ x e. there-Still e) d
  accelerate-Still (some remote) d =
      if-Ends (λ b f. Still hq id b d f) (in_domain (some remote) d.neighbors) _ _
        (deoptimize-Still remote d)
        (bind-after (Still hq id) (Still-stable hq id) _ _ optimize-Keeps (λ x e. there-Still e) d)

  end_session-Keeps :
      Keeps (
        end_session qlz_compress qlz_decompress nod_var nodh_var wait hq id p s larger_ip
          smaller_ip)
  unfolding end_session
  end_session-Keeps = bind-Keeps _ _ (bytes_of-Keeps p) (λ bytes.
      bind-Keeps _ _ (if-Keeps (rst bytes) _ _ (on_table-Keeps (clearsession s)) (pure-Keeps s))
        (λ s'.
          if-Keeps (fin bytes) _ _
            (bind-Keeps _ _ (on_table-Keeps (closingsession s')) (λ x. pure-Keeps tt))
            (pure-Keeps tt)))

  finish-One :
      (d : Daemon)
      → Ends
          (λ a e. One hq id d e)
          (finish qlz_compress qlz_decompress nod_var nodh_var wait hq id p s larger_ip smaller_ip
            true d)
  unfolding finish
  finish-One =
      bind-after (λ u. One hq id) (λ u. One-stable hq id) _ _ (on_buffer-Keeps p checksum_bytes)
        (λ x.
          bind-after (λ u. One hq id) (λ u. One-stable hq id) _ _ (bytes_of-Keeps p)
            (λ bytes.
              bind-after (λ u. One hq id) (λ u. One-stable hq id) (count_bytesout (tot_len bytes)) _
                (count_bytesout-Keeps (tot_len bytes))
                (λ x e.
                  conclude-One hq id (accepted hq id (tot_len bytes) bytes) p e (refl, refl))))

  ending-One :
      (d e : Daemon) (there : Bool)
      → Still hq id there d e
      → Ends
          (λ a f. One hq id d f)
          ((end_session qlz_compress qlz_decompress nod_var nodh_var wait hq id p s larger_ip
                smaller_ip
              >> finish qlz_compress qlz_decompress nod_var nodh_var wait hq id p s larger_ip
                  smaller_ip there)
            e)
  unfolding finish
  ending-One d e true still =
      Ends-imp (λ a f. One hq id e f) (λ a f. One hq id d f) _
        (bind-after (λ u. One hq id) (λ u. One-stable hq id) _ _ end_session-Keeps (λ x. finish-One)
          e)
        (λ a f. One-stable hq id d e f still)
  ending-One d e false ((v, about, told), count) =
      Ends-bind (λ a f. Silent e f) (λ a f. One hq id d f) _ (λ x. pure tt) (end_session-Keeps e)
        (λ x f s. ((v, about, s.0 ∙ told), s.1 ∙ count))

  work_session-One :
      (remote : Option (List ℕ)) (d : Daemon)
      → Ends
          (λ a e. One hq id d e)
          (work_session qlz_compress qlz_decompress nod_var nodh_var wait hq id p s larger_ip
            smaller_ip remote d)
  unfolding work_session
  work_session-One remote =
      bind-after (λ u. One hq id) (λ u. One-stable hq id) _ _ (bytes_of-Keeps p)
        (λ bytes d.
          Ends-bind (λ b e. Still hq id b d e) (λ a e. One hq id d e) _ _
            (if-Still
              ((if syn bytes then false else true)
                && ack bytes
                && (if fin bytes then false else true))
              _ _ d (accelerate-Still remote d) (there-Still d))
            (λ there e still. ending-One d e there still))

-- One verdict more, about the packet, and the packet is counted.
abbrev pub Served : ℕ → ℕ → Daemon → Daemon → Type 0
Served hq id d e =
    ((v : Verdict) × IsAbout hq id v × (e.verdicts ≡ v ∷ d.verdicts))
    × (e.metrics.packets ≡ (d.metrics.packets + 1) % 2 ^ 32)

Served-stable : (hq id : ℕ) (d e f : Daemon) → Silent d e → Served hq id e f → Served hq id d f
Served-stable hq id d e f s ((v, about, told), count) =
    ((v, about, told ∙ ap (λ vs. v ∷ vs) s.0), count ∙ ap (λ n. (n + 1) % 2 ^ 32) s.1)

count_packet-Served :
    (hq id : ℕ) (d e : Daemon) → One hq id d e → Ends (λ a f. Served hq id d f) (count_packet e)
count_packet-Served hq id d e ((v, about, told), count) =
    ((v, about, told), ap (λ n. (n + 1) % 2 ^ 32) count)

if-One :
    (hq id : ℕ) (b : Bool) (c c' : Cmd Daemon (Unit {0})) (d : Daemon)
    → Ends (λ a e. One hq id d e) (c d)
    → Ends (λ a e. One hq id d e) (c' d)
    → Ends (λ a e. One hq id d e) ((if b then c else c') d)
if-One hq id true c c' d h h' = h
if-One hq id false c c' d h h' = h'

count_bytes-Keeps : (n : ℕ) → Keeps (count_bytesin n)
count_bytes-Keeps n d = (refl, refl)

module _ (qlz_compress qlz_decompress : List ℕ → List ℕ) (nod_var nodh_var : ℕ)
    (wait : Cmd (Store Packet) (Unit {0})) where
  unknown-One :
      (hq id n : ℕ) (p : Ptr) (d : Daemon)
      → Ends (λ a e. One hq id d e) ((count_bytesout n >> conclude (unchanged hq id) p) d)
  unknown-One hq id n p =
      bind-after (λ u. One hq id) (λ u. One-stable hq id) (count_bytesout n)
        (λ x. conclude (unchanged hq id) p) (count_bytesout-Keeps n)
        (λ x e. conclude-One hq id (unchanged hq id) p e (refl, refl))

  serve-One :
      (hq id : ℕ) (p : Ptr) (remote : Option (List ℕ)) (bytes : List ℕ) (d : Daemon)
      → Ends
          (λ a e. One hq id d e)
          (serve qlz_compress qlz_decompress nod_var nodh_var wait hq id p remote bytes d)
  unfolding serve
  serve-One hq id p remote bytes =
      let (larger_ip, larger_port, smaller_ip, smaller_port) = sockets bytes in
      bind-after (λ u. One hq id) (λ u. One-stable hq id) _ _
        (on_sessions-Keeps (getsession larger_ip larger_port smaller_ip smaller_port))
        (λ s e. if-One hq id (s == null) _ _ e (unknown-One hq id (tot_len bytes) p e) (
          work_session-One qlz_compress qlz_decompress nod_var nodh_var wait hq id p s larger_ip
            smaller_ip remote e))

  -- When a worker's round with a packet ends, the packet has been given back to Netfilter by exactly
  -- one verdict, under its own handle and number, and it has been counted once: whether
  -- its session is known or not, whether it was compressed, decompressed, dropped or left alone, and
  -- whether it ended its session.
  pub work_packet-Served :
      (p : Ptr) (d : Daemon) (n : Node Packet)
      → p ≢ null
      → d.memory.packets.heap p ≡ some n
      → Ends
          (λ a e. Served n.item.hq n.item.id d e)
          (work_packet qlz_compress qlz_decompress nod_var nodh_var wait p d)
  unfolding work_packet
  work_packet-Served p d n there at =
      let hq = n.item.hq in
      let id = n.item.id in
      let R = λ (u : Unit {0}). Served hq id in
      let stable = λ (u : Unit {0}). Served-stable hq id in
      rw (load-ok p d.memory.packets n there at) (
        bind-after R stable (count_bytesin (tot_len n.item.bytes)) _
          (count_bytes-Keeps (tot_len n.item.bytes))
          (λ x.
            bind-after R stable _ _ (on_buffer-Keeps p (get_nod_header_data nod_var nodh_var onop))
              (λ found. bind-after R stable _ _ (bytes_of-Keeps p) (λ bytes e.
                Ends-bind (λ a f. One hq id e f) (λ a f. Served hq id e f) _ (λ x. count_packet)
                  (serve-One hq id p (id_at found.data_at bytes) bytes e)
                  (λ x f one. count_packet-Served hq id e f one))))
          d)
