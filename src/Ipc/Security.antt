-- ===== src/Ipc/Security.antt =====
-- Which messages are processed.
use mathlib.Core.List.{append-nil}
use opennop.Prelude.{
  ℕ, zero, suc, ◌+◌, ◌≤◌, ◌<◌, ◌≡◌, refl, sym, ap, ◌∙◌, ◌≢◌, ◌⊎◌, inl, inr, true, false, Option,
  some, List, [], ◌∷◌, ◌++◌, arith, ◌==◌, take, drop, replicate, length, Bool-cases,
}
use opennop.Bytes.{byte, slice}
use opennop.Queue.{success, failure}
use opennop.Tracking.{save_opennopid}
use opennop.Tracking.Accelerator.{IsId, Id-bytes}
use opennop.Ipc.{
  Neighbor, up, Ipc, MessageType, here_i_am, i_see_you, is_empty, write_at, msg_length, security,
  get_header_data, same_bytes, calculate_hmac_sha256, ipc_message, ipc_send_message,
  find_neighbor_by_socket, update_by_socket, ipc_set_neighbor_state, process_message,
  check_hmac_sha256, validate_security, check_security, ipc_handler,
}
use opennop.Ipc.Messages.{
  body, plain, with_security, unsigned, ipc_message-plain, ipc_message-signed, take-prefix_add,
  drop-prefix_add,
}

same_bytes_self : (xs : List ℕ) → same_bytes xs xs ≡ true
unfolding same_bytes
same_bytes_self [] = refl
same_bytes_self (x ∷ xs) = ground (arith, same_bytes_self xs)

same_bytes-eq : (xs ys : List ℕ) → same_bytes xs ys ≡ true → xs ≡ ys
unfolding same_bytes
same_bytes-eq [] [] h = refl
same_bytes-eq [] (y ∷ ys) h = cc
same_bytes-eq (x ∷ xs) [] h = cc
same_bytes-eq (x ∷ xs) (y ∷ ys) h = ground (arith, same_bytes-eq xs ys)

module _ (hmac : List ℕ → List ℕ → List ℕ) (peer : ℕ → Option ℕ) (now fd : ℕ) (m : List ℕ) (s : Ipc)
    (n : Neighbor) (known : find_neighbor_by_socket hmac peer now fd (s.neighbors) ≡ some n) where
  abbrev cleared : List ℕ
  cleared = write_at 8 (replicate 32 0) m

  abbrev computed : List ℕ
  computed = calculate_hmac_sha256 hmac peer now cleared (n.key)

  hmac_fails :
      same_bytes (slice 8 32 m) computed ≡ false
      → check_hmac_sha256 hmac peer now fd m s ≡ (failure, s)
  unfolding check_hmac_sha256
  hmac_fails e = rw (known, check_hmac_sha256, e)

  hmac_holds :
      slice 8 32 m ≡ computed
      → check_hmac_sha256 hmac peer now fd m s
        ≡ process_message hmac peer now fd (write_at 8 computed cleared) s
  unfolding check_hmac_sha256
  hmac_holds e =
      let same : same_bytes (slice 8 32 m) computed ≡ true =
        ap (same_bytes (slice 8 32 m)) (sym e) ∙ same_bytes_self (slice 8 32 m) in
      rw (known, check_hmac_sha256, same)

  secured :
      is_empty (n.key) ≡ false
      → security m ≡ 1
      → check_security hmac peer now fd m s ≡ check_hmac_sha256 hmac peer now fd m s
  unfolding check_security validate_security
  secured e mode = rw (known, check_security, e, mode)

  unsecured :
      is_empty (n.key) ≡ true
      → security m ≡ 0
      → check_security hmac peer now fd m s ≡ process_message hmac peer now fd m s
  unfolding check_security validate_security
  unsecured e mode = rw (known, check_security, e, mode)

  wrong_mode :
      is_empty (n.key) ≡ false → security m ≢ 1 → check_security hmac peer now fd m s ≡ (failure, s)
  unfolding check_security validate_security
  wrong_mode e mode =
      let f : (security m == 1) ≡ false = ground arith in rw (known, check_security, e, f)

-- The header's bytes stay when the security data is cleared.
byte_cleared : (zs m : List ℕ) (k i : ℕ) → i < k → i < length m → byte (take k m ++ zs) i ≡ byte m i
byte_cleared zs [] k i h h' = absurd (omega arith)
byte_cleared zs (x ∷ xs) zero i h h' = absurd (omega arith)
byte_cleared zs (x ∷ xs) (suc k) zero h h' = refl
byte_cleared zs (x ∷ xs) (suc k) (suc i) h h' = byte_cleared zs xs k i (omega arith) (omega arith)

-- From a neighbor with a key, a message of at least 40 bytes, whose length field lies within the
-- buffer, is refused, and changes nothing, unless it says that it is secured and its 32 bytes of
-- security data are the HMAC, under the key's first 64 bytes, of as many of the message's bytes as
-- its length field says, with the security data cleared.
pub check_security-authentic :
    (hmac : List ℕ → List ℕ → List ℕ) (peer : ℕ → Option ℕ) (now fd : ℕ) (m : List ℕ) (s : Ipc)
    (n : Neighbor)
    → find_neighbor_by_socket hmac peer now fd (s.neighbors) ≡ some n
    → is_empty (n.key) ≡ false
    → 40 ≤ length m
    → msg_length m ≤ length m
    → (check_security hmac peer now fd m s ≡ (failure, s))
      ⊎ ((security m ≡ 1)
          × (slice 8 32 m
              ≡ hmac (take 64 (n.key)) (take (msg_length m) (write_at 8 (replicate 32 0) m))))
unfolding calculate_hmac_sha256
check_security-authentic hmac peer now fd m s n known e long within =
    let rest = replicate 32 0 ++ drop 40 m in
    let field : msg_length (write_at 8 (replicate 32 0) m) ≡ msg_length m =
      ground (arith, byte_cleared rest m 8 4, byte_cleared rest m 8 5) in
    elim (Bool-cases (security m == 1)) [
      | inr other ↦ inl (wrong_mode hmac peer now fd m s n known e (ground arith))
      | inl mode ↦
          elim (Bool-cases (same_bytes (slice 8 32 m) (computed hmac peer now fd m s n known))) [
            | inl same ↦ inr (
              ground arith,
              same_bytes-eq _ _ same
                  ∙ ap (λ k. hmac (take 64 (n.key)) (take k (write_at 8 (replicate 32 0) m))) field,
            )
            | inr differ ↦ inl (
                secured hmac peer now fd m s n known e (ground arith)
                ∙ hmac_fails hmac peer now fd m s n known differ)
          ]
    ]

-- What the receiver does with a message that it accepts: it notes the sender's ID, and answers, or
-- counts the neighbor as up.
module _ (hmac : List ℕ → List ℕ → List ℕ) (peer : ℕ → Option ℕ) (now fd : ℕ) (id : List ℕ) where
  abbrev pub noted : Ipc → Ipc
  noted = update_by_socket hmac peer now fd (λ x. record x { id = save_opennopid id x.id })

  abbrev pub received : MessageType → Ipc → Ipc
  received here_i_am s = noted (ipc_send_message hmac peer now fd i_see_you s)
  received i_see_you s = ipc_set_neighbor_state hmac peer now fd up (noted s)

process_run :
    (hmac : List ℕ → List ℕ → List ℕ) (peer : ℕ → Option ℕ) (now fd : ℕ) (kind : MessageType)
    (s : Ipc) (a b c d : ℕ) (m : List ℕ)
    → drop (get_header_data m).1 m ≡ body kind a b c d
    → process_message hmac peer now fd m s
      ≡ (success, received hmac peer now fd (a ∷ b ∷ c ∷ d ∷ []) kind s)
unfolding process_message
process_run hmac peer now fd here_i_am s a b c d m e = rw (e, process_message)
process_run hmac peer now fd i_see_you s a b c d m e = rw (e, process_message)

-- The message of another node passes the checks of one that knows it by the same key.
module _ (hmac : List ℕ → List ℕ → List ℕ) (peer : ℕ → Option ℕ) (now fd : ℕ) (kind : MessageType)
    (s : Ipc) (n : Neighbor) (a b c d : ℕ)
    (known : find_neighbor_by_socket hmac peer now fd (s.neighbors) ≡ some n) where
  signed-accepted :
      (h : List ℕ)
      → length h ≡ 32
      → h ≡ hmac (take 64 (n.key)) (unsigned kind a b c d)
      → is_empty (n.key) ≡ false
      → ipc_handler hmac peer now fd (with_security h kind a b c d) s
        ≡ process_message hmac peer now fd (with_security h kind a b c d) s
  unfolding ipc_handler calculate_hmac_sha256
  signed-accepted h len good e =
      let m = with_security h kind a b c d in
      let header : List ℕ = 1 ∷ 0 ∷ 1 ∷ 0 ∷ 48 ∷ 0 ∷ 1 ∷ 0 ∷ [] in
      let taken : slice 8 32 m ≡ h =
        take-prefix_add h (body kind a b c d) 0 32 (omega arith) ∙ append-nil h in
      let rest : drop 32 (h ++ body kind a b c d) ≡ body kind a b c d =
        drop-prefix_add h (body kind a b c d) 0 32 (omega arith) in
      let clear : write_at 8 (replicate 32 0) m ≡ unsigned kind a b c d =
        ap (λ zs. header ++ (replicate 32 0 ++ zs)) rest in
      let sum : computed hmac peer now fd m s n known ≡ h =
        ap (λ zs. hmac (take 64 (n.key)) (take (msg_length zs) zs)) clear ∙ sym good in
      let back : write_at 8 h (unsigned kind a b c d) ≡ m =
        ap (λ zs. header ++ (h ++ zs))
          (drop-prefix_add header (replicate 32 0 ++ body kind a b c d) 32 (8 + length h)
            (omega arith)) in
      secured hmac peer now fd m s n known e refl
      ∙ hmac_holds hmac peer now fd m s n known (taken ∙ sym sum)
      ∙ ap (λ zs. process_message hmac peer now fd zs s)
          (ap (λ h'. write_at 8 h' (cleared hmac peer now fd m s n known)) sum
            ∙ ap (write_at 8 h) clear
            ∙ back)

  plain-accepted :
      is_empty (n.key) ≡ true
      → ipc_handler hmac peer now fd (plain kind a b c d) s
        ≡ process_message hmac peer now fd (plain kind a b c d) s
  unfolding ipc_handler
  plain-accepted e = unsecured hmac peer now fd (plain kind a b c d) s n known e refl

header_with-security :
    (h : List ℕ) (kind : MessageType) (a b c d : ℕ)
    → length h ≡ 32
    → drop (get_header_data (with_security h kind a b c d)).1 (with_security h kind a b c d)
      ≡ body kind a b c d
unfolding get_header_data
header_with-security h kind a b c d len = drop-prefix_add h (body kind a b c d) 0 32 (omega arith)

header_plain :
    (kind : MessageType) (a b c d : ℕ)
    → drop (get_header_data (plain kind a b c d)).1 (plain kind a b c d) ≡ body kind a b c d
unfolding get_header_data
header_plain kind a b c d = refl

-- A message as `ipc_send_message` makes it with some key and a local ID of four bytes is accepted by a
-- node that knows the sender by the same key, with or without security, when the HMAC has 32 bytes:
-- HERE_I_AM is answered with I_SEE_YOU, I_SEE_YOU makes the neighbor UP, both note its ID.
pub ipc_handler-ipc_message :
    (hmac : List ℕ → List ℕ → List ℕ) (peer peer' : ℕ → Option ℕ) (now now' fd : ℕ)
    (kind : MessageType) (s : Ipc) (n : Neighbor) (id : List ℕ)
    → ((k xs : List ℕ) → length (hmac k xs) ≡ 32)
    → IsId id
    → find_neighbor_by_socket hmac peer now fd (s.neighbors) ≡ some n
    → ipc_handler hmac peer now fd (ipc_message hmac peer' now' kind (n.key) id) s
      ≡ (success, received hmac peer now fd id kind s)
ipc_handler-ipc_message hmac peer peer' now now' fd kind s n id sized four known =
    let (a, b, c, d, e) = Id-bytes id four in
    let goal = λ (m : List ℕ) (i : List ℕ).
      ipc_handler hmac peer now fd m s ≡ (success, received hmac peer now fd i kind s) in
    let h = hmac (take 64 (n.key)) (unsigned kind a b c d) in
    rw e (elim (Bool-cases (is_empty (n.key))) [
      | inl bare ↦ rw (ipc_message-plain hmac peer' now' kind (n.key) a b c d bare) (
          plain-accepted hmac peer now fd kind s n a b c d known bare
          ∙ process_run hmac peer now fd kind s a b c d _ (header_plain kind a b c d))
      | inr keyed ↦ rw (ipc_message-signed hmac peer' now' kind (n.key) a b c d keyed (sized _ _)) (
          signed-accepted hmac peer now fd kind s n a b c d known h (sized _ _) refl keyed
          ∙ process_run hmac peer now fd kind s a b c d _
              (header_with-security h kind a b c d (sized _ _)))
    ])
