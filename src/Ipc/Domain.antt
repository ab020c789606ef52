-- ===== src/Ipc/Domain.antt =====
-- Membership of the domain.
use opennop.Prelude.{
  ℕ, ◌≡◌, refl, ap, ◌∙◌, inl, inr, Bool, true, false, ◌&&◌, Option, none, some, List, [], ◌∷◌,
  length, arith, ◌==◌, if◌then◌else◌, Bool-cases,
}
use opennop.Tracking.{compare_opennopid, save_opennopid}
use opennop.Tracking.Accelerator.{IsId, compare_opennopid_iff, save_opennopid_lem}
use opennop.Ipc.{
  Neighbor, up, is_up, Ipc, i_see_you, find_neighbor_by_u32, update_neighbor,
  find_neighbor_by_socket, update_by_socket, ipc_set_neighbor_state, ipc_handler, ipc_message,
  verify_neighbor_in_domain,
}
use opennop.Ipc.Security.{received, ipc_handler-ipc_message}

Bool-elim : (b c : Bool) → c ≡ true → (if b then true else c) ≡ true
Bool-elim true c e = refl
Bool-elim false c e = e

module _ (ip now : ℕ) (id : List ℕ) where
  abbrev raised : List Neighbor → List Neighbor
  raised ns =
      update_neighbor ip (λ n. record n { state = up; timer = now })
        (update_neighbor ip (λ n. record n { id = save_opennopid id n.id }) ns)

  raised-member :
      (n : Neighbor) (ns : List Neighbor)
      → IsId id
      → IsId (n.id)
      → find_neighbor_by_u32 ip ns ≡ some n
      → verify_neighbor_in_domain id (raised ns) ≡ true
  unfolding find_neighbor_by_u32 update_neighbor verify_neighbor_in_domain
  raised-member n [] four four' e = cc
  raised-member n (x ∷ xs) four four' e = elim (Bool-cases (x.neighbor_ip == ip)) [
    | inl same ↦
        let this : x ≡ n = ground (arith, e) in
        let saved : save_opennopid id x.id ≡ id =
          save_opennopid_lem id (x.id) four (ap (λ y. length y.id) this ∙ four') in
        let equal : compare_opennopid id id ≡ true =
          (compare_opennopid_iff id id four four).1 refl in
        rw (same, saved, same, equal)
    | inr differ ↦
        let rest = raised-member n xs four four' (ground (arith, e)) in
        rw (differ, differ) (Bool-elim (compare_opennopid x.id id && is_up x.state) _ rest)
  ]

peer_known :
    (ns : List Neighbor) (n : Neighbor) (o : Option ℕ)
    → (elim o [ none ↦ none | some ip ↦ find_neighbor_by_u32 ip ns ]) ≡ some n
    → (ip : ℕ) × (o ≡ some ip) × (find_neighbor_by_u32 ip ns ≡ some n)
peer_known ns n none e = cc
peer_known ns n (some ip) e = (ip, refl, e)

pub update_run :
    (hmac : List ℕ → List ℕ → List ℕ) (peer : ℕ → Option ℕ) (now fd ip : ℕ)
    (f : Neighbor → Neighbor) (s : Ipc)
    → peer fd ≡ some ip
    → update_by_socket hmac peer now fd f s
      ≡ record s { neighbors = update_neighbor ip f s.neighbors }
unfolding update_by_socket
update_run hmac peer now fd ip f s address = rw (address, update_by_socket)

received-member :
    (hmac : List ℕ → List ℕ → List ℕ) (peer : ℕ → Option ℕ) (now fd : ℕ) (s : Ipc) (n : Neighbor)
    (id : List ℕ)
    → IsId id
    → IsId (n.id)
    → find_neighbor_by_socket hmac peer now fd (s.neighbors) ≡ some n
    → verify_neighbor_in_domain id ((received hmac peer now fd id i_see_you s).neighbors) ≡ true
unfolding find_neighbor_by_socket ipc_set_neighbor_state
received-member hmac peer now fd s n id four four' known =
    let (ip, address, found) = peer_known (s.neighbors) n (peer fd) known in
    let note = λ (x : Neighbor). record x { id = save_opennopid id x.id } in
    let rise = λ (x : Neighbor). record x { state = up; timer = now } in
    ap (λ x. verify_neighbor_in_domain id (x.neighbors))
      (ap (update_by_socket hmac peer now fd rise) (update_run hmac peer now fd ip note s address)
        ∙ update_run hmac peer now fd ip rise _ address)
    ∙ raised-member ip now id n (s.neighbors) four four' found

-- When a node knows the sender by the socket and by the same key, the IDs have four bytes and the HMAC
-- 32, `verify_neighbor_in_domain` answers yes for the sender's ID after `ipc_handler` has received the
-- I_SEE_YOU that the sender made.
pub ipc_handler-verify_neighbor_in_domain :
    (hmac : List ℕ → List ℕ → List ℕ) (peer peer' : ℕ → Option ℕ) (now now' fd : ℕ) (s : Ipc)
    (n : Neighbor) (id : List ℕ)
    → ((k xs : List ℕ) → length (hmac k xs) ≡ 32)
    → IsId id
    → IsId (n.id)
    → find_neighbor_by_socket hmac peer now fd (s.neighbors) ≡ some n
    → verify_neighbor_in_domain id (
        (ipc_handler hmac peer now fd
          (ipc_message hmac peer' now' i_see_you (n.key) id)
          s).1.neighbors)
      ≡ true
ipc_handler-verify_neighbor_in_domain hmac peer peer' now now' fd s n id sized four four' known =
    ap (λ r. verify_neighbor_in_domain id (r.1.neighbors))
      (ipc_handler-ipc_message hmac peer peer' now now' fd i_see_you s n id sized four known)
    ∙ received-member hmac peer now fd s n id four four' known
