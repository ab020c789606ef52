-- ===== src/Ipc/Links.antt =====
-- The list of neighbors of opennopd/subsystems/ipc.c as it is linked: `ipchead` is head 0, which has
-- no counter. `add_update_neighbor` with its insertion at the end, and `del_neighbor` with its four
-- relinkings. Ipc.Neighbors holds the same for the plain list.
pub mod Removed
pub mod Added
pub mod View
use mathlib.Core.Bool.{not}
use opennop.Prelude.{
  ℕ, zero, suc, Bool, false, ◌&&◌, Option, none, some, List, ◌==◌, ltb, if◌then◌else◌, length,
}
use opennop.Prelude.Run.{fault, out_of_fuel, Cmd, pure, ◌>>=◌, ◌>>◌}
use opennop.Heap.{
  Ptr, null, node, Store, load, store, set_next, set_prev, set_item, get_head, set_head, free,
  unlink_only, unlink_first, unlink_last, unlink_middle,
}
use opennop.Ipc.{Neighbor}
use opennop.Ipc.Neighbors.{with_key, allocate_neighbor}

abbrev pub ipchead : ℕ
ipchead = 0

-- The chain of `else if`; each branch's writes stand under the same test in Heap.
unfoldable pub relink : Ptr → Cmd (Store Neighbor) (Unit {0})
relink p = do
  n ← load p
  if n.prev == null && n.next == null
      then unlink_only ipchead p
      else if n.prev == null && not (n.next == null)
      then unlink_first ipchead p
      else if not (n.prev == null) && n.next == null
      then unlink_last ipchead p
      else if not (n.next == null) && not (n.prev == null)
      then unlink_middle ipchead p
      else pure tt

-- The loop from the neighbor at `p`, on fuel.
unfoldable pub del_loop : ℕ → ℕ → Ptr → Cmd (Store Neighbor) (Unit {0})
unfolding relink
del_loop zero ip p = λ _. out_of_fuel
del_loop (suc fuel) ip p = if p == null then pure tt else do
  n ← load p
  if n.item.neighbor_ip == ip then (do relink p; free p) else del_loop fuel ip n.next

unfoldable pub del_neighbor : ℕ → ℕ → Cmd (Store Neighbor) (Unit {0})
unfolding del_loop
del_neighbor fuel ip = λ s. del_loop fuel ip (s.heads ipchead).next s

-- A key that does not fit in its 65 bytes is copied past them.
abbrev pub overflows : Option (List ℕ) → Bool
overflows none = false
overflows (some key) = ltb 65 (length key)

unfoldable pub set_neighbor_key : Ptr → Option (List ℕ) → Cmd (Store Neighbor) (Unit {0})
set_neighbor_key p key = do
  n ← load p
  if overflows key then (λ _. fault) else set_item p (with_key key n.item)

-- At the end of the list.
unfoldable pub link_neighbor : Ptr → Cmd (Store Neighbor) (Unit {0})
link_neighbor p = do
  hd ← get_head ipchead
  if hd.next == null
      then set_head ipchead (record hd { next = p; prev = p })
      else do set_prev p hd.prev; set_next hd.prev p; set_head ipchead (record hd { prev = p })

-- `fresh` is the address that `malloc` returns, and `raw` what it holds.
module _ (raw : Neighbor) (fresh : Ptr) (now : ℕ) where
  unfoldable pub new_neighbor : ℕ → Option (List ℕ) → Cmd (Store Neighbor) (Unit {0})
  unfolding link_neighbor
  new_neighbor ip key = if overflows key then (λ _. fault) else do
    store fresh (some (node null null (allocate_neighbor raw now ip key)))
    link_neighbor fresh

  unfoldable pub add_loop : ℕ → ℕ → Option (List ℕ) → Ptr → Cmd (Store Neighbor) (Unit {0})
  unfolding set_neighbor_key new_neighbor
  add_loop zero ip key p = λ _. out_of_fuel
  add_loop (suc fuel) ip key p = if p == null then new_neighbor ip key else do
    n ← load p
    if n.item.neighbor_ip == ip then set_neighbor_key p key else add_loop fuel ip key n.next

  unfoldable pub add_update_neighbor : ℕ → ℕ → Option (List ℕ) → Cmd (Store Neighbor) (Unit {0})
  unfolding add_loop
  add_update_neighbor fuel ip key = λ s. add_loop fuel ip key (s.heads ipchead).next s
