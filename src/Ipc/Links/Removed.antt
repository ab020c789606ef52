-- ===== src/Ipc/Links/Removed.antt =====
-- del_neighbor on the links against the removal from a list.
use mathlib.Core.Path.{subst}
use mathlib.Core.List.{append-nil}
use native.Mathlib.Decide.{ℕ_discrete}
use opennop.Prelude.{
  ◌+◌, ℕ, zero, suc, ◌<◌, ◌≡◌, refl, sym, ap, ◌∙◌, ◌≢◌, none, some, List, [], ◌∷◌, ◌++◌, arith,
  length, append_snoc,
}
use opennop.Prelude.Run.{ok}
use opennop.Heap.{Ptr, null, Node, Store, write}
use opennop.Heap.Points.{load-ok, free-ok, write_self, write_ne}
use opennop.Heap.Segment.{◌∉◌, Seg-write, Seg-left, Seg-right, first_or, not_mem-append}
use opennop.Heap.Link.{IsList, last_node}
use opennop.Heap.Unlink.{Seg-at}
use opennop.Heap.Relink.{
  Relinked, unlink_only-Relinked, unlink_first-Relinked, unlink_last-Relinked,
  unlink_middle-Relinked,
}
use opennop.Ipc.{Neighbor, find_neighbor_by_u32}
use opennop.Ipc.Links.{ipchead, relink, del_loop, del_neighbor}

-- The neighbor at `p` leaves the list, from any position.
relink-Relinked :
    (s : Store Neighbor) (p : Ptr) (a : Neighbor) (xs ys : List (Ptr × Neighbor))
    → IsList s ipchead null (xs ++ (p, a) ∷ ys)
    → (t : Store Neighbor) × (relink p s ≡ ok tt t) × Relinked s ipchead xs ys t
unfolding relink
relink-Relinked s p a [] [] l =
    let (ne, at, out_l, out_r) = Seg-at s.heap null null p a [] [] l.chain in
    let (t, run, new) = unlink_only-Relinked s ipchead p a l in
    (t, ground (arith, load-ok p s _ ne at, run), new)
relink-Relinked s p a [] ((q, c) ∷ zs) l =
    let (ne, at, out_l, out_r) = Seg-at s.heap null null p a [] ((q, c) ∷ zs) l.chain in
    let ne_q : q ≢ null = l.chain.3.0 in
    let (t, run, new) = unlink_first-Relinked s ipchead p a q c zs l in
    (t, ground (arith, load-ok p s _ ne at, run), new)
relink-Relinked s p a ((w, d) ∷ ws) [] l =
    let (ne, at, out_l, out_r) = Seg-at s.heap null null p a ((w, d) ∷ ws) [] l.chain in
    let (n, last_at, last_ne) =
      last_node s.heap null p w d ws
        (Seg-left s.heap null null ((w, d) ∷ ws) ((p, a) ∷ []) l.chain) in
    let (t, run, new) = unlink_last-Relinked s ipchead p a w d ws l in
    (t, ground (arith, load-ok p s _ ne at, run, last_ne), new)
relink-Relinked s p a ((w, d) ∷ ws) ((q, c) ∷ zs) l =
    let (ne, at, out_l, out_r) = Seg-at s.heap null null p a ((w, d) ∷ ws) ((q, c) ∷ zs) l.chain in
    let (n, last_at, last_ne) =
      last_node s.heap null p w d ws
        (Seg-left s.heap null null ((w, d) ∷ ws) ((p, a) ∷ (q, c) ∷ zs) l.chain) in
    let ne_q : q ≢ null =
      (Seg-right s.heap null null ((w, d) ∷ ws) ((p, a) ∷ (q, c) ∷ zs) l.chain).3.0 in
    let (t, run, new) = unlink_middle-Relinked s ipchead p a w d ws q c zs l in
    (t, ground (arith, load-ok p s _ ne at, run, last_ne, ne_q), new)

-- The items, which is the view of Ipc.Neighbors.
abbrev pub items : List (Ptr × Neighbor) → List Neighbor
items [] = []
items ((_, a) ∷ xs) = a ∷ items xs

-- The neighbor taken out and its memory given back.
freed :
    (s t : Store Neighbor) (p : Ptr) (xs ys : List (Ptr × Neighbor))
    → Relinked s ipchead xs ys t
    → p ∉ xs
    → p ∉ ys
    → IsList (record t { heap = write t.heap p none }) ipchead null (xs ++ ys)
freed s t p xs ys new out_l out_r = record {
  chain =
      Seg-write t.heap null null (xs ++ ys) p none new.list.chain
        (not_mem-append p xs ys out_l out_r);
  next = new.list.next;
  tail = new.list.tail;
}

del_loop-hit :
    (fuel ip : ℕ) (s t : Store Neighbor) (p : Ptr) (n m : Node Neighbor)
    → p ≢ null
    → s.heap p ≡ some n
    → n.item.neighbor_ip ≡ ip
    → relink p s ≡ ok tt t
    → t.heap p ≡ some m
    → del_loop (suc fuel) ip p s ≡ ok tt (record t { heap = write t.heap p none })
unfolding del_loop
del_loop-hit fuel ip s t p n m ne at same run at' =
    ground (arith, load-ok p s n ne at, run, free-ok p t m ne at')

del_loop-miss :
    (fuel ip : ℕ) (s : Store Neighbor) (p : Ptr) (n : Node Neighbor)
    → p ≢ null
    → s.heap p ≡ some n
    → n.item.neighbor_ip ≢ ip
    → del_loop (suc fuel) ip p s ≡ del_loop fuel ip n.next s
unfolding del_loop
del_loop-miss fuel ip s p n ne at differ = ground (arith, load-ok p s n ne at)

-- What `del_neighbor` leaves: `s` is the store before, and `xs` its list.
pub data Deleted (ip : ℕ) (s : Store Neighbor) (xs : List (Ptr × Neighbor))
    : Store Neighbor → Type 0 where
  absent : find_neighbor_by_u32 ip (items xs) ≡ none → Deleted ip s xs s
  deleted :
      {t : Store Neighbor} (p : Ptr) (a : Neighbor) (ys zs : List (Ptr × Neighbor))
      → xs ≡ ys ++ (p, a) ∷ zs
      → find_neighbor_by_u32 ip (items ys) ≡ none
      → a.neighbor_ip ≡ ip
      → IsList t ipchead null (ys ++ zs)
      → t.heap p ≡ none
      → ((c : Ptr) → c ∉ ys → c ∉ zs → c ≢ p → t.heap c ≡ s.heap c)
      → Deleted ip s xs t

pub find_nothing : (ip : ℕ) → find_neighbor_by_u32 ip [] ≡ none
unfolding find_neighbor_by_u32
find_nothing ip = refl

pub find_items-snoc :
    (ip p : ℕ) (a : Neighbor) (xs : List (Ptr × Neighbor))
    → find_neighbor_by_u32 ip (items xs) ≡ none
    → a.neighbor_ip ≢ ip
    → find_neighbor_by_u32 ip (items (xs ++ (p, a) ∷ [])) ≡ none
unfolding find_neighbor_by_u32
find_items-snoc ip p a [] out ne = ground arith
find_items-snoc ip p a ((q, c) ∷ xs) out ne =
    let rest = find_items-snoc ip p a xs (ground arith) ne in ground arith

del_loop_end : (fuel ip : ℕ) (s : Store Neighbor) → del_loop (suc fuel) ip null s ≡ ok tt s
unfolding del_loop
del_loop_end fuel ip s = refl

del_loop-Deleted :
    (fuel ip : ℕ) (s : Store Neighbor) (front xs : List (Ptr × Neighbor))
    → IsList s ipchead null (front ++ xs)
    → find_neighbor_by_u32 ip (items front) ≡ none
    → length xs < fuel
    → (t : Store Neighbor) × (del_loop fuel ip (first_or xs null) s ≡ ok tt t)
      × Deleted ip s (front ++ xs) t
del_loop-Deleted zero ip s front xs l out h = absurd (omega arith)
del_loop-Deleted (suc fuel) ip s front [] l out h = (
  s,
  del_loop_end fuel ip s,
  absent (subst (λ ys. find_neighbor_by_u32 ip (items ys) ≡ none) (sym (append-nil front)) out),
)
del_loop-Deleted (suc fuel) ip s front ((p, a) ∷ xs) l out h =
    let (ne, at, out_l, out_r) = Seg-at s.heap null null p a front xs l.chain in
    elim (ℕ_discrete a.neighbor_ip ip) [
      | yes same ↦
          let (t, run, new) = relink-Relinked s p a front xs l in
          let at' = new.same p out_l out_r ∙ at in
          (
            _,
            del_loop-hit fuel ip s t p _ _ ne at same run at',
            deleted p a front xs refl out same (freed s t p front xs new out_l out_r)
                (write_self t.heap p none)
                (λ c o o' d. write_ne t.heap p none c d ∙ new.same c o o'),
          )
      | no differ ↦
          let snoc = append_snoc front xs (p, a) in
          let (t, run, gone) =
            del_loop-Deleted fuel ip s (front ++ (p, a) ∷ []) xs
              (subst (IsList s ipchead null) (sym snoc) l) (find_items-snoc ip p a front out differ)
              (omega arith) in
          (
            t,
            del_loop-miss fuel ip s p _ ne at differ ∙ run,
            subst (λ ys. Deleted ip s ys t) snoc gone,
          )
    ]

-- On the linked list of the neighbors, one round more than it has neighbors is enough for
-- `del_neighbor`, which ends without a fault. When no neighbor has the address nothing changes;
-- otherwise the first that has it is taken out, from any position, and its memory given back: the
-- head and the links both ways are those of the list of the others, in order, and no other memory
-- changes.
pub del_neighbor-Deleted :
    (s : Store Neighbor) (ip : ℕ) (xs : List (Ptr × Neighbor))
    → IsList s ipchead null xs
    → (t : Store Neighbor) × (del_neighbor (length xs + 1) ip s ≡ ok tt t) × Deleted ip s xs t
unfolding del_neighbor
del_neighbor-Deleted s ip xs l =
    let nothing : find_neighbor_by_u32 ip [] ≡ none = find_nothing ip in
    let (t, run, gone) = del_loop-Deleted (length xs + 1) ip s [] xs l nothing (omega arith) in
    (t, ap (λ p. del_loop (length xs + 1) ip p s) l.next ∙ run, gone)
