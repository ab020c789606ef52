-- ===== src/Ipc/Links/Added.antt =====
-- add_update_neighbor on the links against the list with the neighbor.
use mathlib.Core.Path.{subst}
use mathlib.Core.List.{append-nil}
use native.Mathlib.Decide.{ℕ_discrete}
use opennop.Prelude.{
  ℕ, zero, suc, ◌+◌, ◌<◌, ◌≡◌, refl, sym, ap, ◌∙◌, ◌≢◌, false, Option, none, some, List, [], ◌∷◌,
  ◌++◌, arith, length, append_snoc,
}
use opennop.Prelude.Run.{ok}
use opennop.Heap.{Ptr, null, Node, node, Store, write, update}
use opennop.Heap.Points.{
  load-ok, set_item-ok, set_next-ok, set_prev-ok, write_self, write_ne, update_self,
}
use opennop.Heap.Segment.{
  ◌∉◌, Seg, Seg-append, Seg-write, first_or, last_or, last_or-mem, last_or-append, ne_of_mem,
}
use opennop.Heap.Link.{IsList, last_node, Seg-retarget}
use opennop.Heap.Unlink.{Seg-at}
use opennop.Heap.Replace.{Seg-replace, first_or-replace, TailAt-replace}
use opennop.Ipc.{Neighbor, find_neighbor_by_u32}
use opennop.Ipc.Neighbors.{with_key, allocate_neighbor}
use opennop.Ipc.Links.{
  ipchead, overflows, set_neighbor_key, link_neighbor, new_neighbor, add_loop, add_update_neighbor,
}
use opennop.Ipc.Links.Removed.{items, find_items-snoc, find_nothing}

-- The node at `p` stands at the end of the list, and no other memory changes.
record Linked (s : Store Neighbor) (p : Ptr) (a : Neighbor) (xs : List (Ptr × Neighbor))
    (t : Store Neighbor) : Type 0 where
  list : IsList t ipchead null (xs ++ (p, a) ∷ [])
  same : (c : Ptr) → c ∉ xs → c ≢ p → t.heap c ≡ s.heap c

link_neighbor-Linked :
    (s : Store Neighbor) (p : Ptr) (a : Neighbor) (xs : List (Ptr × Neighbor))
    → IsList s ipchead null xs
    → p ≢ null
    → s.heap p ≡ some (node null null a)
    → p ∉ xs
    → (t : Store Neighbor) × (link_neighbor p s ≡ ok tt t) × Linked s p a xs t
unfolding link_neighbor
link_neighbor-Linked s p a [] l ne at out = (
  record s { heads = update s.heads ipchead (record (s.heads ipchead) { next = p; prev = p }) },
  rw l.next refl,
  record {
    list = record { chain = (ne, at, refl, tt); next = simp update_self; tail = simp update_self };
    same = λ c o d. refl;
  },
)
link_neighbor-Linked s p a ((q, c) ∷ xs) l ne at out =
    let l0 = last_or q xs in
    let (n, last_at, last_ne) = last_node s.heap null null q c xs l.chain in
    let apart : l0 ≢ p = ne_of_mem l0 p ((q, c) ∷ xs) (last_or-mem null q c xs) out in
    let ne_q : q ≢ null = l.chain.0 in
    let h1 = write s.heap p (some (node null l0 a)) in
    let h2 = write h1 l0 (some (record n { next = p })) in
    let s1 : Store Neighbor = record s { heap = h1 } in
    let seg1 : Seg h1 null null ((q, c) ∷ xs) =
      Seg-write s.heap null null ((q, c) ∷ xs) p _ l.chain out in
    let last_at1 = write_ne s.heap p _ l0 apart ∙ last_at in
    (
      record { heap = h2; heads = update s.heads ipchead (record (s.heads ipchead) { prev = p }) },
      ground (
        arith,
        l.next,
        l.tail,
        set_prev-ok p s (node null null a) ne at l0,
        set_next-ok l0 s1 n last_ne last_at1 p,
      ),
      record {
        list = record {
          chain =
              Seg-append h2 null null ((q, c) ∷ xs) ((p, a) ∷ [])
                (Seg-retarget h1 null null p q c xs n seg1 last_at1)
                (ne, write_ne h1 l0 _ p (λ e. apart (sym e)) ∙ write_self s.heap p _, refl, tt)
                (λ d i. ground (arith, ne_of_mem d p ((q, c) ∷ xs)));
          next = simp update_self l.next;
          tail = simp update_self (sym (last_or-append q xs ((p, a) ∷ [])));
        };
        same = λ d o o'.
            write_ne h1 l0 _ d
              (λ e. ne_of_mem l0 d ((q, c) ∷ xs) (last_or-mem null q c xs) o (sym e))
            ∙ write_ne s.heap p _ d o';
      },
    )

module _ (raw : Neighbor) (fresh : Ptr) (now ip : ℕ) (key : Option (List ℕ)) where
  -- What `add_update_neighbor` leaves: `s` is the store before, and `xs` its list.
  pub data Added (s : Store Neighbor) (xs : List (Ptr × Neighbor)) : Store Neighbor → Type 0 where
    appended :
        {t : Store Neighbor}
        → find_neighbor_by_u32 ip (items xs) ≡ none
        → IsList t ipchead null (xs ++ (fresh, allocate_neighbor raw now ip key) ∷ [])
        → ((c : Ptr) → c ∉ xs → c ≢ fresh → t.heap c ≡ s.heap c)
        → Added s xs t
    updated :
        {t : Store Neighbor} (p : Ptr) (a : Neighbor) (ys zs : List (Ptr × Neighbor))
        → xs ≡ ys ++ (p, a) ∷ zs
        → find_neighbor_by_u32 ip (items ys) ≡ none
        → a.neighbor_ip ≡ ip
        → IsList t ipchead null (ys ++ (p, with_key key a) ∷ zs)
        → ((c : Ptr) → c ≢ p → t.heap c ≡ s.heap c)
        → Added s xs t

  add_loop-hit :
      (fuel : ℕ) (s : Store Neighbor) (p : Ptr) (n : Node Neighbor)
      → p ≢ null
      → s.heap p ≡ some n
      → n.item.neighbor_ip ≡ ip
      → overflows key ≡ false
      → add_loop raw fresh now (suc fuel) ip key p s
        ≡ ok tt
            (record s { heap = write s.heap p (some (record n { item = with_key key n.item })) })
  unfolding add_loop set_neighbor_key
  add_loop-hit fuel s p n ne at same fits =
      ground (arith, load-ok p s n ne at, fits, set_item-ok p s n ne at (with_key key n.item))

  add_loop-miss :
      (fuel : ℕ) (s : Store Neighbor) (p : Ptr) (n : Node Neighbor)
      → p ≢ null
      → s.heap p ≡ some n
      → n.item.neighbor_ip ≢ ip
      → add_loop raw fresh now (suc fuel) ip key p s ≡ add_loop raw fresh now fuel ip key n.next s
  unfolding add_loop
  add_loop-miss fuel s p n ne at differ = ground (arith, load-ok p s n ne at)

  add_loop_end :
      (fuel : ℕ) (s t : Store Neighbor)
      → overflows key ≡ false
      → link_neighbor fresh (record s {
        heap = write s.heap fresh (some (node null null (allocate_neighbor raw now ip key)));
      })
        ≡ ok tt t
      → add_loop raw fresh now (suc fuel) ip key null s ≡ ok tt t
  unfolding add_loop new_neighbor
  add_loop_end fuel s t fits run = rw fits run

  add_loop-Added :
      (fuel : ℕ) (s : Store Neighbor) (front xs : List (Ptr × Neighbor))
      → IsList s ipchead null (front ++ xs)
      → find_neighbor_by_u32 ip (items front) ≡ none
      → overflows key ≡ false
      → fresh ≢ null
      → fresh ∉ (front ++ xs)
      → length xs < fuel
      → (t : Store Neighbor) × (add_loop raw fresh now fuel ip key (first_or xs null) s ≡ ok tt t)
        × Added s (front ++ xs) t
  add_loop-Added zero s front xs l out fits ne new h = absurd (omega arith)
  add_loop-Added (suc fuel) s front [] l out fits ne new h =
      let a = allocate_neighbor raw now ip key in
      let s1 : Store Neighbor = record s { heap = write s.heap fresh (some (node null null a)) } in
      let l1 : IsList s1 ipchead null (front ++ []) = record {
        chain = Seg-write s.heap null null (front ++ []) fresh _ l.chain new;
        next = l.next;
        tail = l.tail;
      } in
      let (t, run, linked) =
        link_neighbor-Linked s1 fresh a (front ++ []) l1 ne (write_self s.heap fresh _) new in
      (
        t,
        add_loop_end fuel s t fits run,
        appended
            (subst (λ ys. find_neighbor_by_u32 ip (items ys) ≡ none) (sym (append-nil front)) out)
            linked.list (λ c o d. linked.same c o d ∙ write_ne s.heap fresh _ c d),
      )
  add_loop-Added (suc fuel) s front ((p, a) ∷ xs) l out fits ne new h =
      let (ne_p, at, out_l, out_r) = Seg-at s.heap null null p a front xs l.chain in
      elim (ℕ_discrete a.neighbor_ip ip) [
        | yes same ↦ (
          _,
          add_loop-hit fuel s p _ ne_p at same fits,
          updated p a front xs refl out same
              (record {
                chain =
                    Seg-replace p a (with_key key a) s.heap null null front xs _ l.chain at out_l;
                next = l.next ∙ sym (first_or-replace p a (with_key key a) front xs null);
                tail = TailAt-replace p a (with_key key a) _ front xs l.tail;
              })
              (λ c d. write_ne s.heap p _ c d),
        )
        | no differ ↦
            let snoc = append_snoc front xs (p, a) in
            let (t, run, added) =
              add_loop-Added fuel s (front ++ (p, a) ∷ []) xs
                (subst (IsList s ipchead null) (sym snoc) l)
                (find_items-snoc ip p a front out differ) fits ne
                (subst (λ ys. fresh ∉ ys) (sym snoc) new) (omega arith) in
            (
              t,
              add_loop-miss fuel s p _ ne_p at differ ∙ run,
              subst (λ ys. Added s ys t) snoc added,
            )
      ]

  pub add_update_neighbor-Added :
      (s : Store Neighbor) (xs : List (Ptr × Neighbor))
      → IsList s ipchead null xs
      → overflows key ≡ false
      → fresh ≢ null
      → fresh ∉ xs
      → (t : Store Neighbor) × (add_update_neighbor raw fresh now (length xs + 1) ip key s
          ≡ ok tt t)
        × Added s xs t
  unfolding add_update_neighbor
  add_update_neighbor-Added s xs l fits ne new =
      let (t, run, added) =
        add_loop-Added (length xs + 1) s [] xs l (find_nothing ip) fits ne new (omega arith) in
      (t, ap (λ p. add_loop raw fresh now (length xs + 1) ip key p s) l.next ∙ run, added)
