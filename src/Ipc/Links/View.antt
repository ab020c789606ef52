-- ===== src/Ipc/Links/View.antt =====
-- The functions on the links against those of Ipc.Neighbors on the plain list.
use opennop.Prelude.{
  ℕ, ◌+◌, ◌≡◌, refl, sym, ap, ◌∙◌, ◌≢◌, inl, inr, true, false, Option, none, List, [], ◌∷◌, ◌++◌,
  arith, ◌==◌, Bool-cases, length,
}
use opennop.Prelude.Run.{ok}
use opennop.Heap.{Ptr, null, Store}
use opennop.Heap.Segment.{◌∉◌}
use opennop.Heap.Link.{IsList}
use opennop.Ipc.{Neighbor, find_neighbor_by_u32}
use opennop.Ipc.Neighbors.{with_key, allocate_neighbor, with_neighbor, without_neighbor}
use opennop.Ipc.Links.{ipchead, overflows, add_update_neighbor, del_neighbor}
use opennop.Ipc.Links.Removed.{items, Deleted, absent, deleted, del_neighbor-Deleted}
use opennop.Ipc.Links.Added.{Added, appended, updated, add_update_neighbor-Added}

without_absent :
    (ip : ℕ) (ns : List Neighbor) → find_neighbor_by_u32 ip ns ≡ none → without_neighbor ip ns ≡ ns
unfolding without_neighbor find_neighbor_by_u32
without_absent ip [] e = refl
without_absent ip (n ∷ ns) e = elim (Bool-cases (n.neighbor_ip == ip)) [
  | inl same ↦ absurd (ground arith)
  | inr differ ↦ rw differ (ap (◌∷◌ n) (without_absent ip ns (ground arith)))
]

without_items :
    (ip p : ℕ) (a : Neighbor) (ys zs : List (Ptr × Neighbor))
    → find_neighbor_by_u32 ip (items ys) ≡ none
    → a.neighbor_ip ≡ ip
    → without_neighbor ip (items (ys ++ (p, a) ∷ zs)) ≡ items (ys ++ zs)
unfolding without_neighbor find_neighbor_by_u32
without_items ip p a [] zs e same = ground arith
without_items ip p a ((q, c) ∷ ys) zs e same = elim (Bool-cases (c.neighbor_ip == ip)) [
  | inl hit ↦ absurd (ground arith)
  | inr differ ↦ rw differ (ap (◌∷◌ c) (without_items ip p a ys zs (ground arith) same))
]

module _ (raw : Neighbor) (now ip : ℕ) (key : Option (List ℕ)) where
  with_absent :
      (p : Ptr) (xs : List (Ptr × Neighbor))
      → find_neighbor_by_u32 ip (items xs) ≡ none
      → with_neighbor raw now ip key (items xs)
        ≡ items (xs ++ (p, allocate_neighbor raw now ip key) ∷ [])
  unfolding with_neighbor find_neighbor_by_u32
  with_absent p [] e = refl
  with_absent p ((q, c) ∷ xs) e = elim (Bool-cases (c.neighbor_ip == ip)) [
    | inl hit ↦ absurd (ground arith)
    | inr differ ↦ rw differ (ap (◌∷◌ c) (with_absent p xs (ground arith)))
  ]

  with_items :
      (p : Ptr) (a : Neighbor) (ys zs : List (Ptr × Neighbor))
      → find_neighbor_by_u32 ip (items ys) ≡ none
      → a.neighbor_ip ≡ ip
      → with_neighbor raw now ip key (items (ys ++ (p, a) ∷ zs))
        ≡ items (ys ++ (p, with_key key a) ∷ zs)
  unfolding with_neighbor find_neighbor_by_u32
  with_items p a [] zs e same = let hit : (a.neighbor_ip == ip) ≡ true = ground arith in rw hit refl
  with_items p a ((q, c) ∷ ys) zs e same = elim (Bool-cases (c.neighbor_ip == ip)) [
    | inl hit ↦ absurd (ground arith)
    | inr differ ↦ rw differ (ap (◌∷◌ c) (with_items p a ys zs (ground arith) same))
  ]

-- The list that a store's links make holds these neighbors.
abbrev pub Holds : Store Neighbor → List Neighbor → Type 0
Holds t ns = (ys : List (Ptr × Neighbor)) × IsList t ipchead null ys × (items ys ≡ ns)

Deleted-Holds :
    (ip : ℕ) (s t : Store Neighbor) (xs : List (Ptr × Neighbor))
    → IsList s ipchead null xs
    → Deleted ip s xs t
    → Holds t (without_neighbor ip (items xs))
Deleted-Holds ip s _ xs l (absent e) = (xs, l, sym (without_absent ip (items xs) e))
Deleted-Holds ip s t xs l (deleted p a ys zs split out same list freed kept) = (
  ys ++ zs,
  list,
  sym (ap (λ v. without_neighbor ip (items v)) split ∙ without_items ip p a ys zs out same),
)

Added-Holds :
    (raw : Neighbor) (fresh : Ptr) (now ip : ℕ) (key : Option (List ℕ)) (s t : Store Neighbor)
    (xs : List (Ptr × Neighbor))
    → Added raw fresh now ip key s xs t
    → Holds t (with_neighbor raw now ip key (items xs))
Added-Holds raw fresh now ip key s t xs (appended out list kept) =
    (_, list, sym (with_absent raw now ip key fresh xs out))
Added-Holds raw fresh now ip key s t xs (updated p a ys zs split out same list kept) = (
  _,
  list,
  sym (
      ap (λ v. with_neighbor raw now ip key (items v)) split
      ∙ with_items raw now ip key p a ys zs out same),
)

-- `add_update_neighbor`, with a key of at most 65 bytes and an address from `malloc` outside the
-- list, and `del_neighbor` do on the links what `with_neighbor` and `without_neighbor` do on the list
-- of the neighbors.
pub links_refine :
    (raw : Neighbor) (fresh : Ptr) (now ip : ℕ) (key : Option (List ℕ)) (s : Store Neighbor)
    (xs : List (Ptr × Neighbor))
    → IsList s ipchead null xs
    → overflows key ≡ false
    → fresh ≢ null
    → fresh ∉ xs
    → ((t : Store Neighbor) × (add_update_neighbor raw fresh now (length xs + 1) ip key s ≡ ok tt t)
        × Holds t (with_neighbor raw now ip key (items xs)))
      × ((t : Store Neighbor) × (del_neighbor (length xs + 1) ip s ≡ ok tt t)
          × Holds t (without_neighbor ip (items xs)))
links_refine raw fresh now ip key s xs l fits ne new =
    let (t, run, added) = add_update_neighbor-Added raw fresh now ip key s xs l fits ne new in
    let (u, run', gone) = del_neighbor-Deleted s ip xs l in
    (
      (t, run, Added-Holds raw fresh now ip key s t xs added),
      (u, run', Deleted-Holds ip s u xs l gone),
    )
