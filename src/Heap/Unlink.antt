-- ===== src/Heap/Unlink.antt =====
-- Taking a node out of a list.
use opennop.Prelude.{ℕ, ◌+◌, ◌^◌, ◌<◌, ◌≡◌, ◌≢◌, some, List, [], ◌∷◌, ◌++◌, arith, length}
use opennop.Prelude.Run.{ok}
use opennop.Heap.{Ptr, null, node, Heap, Store, unlink}
use opennop.Heap.Segment.{
  ◌∉◌, Seg, first_or, last_or, Seg-right, Seg-Disjoint, mem_head, Disjoint_symm,
}
use opennop.Heap.Link.{IsCounted}
pub use opennop.Heap.Cases.{Seg-reprev}
pub use opennop.Heap.Front.{Unlinked}
use opennop.Heap.Front.{unlink-only, unlink-first}
use opennop.Heap.Back.{unlink-last, unlink-middle}

module _ {A : Type 0} where
  -- A counted list with `p` in it loses exactly `p`, from any position; no other node's place and no
  -- other list changes.
  pub unlink_lem :
      (s : Store A) (i : ℕ) (p : Ptr) (a : A) (xs ys : List (Ptr × A))
      → IsCounted s i null (xs ++ (p, a) ∷ ys)
      → length xs + length ys + 1 < 2 ^ 32
      → (t : Store A) × (unlink i p s ≡ ok tt t) × Unlinked s i p xs ys t
  unlink_lem s i p a [] [] l fits = unlink-only s i p a l
  unlink_lem s i p a [] ((q, c) ∷ zs) l fits = unlink-first s i p a q c zs l (omega arith)
  unlink_lem s i p a ((w, d) ∷ ws) [] l fits = unlink-last s i p a w d ws l (omega arith)
  unlink_lem s i p a ((w, d) ∷ ws) ((q, c) ∷ zs) l fits =
      unlink-middle s i p a w d ws q c zs l (omega arith)

  -- The node in the middle of a segment.
  pub Seg-at :
      (h : Heap A) (b e p : Ptr) (a : A) (xs ys : List (Ptr × A))
      → Seg h b e (xs ++ (p, a) ∷ ys)
      → (p ≢ null) × (h p ≡ some (node (first_or ys e) (last_or b xs) a)) × (p ∉ xs) × (p ∉ ys)
  Seg-at h b e p a xs ys s =
      let right = Seg-right h b e xs ((p, a) ∷ ys) s in
      (
        right.0,
        right.1,
        Disjoint_symm xs ((p, a) ∷ ys) (Seg-Disjoint h b e xs ((p, a) ∷ ys) s) p (mem_head p a ys),
        right.2,
      )
