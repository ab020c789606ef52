-- ===== src/Heap/Front.antt =====
-- Taking the first node out of a list.
use opennop.Prelude.{
  ℕ, ◌+◌, ◌-◌, ◌%◌, ◌^◌, ◌<◌, ◌≡◌, refl, ◌∙◌, ◌≢◌, inl, inr, some, List, [], ◌∷◌, ◌++◌, arith,
  length,
}
use opennop.Prelude.Run.{ok}
use opennop.Heap.{Ptr, null, Node, node, Head, Store, write, update, unlink}
use opennop.Heap.Points.{write_ne, update_self, update_ne}
use opennop.Heap.Segment.{◌∉◌, first_or, ne_head}
use opennop.Heap.Link.{IsCounted}
use opennop.Heap.Cases.{
  only-skip, first-skip, last-skip, middle-skip, only_lem, first_lem, Seg-reprev,
}

module _ {A : Type 0} where
  -- What taking out the node `p` leaves behind.
  pub record Unlinked (s : Store A) (i : ℕ) (p : Ptr) (xs ys : List (Ptr × A)) (t : Store A)
      : Type 0 where
    pub list : IsCounted t i null (xs ++ ys)
    pub same : (c : Ptr) → c ∉ xs → c ∉ ys → t.heap c ≡ s.heap c
    pub others : (j : ℕ) → j ≢ i → t.heads j ≡ s.heads j

  module _ (s : Store A) (i : ℕ) (p : Ptr) (a : A) where
    pub unlink-only :
        IsCounted s i null ((p, a) ∷ [])
        → (t : Store A) × (unlink i p s ≡ ok tt t) × Unlinked s i p [] [] t
    unfolding unlink
    unlink-only l =
        let hd : Head = record (s.heads i) { next = null; prev = null } in
        let up = update s.heads i hd in
        let s1 : Store A = record s { heads = up } in
        let at = l.chain.1 in
        (
          record s {
            heads = update up i (record (up i) { qlen = ((up i).qlen + 2 ^ 32 - 1) % 2 ^ 32 });
          },
          rw (
            only_lem s i p _ l.chain.0 at refl refl,
            first-skip s1 i p _ l.chain.0 at (inl refl),
            last-skip s1 i p _ l.chain.0 at (inr refl),
            middle-skip s1 i p _ l.chain.0 at (inl refl),
          ),
          record {
            list = record {
              list = record { chain = tt; next = simp update_self; tail = tt };
              count = simp (update_self, l.count);
            };
            same = λ c o d. refl;
            others = λ j o. update_ne _ i _ j o ∙ update_ne _ i _ j o;
          },
        )

    pub unlink-first :
        (q : Ptr) (c : A) (zs : List (Ptr × A))
        → IsCounted s i null ((p, a) ∷ (q, c) ∷ zs)
        → length zs + 2 < 2 ^ 32
        → (t : Store A) × (unlink i p s ≡ ok tt t) × Unlinked s i p [] ((q, c) ∷ zs) t
    unfolding unlink
    unlink-first q c zs l fits =
        let n : Node A = node (first_or zs null) p c in
        let h1 = write s.heap q (some (record n { prev = null })) in
        let hd : Head = record (s.heads i) { next = q } in
        let up = update s.heads i hd in
        let s1 : Store A = record { heads = up; heap = h1 } in
        let at = l.chain.1 in
        let ne : p ≢ q = ground arith in
        let at1 : h1 p ≡ some (node q null a) = write_ne s.heap q _ p ne ∙ at in
        (
          record {
            heads = update up i (record (up i) { qlen = ((up i).qlen + 2 ^ 32 - 1) % 2 ^ 32 });
            heap = h1;
          },
          rw (
            only-skip s i p _ l.chain.0 at (inl l.chain.3.0),
            first_lem s i p _ l.chain.0 at n l.chain.3.0 refl l.chain.3.1,
            last-skip s1 i p _ l.chain.0 at1 (inl l.chain.3.0),
            middle-skip s1 i p _ l.chain.0 at1 (inr refl),
          ),
          record {
            list = record {
              list = record {
                chain = Seg-reprev s.heap p null null q c zs n l.chain.3 l.chain.3.1;
                next = simp update_self;
                tail = simp update_self l.tail;
              };
              count = simp (update_self, l.count) (omega arith);
            };
            same = λ d o x. write_ne s.heap q _ d (ne_head d q c zs x);
            others = λ j o. update_ne _ i _ j o ∙ update_ne _ i _ j o;
          },
        )
