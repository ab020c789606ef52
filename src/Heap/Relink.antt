-- ===== src/Heap/Relink.antt =====
-- The four relinkings, on a list whose head need not count its nodes.
use mathlib.Core.Path.{subst}
use mathlib.Core.List.{append-nil}
use opennop.Prelude.{ℕ, ◌≡◌, refl, sym, ◌∙◌, ◌≢◌, some, List, [], ◌∷◌, ◌++◌}
use opennop.Prelude.Run.{ok}
use opennop.Heap.{
  Ptr, null, Node, node, Store, write, update, unlink_only, unlink_first, unlink_last,
  unlink_middle,
}
use opennop.Heap.Points.{write_ne, update_self, update_ne}
use opennop.Heap.Segment.{
  ◌∈◌, ◌∉◌, Seg, first_or, last_or, last_or-mem, last_or-append, Seg-append, Seg-write, ne_of_mem,
  ne_head, mem_head, Disjoint_symm,
}
use opennop.Heap.Link.{IsList, last_node, Seg-retarget}
use opennop.Heap.Cases.{only_lem, first_lem, last_lem, middle_lem, Seg-reprev}
use opennop.Heap.Back.{split}

module _ {A : Type 0} where
  -- The list without the node; the other nodes and heads stay.
  pub record Relinked (s : Store A) (i : ℕ) (xs ys : List (Ptr × A)) (t : Store A) : Type 0 where
    pub list : IsList t i null (xs ++ ys)
    pub same : (c : Ptr) → c ∉ xs → c ∉ ys → t.heap c ≡ s.heap c
    pub others : (j : ℕ) → j ≢ i → t.heads j ≡ s.heads j

  module _ (s : Store A) (i p : ℕ) (a : A) where
    pub unlink_only-Relinked :
        IsList s i null ((p, a) ∷ [])
        → (t : Store A) × (unlink_only i p s ≡ ok tt t) × Relinked s i [] [] t
    unlink_only-Relinked l = (
      record s { heads = update s.heads i (record (s.heads i) { next = null; prev = null }) },
      only_lem s i p _ l.chain.0 l.chain.1 refl refl,
      record {
        list = record { chain = tt; next = simp update_self; tail = tt };
        same = λ c o d. refl;
        others = λ j o. update_ne _ i _ j o;
      },
    )

    pub unlink_first-Relinked :
        (q : Ptr) (c : A) (zs : List (Ptr × A))
        → IsList s i null ((p, a) ∷ (q, c) ∷ zs)
        → (t : Store A) × (unlink_first i p s ≡ ok tt t) × Relinked s i [] ((q, c) ∷ zs) t
    unlink_first-Relinked q c zs l =
        let n : Node A = node (first_or zs null) p c in
        (
          record {
            heads = update s.heads i (record (s.heads i) { next = q });
            heap = write s.heap q (some (record n { prev = null }));
          },
          first_lem s i p _ l.chain.0 l.chain.1 n l.chain.3.0 refl l.chain.3.1,
          record {
            list = record {
              chain = Seg-reprev s.heap p null null q c zs n l.chain.3 l.chain.3.1;
              next = simp update_self;
              tail = simp update_self l.tail;
            };
            same = λ d o x. write_ne s.heap q _ d (ne_head d q c zs x);
            others = λ j o. update_ne _ i _ j o;
          },
        )

    pub unlink_last-Relinked :
        (w : Ptr) (d : A) (ws : List (Ptr × A))
        → IsList s i null ((w, d) ∷ (ws ++ (p, a) ∷ []))
        → (t : Store A) × (unlink_last i p s ≡ ok tt t) × Relinked s i ((w, d) ∷ ws) [] t
    unlink_last-Relinked w d ws l =
        let f = split s.heap p a w d ws [] l.chain in
        let l0 = last_or w ws in
        let (n, last_at, last_ne) = last_node s.heap null p w d ws f.left in
        let h1 = write s.heap l0 (some (record n { next = null })) in
        (
          record { heads = update s.heads i (record (s.heads i) { prev = l0 }); heap = h1 },
          last_lem s i p _ f.ne f.at n refl last_ne last_at,
          record {
            list = record {
              chain =
                  subst (Seg h1 null null) (sym (append-nil ((w, d) ∷ ws)))
                    (Seg-retarget s.heap null p null w d ws n f.left last_at);
              next = simp update_self l.next;
              tail = simp (update_self, append-nil);
            };
            same = λ x o o'.
                write_ne s.heap l0 _ x
                  (λ e. ne_of_mem l0 x ((w, d) ∷ ws) (last_or-mem null w d ws) o (sym e));
            others = λ j o. update_ne _ i _ j o;
          },
        )

    pub unlink_middle-Relinked :
        (w : Ptr) (d : A) (ws : List (Ptr × A)) (q : Ptr) (c : A) (zs : List (Ptr × A))
        → IsList s i null ((w, d) ∷ (ws ++ (p, a) ∷ (q, c) ∷ zs))
        → (t : Store A) × (unlink_middle i p s ≡ ok tt t)
          × Relinked s i ((w, d) ∷ ws) ((q, c) ∷ zs) t
    unlink_middle-Relinked w d ws q c zs l =
        let f = split s.heap p a w d ws ((q, c) ∷ zs) l.chain in
        let l0 = last_or w ws in
        let (n, last_at, last_ne) = last_node s.heap null p w d ws f.left in
        let l0_in : l0 ∈ ((w, d) ∷ ws) = last_or-mem null w d ws in
        let out : l0 ∉ ((q, c) ∷ zs) = f.apart l0 l0_in in
        let ne_l : q ≢ l0 = λ e. ne_head l0 q c zs out (sym e) in
        let m : Node A = node (first_or zs null) p c in
        let h1 = write s.heap l0 (some (record n { next = q })) in
        let h2 = write h1 q (some (record m { prev = l0 })) in
        (
          record s { heap = h2 },
          middle_lem s i p _ f.ne f.at n m f.right.0 last_ne ne_l last_at f.right.1,
          record {
            list = record {
              chain =
                  Seg-append h2 null null ((w, d) ∷ ws) ((q, c) ∷ zs)
                    (Seg-write h1 null q ((w, d) ∷ ws) q _
                      (Seg-retarget s.heap null p q w d ws n f.left last_at)
                      (Disjoint_symm ((w, d) ∷ ws) ((q, c) ∷ zs) f.apart q (mem_head q c zs)))
                    (Seg-reprev h1 p l0 null q c zs m
                      (Seg-write s.heap p null ((q, c) ∷ zs) l0 _ f.right out)
                      (write_ne s.heap l0 _ q ne_l ∙ f.right.1))
                    f.apart;
              next = l.next;
              tail = simp (l.tail, last_or-append);
            };
            same = λ x o o'.
                write_ne h1 q _ x (ne_head x q c zs o')
                ∙ write_ne s.heap l0 _ x (λ e. ne_of_mem l0 x ((w, d) ∷ ws) l0_in o (sym e));
            others = λ j o. refl;
          },
        )
