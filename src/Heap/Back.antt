-- ===== src/Heap/Back.antt =====
-- Taking a later node out of a list.
use mathlib.Core.Path.{subst}
use mathlib.Core.List.{append-nil}
use opennop.Prelude.{
  ℕ, ◌+◌, ◌^◌, ◌<◌, ◌≡◌, refl, sym, ◌∙◌, ◌≢◌, inl, inr, some, List, [], ◌∷◌, ◌++◌, arith, length,
  length-append,
}
use opennop.Prelude.Run.{ok}
use opennop.Heap.{Ptr, null, Node, node, Heap, Store, write, update, unlink}
use opennop.Heap.Points.{write_ne, update_self, update_ne}
use opennop.Heap.Segment.{
  ◌∈◌, ◌∉◌, Disjoint, Seg, first_or, last_or, last_or-mem, last_or-append, Seg-append, Seg-write,
  Seg-left, Seg-right, Seg-Disjoint, ne_of_mem, ne_head, mem_head, Disjoint_symm,
}
use opennop.Heap.Link.{IsCounted, last_node, Seg-retarget}
use opennop.Heap.Cases.{
  counted_down, only-skip, first-skip, last-skip, middle-skip, last_lem, middle_lem, Seg-reprev,
}
use opennop.Heap.Front.{Unlinked}

module _ {A : Type 0} where
  -- The facts that a split of a segment at `p` gives.
  pub record Split (h : Heap A) (p : Ptr) (a : A) (w : Ptr) (d : A) (ws ys : List (Ptr × A))
      : Type 0 where
    pub at : h p ≡ some (node (first_or ys null) (last_or w ws) a)
    pub ne : p ≢ null
    pub left : Seg h null p ((w, d) ∷ ws)
    pub right : Seg h p null ys
    pub out_left : p ∉ ((w, d) ∷ ws)
    pub out_right : p ∉ ys
    pub apart : Disjoint ((w, d) ∷ ws) ys

  pub split :
      (h : Heap A) (p : Ptr) (a : A) (w : Ptr) (d : A) (ws ys : List (Ptr × A))
      → Seg h null null ((w, d) ∷ (ws ++ (p, a) ∷ ys))
      → Split h p a w d ws ys
  split h p a w d ws ys s =
      let tail = Seg-right h null null ((w, d) ∷ ws) ((p, a) ∷ ys) s in
      let apart : Disjoint ((w, d) ∷ ws) ((p, a) ∷ ys) =
        Seg-Disjoint h null null ((w, d) ∷ ws) ((p, a) ∷ ys) s in
      record {
        at = tail.1;
        ne = tail.0;
        left = Seg-left h null null ((w, d) ∷ ws) ((p, a) ∷ ys) s;
        right = tail.3;
        out_left = ground (arith, apart p);
        out_right = tail.2;
        apart = λ x i. ground (arith, apart x i);
      }

  module _ (s : Store A) (i p l0 : Ptr) (a : A) (n : Node A) (ne : p ≢ null) (last_ne : l0 ≢ null)
      (last_at : s.heap l0 ≡ some n) (apart : p ≢ l0) where
    unlink-last_run :
        s.heap p ≡ some (node null l0 a)
        → unlink i p s
          ≡ ok tt (record {
            heads = counted_down (update s.heads i (record (s.heads i) { prev = l0 })) i;
            heap = write s.heap l0 (some (record n { next = null }));
          })
    unfolding unlink
    unlink-last_run at =
        let s1 : Store A = record {
          heads = update s.heads i (record (s.heads i) { prev = l0 });
          heap = write s.heap l0 (some (record n { next = null }));
        } in
        let at1 = write_ne s.heap l0 _ p apart ∙ at in
        rw (
          only-skip s i p _ ne at (inr last_ne),
          first-skip s i p _ ne at (inl refl),
          last_lem s i p _ ne at n refl last_ne last_at,
          middle-skip s1 i p _ ne at1 (inl refl),
        )

    unlink-middle_run :
        (q : Ptr) (m : Node A)
        → q ≢ null
        → s.heap q ≡ some m
        → q ≢ l0
        → p ≢ q
        → s.heap p ≡ some (node q l0 a)
        → unlink i p s
          ≡ ok tt (record {
            heads = counted_down s.heads i;
            heap =
                write
                  (write s.heap l0 (some (record n { next = q })))
                  q
                  (some (record m { prev = l0 }));
          })
    unfolding unlink
    unlink-middle_run q m ne_q next_at ne_l ne_p at = rw (
      only-skip s i p _ ne at (inl ne_q),
      first-skip s i p _ ne at (inr last_ne),
      last-skip s i p _ ne at (inl ne_q),
      middle_lem s i p _ ne at n m ne_q last_ne ne_l last_at next_at,
    )

  module _ (s : Store A) (i : ℕ) (p : Ptr) (a : A) (w : Ptr) (d : A) (ws : List (Ptr × A)) where
    pub unlink-last :
        IsCounted s i null ((w, d) ∷ (ws ++ (p, a) ∷ []))
        → length ws + 2 < 2 ^ 32
        → (t : Store A) × (unlink i p s ≡ ok tt t) × Unlinked s i p ((w, d) ∷ ws) [] t
    unfolding unlink
    unlink-last l fits =
        let f = split s.heap p a w d ws [] l.chain in
        let l0 = last_or w ws in
        let (n, last_at, last_ne) = last_node s.heap null p w d ws f.left in
        let apart : l0 ≢ p = ne_of_mem l0 p ((w, d) ∷ ws) (last_or-mem null w d ws) f.out_left in
        let h1 = write s.heap l0 (some (record n { next = null })) in
        (
          record {
            heads = counted_down (update s.heads i (record (s.heads i) { prev = l0 })) i;
            heap = h1;
          },
          unlink-last_run s i p l0 a n f.ne last_ne last_at (λ e. apart (sym e)) f.at,
          record {
            list = record {
              list = record {
                chain =
                    subst (Seg h1 null null) (sym (append-nil ((w, d) ∷ ws)))
                      (Seg-retarget s.heap null p null w d ws n f.left last_at);
                next = simp update_self l.next;
                tail = simp (update_self, append-nil);
              };
              count =
                  simp (update_self, l.count, append-nil)
                    (omega (arith, length-append ws ((p, a) ∷ [])));
            };
            same = λ x o o'.
                write_ne s.heap l0 _ x
                  (λ e. ne_of_mem l0 x ((w, d) ∷ ws) (last_or-mem null w d ws) o (sym e));
            others = λ j o. update_ne _ i _ j o ∙ update_ne _ i _ j o;
          },
        )

    pub unlink-middle :
        (q : Ptr) (c : A) (zs : List (Ptr × A))
        → IsCounted s i null ((w, d) ∷ (ws ++ (p, a) ∷ (q, c) ∷ zs))
        → length ws + length zs + 3 < 2 ^ 32
        → (t : Store A) × (unlink i p s ≡ ok tt t) × Unlinked s i p ((w, d) ∷ ws) ((q, c) ∷ zs) t
    unfolding unlink
    unlink-middle q c zs l fits =
        let f = split s.heap p a w d ws ((q, c) ∷ zs) l.chain in
        let l0 = last_or w ws in
        let (n, last_at, last_ne) = last_node s.heap null p w d ws f.left in
        let l0_in : l0 ∈ ((w, d) ∷ ws) = last_or-mem null w d ws in
        let apart : l0 ≢ p = ne_of_mem l0 p ((w, d) ∷ ws) l0_in f.out_left in
        let out : l0 ∉ ((q, c) ∷ zs) = f.apart l0 l0_in in
        let ne_q : p ≢ q = ne_head p q c zs f.out_right in
        let ne_l : q ≢ l0 = λ e. ne_head l0 q c zs out (sym e) in
        let m : Node A = node (first_or zs null) p c in
        let h1 = write s.heap l0 (some (record n { next = q })) in
        let h2 = write h1 q (some (record m { prev = l0 })) in
        (
          record { heads = counted_down s.heads i; heap = h2 },
          unlink-middle_run s i p l0 a n f.ne last_ne last_at (λ e. apart (sym e)) q m f.right.0
              f.right.1 ne_l ne_q f.at,
          record {
            list = record {
              list = record {
                chain =
                    Seg-append h2 null null ((w, d) ∷ ws) ((q, c) ∷ zs)
                      (Seg-write h1 null q ((w, d) ∷ ws) q _
                        (Seg-retarget s.heap null p q w d ws n f.left last_at)
                        (Disjoint_symm ((w, d) ∷ ws) ((q, c) ∷ zs) f.apart q (mem_head q c zs)))
                      (Seg-reprev h1 p l0 null q c zs m
                        (Seg-write s.heap p null ((q, c) ∷ zs) l0 _ f.right out)
                        (write_ne s.heap l0 _ q ne_l ∙ f.right.1))
                      f.apart;
                next = simp update_self l.next;
                tail = simp (update_self, l.tail, last_or-append);
              };
              count =
                  simp (update_self, l.count)
                    (omega (
                      arith,
                      length-append ws ((p, a) ∷ (q, c) ∷ zs),
                      length-append ws ((q, c) ∷ zs),
                    ));
            };
            same = λ x o o'.
                write_ne h1 q _ x (ne_head x q c zs o')
                ∙ write_ne s.heap l0 _ x (λ e. ne_of_mem l0 x ((w, d) ∷ ws) l0_in o (sym e));
            others = λ j o. update_ne _ i _ j o;
          },
        )
