-- ===== src/Heap/Replace.antt =====
-- Assigning to the fields of a node: the list keeps its shape.
use opennop.Prelude.{ℕ, suc, ◌≡◌, refl, sym, ap, ◌∙◌, ◌≢◌, some, List, [], ◌∷◌, ◌++◌, arith, length}
use opennop.Prelude.Run.{ok}
use opennop.Heap.{Ptr, null, Node, node, Heap, Store, write, set_item}
use opennop.Heap.Points.{write_self, write_ne, set_item-ok}
use opennop.Heap.Segment.{◌∉◌, has, Seg, first_or, last_or, Seg-write}
use opennop.Heap.Link.{TailAt, IsCounted}
use opennop.Heap.Unlink.{Seg-at}

module _ {A : Type 0} (p : Ptr) (a a' : A) where
  has-replace :
      (c : Ptr) (xs ys : List (Ptr × A)) → has c (xs ++ (p, a') ∷ ys) ≡ has c (xs ++ (p, a) ∷ ys)
  has-replace c [] ys = refl
  has-replace c ((q, d) ∷ xs) ys = rw (has-replace c xs ys)

  pub first_or-replace :
      (xs ys : List (Ptr × A)) (e : Ptr)
      → first_or (xs ++ (p, a') ∷ ys) e ≡ first_or (xs ++ (p, a) ∷ ys) e
  first_or-replace [] ys e = refl
  first_or-replace (x ∷ xs) ys e = refl

  last_or-replace :
      (b : Ptr) (xs ys : List (Ptr × A))
      → last_or b (xs ++ (p, a') ∷ ys) ≡ last_or b (xs ++ (p, a) ∷ ys)
  last_or-replace b [] ys = refl
  last_or-replace b ((q, d) ∷ xs) ys = last_or-replace q xs ys

  pub TailAt-replace :
      (q : Ptr) (xs ys : List (Ptr × A))
      → TailAt q (xs ++ (p, a) ∷ ys)
      → TailAt q (xs ++ (p, a') ∷ ys)
  TailAt-replace q [] ys e = e
  TailAt-replace q ((r, d) ∷ xs) ys e = e ∙ sym (last_or-replace r xs ys)

  length-replace :
      (xs ys : List (Ptr × A)) → length (xs ++ (p, a') ∷ ys) ≡ length (xs ++ (p, a) ∷ ys)
  length-replace [] ys = refl
  length-replace (x ∷ xs) ys = ap suc (length-replace xs ys)

  pub Seg-replace :
      (h : Heap A) (b e : Ptr) (xs ys : List (Ptr × A)) (n : Node A)
      → Seg h b e (xs ++ (p, a) ∷ ys)
      → h p ≡ some n
      → p ∉ xs
      → Seg (write h p (some (record n { item = a' }))) b e (xs ++ (p, a') ∷ ys)
  Seg-replace h b e [] ys n s at out =
      let same : n ≡ node (first_or ys e) b a = cc in
      (s.0, rw (write_self, same), s.2, Seg-write h p e ys p _ s.3 s.2)
  Seg-replace h b e ((q, d) ∷ xs) ys n s at out =
      let ne : q ≢ p = ground arith in
      (
        s.0,
        rw (write_ne h p _ q ne, first_or-replace xs ys e) s.1,
        rw (has-replace q xs ys) s.2,
        Seg-replace h q e xs ys n s.3 at (ground arith),
      )

  -- What an assignment to the item of `p` leaves behind.
  pub record Replaced (s : Store A) (i : ℕ) (b : Ptr) (xs ys : List (Ptr × A)) (t : Store A)
      : Type 0 where
    pub list : IsCounted t i b (xs ++ (p, a') ∷ ys)
    pub same : (c : Ptr) → c ≢ p → t.heap c ≡ s.heap c
    pub others : (j : ℕ) → t.heads j ≡ s.heads j

  -- Assigning to the item of a node of a list changes that item and nothing else.
  pub set_item_lem :
      (s : Store A) (i : ℕ) (b : Ptr) (xs ys : List (Ptr × A))
      → IsCounted s i b (xs ++ (p, a) ∷ ys)
      → (t : Store A) × (set_item p a' s ≡ ok tt t) × Replaced s i b xs ys t
  set_item_lem s i b xs ys l =
      let (ne, at, out, _) = Seg-at s.heap b null p a xs ys l.chain in
      let n = node (first_or ys null) (last_or b xs) a in
      let h = write s.heap p (some (record n { item = a' })) in
      (
        record s { heap = h },
        set_item-ok p s n ne at a',
        record {
          list = record {
            list = record {
              chain = Seg-replace s.heap b null xs ys n l.chain at out;
              next = l.next ∙ sym (first_or-replace xs ys null);
              tail = TailAt-replace (s.heads i).prev xs ys l.tail;
            };
            count = l.count ∙ sym (length-replace xs ys);
          };
          same = λ c d. write_ne s.heap p _ c d;
          others = λ j. refl;
        },
      )

  pub not_mem-replace :
      (c : Ptr) (xs ys : List (Ptr × A)) → c ∉ (xs ++ (p, a) ∷ ys) → c ∉ (xs ++ (p, a') ∷ ys)
  not_mem-replace c xs ys o = has-replace c xs ys ∙ o
