-- ===== src/Heap/Link.antt =====
-- Lists behind a head, and the insertion at their tail.
use opennop.Prelude.{
  ℕ, ◌+◌, ◌%◌, ◌^◌, ◌<◌, ◌≡◌, refl, sym, ◌∙◌, ◌≢◌, some, List, [], ◌∷◌, ◌++◌, arith, length,
  length-append,
}
use opennop.Prelude.Run.{ok}
use opennop.Heap.{Ptr, null, Node, node, Head, Heap, Store, write, update, link_tail}
use opennop.Heap.Points.{
  load-ok, set_next-ok, set_prev-ok, write_self, write_ne, update_self, update_ne,
}
use opennop.Heap.Segment.{
  ◌∉◌, Seg, first_or, last_or, last_or-mem, last_or-append, Seg-append, Seg-write, ne_of_mem,
}

module _ {A : Type 0} where
  -- The tail pointer is meaningful only where the list has a node.
  abbrev pub TailAt : Ptr → List (Ptr × A) → Type 0
  TailAt q [] = Unit
  TailAt q ((p, _) ∷ xs) = q ≡ last_or p xs

  -- `xs` are the nodes of the list named `i`; the first one's `prev` is `b`.
  pub record IsList (s : Store A) (i : ℕ) (b : Ptr) (xs : List (Ptr × A)) : Type 0 where
    pub chain : Seg s.heap b null xs
    pub next : (s.heads i).next ≡ first_or xs null
    pub tail : TailAt (s.heads i).prev xs

  -- A list whose head counts its nodes as well.
  pub record IsCounted (s : Store A) (i : ℕ) (b : Ptr) (xs : List (Ptr × A)) : Type 0 where
    pub list : IsList s i b xs
    pub open list use *
    pub count : (s.heads i).qlen ≡ length xs

  -- The last node of a segment.
  pub last_node :
      (h : Heap A) (b e p : Ptr) (a : A) (xs : List (Ptr × A))
      → Seg h b e ((p, a) ∷ xs)
      → (n : Node A) × (h (last_or p xs) ≡ some n) × (last_or p xs ≢ null)
  last_node h b e p a [] s = (node e b a, s.1, s.0)
  last_node h b e p a ((q, c) ∷ xs) s = last_node h p e q c xs s.3

  -- Redirecting the last `next` pointer.
  pub Seg-retarget :
      (h : Heap A) (b e e' p : Ptr) (a : A) (xs : List (Ptr × A)) (n : Node A)
      → Seg h b e ((p, a) ∷ xs)
      → h (last_or p xs) ≡ some n
      → Seg (write h (last_or p xs) (some (record n { next = e' }))) b e' ((p, a) ∷ xs)
  unfolding write
  Seg-retarget h b e e' p a [] n s at =
      let same : n ≡ node e b a = cc in (s.0, rw (write_self, same), refl, tt)
  Seg-retarget h b e e' p a ((q, c) ∷ xs) n s at =
      let apart = ne_of_mem (last_or q xs) p ((q, c) ∷ xs) (last_or-mem p q c xs) s.2 in
      (
        s.0,
        rw (write_ne h _ _ p (λ i. apart (sym i))) s.1,
        s.2,
        Seg-retarget h p e e' q c xs n s.3 at,
      )

  -- What a tail insertion leaves behind.
  pub record Inserted (s : Store A) (i : ℕ) (b p : Ptr) (a : A) (xs : List (Ptr × A)) (t : Store A)
      : Type 0 where
    pub list : IsCounted t i b (xs ++ (p, a) ∷ [])
    pub same : (c : Ptr) → c ∉ xs → c ≢ p → t.heap c ≡ s.heap c
    pub others : (j : ℕ) → j ≢ i → t.heads j ≡ s.heads j

  link_tail-nil :
      (s : Store A) (i : ℕ) (b p : Ptr) (a : A)
      → IsCounted s i b []
      → p ≢ null
      → s.heap p ≡ some (node null b a)
      → (t : Store A) × (link_tail i p s ≡ ok tt t) × Inserted s i b p a [] t
  unfolding link_tail
  link_tail-nil s i b p a l ne at =
      let hd : Head = record (s.heads i) { next = p; prev = p } in
      let up = update s.heads i hd in
      (
        record s { heads = update up i (record (up i) { qlen = ((up i).qlen + 1) % 2 ^ 32 }) },
        rw l.count,
        record {
          list = record {
            list = record {
              chain = (ne, at, refl, tt);
              next = simp update_self;
              tail = simp update_self;
            };
            count = simp (update_self, l.count);
          };
          same = λ c o d. refl;
          others = λ j o. update_ne _ i _ j o ∙ update_ne _ i _ j o;
        },
      )

  link_tail-cons :
      (s : Store A) (i : ℕ) (b b' p : Ptr) (a : A) (x : Ptr × A) (xs : List (Ptr × A))
      → IsCounted s i b (x ∷ xs)
      → length xs + 2 < 2 ^ 32
      → p ≢ null
      → s.heap p ≡ some (node null b' a)
      → p ∉ (x ∷ xs)
      → (t : Store A) × (link_tail i p s ≡ ok tt t) × Inserted s i b p a (x ∷ xs) t
  unfolding link_tail
  link_tail-cons s i b b' p a (q, c) xs l fits ne at out =
      let l0 = last_or q xs in
      let (n, last_at, last_ne) = last_node s.heap b null q c xs l.chain in
      let apart : l0 ≢ p = ne_of_mem l0 p ((q, c) ∷ xs) (last_or-mem b q c xs) out in
      let ne_of_out : (d : Ptr) → d ∉ ((q, c) ∷ xs) → d ≢ l0 =
        λ d o e. ne_of_mem l0 d ((q, c) ∷ xs) (last_or-mem b q c xs) o (sym e) in
      let h1 = write s.heap p (some (node null l0 a)) in
      let h2 = write h1 l0 (some (record n { next = p })) in
      let s1 : Store A = record s { heap = h1 } in
      let s2 : Store A = record s { heap = h2 } in
      let hd : Head = record (s.heads i) { prev = p } in
      let up = update s.heads i hd in
      let seg1 : Seg h1 b null ((q, c) ∷ xs) =
        Seg-write s.heap b null ((q, c) ∷ xs) p _ l.chain out in
      (
        record {
          heap = h2;
          heads = update up i (record (up i) { qlen = ((up i).qlen + 1) % 2 ^ 32 });
        },
        ground (
          arith,
          set_prev-ok p s (node null b' a) ne at l0,
          load-ok p s1 (node null l0 a) ne (write_self s.heap p _),
          set_next-ok l0 s1 n last_ne (write_ne s.heap p _ l0 apart ∙ last_at) p,
        ),
        record {
          list = record {
            list = record {
              chain =
                  Seg-append h2 b null ((q, c) ∷ xs) ((p, a) ∷ [])
                    (Seg-retarget h1 b null p q c xs n seg1
                      (write_ne s.heap p _ l0 apart ∙ last_at))
                    (ne, write_ne h1 l0 _ p (λ e. apart (sym e)) ∙ write_self s.heap p _, refl, tt)
                    (λ d i. ground (arith, ne_of_mem d p ((q, c) ∷ xs)));
              next = simp update_self l.next;
              tail = simp update_self (sym (last_or-append q xs ((p, a) ∷ [])));
            };
            count = simp (update_self, l.count) (omega (arith, length-append xs ((p, a) ∷ [])));
          };
          same = λ c o d. write_ne h1 l0 _ c (ne_of_out c o) ∙ write_ne s.heap p _ c d;
          others = λ j o. update_ne _ i _ j o ∙ update_ne _ i _ j o;
        },
      )

  -- Inserting at the tail of a list with room for one more in its counter: the new node is the last
  -- one, no other node moves and no other list changes.
  pub link_tail_lem :
      (s : Store A) (i : ℕ) (b p : Ptr) (a : A) (xs : List (Ptr × A))
      → IsCounted s i b xs
      → (xs ≡ [] → b ≡ null)
      → length xs + 1 < 2 ^ 32
      → p ≢ null
      → s.heap p ≡ some (node null null a)
      → p ∉ xs
      → (t : Store A) × (link_tail i p s ≡ ok tt t) × Inserted s i b p a xs t
  link_tail_lem s i b p a [] l first fits ne at out =
      link_tail-nil s i b p a l ne (rw (first refl) at)
  link_tail_lem s i b p a (x ∷ xs) l first fits ne at out =
      link_tail-cons s i b null p a x xs l (omega arith) ne at out
