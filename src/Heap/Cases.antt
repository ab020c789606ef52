-- ===== src/Heap/Cases.antt =====
-- The four cases of an unlinking, one by one.
use opennop.Prelude.{ℕ, ◌+◌, ◌-◌, ◌%◌, ◌^◌, ◌≡◌, ◌∙◌, ◌≢◌, ◌⊎◌, some, List, ◌∷◌, arith}
use opennop.Prelude.Run.{ok}
use opennop.Heap.{
  Ptr, null, Node, node, Head, Heap, Store, write, update, unlink_only, unlink_first, unlink_last,
  unlink_middle,
}
use opennop.Heap.Points.{load-ok, set_next-ok, set_prev-ok, write_self, write_ne}
use opennop.Heap.Segment.{Seg, first_or, Seg-write}

abbrev pub counted_down : (ℕ → Head) → ℕ → ℕ → Head
counted_down heads i =
    update heads i (record (heads i) { qlen = ((heads i).qlen + 2 ^ 32 - 1) % 2 ^ 32 })

-- Each of the four cases does nothing to a node of another shape.
module _ {A : Type 0} (s : Store A) (i p : Ptr) (n : Node A) (ne : p ≢ null)
    (at : s.heap p ≡ some n) where
  pub only-skip : (n.next ≢ null) ⊎ (n.prev ≢ null) → unlink_only i p s ≡ ok tt s
  unfolding unlink_only
  only-skip h = ground (arith, load-ok p s n ne at)

  pub first-skip : (n.next ≡ null) ⊎ (n.prev ≢ null) → unlink_first i p s ≡ ok tt s
  unfolding unlink_first
  first-skip h = ground (arith, load-ok p s n ne at)

  pub last-skip : (n.next ≢ null) ⊎ (n.prev ≡ null) → unlink_last i p s ≡ ok tt s
  unfolding unlink_last
  last-skip h = ground (arith, load-ok p s n ne at)

  pub middle-skip : (n.next ≡ null) ⊎ (n.prev ≡ null) → unlink_middle i p s ≡ ok tt s
  unfolding unlink_middle
  middle-skip h = ground (arith, load-ok p s n ne at)

  pub only_lem :
      n.next ≡ null
      → n.prev ≡ null
      → unlink_only i p s
        ≡ ok tt (record s {
          heads = update s.heads i (record (s.heads i) { next = null; prev = null });
        })
  unfolding unlink_only
  only_lem e f = ground (arith, load-ok p s n ne at)

  pub first_lem :
      (m : Node A)
      → n.next ≢ null
      → n.prev ≡ null
      → s.heap n.next ≡ some m
      → unlink_first i p s
        ≡ ok tt (record {
          heads = update s.heads i (record (s.heads i) { next = n.next });
          heap = write s.heap n.next (some (record m { prev = null }));
        })
  unfolding unlink_first
  first_lem m e f g = ground (arith, load-ok p s n ne at, set_prev-ok n.next s m e g null)

  pub last_lem :
      (m : Node A)
      → n.next ≡ null
      → n.prev ≢ null
      → s.heap n.prev ≡ some m
      → unlink_last i p s
        ≡ ok tt (record {
          heads = update s.heads i (record (s.heads i) { prev = n.prev });
          heap = write s.heap n.prev (some (record m { next = null }));
        })
  unfolding unlink_last
  last_lem m e f g = ground (arith, load-ok p s n ne at, set_next-ok n.prev s m f g null)

  pub middle_lem :
      (m k : Node A)
      → n.next ≢ null
      → n.prev ≢ null
      → n.next ≢ n.prev
      → s.heap n.prev ≡ some m
      → s.heap n.next ≡ some k
      → unlink_middle i p s
        ≡ ok tt (record s {
          heap =
              write
                (write s.heap n.prev (some (record m { next = n.next })))
                n.next
                (some (record k { prev = n.prev }));
        })
  unfolding unlink_middle
  middle_lem m k e f d g j =
      let s1 : Store A = record s {
        heap = write s.heap n.prev (some (record m { next = n.next }));
      } in
      ground (
        arith,
        load-ok p s n ne at,
        set_next-ok n.prev s m f g n.next,
        set_prev-ok n.next s1 k e (write_ne s.heap n.prev _ n.next d ∙ j) n.prev,
      )

module _ {A : Type 0} where
  -- Redirecting the first `prev` pointer.
  pub Seg-reprev :
      (h : Heap A) (b b' e p : Ptr) (a : A) (xs : List (Ptr × A)) (n : Node A)
      → Seg h b e ((p, a) ∷ xs)
      → h p ≡ some n
      → Seg (write h p (some (record n { prev = b' }))) b' e ((p, a) ∷ xs)
  Seg-reprev h b b' e p a xs n s at =
      let same : n ≡ node (first_or xs e) b a = cc in
      (s.0, rw (write_self, same), s.2, Seg-write h p e xs p _ s.3 s.2)
