-- ===== src/Queue/Move.antt =====
-- `move_queued_packets`: one queue is put behind another.
use opennop.Prelude.{
  ℕ, ◌+◌, ◌%◌, ◌^◌, ◌<◌, ◌≡◌, refl, sym, ap, ◌∙◌, ◌≢◌, some, List, [], ◌∷◌, ◌++◌, arith, length,
  length-append,
}
use opennop.Prelude.Run.{ok, fault}
use opennop.Heap.{Ptr, null, Node, node, Head, head, Heap, Store, write, update, set_prev, load}
use opennop.Heap.Points.{set_next-ok, set_prev-ok, write_ne, update_self, update_ne}
use opennop.Heap.Segment.{
  ◌∈◌, ◌∉◌, Disjoint, Disjoint_symm, first_or, last_or, last_or-mem, last_or-append, Seg-write,
  Seg-append, ne_of_mem, mem_head, ne_head,
}
use opennop.Heap.Link.{last_node, Seg-retarget}
use opennop.Heap.Unlink.{Seg-reprev}
use opennop.Queue.{Packet, move_queued_packets}
use opennop.Queue.Fifo.{IsQueue}

-- The heads after the move of queue `i`, whose head was `hd`, behind queue `j`.
abbrev moved : (ℕ → Head) → ℕ → ℕ → Head → ℕ → Head
moved heads i j new = update (update heads i (head null null 0)) j new

module _ (s : Store Packet) (i j : ℕ) (ne : j ≢ i) where
  heads_j : (s.heads j) ≡ update s.heads i (head null null 0) j
  heads_j = sym (update_ne s.heads i _ j ne)

  move_run-nil :
      (s.heads j).next ≡ null
      → move_queued_packets i j s
        ≡ ok (s.heads i).qlen (record s { heads = moved s.heads i j (s.heads i) })
  unfolding move_queued_packets
  move_run-nil e = ground (arith, heads_j)

  move_run-cons :
      (n m : Node Packet) (p l0 : Ptr)
      → (s.heads i).next ≡ p
      → (s.heads j).prev ≡ l0
      → (s.heads j).next ≢ null
      → p ≢ null
      → l0 ≢ null
      → l0 ≢ p
      → s.heap p ≡ some n
      → s.heap l0 ≡ some m
      → move_queued_packets i j s
        ≡ ok (s.heads i).qlen (record {
          heads = moved s.heads i j (record {
            next = (s.heads j).next;
            prev = (s.heads i).prev;
            qlen = ((s.heads j).qlen + (s.heads i).qlen) % 2 ^ 32;
          });
          heap =
              write
                (write s.heap p (some (record n { prev = l0 })))
                l0
                (some (record m { next = p }));
        })
  unfolding move_queued_packets
  move_run-cons n m p l0 first last full ne_p ne_l apart at_p at_l =
      let hs = update s.heads i (head null null 0) in
      let s1 : Store Packet = record s { heads = hs } in
      let s2 : Store Packet = record {
        heads = hs;
        heap = write s.heap p (some (record n { prev = l0 }));
      } in
      ground (
        arith,
        heads_j,
        set_prev-ok p s1 n ne_p at_p l0,
        set_next-ok l0 s2 m ne_l (write_ne s.heap p _ l0 apart ∙ at_l) p,
      )

  move_fault : (s.heads i).next ≡ null → (s.heads j).next ≢ null → move_queued_packets i j s ≡ fault
  unfolding move_queued_packets set_prev load
  move_fault e f = ground (arith, heads_j)

-- What a move leaves behind: queue `i` is empty, and `xs` stand behind `ys` in queue `j`.
pub record Moved (s : Store Packet) (i j : ℕ) (xs ys : List (Ptr × Packet)) (t : Store Packet)
    : Type 0 where
  pub source : IsQueue t i []
  pub target : IsQueue t j (ys ++ xs)
  pub same : (c : Ptr) → c ∉ xs → c ∉ ys → t.heap c ≡ s.heap c
  pub others : (k : ℕ) → k ≢ i → k ≢ j → t.heads k ≡ s.heads k

module _ (s : Store Packet) (i j : ℕ) (ne : j ≢ i) (p : Ptr) (a : Packet) (xs : List (Ptr × Packet))
    (from : IsQueue s i ((p, a) ∷ xs)) where
  ne' : i ≢ j
  ne' e = ne (sym e)

  emptied :
      (new : Head) (h : Heap Packet)
      → IsQueue (record { heads = moved s.heads i j new; heap = h }) i []
  emptied new h =
      let at : moved s.heads i j new i ≡ head null null 0 =
        update_ne _ j new i ne' ∙ update_self s.heads i _ in
      record {
        before = null;
        counted = record { list = record { chain = tt; next = rw at; tail = tt }; count = rw at };
      }

  elsewhere : (new : Head) (k : ℕ) → k ≢ i → k ≢ j → moved s.heads i j new k ≡ s.heads k
  elsewhere new k d d' = update_ne _ j new k d' ∙ update_ne s.heads i _ k d

  Moved-nil :
      IsQueue s j []
      → (t : Store Packet) × (move_queued_packets i j s ≡ ok (length xs + 1) t)
        × Moved s i j ((p, a) ∷ xs) [] t
  Moved-nil to =
      let l = from.counted in
      (
        record s { heads = moved s.heads i j (s.heads i) },
        move_run-nil s i j ne to.counted.next
            ∙ ap (λ k. ok k (record s { heads = moved s.heads i j (s.heads i) }))
                (omega (arith, l.count)),
        record {
          source = emptied (s.heads i) s.heap;
          target = record {
            before = from.before;
            counted = record {
              list = record {
                chain = l.chain;
                next = simp update_self l.next;
                tail = simp update_self l.tail;
              };
              count = simp update_self l.count;
            };
          };
          same = λ c o o'. refl;
          others = elsewhere (s.heads i);
        },
      )

  Moved-cons :
      (q : Ptr) (c : Packet) (ys : List (Ptr × Packet))
      → IsQueue s j ((q, c) ∷ ys)
      → Disjoint ((q, c) ∷ ys) ((p, a) ∷ xs)
      → length xs + length ys + 2 < 2 ^ 32
      → (t : Store Packet) × (move_queued_packets i j s ≡ ok (length xs + 1) t)
        × Moved s i j ((p, a) ∷ xs) ((q, c) ∷ ys) t
  Moved-cons q c ys to apart fits =
      let l = from.counted in
      let m = to.counted in
      let l0 = last_or q ys in
      let (n, last_at, last_ne) = last_node s.heap to.before null q c ys m.chain in
      let l0_in : l0 ∈ ((q, c) ∷ ys) = last_or-mem to.before q c ys in
      let out : l0 ∉ ((p, a) ∷ xs) = apart l0 l0_in in
      let ne_p : l0 ≢ p = ne_head l0 p a xs out in
      let p_out : p ∉ ((q, c) ∷ ys) =
        Disjoint_symm ((q, c) ∷ ys) ((p, a) ∷ xs) apart p (mem_head p a xs) in
      let k : Node Packet = node (first_or xs null) from.before a in
      let h1 = write s.heap p (some (record k { prev = l0 })) in
      let h2 = write h1 l0 (some (record n { next = p })) in
      let new : Head = record {
        next = (s.heads j).next;
        prev = (s.heads i).prev;
        qlen = ((s.heads j).qlen + (s.heads i).qlen) % 2 ^ 32;
      } in
      (
        record { heads = moved s.heads i j new; heap = h2 },
        move_run-cons s i j ne k n p l0 l.next m.tail (λ e. m.chain.0 (sym m.next ∙ e)) l.chain.0
              last_ne ne_p l.chain.1 last_at
            ∙ ap (λ k. ok k (record { heads = moved s.heads i j new; heap = h2 }))
                (omega (arith, l.count)),
        record {
          source = emptied new h2;
          target = record {
            before = to.before;
            counted = record {
              list = record {
                chain =
                    Seg-append h2 to.before null ((q, c) ∷ ys) ((p, a) ∷ xs)
                      (Seg-retarget h1 to.before null p q c ys n
                        (Seg-write s.heap to.before null ((q, c) ∷ ys) p _ m.chain p_out)
                        (write_ne s.heap p _ l0 ne_p ∙ last_at))
                      (Seg-write h1 l0 null ((p, a) ∷ xs) l0 _
                        (Seg-reprev s.heap from.before l0 null p a xs k l.chain l.chain.1) out)
                      apart;
                next = simp update_self m.next;
                tail = simp update_self (l.tail ∙ sym (last_or-append q ys ((p, a) ∷ xs)));
              };
              count =
                  simp update_self
                    (omega (arith, l.count, m.count, length-append ys ((p, a) ∷ xs)));
            };
          };
          same = λ d o o'.
              write_ne h1 l0 _ d (λ e. ne_of_mem l0 d ((q, c) ∷ ys) l0_in o' (sym e))
              ∙ write_ne s.heap p _ d (ne_head d p a xs o);
          others = elsewhere new;
        },
      )

-- Moving a queue with packets to another queue that shares none of them, fewer than 2 ^ 32 in all,
-- puts them, in order, behind those of the other queue, empties the first queue and returns how
-- many were moved. No node outside the two and no other queue's head changes.
pub move_queued_packets-append :
    (s : Store Packet) (i j : ℕ) (p : Ptr) (a : Packet) (xs ys : List (Ptr × Packet))
    → j ≢ i
    → IsQueue s i ((p, a) ∷ xs)
    → IsQueue s j ys
    → Disjoint ys ((p, a) ∷ xs)
    → length xs + length ys + 1 < 2 ^ 32
    → (t : Store Packet) × (move_queued_packets i j s ≡ ok (length xs + 1) t)
      × Moved s i j ((p, a) ∷ xs) ys t
move_queued_packets-append s i j p a xs [] ne from to apart fits = Moved-nil s i j ne p a xs from to
move_queued_packets-append s i j p a xs ((q, c) ∷ ys) ne from to apart fits =
    Moved-cons s i j ne p a xs from q c ys to apart (omega arith)

-- Moving an empty queue to another queue that holds packets dereferences NULL.
pub move_queued_packets-fault :
    (s : Store Packet) (i j : ℕ) (q : Ptr) (c : Packet) (ys : List (Ptr × Packet))
    → j ≢ i
    → IsQueue s i []
    → IsQueue s j ((q, c) ∷ ys)
    → move_queued_packets i j s ≡ fault
move_queued_packets-fault s i j q c ys ne from to =
    move_fault s i j ne from.counted.next (λ e. to.counted.chain.0 (sym to.counted.next ∙ e))
