-- ===== src/Heap/Points.antt =====
-- The commands on one node, at an address that holds one.
use opennop.Prelude.{ℕ, Option, ◌≡◌, ◌≢◌, false, none, some, arith, ◌==◌}
use opennop.Prelude.Run.{ok}
use opennop.Heap.{
  Ptr, null, Node, Heap, Store, write, update, load, set_next, set_prev, set_item, free,
}

module _ {A : Type 0} (h : Heap A) (p : Ptr) (c : Option (Node A)) where
  pub write_self : write h p c p ≡ c
  unfolding write
  write_self = ground arith

  pub write_ne : (a : Ptr) → a ≢ p → write h p c a ≡ h a
  unfolding write
  write_ne a ne = ground arith

module _ {V : Type 0} (f : ℕ → V) (i : ℕ) (v : V) where
  pub update_self : update f i v i ≡ v
  unfolding update
  update_self = ground arith

  pub update_ne : (j : ℕ) → j ≢ i → update f i v j ≡ f j
  unfolding update
  update_ne j ne = ground arith

module _ {A : Type 0} (p : Ptr) (s : Store A) (n : Node A) (ne : p ≢ null)
    (holds : s.heap p ≡ some n) where
  not_null : (p == null) ≡ false
  not_null = ground arith

  pub load-ok : load p s ≡ ok n s
  unfolding load
  load-ok = rw (not_null, holds)

  pub set_next-ok :
      (q : Ptr)
      → set_next p q s ≡ ok tt (record s { heap = write s.heap p (some (record n { next = q })) })
  unfolding set_next
  set_next-ok q = rw (not_null, holds)

  pub set_prev-ok :
      (q : Ptr)
      → set_prev p q s ≡ ok tt (record s { heap = write s.heap p (some (record n { prev = q })) })
  unfolding set_prev
  set_prev-ok q = rw (not_null, holds)

  pub set_item-ok :
      (a : A)
      → set_item p a s ≡ ok tt (record s { heap = write s.heap p (some (record n { item = a })) })
  unfolding set_item
  set_item-ok a = rw (not_null, holds)

  pub free-ok : free p s ≡ ok tt (record s { heap = write s.heap p none })
  unfolding free
  free-ok = rw (not_null, holds)
