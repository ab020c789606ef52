-- ===== src/Heap/Segment.antt =====
-- What a linked list stands for: the addresses and the items of its nodes, in order.
use mathlib.Core.Bool.{or_assoc}
use opennop.Prelude.{
  ◌≡◌, refl, ◌≢◌, Bool, true, false, ◌||◌, Option, some, List, [], ◌∷◌, ◌++◌, arith, ◌==◌,
}
use opennop.Heap.{Ptr, null, Node, node, Heap, write}

module _ {A : Type 0} where
  abbrev pub has : Ptr → List (Ptr × A) → Bool
  has a [] = false
  has a ((p, _) ∷ xs) = (a == p) || has a xs

  infix 40 ◌∈◌ ◌∉◌
  abbrev pub ◌∈◌ : Ptr → List (Ptr × A) → Type 0
  a ∈ xs = has a xs ≡ true

  abbrev pub ◌∉◌ : Ptr → List (Ptr × A) → Type 0
  a ∉ xs = has a xs ≡ false

  abbrev pub Disjoint : List (Ptr × A) → List (Ptr × A) → Type 0
  Disjoint xs ys = (a : Ptr) → a ∈ xs → a ∉ ys

  -- The first address, or `e` if there is none; the last address, or `b`.
  abbrev pub first_or : List (Ptr × A) → Ptr → Ptr
  first_or [] e = e
  first_or ((p, _) ∷ _) e = p

  abbrev pub last_or : Ptr → List (Ptr × A) → Ptr
  last_or b [] = b
  last_or b ((p, _) ∷ xs) = last_or p xs

  -- The distinct nodes of `xs` are linked both ways between the pointers `b` and `e`.
  abbrev pub Seg : Heap A → Ptr → Ptr → List (Ptr × A) → Type 0
  Seg h b e [] = Unit
  Seg h b e ((p, a) ∷ xs) =
      (p ≢ null) × (h p ≡ some (node (first_or xs e) b a)) × (p ∉ xs) × Seg h p e xs

  pub has-append : (a : Ptr) (xs ys : List (Ptr × A)) → has a (xs ++ ys) ≡ (has a xs || has a ys)
  has-append a [] ys = refl
  has-append a (x ∷ xs) ys = rw (has-append a xs ys, or_assoc)

  pub first_or-append :
      (xs ys : List (Ptr × A)) (e : Ptr) → first_or (xs ++ ys) e ≡ first_or xs (first_or ys e)
  first_or-append [] ys e = refl
  first_or-append (x ∷ xs) ys e = refl

  pub last_or-append :
      (b : Ptr) (xs ys : List (Ptr × A)) → last_or b (xs ++ ys) ≡ last_or (last_or b xs) ys
  last_or-append b [] ys = refl
  last_or-append b ((p, a) ∷ xs) ys = last_or-append p xs ys

  pub last_or-mem :
      (b p : Ptr) (a : A) (xs : List (Ptr × A)) → last_or b ((p, a) ∷ xs) ∈ ((p, a) ∷ xs)
  last_or-mem b p a [] = ground arith
  last_or-mem b p a ((q, c) ∷ xs) = ground (arith, last_or-mem p q c xs)

  pub ne_of_mem : (a p : Ptr) (xs : List (Ptr × A)) → a ∈ xs → p ∉ xs → a ≢ p
  ne_of_mem a p [] i o = cc
  ne_of_mem a p ((q, c) ∷ xs) i o = ground (arith, ne_of_mem a p xs)

  pub mem_head : (q : Ptr) (c : A) (xs : List (Ptr × A)) → q ∈ ((q, c) ∷ xs)
  mem_head q c xs = ground arith

  pub ne_head : (p q : Ptr) (c : A) (xs : List (Ptr × A)) → p ∉ ((q, c) ∷ xs) → p ≢ q
  ne_head p q c xs o = ground arith

  pub Disjoint_symm : (xs ys : List (Ptr × A)) → Disjoint xs ys → (a : Ptr) → a ∈ ys → a ∉ xs
  Disjoint_symm xs ys apart a i = ground (arith, apart a)

  -- A segment survives any change that spares its own addresses.
  pub Seg-frame :
      (h g : Heap A) (b e : Ptr) (xs : List (Ptr × A))
      → Seg h b e xs
      → ((a : Ptr) → a ∈ xs → g a ≡ h a)
      → Seg g b e xs
  Seg-frame h g b e [] s same = tt
  Seg-frame h g b e ((p, a) ∷ xs) s same =
      (s.0, ground (arith, same p), s.2, Seg-frame h g p e xs s.3 λ c i. same c (ground arith))

  pub Seg-write :
      (h : Heap A) (b e : Ptr) (xs : List (Ptr × A)) (q : Ptr) (c : Option (Node A))
      → Seg h b e xs
      → q ∉ xs
      → Seg (write h q c) b e xs
  unfolding write
  Seg-write h b e xs q c s out = Seg-frame h (write h q c) b e xs s λ a i. ground arith

  pub Seg-append :
      (h : Heap A) (b e : Ptr) (xs ys : List (Ptr × A))
      → Seg h b (first_or ys e) xs
      → Seg h (last_or b xs) e ys
      → Disjoint xs ys
      → Seg h b e (xs ++ ys)
  Seg-append h b e [] ys s t apart = t
  Seg-append h b e ((p, a) ∷ xs) ys s t apart = (
    s.0,
    rw (first_or-append xs ys e) s.1,
    rw (has-append p xs ys, s.2) (apart p (ground arith)),
    Seg-append h p e xs ys s.3 t (λ c i. apart c (ground arith)),
  )

  pub Seg-left :
      (h : Heap A) (b e : Ptr) (xs ys : List (Ptr × A))
      → Seg h b e (xs ++ ys)
      → Seg h b (first_or ys e) xs
  Seg-left h b e [] ys s = tt
  Seg-left h b e ((p, a) ∷ xs) ys s = (
    s.0,
    rw (← first_or-append xs ys e) s.1,
    ground (arith, has-append p xs ys),
    Seg-left h p e xs ys s.3,
  )

  pub Seg-right :
      (h : Heap A) (b e : Ptr) (xs ys : List (Ptr × A))
      → Seg h b e (xs ++ ys)
      → Seg h (last_or b xs) e ys
  Seg-right h b e [] ys s = s
  Seg-right h b e ((p, a) ∷ xs) ys s = Seg-right h p e xs ys s.3

  pub Seg-Disjoint :
      (h : Heap A) (b e : Ptr) (xs ys : List (Ptr × A)) → Seg h b e (xs ++ ys) → Disjoint xs ys
  Seg-Disjoint h b e [] ys s a i = cc
  Seg-Disjoint h b e ((p, c) ∷ xs) ys s a i =
      ground (arith, has-append p xs ys, Seg-Disjoint h p e xs ys s.3 a)

  pub not_mem_snoc :
      (p q : Ptr) (c : A) (xs : List (Ptr × A)) → p ∉ xs → p ≢ q → p ∉ (xs ++ (q, c) ∷ [])
  not_mem_snoc p q c xs o ne = rw (has-append p xs ((q, c) ∷ []), o) (ground arith)

  -- Leaving out a node of a list.
  pub not_mem_middle :
      (p q : Ptr) (c : A) (xs ys : List (Ptr × A))
      → p ∉ (xs ++ (q, c) ∷ ys)
      → (p ∉ xs) × (p ≢ q) × (p ∉ ys)
  not_mem_middle p q c [] ys o = (refl, ground arith, ground arith)
  not_mem_middle p q c ((r, d) ∷ xs) ys o =
      let rest = not_mem_middle p q c xs ys (ground arith) in (ground arith, rest.1, rest.2)

  pub not_mem-append : (p : Ptr) (xs ys : List (Ptr × A)) → p ∉ xs → p ∉ ys → p ∉ (xs ++ ys)
  not_mem-append p xs ys o o' = rw (has-append p xs ys, o) o'
