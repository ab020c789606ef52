-- ===== src/Sessions/Invariant.antt =====
-- What the table holds: for each bucket, the addresses and the sessions of its list.
use opennop.Prelude.{ℕ, ◌≡◌, sym, ◌∙◌, ◌≢◌, inl, inr, List, [], ◌∷◌, ◌++◌, Bool-cases}
use native.Mathlib.Decide.{ℕ_discrete}
use opennop.Heap.{Ptr, null, Store, update}
use opennop.Heap.Points.{update_self, update_ne}
use opennop.Heap.Segment.{has, ◌∈◌, ◌∉◌, Disjoint, Seg-frame}
use opennop.Heap.Link.{IsCounted}
use opennop.Sessions.{Session, Table}

-- A list keeps its place when the heap keeps its nodes and the head is left alone.
pub IsCounted-frame :
    {A : Type 0} (s t : Store A) (i : ℕ) (b : Ptr) (xs : List (Ptr × A))
    → IsCounted s i b xs
    → ((c : Ptr) → c ∈ xs → t.heap c ≡ s.heap c)
    → t.heads i ≡ s.heads i
    → IsCounted t i b xs
IsCounted-frame s t i b xs l same eq = record {
  list = record {
    chain = Seg-frame s.heap t.heap b null xs l.chain same;
    next = rw eq l.next;
    tail = rw eq l.tail;
  };
  count = rw eq l.count;
}

abbrev pub Placed : ℕ → List (Ptr × Session) → Type 0
Placed b [] = Unit
Placed b ((p, a) ∷ xs) = (a.head ≡ b) × Placed b xs

pub Placed-append :
    (b : ℕ) (xs ys : List (Ptr × Session)) → Placed b xs → Placed b ys → Placed b (xs ++ ys)
Placed-append b [] ys l r = r
Placed-append b (x ∷ xs) ys l r = (l.0, Placed-append b xs ys l.1 r)

pub Placed-parts :
    (b : ℕ) (xs ys : List (Ptr × Session)) → Placed b (xs ++ ys) → Placed b xs × Placed b ys
Placed-parts b [] ys h = (tt, h)
Placed-parts b (x ∷ xs) ys h = let (l, r) = Placed-parts b xs ys h.1 in ((h.0, l), r)

-- `lists b` are the nodes of bucket `b`. No node is in two buckets, and each session knows its own.
pub record IsTable (t : Table) (lists : ℕ → List (Ptr × Session)) : Type 0 where
  pub bucket : (b : ℕ) → IsCounted t.buckets b null (lists b)
  pub apart : (b c : ℕ) → b ≢ c → Disjoint (lists b) (lists c)
  pub placed : (b : ℕ) → Placed b (lists b)

-- A change of one bucket that spares the nodes of the others.
pub IsTable-update :
    (t u : Table) (lists : ℕ → List (Ptr × Session)) (b : ℕ) (xs : List (Ptr × Session))
    → IsTable t lists
    → IsCounted u.buckets b null xs
    → Placed b xs
    → ((c : ℕ) → c ≢ b → (p : Ptr) → p ∈ lists c → (u.buckets.heap p ≡ t.buckets.heap p) × (p ∉ xs))
    → ((c : ℕ) → c ≢ b → u.buckets.heads c ≡ t.buckets.heads c)
    → IsTable u (update lists b xs)
IsTable-update t u lists b xs inv new at spare heads = record {
  bucket = λ c. bucket_at c (ℕ_discrete c b);
  apart = λ c d ne. apart_at c d ne (ℕ_discrete c b) (ℕ_discrete d b);
  placed = λ c. placed_at c (ℕ_discrete c b);
}
  where
    self : update lists b xs b ≡ xs
    self = update_self lists b xs

    bucket_at : (c : ℕ) → Dec (c ≡ b) → IsCounted u.buckets c null (update lists b xs c)
    bucket_at c (yes e) = rw (e, self) new
    bucket_at c (no ne) = rw (update_ne lists b xs c ne) (
        IsCounted-frame t.buckets u.buckets c null (lists c) (inv.bucket c)
          (λ p i. (spare c ne p i).0) (heads c ne))

    placed_at : (c : ℕ) → Dec (c ≡ b) → Placed c (update lists b xs c)
    placed_at c (yes e) = rw (e, self) at
    placed_at c (no ne) = rw (update_ne lists b xs c ne) (inv.placed c)

    flip : (c : ℕ) → c ≢ b → Disjoint xs (lists c)
    flip c ne p i = elim (Bool-cases (has p (lists c))) [
      | inl h ↦ cc ((spare c ne p h).1)
      | inr h ↦ h
    ]

    apart_at :
        (c d : ℕ)
        → c ≢ d
        → Dec (c ≡ b)
        → Dec (d ≡ b)
        → Disjoint (update lists b xs c) (update lists b xs d)
    apart_at c d ne (yes e) (yes f) = absurd (ne (e ∙ sym f))
    apart_at c d ne (yes e) (no f) = rw (e, self, update_ne lists b xs d f) (flip d f)
    apart_at c d ne (no e) (yes f) =
        rw (f, self, update_ne lists b xs c e) (λ p i. (spare c e p i).1)
    apart_at c d ne (no e) (no f) =
        rw (update_ne lists b xs c e, update_ne lists b xs d f) (inv.apart c d ne)
