-- ===== src/Sessions/Modify.antt =====
-- A change of one session's fields, on the whole table.
use mathlib.Core.Path.{subst, fun_ext}
use native.Mathlib.Decide.{ℕ_discrete}
use opennop.Prelude.{ℕ, ◌≡◌, sym, ◌∙◌, ◌≢◌, List, ◌∷◌, ◌++◌}
use opennop.Prelude.Run.{ok}
use opennop.Heap.{Ptr, null, Store, update, set_item}
use opennop.Heap.Points.{update_self, update_ne}
use opennop.Heap.Segment.{◌∈◌, ◌∉◌, not_mem_middle}
use opennop.Heap.Link.{IsCounted}
use opennop.Heap.Replace.{set_item_lem, not_mem-replace}
use opennop.Sessions.{Session, Table}
use opennop.Sessions.Invariant.{Placed, Placed-append, Placed-parts, IsTable, IsTable-update}

pub update-update :
    {V : Type 0} (f : ℕ → V) (i : ℕ) (v w : V) → update (update f i v) i w ≡ update f i w
update-update f i v w = fun_ext λ j. at j (ℕ_discrete j i)
  where
    at : (j : ℕ) → Dec (j ≡ i) → update (update f i v) i w j ≡ update f i w j
    at j (yes e) = rw e (update_self (update f i v) i w ∙ sym (update_self f i w))
    at j (no ne) =
        update_ne (update f i v) i w j ne ∙ update_ne f i v j ne ∙ sym (update_ne f i w j ne)

-- The table after a change of the item of one session that keeps its bucket.
pub set_item-IsTable :
    (t : Table) (lists : ℕ → List (Ptr × Session)) (b : ℕ) (p : Ptr) (a a' : Session)
    (xs ys : List (Ptr × Session))
    → IsTable t lists
    → lists b ≡ xs ++ (p, a) ∷ ys
    → a'.head ≡ a.head
    → (s : Store Session) × (set_item p a' t.buckets ≡ ok tt s)
      × IsTable (record t { buckets = s }) (update lists b (xs ++ (p, a') ∷ ys))
set_item-IsTable t lists b p a a' xs ys inv e keeps =
    let l : IsCounted t.buckets b null (xs ++ (p, a) ∷ ys) =
      subst (IsCounted t.buckets b null) e (inv.bucket b) in
    let (pl, pr) = Placed-parts b xs ((p, a) ∷ ys) (subst (Placed b) e (inv.placed b)) in
    let (s, run, new) = set_item_lem p a a' t.buckets b null xs ys l in
    let out = λ (c : ℕ) (d : c ≢ b) (q : Ptr) (i : q ∈ lists c).
      subst (λ zs. q ∉ zs) e (inv.apart c b d q i) in
    (
      s,
      run,
      IsTable-update t (record t { buckets = s }) lists b (xs ++ (p, a') ∷ ys) inv new.list
          (Placed-append b xs ((p, a') ∷ ys) pl (keeps ∙ pr.0, pr.1))
          (λ c d q i. (
            new.same q (not_mem_middle q p a xs ys (out c d q i)).1,
            not_mem-replace p a a' q xs ys (out c d q i),
          ))
          (λ c d. new.others c),
    )

pub update_same : {V : Type 0} (f : ℕ → V) (i : ℕ) (v : V) → f i ≡ v → update f i v ≡ f
update_same f i v e = fun_ext λ j. at j (ℕ_discrete j i)
  where
    at : (j : ℕ) → Dec (j ≡ i) → update f i v j ≡ f j
    at j (yes d) = rw (d, update_self, e)
    at j (no ne) = update_ne f i v j ne
