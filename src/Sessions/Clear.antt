-- ===== src/Sessions/Clear.antt =====
-- `clearsession` on the whole table.
use opennop.Prelude.{
  ℕ, ◌+◌, ◌-◌, ◌%◌, ◌^◌, ◌<◌, ◌≡◌, refl, ap, ◌∙◌, ◌≢◌, none, some, List, ◌∷◌, ◌++◌, arith, length,
}
use mathlib.Core.Path.{subst}
use opennop.Prelude.Run.{ok}
use opennop.Heap.{Ptr, null, Store, Node, node, write, update, unlink}
use opennop.Heap.Points.{write_self, write_ne, load-ok, free-ok}
use opennop.Heap.Segment.{◌∈◌, ◌∉◌, first_or, last_or, ne_of_mem, not_mem_middle, not_mem-append}
use opennop.Heap.Link.{IsCounted}
use opennop.Heap.Unlink.{unlink_lem, Seg-at}
use opennop.Sessions.{Session, Table, clearsession}
use opennop.Sessions.Invariant.{
  IsCounted-frame, Placed, Placed-append, Placed-parts, IsTable, IsTable-update,
}

-- The session at `p` has left bucket `b`, its memory is given back, and its worker has one less.
pub record Cleared (t : Table) (lists : ℕ → List (Ptr × Session)) (b : ℕ) (p : Ptr) (a : Session)
    (xs ys : List (Ptr × Session)) (u : Table) : Type 0 where
  pub table : IsTable u (update lists b (xs ++ ys))
  pub freed : u.buckets.heap p ≡ none
  pub workers : u.sessions ≡ update t.sessions a.queue ((t.sessions a.queue + 2 ^ 32 - 1) % 2 ^ 32)
  pub numworkers : u.numworkers ≡ t.numworkers
  pub sent : u.sent ≡ t.sent

clearsession_run :
    (t : Table) (s1 : Store Session) (p : Ptr) (a : Session) (n n1 : Node Session)
    → p ≢ null
    → t.buckets.heap p ≡ some n
    → n.item ≡ a
    → unlink a.head p t.buckets ≡ ok tt s1
    → s1.heap p ≡ some n1
    → n1.item ≡ a
    → clearsession p t
      ≡ ok null (record t {
        buckets = record s1 { heap = write s1.heap p none };
        sessions = update t.sessions a.queue ((t.sessions a.queue + 2 ^ 32 - 1) % 2 ^ 32);
      })
unfolding clearsession
clearsession_run t s1 p a n n1 ne at e run at1 e1 =
    ground (arith, load-ok p t.buckets n ne at, load-ok p s1 n1 ne at1, free-ok p s1 n1 ne at1)

-- Clearing a session of the table, wherever it stands in its bucket of fewer than 2 ^ 32, returns
-- NULL, takes exactly it out, gives its memory back and counts its worker down by one; the number
-- of workers and the keepalives sent stay.
pub clearsession-Cleared :
    (t : Table) (lists : ℕ → List (Ptr × Session)) (b : ℕ) (p : Ptr) (a : Session)
    (xs ys : List (Ptr × Session))
    → IsTable t lists
    → lists b ≡ xs ++ (p, a) ∷ ys
    → length xs + length ys + 1 < 2 ^ 32
    → (u : Table) × (clearsession p t ≡ ok null u) × Cleared t lists b p a xs ys u
clearsession-Cleared t lists b p a xs ys inv e fits =
    let s = t.buckets in
    let l : IsCounted s b null (xs ++ (p, a) ∷ ys) = subst (IsCounted s b null) e (inv.bucket b) in
    let at_p : a.head ≡ b =
      (Placed-parts b xs ((p, a) ∷ ys) (subst (Placed b) e (inv.placed b))).1.0 in
    let (ne, at, out_l, out_r) = Seg-at s.heap null null p a xs ys l.chain in
    let (s1, run, gone) = unlink_lem s b p a xs ys l fits in
    let at1 : s1.heap p ≡ some (node (first_or ys null) (last_or null xs) a) =
      gone.same p out_l out_r ∙ at in
    let h2 = write s1.heap p none in
    let s2 : Store Session = record s1 { heap = h2 } in
    let out : p ∉ (xs ++ ys) = not_mem-append p xs ys out_l out_r in
    let u : Table = record t {
      buckets = s2;
      sessions = update t.sessions a.queue ((t.sessions a.queue + 2 ^ 32 - 1) % 2 ^ 32);
    } in
    let spare = λ (c : ℕ) (d : c ≢ b) (q : Ptr) (i : q ∈ lists c).
      not_mem_middle q p a xs ys (subst (λ zs. q ∉ zs) e (inv.apart c b d q i)) in
    (
      u,
      clearsession_run t s1 p a _ _ ne at refl (ap (λ c. unlink c p s) at_p ∙ run) at1 refl,
      record {
        table =
            IsTable-update t u lists b (xs ++ ys) inv
              (IsCounted-frame s1 s2 b null (xs ++ ys) gone.list
                (λ c i. write_ne s1.heap p none c (ne_of_mem c p (xs ++ ys) i out)) refl)
              (let (pl, pr) = Placed-parts b xs ((p, a) ∷ ys) (subst (Placed b) e (inv.placed b)) in
                Placed-append b xs ys pl pr.1)
              (λ c d q i.
                let (o, n, o') = spare c d q i in
                (write_ne s1.heap p none q n ∙ gone.same q o o', not_mem-append q xs ys o o'))
              gone.others;
        freed = write_self s1.heap p none;
        workers = refl;
        numworkers = refl;
        sent = refl;
      },
    )
