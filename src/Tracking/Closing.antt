-- ===== src/Tracking/Closing.antt =====
-- The two FIN packets that close a session.
use mathlib.Core.Path.{subst}
use opennop.Prelude.{
  ℕ, ◌+◌, ◌^◌, ◌<◌, ◌≡◌, refl, sym, ap, ◌∙◌, ◌≢◌, false, List, ◌∷◌, ◌++◌, arith, ◌==◌, length, some,
}
use opennop.Prelude.Run.{ok}
use opennop.Heap.{Ptr, null, Node, Store, update, set_item}
use opennop.Heap.Points.{load-ok, update_self}
use opennop.Heap.Segment.{Seg}
use opennop.Heap.Unlink.{Seg-at}
use opennop.Sessions.{Session, Table, clearsession}
use opennop.Sessions.Invariant.{IsTable}
use opennop.Sessions.Modify.{set_item-IsTable}
use opennop.Sessions.Clear.{Cleared, clearsession-Cleared}
use opennop.Tracking.{closingsession, tcp_established, tcp_closing}

module _ (t : Table) (p : Ptr) (n : Node Session) (np : p ≢ null)
    (at : t.buckets.heap p ≡ some n) where
  closing_first :
      (s : Store Session)
      → n.item.state ≡ tcp_established
      → set_item p (record (n.item) { state = tcp_closing }) t.buckets ≡ ok tt s
      → closingsession p t ≡ ok p (record t { buckets = s })
  unfolding closingsession
  closing_first s e run =
      let np' : (p == null) ≡ false = ground arith in rw (np', load-ok p t.buckets n np at, e, run)

  closing_second : n.item.state ≡ tcp_closing → closingsession p t ≡ clearsession p t
  unfolding closingsession
  closing_second e =
      let np' : (p == null) ≡ false = ground arith in rw (np', load-ok p t.buckets n np at, e)

  closing_other :
      n.item.state ≢ tcp_established → n.item.state ≢ tcp_closing → closingsession p t ≡ ok p t
  unfolding closingsession
  closing_other ne ne' =
      let np' : (p == null) ≡ false = ground arith in
      let f : (n.item.state == tcp_established) ≡ false = ground arith in
      let f' : (n.item.state == tcp_closing) ≡ false = ground arith in
      rw (np', load-ok p t.buckets n np at, f, f')

abbrev pub closing : Session → Session
closing a = record a { state = tcp_closing }

-- A session of the table has a node.
session_at :
    (t : Table) (lists : ℕ → List (Ptr × Session)) (b : ℕ) (p : Ptr) (a : Session)
    (xs ys : List (Ptr × Session))
    → IsTable t lists
    → lists b ≡ xs ++ (p, a) ∷ ys
    → (n : Node Session) × (p ≢ null) × (t.buckets.heap p ≡ some n) × (n.item ≡ a)
session_at t lists b p a xs ys inv e =
    let at =
      Seg-at t.buckets.heap null null p a xs ys
        (subst (Seg t.buckets.heap null null) e (inv.bucket b).chain) in
    (_, at.0, at.1, refl)

-- On an established session of a bucket of fewer than 2 ^ 32 the first call of `closingsession`
-- marks it as closing, in its place in the table, and the second takes it out, frees it and gives
-- its worker's place back.
pub closingsession-Cleared :
    (t : Table) (lists : ℕ → List (Ptr × Session)) (b : ℕ) (p : Ptr) (a : Session)
    (xs ys : List (Ptr × Session))
    → IsTable t lists
    → lists b ≡ xs ++ (p, a) ∷ ys
    → length xs + length ys + 1 < 2 ^ 32
    → a.state ≡ tcp_established
    → (u : Table) × (closingsession p t ≡ ok p u)
      × IsTable u (update lists b (xs ++ (p, closing a) ∷ ys))
      × (w : Table) × (closingsession p u ≡ ok null w)
      × Cleared u (update lists b (xs ++ (p, closing a) ∷ ys)) b p (closing a) xs ys w
closingsession-Cleared t lists b p a xs ys inv e fits established =
    let (n, np, at, item) = session_at t lists b p a xs ys inv e in
    let (s, run, table) = set_item-IsTable t lists b p a (closing a) xs ys inv e refl in
    let u : Table = record t { buckets = s } in
    let lists' = update lists b (xs ++ (p, closing a) ∷ ys) in
    let e' : lists' b ≡ xs ++ (p, closing a) ∷ ys = update_self lists b _ in
    let (n', np', at', item') = session_at u lists' b p (closing a) xs ys table e' in
    let (w, cleared, gone) = clearsession-Cleared u lists' b p (closing a) xs ys table e' fits in
    (
      u,
      closing_first t p n np at s (ap (λ x. x.state) item ∙ established)
          (ap (λ x. set_item p (closing x) t.buckets) item ∙ run),
      table,
      w,
      closing_second u p n' np' at' (ap (λ x. x.state) item') ∙ cleared,
      gone,
    )

-- In any other state than established or closing `closingsession` changes nothing.
pub closingsession-other :
    (t : Table) (lists : ℕ → List (Ptr × Session)) (b : ℕ) (p : Ptr) (a : Session)
    (xs ys : List (Ptr × Session))
    → IsTable t lists
    → lists b ≡ xs ++ (p, a) ∷ ys
    → a.state ≢ tcp_established
    → a.state ≢ tcp_closing
    → closingsession p t ≡ ok p t
closingsession-other t lists b p a xs ys inv e ne ne' =
    let (n, np, at, item) = session_at t lists b p a xs ys inv e in
    closing_other t p n np at (λ i. ne (sym (ap (λ x. x.state) item) ∙ i))
      (λ i. ne' (sym (ap (λ x. x.state) item) ∙ i))
