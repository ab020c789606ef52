-- ===== src/Cleanup/Sweep.antt =====
-- `cleanuplist` against a specification on the contents of the bucket.
use mathlib.Core.Path.{subst}
use mathlib.Core.List.{append_assoc}
use opennop.Prelude.{
  ℕ, zero, suc, ◌+◌, ◌-◌, ◌%◌, ◌^◌, ◌<◌, ◌≡◌, refl, sym, ap, ◌∙◌, ◌≢◌, inl, inr, true, false, some,
  List, [], ◌∷◌, ◌++◌, arith, if◌then◌else◌, length, length-append, Bool-cases,
}
use opennop.Prelude.Run.{ok}
use opennop.Heap.{Ptr, null, Node, Store, update, set_item}
use opennop.Heap.Points.{load-ok, update_self}
use opennop.Heap.Segment.{Seg, first_or, Seg-right}
use opennop.Heap.Link.{IsCounted}
use opennop.Heap.Unlink.{Seg-at}
use opennop.Sessions.{Session, Keepalive, Table, clearsession}
use opennop.Sessions.Invariant.{IsTable}
use opennop.Sessions.Modify.{update-update, update_same, set_item-IsTable}
use opennop.Sessions.Clear.{Cleared, clearsession-Cleared}
use opennop.Cleanup.{probes, checked, is_dead, cleanup_loop, cleanuplist}

-- Dead sessions go, the others are checked.
unfoldable pub survivors : List (Ptr × Session) → List (Ptr × Session)
survivors [] = []
survivors ((p, a) ∷ xs) = if is_dead a then survivors xs else (p, checked a) ∷ survivors xs

-- The keepalives of the survivors, the last one sent first.
unfoldable pub all_probes : List (Ptr × Session) → List Keepalive → List Keepalive
all_probes [] sent = sent
all_probes ((p, a) ∷ xs) sent = all_probes xs (if is_dead a then sent else probes a ++ sent)

-- Each dead session is taken off its worker's count.
unfoldable pub released : List (Ptr × Session) → (ℕ → ℕ) → ℕ → ℕ
released [] sessions = sessions
released ((p, a) ∷ xs) sessions = released xs (
    if is_dead a
    then update sessions a.queue ((sessions a.queue + 2 ^ 32 - 1) % 2 ^ 32)
    else sessions)

module _ (fuel : ℕ) (p : Ptr) (t : Table) (n : Node Session) (ne : p ≢ null)
    (at : t.buckets.heap p ≡ some n) where
  loop-dead_last :
      (u : Table)
      → n.next ≡ null
      → is_dead n.item ≡ true
      → clearsession p t ≡ ok null u
      → cleanup_loop (suc fuel) p t ≡ ok tt u
  unfolding cleanup_loop
  loop-dead_last u last dead run = ground (arith, load-ok p t.buckets n ne at)

  loop-dead :
      (u : Table) (m : Node Session)
      → n.next ≢ null
      → is_dead n.item ≡ true
      → t.buckets.heap n.next ≡ some m
      → m.prev ≡ p
      → clearsession p t ≡ ok null u
      → cleanup_loop (suc fuel) p t ≡ cleanup_loop fuel n.next u
  unfolding cleanup_loop
  loop-dead u m next dead at_next back run =
      ground (arith, load-ok p t.buckets n ne at, load-ok n.next t.buckets m next at_next)

  loop-alive :
      (s : Store Session)
      → is_dead n.item ≡ false
      → set_item p (checked n.item) t.buckets ≡ ok tt s
      → cleanup_loop (suc fuel) p t
        ≡ cleanup_loop fuel n.next (record t { sent = probes n.item ++ t.sent; buckets = s })
  unfolding cleanup_loop
  loop-alive s alive run = ground (arith, load-ok p t.buckets n ne at)

-- The dead session in front of `xs`, whether it is the last one or not.
loop-dead_step :
    (fuel : ℕ) (p : Ptr) (a : Session) (t u : Table) (front xs : List (Ptr × Session))
    → Seg t.buckets.heap null null (front ++ (p, a) ∷ xs)
    → is_dead a ≡ true
    → clearsession p t ≡ ok null u
    → 0 < fuel
    → cleanup_loop (suc fuel) p t ≡ cleanup_loop fuel (first_or xs null) u
loop-dead_step zero p a t u front xs s dead run pos = absurd (omega arith)
loop-dead_step (suc fuel) p a t u front [] s dead run pos =
    let at = Seg-at t.buckets.heap null null p a front [] s in
    loop-dead_last (suc fuel) p t _ at.0 at.1 u refl dead run ∙ (unfold cleanup_loop in refl)
loop-dead_step (suc fuel) p a t u front ((q, c) ∷ zs) s dead run pos =
    let at = Seg-at t.buckets.heap null null p a front ((q, c) ∷ zs) s in
    let right = Seg-right t.buckets.heap null null front ((p, a) ∷ (q, c) ∷ zs) s in
    loop-dead (suc fuel) p t _ at.0 at.1 u _ right.3.0 dead right.3.1 refl run

cleanuplist_start :
    (t : Table) (b : ℕ) (xs : List (Ptr × Session))
    → IsCounted t.buckets b null xs
    → cleanuplist b t ≡ cleanup_loop ((t.buckets.heads b).qlen + 1) (first_or xs null) t
unfolding cleanuplist
cleanuplist_start t b [] l = rw (l.next, l.count)
cleanuplist_start t b ((p, a) ∷ xs) l = let ne = l.chain.0 in ground (arith, l.next)

-- The sweep has passed `xs`, whose sessions stand in front of it as `front`.
pub record Swept (t : Table) (lists : ℕ → List (Ptr × Session)) (b : ℕ)
    (front xs : List (Ptr × Session)) (u : Table) : Type 0 where
  pub table : IsTable u (update lists b (front ++ survivors xs))
  pub workers : u.sessions ≡ released xs t.sessions
  pub sent : u.sent ≡ all_probes xs t.sent

checked-head : (a : Session) → (checked a).head ≡ a.head
unfolding checked
checked-head a = refl

module _ (t u : Table) (lists : ℕ → List (Ptr × Session)) (b : ℕ) (p : Ptr) (a : Session)
    (front xs : List (Ptr × Session)) where
  Swept-dead :
      (v : Table)
      → is_dead a ≡ true
      → Cleared t lists b p a front xs u
      → Swept u (update lists b (front ++ xs)) b front xs v
      → Swept t lists b front ((p, a) ∷ xs) v
  unfolding survivors released all_probes
  Swept-dead v dead gone rest = record {
    table = rw dead (subst (IsTable v) (update-update lists b _ _) rest.table);
    workers = rw dead (rest.workers ∙ ap (released xs) gone.workers);
    sent = rw dead (rest.sent ∙ ap (all_probes xs) gone.sent);
  }

  Swept-alive :
      (v : Table)
      → is_dead a ≡ false
      → u.sent ≡ probes a ++ t.sent
      → u.sessions ≡ t.sessions
      → Swept u
          (update lists b (front ++ (p, checked a) ∷ xs))
          b
          (front ++ (p, checked a) ∷ [])
          xs
          v
      → Swept t lists b front ((p, a) ∷ xs) v
  unfolding survivors released all_probes
  Swept-alive v alive sent workers rest = record {
    table = rw alive (
        subst (IsTable v)
          (update-update lists b _ _
            ∙ ap (update lists b) (append_assoc front ((p, checked a) ∷ []) (survivors xs)))
          rest.table);
    workers = rw alive (rest.workers ∙ ap (released xs) workers);
    sent = rw alive (rest.sent ∙ ap (all_probes xs) sent);
  }

loop-Swept :
    (fuel : ℕ) (t : Table) (lists : ℕ → List (Ptr × Session)) (b : ℕ)
    (front xs : List (Ptr × Session))
    → IsTable t lists
    → lists b ≡ front ++ xs
    → length xs < fuel
    → length front + length xs < 2 ^ 32
    → (u : Table) × (cleanup_loop fuel (first_or xs null) t ≡ ok tt u) × Swept t lists b front xs u
loop-Swept zero t lists b front xs inv e h fits = absurd (omega arith)
loop-Swept (suc fuel) t lists b front [] inv e h fits = (
  t,
  unfold cleanup_loop in refl,
  record {
    table = unfold survivors in subst (IsTable t) (sym (update_same lists b (front ++ []) e)) inv;
    workers = unfold released in refl;
    sent = unfold all_probes in refl;
  },
)
loop-Swept (suc fuel) t lists b front ((p, a) ∷ xs) inv e h fits =
    let l : IsCounted t.buckets b null (front ++ (p, a) ∷ xs) =
      subst (IsCounted t.buckets b null) e (inv.bucket b) in
    let at = Seg-at t.buckets.heap null null p a front xs l.chain in
    elim (Bool-cases (is_dead a)) [
      | inl dead ↦
          let (u, run, gone) = clearsession-Cleared t lists b p a front xs inv e (omega arith) in
          let (v, run', rest) =
            loop-Swept fuel u (update lists b (front ++ xs)) b front xs gone.table
              (update_self lists b (front ++ xs)) (omega arith) (omega arith) in
          (
            v,
            loop-dead_step fuel p a t u front xs l.chain dead run (omega arith) ∙ run',
            Swept-dead t u lists b p a front xs v dead gone rest,
          )
      | inr alive ↦
          let t1 : Table = record t { sent = probes a ++ t.sent } in
          let inv1 : IsTable t1 lists = record {
            bucket = inv.bucket;
            apart = inv.apart;
            placed = inv.placed;
          } in
          let (s, run, new) =
            set_item-IsTable t1 lists b p a (checked a) front xs inv1 e (checked-head a) in
          let u : Table = record t { sent = probes a ++ t.sent; buckets = s } in
          let (v, run', rest) =
            loop-Swept fuel u (update lists b (front ++ (p, checked a) ∷ xs)) b
              (front ++ (p, checked a) ∷ []) xs new
              (update_self lists b (front ++ (p, checked a) ∷ xs)
                ∙ sym (append_assoc front ((p, checked a) ∷ []) xs))
              (omega arith) (omega (arith, length-append front ((p, checked a) ∷ []))) in
          (
            v,
            loop-alive fuel p t _ at.0 at.1 s alive run ∙ run',
            Swept-alive t u lists b p a front xs v alive refl refl rest,
          )
    ]

pub cleanuplist_run :
    (t : Table) (lists : ℕ → List (Ptr × Session)) (b : ℕ)
    → IsTable t lists
    → length (lists b) < 2 ^ 32
    → (u : Table) × (cleanuplist b t ≡ ok tt u) × Swept t lists b [] (lists b) u
cleanuplist_run t lists b inv fits =
    let (u, run, swept) =
      loop-Swept ((t.buckets.heads b).qlen + 1) t lists b [] (lists b) inv refl
        (omega (arith, (inv.bucket b).count)) (omega arith) in
    (u, cleanuplist_start t b (lists b) (inv.bucket b) ∙ run, swept)
