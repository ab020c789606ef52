-- ===== src/Sessions/Insert.antt =====
-- `insertsession` on the whole table.
use opennop.Prelude.{
  ℕ, ◌+◌, ◌%◌, ◌^◌, ◌<◌, ◌≡◌, refl, ◌∙◌, ◌≢◌, false, some, List, [], ◌∷◌, ◌++◌, arith, ◌==◌, length,
}
use opennop.Prelude.Run.{ok}
use opennop.Heap.{Ptr, null, Store, node, write, update}
use opennop.Heap.Points.{write_self, write_ne}
use opennop.Heap.Segment.{◌∈◌, ◌∉◌, ne_of_mem, not_mem_snoc}
use opennop.Heap.Link.{IsCounted, link_tail_lem}
use opennop.Sessions.{
  Session, Table, bucket_of, new_session, chosen_worker, add_session, insertsession,
  increment_worker_sessions,
}
use opennop.Sessions.Invariant.{IsCounted-frame, Placed-append, IsTable, IsTable-update}

-- `item` has joined bucket `b` under the address `fresh`, and is counted for its worker.
pub record Added (t : Table) (lists : ℕ → List (Ptr × Session)) (b : ℕ) (fresh : Ptr)
    (item : Session) (u : Table) : Type 0 where
  pub table : IsTable u (update lists b (lists b ++ (fresh, item) ∷ []))
  pub workers : u.sessions ≡ update t.sessions item.queue ((t.sessions item.queue + 1) % 2 ^ 32)
  pub numworkers : u.numworkers ≡ t.numworkers
  pub sent : u.sent ≡ t.sent

module _ (t : Table) (lists : ℕ → List (Ptr × Session)) (fresh : Ptr) (b : ℕ) (item : Session)
    (inv : IsTable t lists) (room : length (lists b) + 1 < 2 ^ 32) (ne : fresh ≢ null)
    (unused : (c : ℕ) → fresh ∉ lists c) (head : item.head ≡ b) where
  add_session_lem :
      (u : Table) × (add_session fresh b item.queue item t ≡ ok fresh u)
      × Added t lists b fresh item u
  unfolding add_session increment_worker_sessions
  add_session_lem =
      let s = t.buckets in
      let s1 : Store Session = record s {
        heap = write s.heap fresh (some (node null null item));
      } in
      let l1 : IsCounted s1 b null (lists b) =
        IsCounted-frame s s1 b null (lists b) (inv.bucket b)
          (λ c i. write_ne s.heap fresh _ c (ne_of_mem c fresh (lists b) i (unused b))) refl in
      let (s2, run, ins) =
        link_tail_lem s1 b null fresh item (lists b) l1 (λ _. refl) room ne
          (write_self s.heap fresh _) (unused b) in
      let spare = λ (c : ℕ) (d : c ≢ b) (p : Ptr) (i : p ∈ lists c).
        let out : p ∉ lists b = inv.apart c b d p i in
        let other : p ≢ fresh = ne_of_mem p fresh (lists c) i (unused c) in
        ins.same p out other ∙ write_ne s.heap fresh _ p other in
      let u : Table = record t {
        buckets = s2;
        sessions = update t.sessions item.queue ((t.sessions item.queue + 1) % 2 ^ 32);
      } in
      (
        u,
        rw run,
        record {
          table =
              IsTable-update t u lists b (lists b ++ (fresh, item) ∷ []) inv ins.list
                (Placed-append b (lists b) ((fresh, item) ∷ []) (inv.placed b) (head, tt))
                (λ c d p i. (
                  spare c d p i,
                  not_mem_snoc p fresh item (lists b) (inv.apart c b d p i)
                      (ne_of_mem p fresh (lists c) i (unused c)),
                ))
                ins.others;
          workers = refl;
          numworkers = refl;
          sent = refl;
        },
      )

-- When `calloc` has given an unused address and the key's bucket stays below 2 ^ 32 sessions,
-- `insertsession` returns it; the session stands last in the bucket of its key and is counted for
-- the chosen worker, and every other bucket holds what it held.
pub insertsession-Added :
    (t : Table) (lists : ℕ → List (Ptr × Session)) (fresh : Ptr) (lip lport sip sport : ℕ)
    → IsTable t lists
    → length (lists (bucket_of lip lport sip sport)) + 1 < 2 ^ 32
    → fresh ≢ null
    → ((c : ℕ) → fresh ∉ lists c)
    → (u : Table) × (insertsession fresh lip lport sip sport t ≡ ok fresh u)
      × Added t lists
          (bucket_of lip lport sip sport)
          fresh
          (new_session (bucket_of lip lport sip sport) (chosen_worker t) lip lport sip sport)
          u
unfolding insertsession
insertsession-Added t lists fresh lip lport sip sport inv room ne unused =
    let not_null : (fresh == null) ≡ false = ground arith in
    rw not_null (
      add_session_lem t lists fresh (bucket_of lip lport sip sport)
        (new_session (bucket_of lip lport sip sport) (chosen_worker t) lip lport sip sport) inv room
        ne unused refl)

-- Without memory nothing happens.
pub insertsession-null :
    (t : Table) (lip lport sip sport : ℕ) → insertsession null lip lport sip sport t ≡ ok null t
unfolding insertsession
insertsession-null t lip lport sip sport = refl
