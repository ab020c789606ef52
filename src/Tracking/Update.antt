-- ===== src/Tracking/Update.antt =====
-- A packet changes its own session only.
use mathlib.Core.Path.{subst}
use opennop.Prelude.{
  ℕ, ◌+◌, ◌-◌, ◌%◌, ◌^◌, ◌<◌, ◌≡◌, refl, ◌≢◌, inl, inr, true, false, some, List, ◌∷◌, ◌++◌, arith,
  ◌==◌, Bool-cases,
}
use opennop.Prelude.Run.{ok}
use opennop.Heap.{Ptr, null, Node, Store, update, set_item}
use opennop.Heap.Points.{load-ok}
use opennop.Heap.Segment.{Seg}
use opennop.Heap.Unlink.{Seg-at}
use opennop.Queue.{success, failure}
use opennop.Sessions.{Endpoint, Side, larger_side, smaller_side, Session, Table}
use opennop.Sessions.Invariant.{IsTable}
use opennop.Sessions.Modify.{set_item-IsTable}
use opennop.Tracking.{
  other, endpoint_of, with_endpoint, tracked, side_of, seq, end_of, is_keepalive, update_session,
  updateseq, sourceisclient, client_is, saveacceleratorid, accelerator_is,
}

update_session_run :
    (larger_ip : ℕ) (f : Session → Session) (p : Ptr) (n : Node Session) (s u : Store Session)
    → larger_ip ≢ 0
    → p ≢ null
    → s.heap p ≡ some n
    → set_item p (f n.item) s ≡ ok tt u
    → update_session larger_ip f p s ≡ ok success u
unfolding update_session
update_session_run larger_ip f p n s u ne np at run =
    let ne' : (larger_ip == 0) ≡ false = ground arith in
    let np' : (p == null) ≡ false = ground arith in rw (ne', np', load-ok p s n np at, run)

update_session_guard :
    (larger_ip : ℕ) (f : Session → Session) (p : Ptr) (s : Store Session)
    → (update_session 0 f p s ≡ ok failure s) × (update_session larger_ip f null s ≡ ok failure s)
unfolding update_session
update_session_guard larger_ip f p s = (refl, ground arith)

update_session-Updated :
    (t : Table) (lists : ℕ → List (Ptr × Session)) (b : ℕ) (p : Ptr) (a : Session)
    (xs ys : List (Ptr × Session)) (larger_ip : ℕ) (f : Session → Session)
    → IsTable t lists
    → lists b ≡ xs ++ (p, a) ∷ ys
    → larger_ip ≢ 0
    → (f a).head ≡ a.head
    → (s : Store Session) × (update_session larger_ip f p t.buckets ≡ ok success s)
      × IsTable (record t { buckets = s }) (update lists b (xs ++ (p, f a) ∷ ys))
update_session-Updated t lists b p a xs ys larger_ip f inv e ne keeps =
    let at =
      Seg-at t.buckets.heap null null p a xs ys
        (subst (Seg t.buckets.heap null null) e (inv.bucket b).chain) in
    let (s, run, table) = set_item-IsTable t lists b p a (f a) xs ys inv e keeps in
    (s, update_session_run larger_ip f p _ t.buckets s ne (at.0) (at.1) run, table)

with_endpoint-head :
    (side : Side) (e : Endpoint) (s : Session) → (with_endpoint side e s).head ≡ s.head
with_endpoint-head larger_side e s = refl
with_endpoint-head smaller_side e s = refl

tracked-head : (packet : List ℕ) (side : Side) (s : Session) → (tracked packet side s).head ≡ s.head
unfolding tracked
tracked-head packet side s = elim (Bool-cases (is_keepalive packet (endpoint_of side s))) [
  | inl keep ↦ rw keep
  | inr counts ↦ rw counts (with_endpoint-head side _ _)
]

pub updates_run :
    (t : Table) (lists : ℕ → List (Ptr × Session)) (b : ℕ) (p : Ptr) (a : Session)
    (xs ys : List (Ptr × Session)) (larger_ip : ℕ) (packet id : List ℕ)
    → IsTable t lists
    → lists b ≡ xs ++ (p, a) ∷ ys
    → larger_ip ≢ 0
    → let side = side_of larger_ip packet in
      let keeps = λ (s : Store Session) (a' : Session).
        IsTable (record t { buckets = s }) (update lists b (xs ++ (p, a') ∷ ys)) in
      ((s : Store Session) × (updateseq larger_ip packet p t.buckets ≡ ok success s)
        × keeps s (tracked packet side a))
      × ((s : Store Session) × (sourceisclient larger_ip packet p t.buckets ≡ ok success s)
          × keeps s (client_is side a))
      × ((s : Store Session) × (saveacceleratorid larger_ip id packet p t.buckets ≡ ok success s)
          × keeps s (accelerator_is id side a))
      × (updateseq larger_ip packet null t.buckets ≡ ok failure t.buckets)
      × (sourceisclient larger_ip packet null t.buckets ≡ ok failure t.buckets)
      × (saveacceleratorid larger_ip id packet null t.buckets ≡ ok failure t.buckets)
unfolding updateseq sourceisclient saveacceleratorid
updates_run t lists b p a xs ys larger_ip packet id inv e ne =
    let side = side_of larger_ip packet in
    let f1 = tracked packet side in
    let f2 = client_is side in
    let f3 = accelerator_is id side in
    (
      update_session-Updated t lists b p a xs ys larger_ip f1 inv e ne (tracked-head packet side a),
      update_session-Updated t lists b p a xs ys larger_ip f2 inv e ne refl,
      update_session-Updated t lists b p a xs ys larger_ip f3 inv e ne
          (with_endpoint-head side _ a),
      (update_session_guard larger_ip f1 p t.buckets).1,
      (update_session_guard larger_ip f2 p t.buckets).1,
      (update_session_guard larger_ip f3 p t.buckets).1,
    )

-- What the table remembers of an endpoint after a packet that counts.
pub record Followed (p : List ℕ) (side : Side) (old new : Session) : Type 0 where
  pub sequence : (endpoint_of side new).sequence ≡ seq p
  pub nextsequence : (endpoint_of side new).nextsequence ≡ end_of p
  pub opposite : endpoint_of (other side) new ≡ endpoint_of (other side) old
  pub alive : new.deadcounter ≡ 0

-- A packet one below the last sequence number, and not the next expected one, changes nothing.
pub tracked-keepalive :
    (p : List ℕ) (side : Side) (s : Session)
    → seq p ≢ (endpoint_of side s).nextsequence
    → (seq p + 1) % 2 ^ 32 ≡ (endpoint_of side s).sequence
    → seq p < 2 ^ 32
    → tracked p side s ≡ s
unfolding tracked
tracked-keepalive p side s ne below small =
    let e : seq p ≡ ((endpoint_of side s).sequence + 2 ^ 32 - 1) % 2 ^ 32 = omega arith in
    let keep : is_keepalive p (endpoint_of side s) ≡ true = ground (arith, e, ne) in rw keep
