-- ===== src/Sessions/Map.antt =====
-- The table as a finite map: what `getsession` answers after `insertsession` and `clearsession`.
use native.Mathlib.Decide.{ℕ_discrete}
use opennop.Prelude.{
  ℕ, ◌+◌, ◌^◌, ◌<◌, ◌≡◌, refl, sym, ap, ◌∙◌, ◌≢◌, inl, inr, Bool, true, false, ◌&&◌, List, [], ◌∷◌,
  ◌++◌, arith, ◌==◌, if◌then◌else◌, length, Bool-cases,
}
use opennop.Prelude.Run.{ok}
use opennop.Heap.{Ptr, null, Heap, update}
use opennop.Heap.Points.{update_self, update_ne}
use opennop.Heap.Segment.{◌∉◌, Seg}
use opennop.Sessions.{
  Session, Table, bucket_of, is_match, new_session, chosen_worker, insertsession, getsession,
  clearsession,
}
use opennop.Sessions.Invariant.{IsTable}
use opennop.Sessions.Lookup.{find, getsession_run}
use opennop.Sessions.Insert.{insertsession-Added}
use opennop.Sessions.Clear.{clearsession-Cleared}

module _ (test : Session → Bool) where
  find-snoc :
      (h : Heap Session) (b e p : Ptr) (a : Session) (xs : List (Ptr × Session))
      → Seg h b e xs
      → find test (xs ++ (p, a) ∷ [])
        ≡ (if find test xs == null then (if test a then p else null) else find test xs)
  unfolding find
  find-snoc h b e p a [] s = refl
  find-snoc h b e p a ((q, d) ∷ xs) s =
      let rest = find-snoc h q e p a xs s.3 in
      let ne = s.0 in
      elim (Bool-cases (test d)) [ inl hit ↦ ground arith | inr miss ↦ ground arith ]

  find-drop :
      (p : Ptr) (a : Session) (xs ys : List (Ptr × Session))
      → test a ≡ false
      → find test (xs ++ ys) ≡ find test (xs ++ (p, a) ∷ ys)
  unfolding find
  find-drop p a [] ys miss = rw miss
  find-drop p a ((q, d) ∷ xs) ys miss = rw (find-drop p a xs ys miss)

-- A key matches a fresh session just when it is the key that the session was made for.
abbrev pub same_key : (lip lport sip sport lip' lport' sip' sport' : ℕ) → Bool
same_key lip lport sip sport lip' lport' sip' sport' =
    lip == lip' && lport == lport' && sip == sip' && sport == sport'

same_key-bucket_of :
    (lip lport sip sport lip' lport' sip' sport' : ℕ)
    → same_key lip lport sip sport lip' lport' sip' sport' ≡ true
    → bucket_of lip lport sip sport ≡ bucket_of lip' lport' sip' sport'
same_key-bucket_of lip lport sip sport lip' lport' sip' sport' e =
    let e1 : lip ≡ lip' = ground arith in
    let e2 : lport ≡ lport' = ground arith in
    let e3 : sip ≡ sip' = ground arith in let e4 : sport ≡ sport' = ground arith in cc

getsession-old :
    (t : Table) (lists : ℕ → List (Ptr × Session)) (lip lport sip sport old : ℕ)
    → IsTable t lists
    → getsession lip lport sip sport t.buckets ≡ ok old t.buckets
    → old ≡ find (is_match lip lport sip sport) (lists (bucket_of lip lport sip sport))
getsession-old t lists lip lport sip sport old inv e =
    cc (getsession_run t.buckets lip lport sip sport _ (inv.bucket (bucket_of lip lport sip sport)))

answer_join :
    (found old fresh : ℕ) (same : Bool)
    → old ≡ found
    → (if found == null then (if same then fresh else null) else found)
      ≡ (if same && old == null then fresh else old)
answer_join found old fresh same e = ground arith

find-update :
    (t : Table) (lists : ℕ → List (Ptr × Session)) (fresh queue : ℕ)
    (lip lport sip sport lip' lport' sip' sport' old : ℕ)
    → IsTable t lists
    → Dec (bucket_of lip' lport' sip' sport' ≡ bucket_of lip lport sip sport)
    → old ≡ find (is_match lip' lport' sip' sport') (lists (bucket_of lip' lport' sip' sport'))
    → find (is_match lip' lport' sip' sport') (
        update lists
          (bucket_of lip lport sip sport)
          (lists (bucket_of lip lport sip sport)
            ++ (fresh, new_session (bucket_of lip lport sip sport) queue lip lport sip sport) ∷ [])
          (bucket_of lip' lport' sip' sport'))
      ≡ (if same_key lip lport sip sport lip' lport' sip' sport' && old == null then fresh else old)
unfolding is_match
find-update t lists fresh queue lip lport sip sport lip' lport' sip' sport' old inv (yes e) was =
    let b = bucket_of lip lport sip sport in
    rw (e, update_self)
      (find-snoc (is_match lip' lport' sip' sport') t.buckets.heap null null fresh _ (lists b)
          (inv.bucket b).chain
        ∙ answer_join _ old fresh (same_key lip lport sip sport lip' lport' sip' sport')
            (was ∙ ap (λ c. find (is_match lip' lport' sip' sport') (lists c)) e))
find-update t lists fresh queue lip lport sip sport lip' lport' sip' sport' old inv (no ne) was =
    elim (Bool-cases (same_key lip lport sip sport lip' lport' sip' sport')) [
      | inl same ↦
          absurd (ne (sym (same_key-bucket_of lip lport sip sport lip' lport' sip' sport' same)))
      | inr other ↦ rw (other, update_ne lists _ _ _ ne) (sym was)
    ]

-- When `calloc` has given an unused address and the key's bucket stays below 2 ^ 32 sessions,
-- `insertsession` returns that address; `getsession` then answers with it for its own key if the
-- table had no session for it, and its answer for every other key, and for a key that it knew,
-- stays the same.
pub insertsession-getsession :
    (t : Table) (lists : ℕ → List (Ptr × Session)) (fresh : Ptr) (lip lport sip sport : ℕ)
    (lip' lport' sip' sport' old : ℕ)
    → IsTable t lists
    → length (lists (bucket_of lip lport sip sport)) + 1 < 2 ^ 32
    → fresh ≢ null
    → ((c : ℕ) → fresh ∉ lists c)
    → getsession lip' lport' sip' sport' t.buckets ≡ ok old t.buckets
    → (u : Table) × (insertsession fresh lip lport sip sport t ≡ ok fresh u)
      × (getsession lip' lport' sip' sport' u.buckets
          ≡ ok
              (if same_key lip lport sip sport lip' lport' sip' sport' && old == null
                then fresh
                else old)
              u.buckets)
insertsession-getsession t lists fresh lip lport sip sport lip' lport' sip' sport' old inv room ne
      unused e =
    let (u, run, added) =
      insertsession-Added t lists fresh lip lport sip sport inv room ne unused in
    (
      u,
      run,
      getsession_run u.buckets lip' lport' sip' sport' _
            (added.table.bucket (bucket_of lip' lport' sip' sport'))
          ∙ ap (λ p. ok p u.buckets)
              (find-update t lists fresh (chosen_worker t) lip lport sip sport lip' lport' sip'
                sport' old inv (ℕ_discrete _ _)
                (getsession-old t lists lip' lport' sip' sport' old inv e)),
    )

find-cleared :
    (test : Session → Bool) (b c : ℕ) (p : Ptr) (a : Session) (lists : ℕ → List (Ptr × Session))
    (xs ys : List (Ptr × Session)) (old : ℕ)
    → lists b ≡ xs ++ (p, a) ∷ ys
    → test a ≡ false
    → Dec (c ≡ b)
    → old ≡ find test (lists c)
    → find test (update lists b (xs ++ ys) c) ≡ old
find-cleared test b c p a lists xs ys old e miss (yes same) was =
    rw (same, update_self)
      (find-drop test p a xs ys miss ∙ sym (was ∙ ap (find test) (ap lists same ∙ e)))
find-cleared test b c p a lists xs ys old e miss (no ne) was =
    rw (update_ne lists b (xs ++ ys) c ne) (sym was)

-- Clearing a session of a bucket of fewer than 2 ^ 32 leaves the answer of `getsession` for every
-- key that the session does not have as it was.
pub clearsession-getsession :
    (t : Table) (lists : ℕ → List (Ptr × Session)) (b : ℕ) (p : Ptr) (a : Session)
    (xs ys : List (Ptr × Session)) (lip lport sip sport old : ℕ)
    → IsTable t lists
    → lists b ≡ xs ++ (p, a) ∷ ys
    → length xs + length ys + 1 < 2 ^ 32
    → is_match lip lport sip sport a ≡ false
    → getsession lip lport sip sport t.buckets ≡ ok old t.buckets
    → (u : Table) × (clearsession p t ≡ ok null u)
      × (getsession lip lport sip sport u.buckets ≡ ok old u.buckets)
clearsession-getsession t lists b p a xs ys lip lport sip sport old inv e fits miss was =
    let (u, run, gone) = clearsession-Cleared t lists b p a xs ys inv e fits in
    (
      u,
      run,
      getsession_run u.buckets lip lport sip sport _
            (gone.table.bucket (bucket_of lip lport sip sport))
          ∙ ap (λ q. ok q u.buckets)
              (find-cleared (is_match lip lport sip sport) b (bucket_of lip lport sip sport) p a
                lists xs ys old e miss (ℕ_discrete _ _)
                (getsession-old t lists lip lport sip sport old inv was)),
    )
