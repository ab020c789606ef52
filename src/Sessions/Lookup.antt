-- ===== src/Sessions/Lookup.antt =====
-- `getsession` against a search of the bucket's contents.
use opennop.Prelude.{
  ℕ, zero, suc, ◌+◌, ◌<◌, ◌≡◌, inl, inr, Bool, true, false, List, [], ◌∷◌, arith, if◌then◌else◌,
  length, Bool-cases,
}
use opennop.Prelude.Run.{ok}
use opennop.Heap.{Ptr, null, Store, node}
use opennop.Heap.Points.{load-ok}
use opennop.Heap.Segment.{Seg}
use opennop.Heap.Link.{IsCounted}
use opennop.Sessions.{Session, bucket_of, is_match, getsession_loop, getsession}

-- The first address whose session passes the test, or NULL.
unfoldable pub find : (Session → Bool) → List (Ptr × Session) → Ptr
find test [] = null
find test ((p, a) ∷ xs) = if test a then p else find test xs

loop-Seg :
    (test : Session → Bool) (s : Store Session) (fuel : ℕ) (b p : Ptr) (a : Session)
    (xs : List (Ptr × Session))
    → Seg s.heap b null ((p, a) ∷ xs)
    → length xs < fuel
    → getsession_loop test fuel p s ≡ ok (find test ((p, a) ∷ xs)) s
unfolding getsession_loop find
loop-Seg test s zero b p a xs c h = absurd (omega arith)
loop-Seg test s (suc fuel) b p a [] c h = ground (arith, load-ok p s (node null b a) c.0 c.1)
loop-Seg test s (suc fuel) b p a ((q, d) ∷ xs) c h =
    let rest = loop-Seg test s fuel p q d xs c.3 (omega arith) in
    let ne = c.3.0 in
    elim (Bool-cases (test a)) [
      | inl hit ↦ ground (arith, load-ok p s (node q b a) c.0 c.1)
      | inr miss ↦ ground (arith, load-ok p s (node q b a) c.0 c.1)
    ]

-- The session has the key's two addresses and two ports.
abbrev pub HasKey : ℕ → ℕ → ℕ → ℕ → Session → Type 0
HasKey lip lport sip sport a =
    (a.larger.address ≡ lip)
    × (a.larger.port ≡ lport)
    × (a.smaller.address ≡ sip)
    × (a.smaller.port ≡ sport)

-- The address of the first session with the key, or NULL.
pub data FirstWith (lip lport sip sport : ℕ) : List (Ptr × Session) → Ptr → Type 0 where
  missing : FirstWith lip lport sip sport [] null
  here :
      {p : Ptr} {a : Session} {xs : List (Ptr × Session)}
      → HasKey lip lport sip sport a
      → FirstWith lip lport sip sport ((p, a) ∷ xs) p
  further :
      {p r : Ptr} {a : Session} {xs : List (Ptr × Session)}
      → ¬ HasKey lip lport sip sport a
      → FirstWith lip lport sip sport xs r
      → FirstWith lip lport sip sport ((p, a) ∷ xs) r

module _ (lip lport sip sport : ℕ) where
  is_match-HasKey :
      (a : Session) → is_match lip lport sip sport a ≡ true → HasKey lip lport sip sport a
  unfolding is_match
  is_match-HasKey a e = (ground arith, ground arith, ground arith, ground arith)

  is_match-other :
      (a : Session) → is_match lip lport sip sport a ≡ false → ¬ HasKey lip lport sip sport a
  unfolding is_match
  is_match-other a e (k1, k2, k3, k4) = ground arith

  find-FirstWith :
      (xs : List (Ptr × Session))
      → FirstWith lip lport sip sport xs (find (is_match lip lport sip sport) xs)
  unfolding find
  find-FirstWith [] = missing
  find-FirstWith ((p, a) ∷ xs) = elim (Bool-cases (is_match lip lport sip sport a)) [
    | inl hit ↦ rw hit (here (is_match-HasKey a hit))
    | inr miss ↦ rw miss (further (is_match-other a miss) (find-FirstWith xs))
  ]

pub getsession_run :
    (s : Store Session) (lip lport sip sport : ℕ) (xs : List (Ptr × Session))
    → IsCounted s (bucket_of lip lport sip sport) null xs
    → getsession lip lport sip sport s ≡ ok (find (is_match lip lport sip sport) xs) s
unfolding getsession find
getsession_run s lip lport sip sport [] l = ground arith
getsession_run s lip lport sip sport ((p, a) ∷ xs) l =
    let run =
      loop-Seg (is_match lip lport sip sport) s ((s.heads (bucket_of lip lport sip sport)).qlen + 1)
        null p a xs l.chain (omega (arith, l.count)) in
    let ne = l.chain.0 in ground (arith, l.next)

-- On a bucket whose head counts its sessions, `getsession` ends, changes nothing and returns the
-- first session of the key's bucket that has the key's two addresses and two ports, or NULL if
-- there is none.
pub getsession-find :
    (s : Store Session) (lip lport sip sport : ℕ) (xs : List (Ptr × Session))
    → IsCounted s (bucket_of lip lport sip sport) null xs
    → (r : Ptr) × (getsession lip lport sip sport s ≡ ok r s) × FirstWith lip lport sip sport xs r
getsession-find s lip lport sip sport xs l = (
  find (is_match lip lport sip sport) xs,
  getsession_run s lip lport sip sport xs l,
  find-FirstWith lip lport sip sport xs,
)
