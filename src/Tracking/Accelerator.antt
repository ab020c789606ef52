-- ===== src/Tracking/Accelerator.antt =====
-- The IDs of accelerators.
use mathlib.Core.Logic.{◌↔◌}
use opennop.Prelude.{ℕ, ◌≡◌, refl, ◌≢◌, ◌⊎◌, true, List, [], ◌∷◌, arith, length, replicate}
use opennop.Sessions.{Session}
use opennop.Tracking.{
  compare_loop, compare_opennopid, check_loop, check_opennopid, save_loop, save_opennopid,
  session_accelerated,
}

abbrev pub IsId : List ℕ → Type 0
IsId id = length id ≡ 4

-- The four bytes of an ID.
pub Id-bytes :
    (id : List ℕ) → IsId id → (a : ℕ) × (b : ℕ) × (c : ℕ) × (d : ℕ) × (id ≡ a ∷ b ∷ c ∷ d ∷ [])
Id-bytes (a ∷ b ∷ c ∷ d ∷ []) h = (a, b, c, d, refl)
Id-bytes [] h = absurd (omega arith)
Id-bytes (a ∷ []) h = absurd (omega arith)
Id-bytes (a ∷ b ∷ []) h = absurd (omega arith)
Id-bytes (a ∷ b ∷ c ∷ []) h = absurd (omega arith)
Id-bytes (a ∷ b ∷ c ∷ d ∷ e ∷ rest) h = absurd (omega arith)

compare_bytes :
    (a b c d a' b' c' d' : ℕ)
    → (compare_opennopid (a ∷ b ∷ c ∷ d ∷ []) (a' ∷ b' ∷ c' ∷ d' ∷ []) ≡ true)
      ↔ ((a ∷ b ∷ c ∷ d ∷ []) ≡ (a' ∷ b' ∷ c' ∷ d' ∷ []))
unfolding compare_opennopid compare_loop
compare_bytes a b c d a' b' c' d' = (λ h. ground arith, λ e. ground arith)

-- `compare_opennopid` decides whether two IDs are equal.
pub compare_opennopid_iff :
    (x y : List ℕ) → IsId x → IsId y → (compare_opennopid x y ≡ true) ↔ (x ≡ y)
compare_opennopid_iff x y hx hy =
    let (a, b, c, d, e) = Id-bytes x hx in
    let (a', b', c', d', e') = Id-bytes y hy in rw (e, e') (compare_bytes a b c d a' b' c' d')

check_bytes :
    (a b c d : ℕ)
    → (check_opennopid (a ∷ b ∷ c ∷ d ∷ []) ≡ true) ↔ ((a ∷ b ∷ c ∷ d ∷ []) ≢ replicate 4 0)
unfolding check_opennopid check_loop
check_bytes a b c d = (λ h e. ground arith, λ ne. ground arith)

save_bytes :
    (a b c d a' b' c' d' : ℕ)
    → save_opennopid (a ∷ b ∷ c ∷ d ∷ []) (a' ∷ b' ∷ c' ∷ d' ∷ []) ≡ (a ∷ b ∷ c ∷ d ∷ [])
unfolding save_opennopid save_loop
save_bytes a b c d a' b' c' d' = refl

-- `check_opennopid` tells the IDs that are not all zero.
pub check_opennopid_iff : (x : List ℕ) → IsId x → (check_opennopid x ≡ true) ↔ (x ≢ replicate 4 0)
check_opennopid_iff x hx = let (a, b, c, d, e) = Id-bytes x hx in rw e (check_bytes a b c d)

-- A saved ID is the one that was given.
pub save_opennopid_lem : (x y : List ℕ) → IsId x → IsId y → save_opennopid x y ≡ x
save_opennopid_lem x y hx hy =
    let (a, b, c, d, e) = Id-bytes x hx in
    let (a', b', c', d', e') = Id-bytes y hy in rw (e, e') (save_bytes a b c d a' b' c' d')

-- With IDs of four bytes, a session counts as accelerated just when one of its two accelerators is
-- the local one, both are known, and they differ.
pub session_accelerated_iff :
    (localid : List ℕ) (s : Session)
    → IsId localid
    → IsId s.larger.accelerator
    → IsId s.smaller.accelerator
    → (session_accelerated localid s ≡ true) ↔ (
        ((s.larger.accelerator ≡ localid) ⊎ (s.smaller.accelerator ≡ localid))
        × (s.larger.accelerator ≢ replicate 4 0)
        × (s.smaller.accelerator ≢ replicate 4 0)
        × (s.larger.accelerator ≢ s.smaller.accelerator))
unfolding session_accelerated
session_accelerated_iff localid s h hl hs =
    let l = s.larger.accelerator in
    let r = s.smaller.accelerator in
    let e1 = compare_opennopid_iff l localid hl h in
    let e2 = compare_opennopid_iff r localid hs h in
    let e3 = check_opennopid_iff l hl in
    let e4 = check_opennopid_iff r hs in
    let e5 = compare_opennopid_iff l r hl hs in ground (arith, e1, e2, e3, e4, e5)
