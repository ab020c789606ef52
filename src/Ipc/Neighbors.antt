-- ===== src/Ipc/Neighbors.antt =====
-- What add_update_neighbor and del_neighbor of opennopd/subsystems/ipc.c do to the neighbors in the order
-- of their links; Ipc.Links has the links, and Ipc.Links.View relates the two.
use opennop.Prelude.{
  ◌+◌, ◌≤◌, length, length-append, length-drop, drop, ℕ, ◌≡◌, refl, sym, ap, ◌∙◌, ◌≢◌, inl, inr,
  Option, none, some, List, [], ◌∷◌, arith, ◌==◌, if◌then◌else◌, Bool-cases, set, replicate,
}
use opennop.Ipc.{Neighbor, down, write_at, find_neighbor_by_u32}

-- The 65 bytes of a key, for a string of at most 64: `validate_neighbor_input` refuses a longer one.
-- Ipc.Links has the copy that leaves the field.
abbrev pub stored_key : List ℕ → List ℕ
stored_key key = write_at 0 key (replicate 65 0)

unfoldable pub with_key : Option (List ℕ) → Neighbor → Neighbor
with_key none n = record n { key = replicate 65 0 }
with_key (some key) n = record n { key = stored_key key }

-- `raw` is the memory as `malloc` returns it. Without a key only the first byte of one is written.
unfoldable pub allocate_neighbor : Neighbor → ℕ → ℕ → Option (List ℕ) → Neighbor
unfolding with_key
allocate_neighbor raw now ip key =
    let n = record raw {
      neighbor_ip = ip;
      state = down;
      id = set raw.id 0 0;
      sock = 0;
      key = set raw.key 0 0;
      timer = now;
      hellotimer = now;
    } in
    elim key [ none ↦ n | some k ↦ with_key (some k) n ]

unfoldable pub with_neighbor : Neighbor → ℕ → ℕ → Option (List ℕ) → List Neighbor → List Neighbor
with_neighbor raw now ip key [] = allocate_neighbor raw now ip key ∷ []
with_neighbor raw now ip key (n ∷ ns) =
    if n.neighbor_ip == ip then with_key key n ∷ ns else n ∷ with_neighbor raw now ip key ns

unfoldable pub without_neighbor : ℕ → List Neighbor → List Neighbor
without_neighbor ip [] = []
without_neighbor ip (n ∷ ns) = if n.neighbor_ip == ip then ns else n ∷ without_neighbor ip ns

-- No two neighbors have the same address.
abbrev pub Distinct : List Neighbor → Type 0
Distinct [] = Unit
Distinct (n ∷ ns) = (find_neighbor_by_u32 n.neighbor_ip ns ≡ none) × Distinct ns

find-add_self :
    (raw : Neighbor) (now ip : ℕ) (key : List ℕ) (ns : List Neighbor)
    → (n : Neighbor) × (find_neighbor_by_u32 ip (with_neighbor raw now ip (some key) ns) ≡ some n)
      × (n.neighbor_ip ≡ ip)
      × (n.key ≡ stored_key key)
unfolding with_neighbor find_neighbor_by_u32 allocate_neighbor with_key
find-add_self raw now ip key [] =
    (allocate_neighbor raw now ip (some key), ground arith, refl, refl)
find-add_self raw now ip key (x ∷ xs) = elim (Bool-cases (x.neighbor_ip == ip)) [
  | inl same ↦ (with_key (some key) x, rw (same, same) refl, ground arith, refl)
  | inr differ ↦
      let (n, found, address, stored) = find-add_self raw now ip key xs in
      (n, rw (differ, differ) found, address, stored)
]

find-add_other :
    (raw : Neighbor) (now ip ip' : ℕ) (key : Option (List ℕ)) (ns : List Neighbor)
    → ip' ≢ ip
    → find_neighbor_by_u32 ip' (with_neighbor raw now ip key ns) ≡ find_neighbor_by_u32 ip' ns
unfolding with_neighbor find_neighbor_by_u32 allocate_neighbor with_key
find-add_other raw now ip ip' none [] ne = ground arith
find-add_other raw now ip ip' (some k) [] ne = ground arith
find-add_other raw now ip ip' none (x ∷ xs) ne =
    let rest = find-add_other raw now ip ip' none xs ne in ground arith
find-add_other raw now ip ip' (some k) (x ∷ xs) ne =
    let rest = find-add_other raw now ip ip' (some k) xs ne in ground arith

find-del_other :
    (ip ip' : ℕ) (ns : List Neighbor)
    → ip' ≢ ip
    → find_neighbor_by_u32 ip' (without_neighbor ip ns) ≡ find_neighbor_by_u32 ip' ns
unfolding without_neighbor find_neighbor_by_u32
find-del_other ip ip' [] ne = refl
find-del_other ip ip' (x ∷ xs) ne = let rest = find-del_other ip ip' xs ne in ground arith

find-del_self :
    (ip : ℕ) (ns : List Neighbor)
    → Distinct ns
    → find_neighbor_by_u32 ip (without_neighbor ip ns) ≡ none
unfolding without_neighbor find_neighbor_by_u32
find-del_self ip [] d = refl
find-del_self ip (x ∷ xs) d = elim (Bool-cases (x.neighbor_ip == ip)) [
  | inl same ↦
      let this : x.neighbor_ip ≡ ip = ground arith in
      rw same (ap (λ a. find_neighbor_by_u32 a xs) (sym this) ∙ d.0)
  | inr differ ↦ rw (differ, differ) (find-del_self ip xs (d.1))
]

with_key-ip : (key : Option (List ℕ)) (n : Neighbor) → (with_key key n).neighbor_ip ≡ n.neighbor_ip
unfolding with_key
with_key-ip none n = refl
with_key-ip (some k) n = refl

pub add-Distinct :
    (raw : Neighbor) (now ip : ℕ) (key : Option (List ℕ)) (ns : List Neighbor)
    → Distinct ns
    → Distinct (with_neighbor raw now ip key ns)
unfolding with_neighbor find_neighbor_by_u32
add-Distinct raw now ip key [] d = (refl, tt)
add-Distinct raw now ip key (x ∷ xs) d = elim (Bool-cases (x.neighbor_ip == ip)) [
  | inl same ↦ rw same (ap (λ a. find_neighbor_by_u32 a xs) (with_key-ip key x) ∙ d.0, d.1)
  | inr differ ↦ rw differ (
    find-add_other raw now ip x.neighbor_ip key xs (ground arith) ∙ d.0,
    add-Distinct raw now ip key xs (d.1),
  )
]

pub del-Distinct : (ip : ℕ) (ns : List Neighbor) → Distinct ns → Distinct (without_neighbor ip ns)
unfolding without_neighbor
del-Distinct ip [] d = tt
del-Distinct ip (x ∷ xs) d = elim (Bool-cases (x.neighbor_ip == ip)) [
  | inl same ↦ rw same (d.1)
  | inr differ ↦
      rw differ (find-del_other ip x.neighbor_ip xs (ground arith) ∙ d.0, del-Distinct ip xs (d.1))
]

stored_key-length : (key : List ℕ) → length key ≤ 64 → length (stored_key key) ≡ 65
stored_key-length key h =
    let zeros : List ℕ = replicate 65 0 in
    length-append key (drop (0 + length key) zeros)
    ∙ omega (arith, length-drop (0 + length key) zeros)

-- When no two neighbors share an address, the same holds after `with_neighbor` with a key of at
-- most 64 bytes; the address is then found with that key, in a field of 65 bytes, and what is found
-- for any other address `ip'` stays the same.
pub with_neighbor_lem :
    (raw : Neighbor) (now ip ip' : ℕ) (key : List ℕ) (ns : List Neighbor)
    → Distinct ns
    → ip' ≢ ip
    → length key ≤ 64
    → let new = with_neighbor raw now ip (some key) ns in
      Distinct new
      × ((n : Neighbor) × (find_neighbor_by_u32 ip new ≡ some n)
          × (n.neighbor_ip ≡ ip)
          × (n.key ≡ stored_key key)
          × (length n.key ≡ 65))
      × (find_neighbor_by_u32 ip' new ≡ find_neighbor_by_u32 ip' ns)
with_neighbor_lem raw now ip ip' key ns d ne short =
    let (n, found, address, stored) = find-add_self raw now ip key ns in
    (
      add-Distinct raw now ip (some key) ns d,
      (n, found, address, stored, ap length stored ∙ stored_key-length key short),
      find-add_other raw now ip ip' (some key) ns ne,
    )

-- When no two neighbors share an address, the same holds after `without_neighbor`; the address is then
-- not found, and what is found for any other address `ip'` stays the same.
pub without_neighbor_lem :
    (ip ip' : ℕ) (ns : List Neighbor)
    → Distinct ns
    → ip' ≢ ip
    → Distinct (without_neighbor ip ns)
      × (find_neighbor_by_u32 ip (without_neighbor ip ns) ≡ none)
      × (find_neighbor_by_u32 ip' (without_neighbor ip ns) ≡ find_neighbor_by_u32 ip' ns)
without_neighbor_lem ip ip' ns d ne =
    (del-Distinct ip ns d, find-del_self ip ns d, find-del_other ip ip' ns ne)
