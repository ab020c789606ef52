-- ===== src/Tracking/Sender.antt =====
-- What a packet changes in its session, in terms of the session's own fields.
use opennop.Prelude.{
  ℕ, ◌+◌, ◌-◌, ◌%◌, ◌^◌, ◌≡◌, ◌≢◌, inl, inr, true, false, some, List, ◌∷◌, ◌++◌, arith, ◌==◌,
  Bool-cases,
}
use opennop.Prelude.Run.{ok}
use opennop.Heap.{Ptr, null, Store, update}
use opennop.Queue.{success, failure}
use opennop.Sessions.{Endpoint, larger_side, smaller_side, Session, Table}
use opennop.Sessions.Invariant.{IsTable}
use opennop.Tracking.{
  saddr, seq, end_of, is_keepalive, tracked, side_of, client_is, accelerator_is, updateseq,
  sourceisclient, saveacceleratorid,
}
use opennop.Tracking.Accelerator.{IsId, save_opennopid_lem}
use opennop.Tracking.Update.{updates_run}

-- One below the last sequence number, and not the next one.
abbrev pub IsProbe : List ℕ → Endpoint → Type 0
IsProbe p e = (seq p ≢ e.nextsequence) × (seq p ≡ (e.sequence + 2 ^ 32 - 1) % 2 ^ 32)

abbrev pub reached : List ℕ → Endpoint → Endpoint
reached p e = record e { sequence = seq p; nextsequence = end_of p }

-- The session after `updateseq`.
pub data Tracked (larger_ip : ℕ) (p : List ℕ) (a : Session) : Session → Type 0 where
  larger_probe : saddr p ≡ larger_ip → IsProbe p (a.larger) → Tracked larger_ip p a a
  smaller_probe : saddr p ≢ larger_ip → IsProbe p (a.smaller) → Tracked larger_ip p a a
  larger_moves :
      saddr p ≡ larger_ip
      → ¬ IsProbe p (a.larger)
      → Tracked larger_ip p a (record a { larger = reached p (a.larger); deadcounter = 0 })
  smaller_moves :
      saddr p ≢ larger_ip
      → ¬ IsProbe p (a.smaller)
      → Tracked larger_ip p a (record a { smaller = reached p (a.smaller); deadcounter = 0 })

-- The session after `sourceisclient`.
pub data Client (larger_ip : ℕ) (p : List ℕ) (a : Session) : Session → Type 0 where
  larger_is :
      saddr p ≡ larger_ip
      → Client larger_ip p a (record a { client = some larger_side; server = some smaller_side })
  smaller_is :
      saddr p ≢ larger_ip
      → Client larger_ip p a (record a { client = some smaller_side; server = some larger_side })

-- The session after `saveacceleratorid`.
pub data Accelerated (larger_ip : ℕ) (p id : List ℕ) (a : Session) : Session → Type 0 where
  larger_by :
      saddr p ≡ larger_ip
      → Accelerated larger_ip p id a (record a { larger = record (a.larger) { accelerator = id } })
  smaller_by :
      saddr p ≢ larger_ip
      → Accelerated larger_ip p id a
          (record a { smaller = record (a.smaller) { accelerator = id } })

IsProbe-yes : (p : List ℕ) (e : Endpoint) → is_keepalive p e ≡ true → IsProbe p e
IsProbe-yes p e h = (ground arith, ground arith)

IsProbe-no : (p : List ℕ) (e : Endpoint) → is_keepalive p e ≡ false → ¬ IsProbe p e
IsProbe-no p e h (ne, below) = ground arith

module _ (larger_ip : ℕ) (p : List ℕ) (a : Session) where
  tracked-Tracked : Tracked larger_ip p a (tracked p (side_of larger_ip p) a)
  unfolding tracked
  tracked-Tracked = elim (Bool-cases (saddr p == larger_ip)) [
    | inl same ↦ elim (Bool-cases (is_keepalive p (a.larger))) [
      | inl probe ↦
          rw same (rw probe (larger_probe (ground arith) (IsProbe-yes p (a.larger) probe)))
      | inr moves ↦ rw same (rw moves (larger_moves (ground arith) (IsProbe-no p (a.larger) moves)))
    ]
    | inr differ ↦ elim (Bool-cases (is_keepalive p (a.smaller))) [
      | inl probe ↦
          rw differ (rw probe (smaller_probe (ground arith) (IsProbe-yes p (a.smaller) probe)))
      | inr moves ↦
          rw differ (rw moves (smaller_moves (ground arith) (IsProbe-no p (a.smaller) moves)))
    ]
  ]

  client_is-Client : Client larger_ip p a (client_is (side_of larger_ip p) a)
  client_is-Client = elim (Bool-cases (saddr p == larger_ip)) [
    | inl same ↦ rw same (larger_is (ground arith))
    | inr differ ↦ rw differ (smaller_is (ground arith))
  ]

  accelerator_is-Accelerated :
      (id : List ℕ)
      → IsId id
      → IsId (a.larger.accelerator)
      → IsId (a.smaller.accelerator)
      → Accelerated larger_ip p id a (accelerator_is id (side_of larger_ip p) a)
  accelerator_is-Accelerated id four f1 f2 = elim (Bool-cases (saddr p == larger_ip)) [
    | inl same ↦
        rw same
          (rw (save_opennopid_lem id (a.larger.accelerator) four f1) (larger_by (ground arith)))
    | inr differ ↦
        rw differ
          (rw (save_opennopid_lem id (a.smaller.accelerator) four f2) (smaller_by (ground arith)))
  ]

-- For a session of the table and an address that is not 0, with IDs of four bytes, `updateseq`,
-- `sourceisclient` and `saveacceleratorid` succeed and change only that session, in its place: the
-- endpoint whose address is the packet's source (the larger one if it is `larger_ip`, else the
-- smaller one) moves to the packet's sequence number, unless this is a keepalive's; is the client,
-- and the other one the server; or gets the ID. For NULL they fail and change nothing.
pub updates-IsTable :
    (t : Table) (lists : ℕ → List (Ptr × Session)) (b : ℕ) (p : Ptr) (a : Session)
    (xs ys : List (Ptr × Session)) (larger_ip : ℕ) (packet id : List ℕ)
    → IsTable t lists
    → lists b ≡ xs ++ (p, a) ∷ ys
    → larger_ip ≢ 0
    → IsId id
    → IsId (a.larger.accelerator)
    → IsId (a.smaller.accelerator)
    → let holds = λ (s : Store Session) (a' : Session).
      IsTable (record t { buckets = s }) (update lists b (xs ++ (p, a') ∷ ys)) in
      ((s : Store Session) × (a' : Session) × (updateseq larger_ip packet p t.buckets
          ≡ ok success s)
        × holds s a'
        × Tracked larger_ip packet a a')
      × ((s : Store Session) × (a' : Session) × (sourceisclient larger_ip packet p t.buckets
            ≡ ok success s)
          × holds s a'
          × Client larger_ip packet a a')
      × ((s : Store Session) × (a' : Session) × (saveacceleratorid larger_ip id packet p t.buckets
            ≡ ok success s)
          × holds s a'
          × Accelerated larger_ip packet id a a')
      × (updateseq larger_ip packet null t.buckets ≡ ok failure t.buckets)
      × (sourceisclient larger_ip packet null t.buckets ≡ ok failure t.buckets)
      × (saveacceleratorid larger_ip id packet null t.buckets ≡ ok failure t.buckets)
updates-IsTable t lists b p a xs ys larger_ip packet id inv e ne four f1 f2 =
    let ((s, run, new), (s', run', new'), (s'', run'', new''), n1, n2, n3) =
      updates_run t lists b p a xs ys larger_ip packet id inv e ne in
    (
      (s, _, run, new, tracked-Tracked larger_ip packet a),
      (s', _, run', new', client_is-Client larger_ip packet a),
      (s'', _, run'', new'', accelerator_is-Accelerated larger_ip packet a id four f1 f2),
      n1,
      n2,
      n3,
    )
