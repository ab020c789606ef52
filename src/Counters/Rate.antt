-- ===== src/Counters/Rate.antt =====
-- The rates are right across a roll-over.
use opennop.Prelude.{ℕ, ◌+◌, ◌-◌, ◌/◌, ◌%◌, ◌^◌, ◌≤◌, ◌<◌, ◌≡◌, ap, ◌∙◌, arith}
use opennop.Counters.{calculate_ppsbps, WorkerCounters, counter_updateworkermetrics}

rate_lem :
    (a b : ℕ) → a < 2 ^ 32 → b < 2 ^ 32 → calculate_ppsbps a b ≡ (b + 2 ^ 32 - a) % 2 ^ 32 / 5
unfolding calculate_ppsbps
rate_lem a b ha hb = ground arith

calculate_ppsbps_lem :
    (before now : ℕ)
    → before ≤ now
    → now - before < 2 ^ 32
    → calculate_ppsbps (before % 2 ^ 32) (now % 2 ^ 32) ≡ (now - before) / 5
calculate_ppsbps_lem before now h small =
    rate_lem (before % 2 ^ 32) (now % 2 ^ 32) (omega arith) (omega arith)
    ∙ ap (λ k. k / 5) (omega arith)

-- A counter of 32 bits and its last reading, for true totals that differ by less than 2 ^ 32.
pub record Reads (previous current before now : ℕ) : Type 0 where
  pub last : previous ≡ before % 2 ^ 32
  pub this : current ≡ now % 2 ^ 32
  pub grows : before ≤ now
  pub small : now - before < 2 ^ 32

Reads-rate :
    {previous current before now : ℕ}
    → Reads previous current before now
    → calculate_ppsbps previous current ≡ (now - before) / 5
Reads-rate {previous} {current} {before} {now} r =
    rw (r.last, r.this) (calculate_ppsbps_lem before now (r.grows) (r.small))

-- When the true totals of packets and bytes have grown by less than 2 ^ 32 since the last readings,
-- `counter_updateworkermetrics` stores the differences of the true totals divided by 5, whether the
-- 32-bit counters have rolled over or not, and the next readings start from the present counters.
pub counter_updateworkermetrics_lem :
    (m : WorkerCounters) (p p' i i' o o' : ℕ)
    → Reads m.packetsprevious m.packets p p'
    → Reads m.bytesinprevious m.bytesin i i'
    → Reads m.bytesoutprevious m.bytesout o o'
    → let n = counter_updateworkermetrics m in
      (n.pps ≡ (p' - p) / 5)
      × (n.bpsin ≡ (i' - i) / 5)
      × (n.bpsout ≡ (o' - o) / 5)
      × (n.packetsprevious ≡ p' % 2 ^ 32)
      × (n.bytesinprevious ≡ i' % 2 ^ 32)
      × (n.bytesoutprevious ≡ o' % 2 ^ 32)
unfolding counter_updateworkermetrics
counter_updateworkermetrics_lem m p p' i i' o o' rp ri ro =
    (Reads-rate rp, Reads-rate ri, Reads-rate ro, rp.this, ri.this, ro.this)
