-- ===== src/Counters.antt =====
-- opennopd/subsystems/counters.c and opennopd/subsystems/worker.c: the rates of a worker. The
-- counters have 32 bits; UPDATECOUNTERSTIMER is 5 seconds.
pub mod Rate
use opennop.Prelude.{ℕ, ◌+◌, ◌-◌, ◌/◌, ◌%◌, ◌^◌, ltb, if◌then◌else◌}

abbrev pub updatecounterstimer : ℕ
updatecounterstimer = 5

unfoldable pub calculate_ppsbps : ℕ → ℕ → ℕ
calculate_ppsbps previouscount currentcount =
    let scale = 2 ^ 32 / 2 in
    if ltb previouscount currentcount
    then (currentcount - previouscount) / updatecounterstimer
    else ((currentcount + scale) % 2 ^ 32 + 2 ^ 32 - (previouscount + scale) % 2 ^ 32)
      % 2 ^ 32
      / updatecounterstimer

pub record WorkerCounters : Type 0 where
  pub packets : ℕ
  pub packetsprevious : ℕ
  pub pps : ℕ
  pub bytesin : ℕ
  pub bytesinprevious : ℕ
  pub bpsin : ℕ
  pub bytesout : ℕ
  pub bytesoutprevious : ℕ
  pub bpsout : ℕ

unfoldable pub counter_updateworkermetrics : WorkerCounters → WorkerCounters
unfolding calculate_ppsbps
counter_updateworkermetrics m = record m {
  pps = calculate_ppsbps m.packetsprevious m.packets;
  packetsprevious = m.packets;
  bpsin = calculate_ppsbps m.bytesinprevious m.bytesin;
  bytesinprevious = m.bytesin;
  bpsout = calculate_ppsbps m.bytesoutprevious m.bytesout;
  bytesoutprevious = m.bytesout;
}
