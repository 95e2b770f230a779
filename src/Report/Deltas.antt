-- ===== src/Report/Deltas.antt =====
-- main/xdp_stats.c: the sums over the CPUs, through wrap-around, and a lookup that fails.
use anti_dos.Base.{ℕ, ◌+◌, ◌%◌, ◌^◌, ◌<◌, ◌≡◌, true, refl, List, [], ◌∷◌, none, some, arith}
use anti_dos.Filter.Stats.{Datarec}
use anti_dos.Report.{Reading, Lookup, sum_cpus, map_collect}

unfoldable pub packets_sum : List Datarec → ℕ
packets_sum [] = 0
packets_sum (v ∷ vs) = v.rx_packets + packets_sum vs

unfoldable pub bytes_sum : List Datarec → ℕ
bytes_sum [] = 0
bytes_sum (v ∷ vs) = v.rx_bytes + bytes_sum vs

pub sum_cpus_lem :
    (vs : List Datarec) (s : Datarec)
    → s.rx_packets < 2 ^ 64
    → s.rx_bytes < 2 ^ 64
    → ((sum_cpus vs s).rx_packets ≡ (s.rx_packets + packets_sum vs) % 2 ^ 64)
      × ((sum_cpus vs s).rx_bytes ≡ (s.rx_bytes + bytes_sum vs) % 2 ^ 64)
unfolding sum_cpus packets_sum bytes_sum
sum_cpus_lem [] s p q = omega arith
sum_cpus_lem (v ∷ vs) s p q = omega (
  arith,
  sum_cpus_lem vs
      (record {
        rx_packets = (s.rx_packets + v.rx_packets) % 2 ^ 64;
        rx_bytes = (s.rx_bytes + v.rx_bytes) % 2 ^ 64;
      })
      (omega arith) (omega arith),
)

-- The reading of a per-CPU map at `now` with the counters `vs`.
abbrev pub percpu_reading : ℕ → List Datarec → Datarec → Lookup
percpu_reading now vs junk = record { now = now; single = none; percpu = some vs; junk = junk }

-- A failed lookup is reported as a reading: whatever the memory of `value` held is taken for the
-- counters.
pub map_collect_unread :
    (now : ℕ) (junk : Datarec) (r : Reading)
    → map_collect 6 (record { now = now; single = none; percpu = none; junk = junk }) r
      ≡ (true, record { timestamp = now; total = junk })
unfolding map_collect
map_collect_unread now junk r = refl
