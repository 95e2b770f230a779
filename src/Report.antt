-- ===== src/Report.antt =====
-- main/xdp_stats.c: reading the counters of all CPUs, and the differences that are printed.
-- `double` values are not modelled: a period is its nanoseconds, and a rate is the integer that is
-- divided by it, the packets for packets per second and eight times the bytes for megabits per
-- second. The clock, the reads of the map, the memory of `value` and what is on the screen are
-- arguments and results.
pub mod Deltas
pub mod Main
use anti_dos.Base.{
  ℕ, zero, suc, ◌+◌, ◌-◌, ◌*◌, ◌/◌, ◌%◌, ◌^◌, Bool, true, false, List, [], ◌∷◌, ◌++◌, Option, none,
  some, ◌==◌, if◌then◌else◌,
}
use anti_dos.Filter.Stats.{Datarec}

abbrev pub nanosec_per_sec : ℕ
nanosec_per_sec = 1000000000

-- `gettime`: the two fields of a `timespec`, in 64 bits.
unfoldable pub gettime : ℕ → ℕ → ℕ
gettime tv_sec tv_nsec = (tv_sec * nanosec_per_sec + tv_nsec) % 2 ^ 64

pub record Reading : Type 0 where
  pub timestamp : ℕ
  pub total : Datarec

-- `a - b` on `__u64`.
abbrev pub diff64 : ℕ → ℕ → ℕ
diff64 a b = (a + 2 ^ 64 - b) % 2 ^ 64

unfoldable pub calc_period : Reading → Reading → ℕ
calc_period r p = diff64 r.timestamp p.timestamp

-- The loop over the CPUs.
unfoldable pub sum_cpus : List Datarec → Datarec → Datarec
sum_cpus [] sum = sum
sum_cpus (v ∷ vs) sum = sum_cpus vs (record {
  rx_packets = (sum.rx_packets + v.rx_packets) % 2 ^ 64;
  rx_bytes = (sum.rx_bytes + v.rx_bytes) % 2 ^ 64;
})

abbrev pub no_records : Datarec
no_records = record { rx_packets = 0; rx_bytes = 0 }

-- `none`: the lookup failed, and `value` keeps what it holds.
unfoldable pub map_get_value_array : Option Datarec → Datarec → Datarec
map_get_value_array none value = value
map_get_value_array (some v) value = v

unfoldable pub map_get_value_percpu_array : Option (List Datarec) → Datarec → Datarec
unfolding sum_cpus
map_get_value_percpu_array none value = value
map_get_value_percpu_array (some values) value = sum_cpus values no_records

-- The map types that `map_collect` knows.
abbrev pub bpf_map_type_array : ℕ
bpf_map_type_array = 2

abbrev pub bpf_map_type_percpu_array : ℕ
bpf_map_type_percpu_array = 6

-- One key: the time, what a lookup in either kind of map gives, and the memory of `value`.
pub record Lookup : Type 0 where
  pub now : ℕ
  pub single : Option Datarec
  pub percpu : Option (List Datarec)
  pub junk : Datarec

unfoldable pub map_collect : ℕ → Lookup → Reading → Bool × Reading
unfolding map_get_value_array map_get_value_percpu_array
map_collect map_type l rec =
    if map_type == bpf_map_type_array
    then (true, record { timestamp = l.now; total = map_get_value_array l.single l.junk })
    else if map_type == bpf_map_type_percpu_array
    then (true, record { timestamp = l.now; total = map_get_value_percpu_array l.percpu l.junk })
    else (false, record rec { timestamp = l.now })

-- One reading for each action; the result of `map_collect` is not looked at.
unfoldable pub stats_collect : ℕ → List Lookup → List Reading → List Reading
unfolding map_collect
stats_collect map_type (l ∷ ls) (r ∷ rs) =
    (map_collect map_type l r).1 ∷ stats_collect map_type ls rs
stats_collect map_type [] rs = rs
stats_collect map_type (l ∷ ls) [] = []

-- A printed row: the action, the two totals, what the two rates divide by the period, and the
-- period.
pub record Row : Type 0 where
  pub action : ℕ
  pub rx_packets : ℕ
  pub pps : ℕ
  pub kbytes : ℕ
  pub bps : ℕ
  pub period : ℕ

-- The loop from action `i`; the first period of 0 ends it.
unfoldable pub stats_print : ℕ → List Reading → List Reading → List Row
unfolding calc_period
stats_print i (rec ∷ recs) (prev ∷ prevs) =
    let rest = stats_print (suc i) recs prevs in
    if calc_period rec prev == 0
    then []
    else record {
      action = i;
      rx_packets = rec.total.rx_packets;
      pps = diff64 rec.total.rx_packets prev.total.rx_packets;
      kbytes = rec.total.rx_bytes / 1000;
      bps = (diff64 rec.total.rx_bytes prev.total.rx_bytes * 8) % 2 ^ 64;
      period = calc_period rec prev;
    }
      ∷ rest
stats_print i recs [] = []
stats_print i [] (prev ∷ prevs) = []

-- The rounds of `while (1)`: each prints the new readings against the old.
unfoldable pub stats_poll : ℕ → List (List Lookup) → List Reading → List (List Row)
unfolding stats_collect stats_print
stats_poll map_type [] prev = []
stats_poll map_type (ls ∷ rounds) prev =
    let next = stats_collect map_type ls prev in
    stats_print 0 next prev ∷ stats_poll map_type rounds next
