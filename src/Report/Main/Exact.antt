-- ===== src/Report/Main/Exact.antt =====
-- main/xdp_stats.c: a round of the loop prints the totals and the rates since the reading before.
use anti_dos.Base.{
  ℕ, suc, ◌+◌, ◌*◌, ◌/◌, ◌%◌, ◌^◌, ◌<◌, ◌≡◌, ◌≢◌, refl, sym, ◌∙◌, ap, ◌==◌, true, List, [], ◌∷◌,
  some, ℤ, pos, map, All, length, arith, if_then, if_else,
}
use anti_dos.Maps.Kernel.{Sys, BpfMapInfo, Text}
use anti_dos.Maps.{check_map_fd_info, open_bpf_map_file, join_path}
use anti_dos.UpdateList.{pin_basedir, is_minus_one}
use anti_dos.Params.{Opt, Config, bare_config, parse_cmdline_args}
use anti_dos.Policy.BlackList.{or_else}
use anti_dos.Loader.{map_name}
use anti_dos.Filter.Stats.{Datarec}
use anti_dos.Report.{
  Lookup, Reading, Row, no_records, diff64, map_collect, stats_collect, stats_print, stats_poll,
  map_get_value_percpu_array,
}
use anti_dos.Report.Deltas.{packets_sum, bytes_sum, sum_cpus_lem, percpu_reading}
use anti_dos.Report.Main.{prints, stats_expect, zero_readings, report_map, run_report, report_main}

-- What one action's counters were at `before` and are at `now`, on each CPU, and how many packets
-- and bytes were counted in between.
pub record Change : Type 0 where
  pub before : ℕ
  pub now : ℕ
  pub old : List Datarec
  pub new : List Datarec
  pub packets : ℕ
  pub bytes : ℕ
  pub junk : Datarec

-- The times differ, and fewer than 2^64 packets and bytes were counted, if counters wrap around.
pub record Counted (c : Change) : Type 0 where
  pub before_fits : c.before < 2 ^ 64
  pub now_fits : c.now < 2 ^ 64
  pub later : c.now ≢ c.before
  pub packets_fit : c.packets < 2 ^ 64
  pub bytes_fit : c.bytes < 2 ^ 64
  pub packets_are : packets_sum c.new % 2 ^ 64 ≡ (packets_sum c.old + c.packets) % 2 ^ 64
  pub bytes_are : bytes_sum c.new % 2 ^ 64 ≡ (bytes_sum c.old + c.bytes) % 2 ^ 64

abbrev pub old_lookup : Change → Lookup
old_lookup c = percpu_reading c.before c.old c.junk

abbrev pub new_lookup : Change → Lookup
new_lookup c = percpu_reading c.now c.new c.junk

length-map {ℓ κ} :
    {A : Type ℓ} {B : Type κ} (f : A → B) (xs : List A) → length (map f xs) ≡ length xs
length-map f [] = refl
length-map f (x ∷ xs) = ap suc (length-map f xs)

-- The rows from action `i`: the totals are the sums of the CPUs' counters in 64 bits, the bytes in
-- thousands, and the rates are of exactly the packets and eight times the bytes counted in between.
abbrev pub exact_rows : ℕ → List Change → List Row
exact_rows i [] = []
exact_rows i (c ∷ cs) =
    record {
      action = i;
      rx_packets = packets_sum c.new % 2 ^ 64;
      pps = c.packets;
      kbytes = (bytes_sum c.new % 2 ^ 64) / 1000;
      bps = (c.bytes * 8) % 2 ^ 64;
      period = diff64 c.now c.before;
    }
    ∷ exact_rows (suc i) cs

-- The reading of a per-CPU map.
abbrev read : Lookup → Reading
read l = record { timestamp = l.now; total = map_get_value_percpu_array l.percpu l.junk }

stats_collect_lem :
    (ls : List Lookup) (rs : List Reading)
    → length ls ≡ length rs
    → stats_collect 6 ls rs ≡ map read ls
unfolding stats_collect map_collect
stats_collect_lem [] [] e = refl
stats_collect_lem [] (r ∷ rs) e = absurd (omega arith)
stats_collect_lem (l ∷ ls) [] e = absurd (omega arith)
stats_collect_lem (l ∷ ls) (r ∷ rs) e =
    ap (λ xs. read l ∷ xs) (stats_collect_lem ls rs (omega arith))

stats_print-exact_rows :
    (i : ℕ) (cs : List Change)
    → All Counted cs
    → stats_print i (map read (map new_lookup cs)) (map read (map old_lookup cs)) ≡ exact_rows i cs
unfolding stats_print map_get_value_percpu_array
stats_print-exact_rows i [] h = refl
stats_print-exact_rows i (c ∷ cs) (h, hs) = ground (
  arith,
  sum_cpus_lem c.old no_records (omega arith) (omega arith),
  sum_cpus_lem c.new no_records (omega arith) (omega arith),
  h.before_fits,
  h.now_fits,
  h.later,
  h.packets_fit,
  h.bytes_fit,
  h.packets_are,
  h.bytes_are,
  stats_print-exact_rows (suc i) cs hs,
)

poll_round-exact_rows :
    (cs : List Change)
    → length cs ≡ 5
    → All Counted cs
    → stats_poll 6 (map new_lookup cs ∷ []) (stats_collect 6 (map old_lookup cs) zero_readings)
      ≡ exact_rows 0 cs ∷ []
unfolding stats_poll
poll_round-exact_rows cs five h =
    let old =
      stats_collect_lem (map old_lookup cs) zero_readings (length-map old_lookup cs ∙ five) in
    let new = stats_collect_lem (map new_lookup cs) (map read (map old_lookup cs)) (
      length-map new_lookup cs
      ∙ sym (length-map read (map old_lookup cs) ∙ length-map old_lookup cs)) in
    ap (λ x. stats_print 0 (stats_collect 6 (map new_lookup cs) x) x ∷ []) old
    ∙ ap (λ x. stats_print 0 x (map read (map old_lookup cs)) ∷ []) new
    ∙ ap (λ x. x ∷ []) (stats_print-exact_rows 0 cs h)

map_checked :
    (info : BpfMapInfo)
    → (info.key_size ≡ 4) × (info.value_size ≡ 16) × (info.max_entries ≡ 5)
    → (check_map_fd_info info stats_expect == 0) ≡ true
unfolding check_map_fd_info
map_checked info (k, v, m) = ground (arith, k, v, m)

module _ (sys : Sys) (cs : List Change) where
  map_behind :
      (info : BpfMapInfo) (map_fd : ℕ) (s : sys.Store)
      → (info.key_size ≡ 4) × (info.value_size ≡ 16) × (info.max_entries ≡ 5)
      → info.kind ≡ 6
      → length cs ≡ 5
      → All Counted cs
      → report_map sys (map old_lookup cs) (map new_lookup cs ∷ []) (pos map_fd, some info, s)
        ≡ prints (exact_rows 0 cs ∷ []) s
  unfolding report_map
  map_behind info map_fd s sizes percpu five h =
      if_then (check_map_fd_info info stats_expect == 0) _ _ (map_checked info sizes)
      ∙ ap
          (λ k.
            prints
              (stats_poll k (map new_lookup cs ∷ [])
                (stats_collect k (map old_lookup cs) zero_readings))
              s)
          percpu
      ∙ ap (λ x. prints x s) (poll_round-exact_rows cs five h)

  options_behind :
      (cfg : Config) (i : ℕ) (s : sys.Store)
      → cfg.ifindex ≡ pos i
      → run_report sys (map old_lookup cs) (map new_lookup cs ∷ []) cfg s
        ≡ report_map sys
            (map old_lookup cs)
            (map new_lookup cs ∷ [])
            (open_bpf_map_file sys (join_path pin_basedir (or_else cfg.ifname [])) map_name s)
  unfolding run_report
  options_behind cfg i s at = if_else (is_minus_one cfg.ifindex) _ _ (ap is_minus_one at)

  main_behind :
      (if_nametoindex : Text → ℕ) (atoi : Text → ℤ) (os : List Opt) (cfg : Config) (s : sys.Store)
      → parse_cmdline_args if_nametoindex atoi os bare_config ≡ some cfg
      → report_main sys (map old_lookup cs) (map new_lookup cs ∷ []) if_nametoindex atoi os s
        ≡ run_report sys (map old_lookup cs) (map new_lookup cs ∷ []) cfg s
  unfolding report_main run_report
  main_behind if_nametoindex atoi os cfg s parsed = rw (report_main, parsed) refl

  -- The command line is accepted and names the interface, the map of counters is opened, and it is
  -- a per-CPU map with a record for each of the five actions. If for each action the times of the
  -- first two readings differ and the CPUs together counted fewer than 2^64 packets and bytes in
  -- between, then the first round prints a row for each action: the totals are the sums of the new
  -- counters in 64 bits, the bytes in thousands, and the rates are computed from exactly the
  -- packets and the eightfold bytes in 64 bits that were counted in between, whether or not a
  -- counter or a sum has wrapped around.
  pub report_main_lem :
      (if_nametoindex : Text → ℕ) (atoi : Text → ℤ) (os : List Opt) (cfg : Config) (i map_fd : ℕ)
      (info : BpfMapInfo) (s s1 : sys.Store)
      → parse_cmdline_args if_nametoindex atoi os bare_config ≡ some cfg
      → cfg.ifindex ≡ pos i
      → open_bpf_map_file sys (join_path pin_basedir (or_else cfg.ifname [])) map_name s
        ≡ (pos map_fd, some info, s1)
      → (info.key_size ≡ 4) × (info.value_size ≡ 16) × (info.max_entries ≡ 5)
      → info.kind ≡ 6
      → length cs ≡ 5
      → All Counted cs
      → report_main sys (map old_lookup cs) (map new_lookup cs ∷ []) if_nametoindex atoi os s
        ≡ prints (exact_rows 0 cs ∷ []) s1
  report_main_lem if_nametoindex atoi os cfg i map_fd info s s1 parsed at opened sizes percpu five
        h =
      main_behind if_nametoindex atoi os cfg s parsed
      ∙ options_behind cfg i s at
      ∙ ap (report_map sys (map old_lookup cs) (map new_lookup cs ∷ [])) opened
      ∙ map_behind info map_fd s1 sizes percpu five h
