-- ===== src/Report/Main.antt =====
-- main/xdp_stats.c: `main`, which opens the map of counters and prints from it for ever.
pub mod Exact
use anti_dos.Base.{
  ℕ, List, [], ◌∷◌, Option, none, some, ℤ, pos, negsuc, ◌==◌, replicate, if◌then◌else◌,
}
use anti_dos.Maps.Kernel.{Sys, BpfMapInfo, Text}
use anti_dos.Maps.{check_map_fd_info, open_bpf_map_file, exit_fail_bpf, join_path}
use anti_dos.UpdateList.{pin_basedir, no_info, is_minus_one}
use anti_dos.Params.{Opt, Config, bare_config, parse_cmdline_args}
use anti_dos.Policy.BlackList.{or_else}
use anti_dos.Loader.{map_name}
use anti_dos.Filter.Stats.{xdp_action_max}
use anti_dos.Report.{Lookup, Reading, Row, no_records, stats_collect, stats_poll}

-- An exit with a code, or what is printed in the rounds of the endless loop.
pub data Shown (Store : Type 0) : Type 0 where
  exits : ℤ → Store → Shown Store
  prints : List (List Row) → Store → Shown Store

-- `map_expect`: a `struct datarec` for each action.
abbrev pub stats_expect : BpfMapInfo
stats_expect = record {
  kind = 0;
  id = 0;
  key_size = 4;
  value_size = 16;
  max_entries = xdp_action_max;
}

-- `struct stats_record record = { 0 }`
abbrev pub zero_readings : List Reading
zero_readings = replicate xdp_action_max (record { timestamp = 0; total = no_records })

-- `first` is the quick reading, `rounds` those of the loop.
module _ (sys : Sys) (first : List Lookup) (rounds : List (List Lookup)) where
  open sys use {Store}

  -- Behind the opening of the map.
  unfoldable pub report_map : ℤ × Option BpfMapInfo × Store → Shown Store
  unfolding check_map_fd_info stats_collect stats_poll
  report_map (negsuc _, seen, s) = exits (pos exit_fail_bpf) s
  report_map (pos map_fd, seen, s) =
      let info = or_else seen no_info in
      if check_map_fd_info info stats_expect == 0
      then prints (stats_poll info.kind rounds (stats_collect info.kind first zero_readings)) s
      else exits (pos (check_map_fd_info info stats_expect)) s

  -- Behind the options.
  unfoldable pub run_report : Config → Store → Shown Store
  unfolding open_bpf_map_file join_path report_map
  run_report cfg s =
      if is_minus_one cfg.ifindex
      then exits (pos 2) s
      else report_map
          (open_bpf_map_file sys (join_path pin_basedir (or_else cfg.ifname [])) map_name s)

  unfoldable pub report_main : (Text → ℕ) → (Text → ℤ) → List Opt → Store → Shown Store
  unfolding parse_cmdline_args bare_config run_report
  report_main if_nametoindex atoi os s =
      elim (parse_cmdline_args if_nametoindex atoi os bare_config) [
        | none ↦ exits (pos 2) s
        | some cfg ↦ run_report cfg s
      ]
