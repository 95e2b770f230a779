-- ===== src/Tests/Report.antt =====
-- The witness of main/xdp_stats.c.
use anti_dos.Base.{ℕ, ◌≡◌, refl, Bool, false, [], ◌∷◌, List, some, ℤ, pos, arith, codes, map}
use anti_dos.Maps.Kernel.{Sys, BpfMapInfo, Text}
use anti_dos.Maps.{open_bpf_map_file}
use anti_dos.Params.{dev, bare_config, parse_cmdline_args}
use anti_dos.Filter.Stats.{Datarec}
use anti_dos.Report.{no_records}
use anti_dos.Report.Deltas.{packets_sum, bytes_sum}
use anti_dos.Report.Main.{prints, report_main}
use anti_dos.Report.Main.Exact.{
  Change, Counted, old_lookup, new_lookup, exact_rows, report_main_lem,
}

-- Two CPUs, of which the first wraps around between the readings.
abbrev earlier : List Datarec
earlier =
    record { rx_packets = 18446744073709551615; rx_bytes = 50 }
    ∷ record { rx_packets = 3; rx_bytes = 60 }
    ∷ []

abbrev later : List Datarec
later = record { rx_packets = 4; rx_bytes = 80 } ∷ record { rx_packets = 5; rx_bytes = 100 } ∷ []

abbrev seven : Change
seven = record {
  before = 1000;
  now = 2000;
  old = earlier;
  new = later;
  packets = 7;
  bytes = 70;
  junk = no_records;
}

seven-Counted : Counted seven
unfolding packets_sum bytes_sum
seven-Counted = record {
  before_fits = omega arith;
  now_fits = omega arith;
  later = omega arith;
  packets_fit = omega arith;
  bytes_fit = omega arith;
  packets_are = refl;
  bytes_are = refl;
}

abbrev changes : List Change
changes = seven ∷ seven ∷ seven ∷ seven ∷ seven ∷ []

abbrev counters : BpfMapInfo
counters = record { kind = 6; id = 1; key_size = 4; value_size = 16; max_entries = 5 }

abbrev kernel : Sys
kernel = record {
  Store = Bool;
  obj_get = λ path s. (pos 3, s);
  info_by_fd = λ fd s. some counters;
  update_elem = λ fd k v s. (pos 0, s);
  delete_elem = λ fd k s. (pos 0, s);
  num_cpus = 2;
}

abbrev index_of : Text → ℕ
index_of name = 1

abbrev number : Text → ℤ
number text = pos 0

report_main_lem_example :
    report_main kernel
      (map old_lookup changes)
      (map new_lookup changes ∷ [])
      index_of
      number
      (dev (codes "lo") ∷ [])
      false
    ≡ prints (exact_rows 0 changes ∷ []) false
unfolding bare_config parse_cmdline_args open_bpf_map_file
report_main_lem_example =
    report_main_lem kernel changes index_of number (dev (codes "lo") ∷ [])
      (record bare_config { ifname = some (codes "lo"); ifindex = pos 1 }) 1 3 counters false false
      refl refl refl (refl, refl, refl) refl refl
      (seven-Counted, (seven-Counted, (seven-Counted, (seven-Counted, (seven-Counted, tt)))))
