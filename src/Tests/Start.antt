-- ===== src/Tests/Start.antt =====
-- main/start_policy.c: the start of the daemon. The system's state is the perf map.
use anti_dos.Base.{
  ℕ, ◌+◌, ◌≡◌, refl, List, [], ◌∷◌, Option, none, some, ℤ, pos, ◌==◌, if◌then◌else◌, arith, codes,
  length, true,
}
use anti_dos.Maps.Kernel.{Sys, Text}
use anti_dos.Maps.{join_path, open_bpf_map_file}
use anti_dos.UpdateList.{pin_basedir}
use anti_dos.Params.{dev, parse_cmdline_args, bare_config}
use anti_dos.Policy.Load.{three, load_policy, to_policy}
use anti_dos.Policy.Start.{Perf, overrun, setup_perf_poller, polls, initial_guard, policy_main}
use anti_dos.Policy.Start.Ready.{ServesEvents, Delivers, setup_perf_poller_overrun, policy_main_lem}
use anti_dos.Tests.System.{map_info}
use anti_dos.Tests.Loader.{scan, pton, web_line, no_line}

abbrev first_of : List ℕ → Option ℕ
first_of [] = none
first_of (x ∷ xs) = some x

abbrev machine : Sys
machine = record {
  Store = ℕ → Option ℕ;
  obj_get = λ path s. (pos 5, s);
  info_by_fd = λ fd s. some map_info;
  update_elem = λ fd k v s. (pos 0, λ j. if j == k then first_of v else s j);
  delete_elem = λ fd k s. (pos 0, s);
  num_cpus = 2;
}

abbrev events : Perf machine
events = record {
  event_open = λ n s. (pos (10 + n), s);
  enable = λ fd s. s;
  mmap = λ fd s. (true, s);
}

served : ServesEvents machine events 5
served = record {
  entry = λ s j. s j;
  event_fd = λ n s. 10 + n;
  open_ok = λ n s. refl;
  mmap_ok = λ fd s. refl;
  update_ok = λ n fd s. refl;
  update_entry = λ n fd j s. refl;
  open_entry = λ n j s. refl;
  enable_entry = λ fd j s. refl;
  mmap_entry = λ fd j s. refl;
}

abbrev nothing_set : ℕ → Option ℕ
nothing_set j = none

setup_perf_poller_overrun_example : setup_perf_poller machine events 5 200 nothing_set ≡ overrun
setup_perf_poller_overrun_example =
    setup_perf_poller_overrun machine events 5 served 200 nothing_set (omega arith)

abbrev lo : Text
lo = codes "lo"

abbrev index_of : Text → ℕ
index_of name = 1

abbrev number : Text → ℤ
number text = pos 0

policy_main_lem_example :
    (fds : List ℕ) × (s' : ℕ → Option ℕ) × (policy_main machine events scan pton no_line
        (some (three 1 (80 ∷ []) 1000 ∷ []))
        2
        index_of
        number
        (dev lo ∷ [])
        nothing_set
      ≡ polls
          (join_path pin_basedir lo)
          fds
          (initial_guard (to_policy pton web_line ∷ []))
          (record { info = map_info; store = s' }))
    × (length fds ≡ 2)
    × Delivers machine events 5 served 0 fds s'
unfolding bare_config parse_cmdline_args open_bpf_map_file load_policy
policy_main_lem_example =
    policy_main_lem machine events 5 served scan pton no_line (some (three 1 (80 ∷ []) 1000 ∷ [])) 2
      index_of number (dev lo ∷ []) (record bare_config { ifname = some lo; ifindex = pos 1 }) 1
      map_info (to_policy pton web_line ∷ []) nothing_set nothing_set refl refl refl (refl, refl)
      refl (omega arith)
