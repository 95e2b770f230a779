-- ===== src/Policy/Start.antt =====
-- main/start_policy.c: `setup_perf_poller`, and `main` up to the endless loop of `event_poller`.
pub mod Ready
use anti_dos.Base.{
  ℕ, zero, suc, Bool, false, true, not, List, [], ◌∷◌, Option, none, some, ℤ, pos, negsuc, ◌==◌,
  leb, replicate, if◌then◌else◌, codes,
}
use anti_dos.Maps.Kernel.{Sys, BpfMapInfo, Text}
use anti_dos.Maps.{check_map_fd_info, open_bpf_map_file, exit_fail_bpf, join_path}
use anti_dos.Link.{nonzero}
use anti_dos.UpdateList.{pin_basedir, no_info, is_minus_one}
use anti_dos.Params.{Opt, Config, bare_config, parse_cmdline_args}
use anti_dos.Policy.{Policy, Guard, World, ip_dynamic, max_cpu}
use anti_dos.Policy.BlackList.{map_expect, or_else}
use anti_dos.Policy.Load.{Scanned, Vars, load_policy}

-- `sys_perf_event_open` for a CPU, the `ioctl` that enables its events, and `mmap`, which succeeds
-- or not.
pub record Perf (sys : Sys) : Type 0 where
  pub event_open : ℕ → sys.Store → ℤ × sys.Store
  pub enable : ℕ → sys.Store → sys.Store
  pub mmap : ℕ → sys.Store → Bool × sys.Store

-- `sys_fds` is filled; 1 is returned; the `assert` fails; or a write past the two arrays.
pub data Setup (Store : Type 0) : Type 0 where
  ready : List ℕ → Store → Setup Store
  failed : Store → Setup Store
  aborted : Store → Setup Store
  overrun : Setup Store

-- The descriptor of a CPU before those of the CPUs behind it.
abbrev pub with_fd : {Store : Type 0} → ℕ → Setup Store → Setup Store
with_fd fd (ready fds s) = ready (fd ∷ fds) s
with_fd fd (failed s) = failed s
with_fd fd (aborted s) = aborted s
with_fd fd overrun = overrun

module _ (sys : Sys) (perf : Perf sys) where
  open sys use {Store}

  -- The loop with `left` CPUs left, from the `n`-th on.
  unfoldable pub setup_loop : ℕ → ℕ → ℕ → Store → Setup Store
  setup_loop perf_map_fd zero n s = ready [] s
  setup_loop perf_map_fd (suc left) n s =
      let (fd, s1) = perf.event_open n s in
      elim fd [
        | negsuc _ ↦ failed s1
        | pos pmu ↦
            let (mapped, s2) = perf.mmap pmu (perf.enable pmu s1) in
            let (err, s3) = sys.update_elem perf_map_fd n (pmu ∷ []) s2 in
            let rest = setup_loop perf_map_fd left (suc n) s3 in
            if leb max_cpu n
            then overrun
            else if not mapped
            then failed s2
            else if nonzero err
            then aborted s3
            else with_fd pmu rest
      ]

  unfoldable pub setup_perf_poller : ℕ → ℕ → Store → Setup Store
  unfolding setup_loop
  setup_perf_poller perf_map_fd cpu_total s = setup_loop perf_map_fd cpu_total 0 s

-- What `main` comes to: an exit with a code, the failed `assert`, a fault, or the loop of
-- `event_poller` with these descriptors and globals.
pub data Start (sys : Sys) : Type 0 where
  exits : ℤ → sys.Store → Start sys
  aborts : sys.Store → Start sys
  crashes : Start sys
  polls : Text → List ℕ → Guard → World sys → Start sys

abbrev pub perf_map_name : Text
perf_map_name = codes "perf_map"

-- The globals when the loop begins.
abbrev pub initial_guard : List Policy → Guard
initial_guard policies = record {
  policies = policies;
  queue = [];
  count_down = replicate ip_dynamic (0, 0);
  time_start = 0;
  time_end = 0;
  prev_time = 0;
}

module _ (sys : Sys) (perf : Perf sys) {File : Type 0} (scan : File → Scanned × File)
    (inet_pton : Text → Option ℕ) (junk : Vars) (file : Option File) (n_cpus : ℕ) where
  open sys use {Store}

  -- Behind `load_policy`.
  abbrev pub begin_polling : Text → List Policy → BpfMapInfo → Setup Store → Start sys
  begin_polling pin_dir policies info (ready fds s) =
      polls pin_dir fds (initial_guard policies) (record { info = info; store = s })
  begin_polling pin_dir policies info (failed s) = exits (negsuc 0) s
  begin_polling pin_dir policies info (aborted s) = aborts s
  begin_polling pin_dir policies info overrun = crashes

  -- Behind the check of the map.
  unfoldable pub with_policies : Text → ℕ → BpfMapInfo → Store → Start sys
  unfolding load_policy setup_perf_poller
  with_policies pin_dir map_fd info s = elim (load_policy scan inet_pton junk file) [
    | none ↦ crashes
    | some (code, policies) ↦
        if code == 0
        then begin_polling pin_dir policies info (setup_perf_poller sys perf map_fd n_cpus s)
        else exits (pos code) s
  ]

  -- Behind the opening of the map.
  unfoldable pub with_map : Text → ℤ × Option BpfMapInfo × Store → Start sys
  unfolding check_map_fd_info with_policies
  with_map pin_dir (negsuc _, seen, s) = exits (pos exit_fail_bpf) s
  with_map pin_dir (pos map_fd, seen, s) =
      let info = or_else seen no_info in
      if check_map_fd_info info map_expect == 0
      then with_policies pin_dir map_fd info s
      else exits (pos (check_map_fd_info info map_expect)) s

  -- Behind the options.
  unfoldable pub run_policy : Config → Store → Start sys
  unfolding open_bpf_map_file with_map join_path
  run_policy cfg s =
      let pin_dir = join_path pin_basedir (or_else cfg.ifname []) in
      if is_minus_one cfg.ifindex
      then exits (pos 2) s
      else with_map pin_dir (open_bpf_map_file sys pin_dir perf_map_name s)

  unfoldable pub policy_main : (Text → ℕ) → (Text → ℤ) → List Opt → Store → Start sys
  unfolding parse_cmdline_args bare_config run_policy
  policy_main if_nametoindex atoi os s =
      elim (parse_cmdline_args if_nametoindex atoi os bare_config) [
        | none ↦ exits (pos 2) s
        | some cfg ↦ run_policy cfg s
      ]
