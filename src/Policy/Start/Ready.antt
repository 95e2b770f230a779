-- ===== src/Policy/Start/Ready.antt =====
-- main/start_policy.c: what the start of the daemon leaves to the loop.
use anti_dos.Base.{
  ℕ, zero, suc, ◌+◌, ◌≤◌, ◌<◌, ◌≡◌, refl, ◌∙◌, ap, true, List, [], ◌∷◌, Option, some, ℤ, pos, ◌==◌,
  length, leb, arith, Bool-cases, inl, inr, if_then, if_else, if_then, if_else, if◌then◌else◌,
}
use anti_dos.Maps.Kernel.{Sys, BpfMapInfo, Text}
use anti_dos.Maps.{check_map_fd_info, open_bpf_map_file, join_path}
use anti_dos.UpdateList.{pin_basedir, is_minus_one}
use anti_dos.Params.{Opt, Config, parse_cmdline_args, bare_config}
use anti_dos.Policy.{Policy}
use anti_dos.Policy.BlackList.{map_expect, or_else}
use anti_dos.Policy.Load.{Scanned, Vars, load_policy}
use anti_dos.Policy.Start.{
  Perf, ready, overrun, with_fd, setup_loop, setup_perf_poller, polls, perf_map_name, initial_guard,
  begin_polling, with_policies, with_map, run_policy, policy_main,
}

-- A system in which each CPU's events can be had, and the entries of the perf map behind a
-- descriptor.
pub record ServesEvents (sys : Sys) (perf : Perf sys) (map_fd : ℕ) : Type 0 where
  pub entry : sys.Store → ℕ → Option ℕ
  pub event_fd : ℕ → sys.Store → ℕ
  pub open_ok : (n : ℕ) (s : sys.Store) → (perf.event_open n s).0 ≡ pos (event_fd n s)
  pub mmap_ok : (fd : ℕ) (s : sys.Store) → (perf.mmap fd s).0 ≡ true
  pub update_ok : (n fd : ℕ) (s : sys.Store) → (sys.update_elem map_fd n (fd ∷ []) s).0 ≡ pos 0
  pub update_entry :
      (n fd j : ℕ) (s : sys.Store)
      → entry (sys.update_elem map_fd n (fd ∷ []) s).1 j ≡ (if j == n then some fd else entry s j)
  pub open_entry : (n j : ℕ) (s : sys.Store) → entry (perf.event_open n s).1 j ≡ entry s j
  pub enable_entry : (fd j : ℕ) (s : sys.Store) → entry (perf.enable fd s) j ≡ entry s j
  pub mmap_entry : (fd j : ℕ) (s : sys.Store) → entry (perf.mmap fd s).1 j ≡ entry s j

module _ (sys : Sys) (perf : Perf sys) (map_fd : ℕ) (e : ServesEvents sys perf map_fd) where
  open sys use {Store}

  -- The entries from `n` on are these descriptors.
  abbrev pub Delivers : ℕ → List ℕ → Store → Type 0
  Delivers n [] s = Unit
  Delivers n (fd ∷ fds) s = (e.entry s n ≡ some fd) × Delivers (suc n) fds s

  -- The kernel behind one CPU's part of the loop.
  abbrev one_cpu : ℕ → Store → Store
  one_cpu n s =
      let fd = e.event_fd n s in
      (sys.update_elem map_fd n (fd ∷ [])
        (perf.mmap fd (perf.enable fd (perf.event_open n s).1)).1).1

  one_cpu-entry :
      (n j : ℕ) (s : Store)
      → e.entry (one_cpu n s) j ≡ (if j == n then some (e.event_fd n s) else e.entry s j)
  one_cpu-entry n j s =
      let fd = e.event_fd n s in
      let s1 = (perf.event_open n s).1 in
      let s2 = perf.enable fd s1 in
      ground (
        arith,
        e.update_entry n fd j (perf.mmap fd s2).1,
        e.mmap_entry fd j s2,
        e.enable_entry fd j s1,
        e.open_entry n j s,
      )

  loop_step :
      (left n : ℕ) (s : Store)
      → n < 128
      → setup_loop sys perf map_fd (suc left) n s
        ≡ with_fd (e.event_fd n s) (setup_loop sys perf map_fd left (suc n) (one_cpu n s))
  unfolding setup_loop
  loop_step left n s h =
      let fd = e.event_fd n s in
      let s2 = perf.enable fd (perf.event_open n s).1 in
      ground (arith, h, e.open_ok n s, e.mmap_ok fd s2, e.update_ok n fd (perf.mmap fd s2).1)

  loop_over :
      (left n : ℕ) (s : Store) → 128 ≤ n → setup_loop sys perf map_fd (suc left) n s ≡ overrun
  unfolding setup_loop
  loop_over left n s h = ground (arith, h, e.open_ok n s)

  setup_loop-ready :
      (left n : ℕ) (s : Store)
      → n + left ≤ 128
      → (fds : List ℕ) × (s' : Store) × (setup_loop sys perf map_fd left n s ≡ ready fds s')
        × (length fds ≡ left)
        × Delivers n fds s'
        × ((j : ℕ) → j < n → e.entry s' j ≡ e.entry s j)
  unfolding setup_loop
  setup_loop-ready zero n s h = ([], s, refl, refl, tt, λ j less. refl)
  setup_loop-ready (suc left) n s h =
      let fd = e.event_fd n s in
      let (fds, s', eq, len, d, kept) = setup_loop-ready left (suc n) (one_cpu n s) (omega arith) in
      (
        fd ∷ fds,
        s',
        loop_step left n s (omega arith) ∙ ap (with_fd fd) eq,
        ap suc len,
        (kept n (omega arith) ∙ ground (arith, one_cpu-entry n n s), d),
        λ j less. kept j (omega arith) ∙ ground (arith, one_cpu-entry n j s, less),
      )

  setup_loop-overrun :
      (left n : ℕ) (s : Store)
      → 128 < n + left
      → n ≤ 128
      → setup_loop sys perf map_fd left n s ≡ overrun
  unfolding setup_loop
  setup_loop-overrun zero n s h b = absurd (omega arith)
  setup_loop-overrun (suc left) n s h b = elim (Bool-cases (leb 128 n)) [
    | inl full ↦ loop_over left n s (ground (arith, full))
    | inr room ↦
        loop_step left n s (ground (arith, room))
        ∙ ap (with_fd (e.event_fd n s))
            (setup_loop-overrun left (suc n) (one_cpu n s) (omega arith) (ground (arith, room)))
  ]

  -- On a host of more than 128 CPUs, where every call succeeds, `setup_perf_poller` writes past
  -- `mem_buf` and `sys_fds`.
  pub setup_perf_poller_overrun :
      (cpu_total : ℕ) (s : Store)
      → 128 < cpu_total
      → setup_perf_poller sys perf map_fd cpu_total s ≡ overrun
  unfolding setup_perf_poller
  setup_perf_poller_overrun cpu_total s h =
      setup_loop-overrun cpu_total 0 s (omega arith) (omega arith)

  module _ {File : Type 0} (scan : File → Scanned × File) (inet_pton : Text → Option ℕ)
      (junk : Vars) (file : Option File) (n_cpus : ℕ) where
    policies_behind :
        (pin_dir : Text) (info : BpfMapInfo) (policies : List Policy) (s : Store)
        → load_policy scan inet_pton junk file ≡ some (0, policies)
        → with_policies sys perf scan inet_pton junk file n_cpus pin_dir map_fd info s
          ≡ begin_polling sys perf scan inet_pton junk file n_cpus pin_dir policies info
              (setup_perf_poller sys perf map_fd n_cpus s)
    unfolding with_policies setup_perf_poller
    policies_behind pin_dir info policies s loaded = rw (with_policies, loaded) refl

    map_checked :
        (info : BpfMapInfo)
        → (info.key_size ≡ 4) × (info.value_size ≡ 4)
        → (check_map_fd_info info map_expect == 0) ≡ true
    unfolding check_map_fd_info
    map_checked info (k, v) = ground (arith, k, v)

    map_behind :
        (pin_dir : Text) (info : BpfMapInfo) (s : Store)
        → (info.key_size ≡ 4) × (info.value_size ≡ 4)
        → with_map sys perf scan inet_pton junk file n_cpus pin_dir (pos map_fd, some info, s)
          ≡ with_policies sys perf scan inet_pton junk file n_cpus pin_dir map_fd info s
    unfolding with_map
    map_behind pin_dir info s sizes =
        if_then (check_map_fd_info info map_expect == 0) _ _ (map_checked info sizes)

    options_behind :
        (cfg : Config) (i : ℕ) (s : Store)
        → cfg.ifindex ≡ pos i
        → run_policy sys perf scan inet_pton junk file n_cpus cfg s
          ≡ with_map sys perf scan inet_pton junk file n_cpus
              (join_path pin_basedir (or_else cfg.ifname []))
              (open_bpf_map_file sys
                (join_path pin_basedir (or_else cfg.ifname []))
                perf_map_name
                s)
    unfolding run_policy
    options_behind cfg i s at = if_else (is_minus_one cfg.ifindex) _ _ (ap is_minus_one at)

    main_behind :
        (if_nametoindex : Text → ℕ) (atoi : Text → ℤ) (os : List Opt) (cfg : Config) (s : Store)
        → parse_cmdline_args if_nametoindex atoi os bare_config ≡ some cfg
        → policy_main sys perf scan inet_pton junk file n_cpus if_nametoindex atoi os s
          ≡ run_policy sys perf scan inet_pton junk file n_cpus cfg s
    unfolding policy_main run_policy
    main_behind if_nametoindex atoi os cfg s parsed = rw (policy_main, parsed) refl

    poller_is :
        (s : Store)
        → setup_perf_poller sys perf map_fd n_cpus s ≡ setup_loop sys perf map_fd n_cpus 0 s
    unfolding setup_perf_poller
    poller_is s = refl

    -- The daemon starts: the command line is accepted and names the interface, the perf map is
    -- opened and has keys and values of four bytes, the policies are loaded, and there are 128 CPUs
    -- at most. Then `main` comes to the loop with these policies, an empty queue, 100 free rows in
    -- `count_down` and the clocks at 0, and for every CPU the perf map holds its descriptor.
    pub policy_main_lem :
        (if_nametoindex : Text → ℕ) (atoi : Text → ℤ) (os : List Opt) (cfg : Config) (i : ℕ)
        (info : BpfMapInfo) (policies : List Policy) (s s1 : Store)
        → parse_cmdline_args if_nametoindex atoi os bare_config ≡ some cfg
        → cfg.ifindex ≡ pos i
        → open_bpf_map_file sys (join_path pin_basedir (or_else cfg.ifname [])) perf_map_name s
          ≡ (pos map_fd, some info, s1)
        → (info.key_size ≡ 4) × (info.value_size ≡ 4)
        → load_policy scan inet_pton junk file ≡ some (0, policies)
        → n_cpus ≤ 128
        → (fds : List ℕ) × (s' : Store) × (policy_main sys perf scan inet_pton junk file n_cpus
              if_nametoindex atoi os s
            ≡ polls
                (join_path pin_basedir (or_else cfg.ifname []))
                fds
                (initial_guard policies)
                (record { info = info; store = s' }))
          × (length fds ≡ n_cpus)
          × Delivers 0 fds s'
    policy_main_lem if_nametoindex atoi os cfg i info policies s s1 parsed at opened sizes loaded
          few =
        let (fds, s', eq, len, d, _) = setup_loop-ready n_cpus 0 s1 (omega arith) in
        let pin_dir = join_path pin_basedir (or_else cfg.ifname []) in
        (
          fds,
          s',
          main_behind if_nametoindex atoi os cfg s parsed
              ∙ options_behind cfg i s at
              ∙ ap (with_map sys perf scan inet_pton junk file n_cpus pin_dir) opened
              ∙ map_behind pin_dir info s1 sizes
              ∙ policies_behind pin_dir info policies s1 loaded
              ∙ ap (begin_polling sys perf scan inet_pton junk file n_cpus pin_dir policies info)
                  (poller_is s1 ∙ eq),
          len,
          d,
        )
