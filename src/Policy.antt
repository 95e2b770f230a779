-- ===== src/Policy.antt =====
-- main/start_policy.c: its globals and constants. A row `(ip[0][k], ip[1][k])` or
-- `(count_down[0][g], count_down[1][g])` of a two-row array is a pair.
pub mod BlackList
pub mod Load
pub mod Table
pub mod Detect
pub mod Unlock
pub mod Poll
pub mod Start
use anti_dos.Base.{ℕ, List}
use anti_dos.Filter.Stats.{PktMeta}
use anti_dos.Maps.Kernel.{Sys, BpfMapInfo}

abbrev pub interval : ℕ
interval = 1

abbrev pub lock_time : ℕ
lock_time = 5

abbrev pub ip_dynamic : ℕ
ip_dynamic = 100

abbrev pub max_cpu : ℕ
max_cpu = 128

abbrev pub queue_size : ℕ
queue_size = 3000000

-- `struct policy`; `threshold` is the 32-bit pattern of the `int`.
pub record Policy : Type 0 where
  pub id : ℕ
  pub ip : ℕ
  pub threshold : ℕ

-- `struct policy_stats_ip`.
pub record PolicyStatsIp : Type 0 where
  pub slots : List (ℕ × ℕ)
  pub num_ip : ℕ

-- The global `info` and what the program can reach through the kernel.
pub record World (sys : Sys) : Type 0 where
  pub info : BpfMapInfo
  pub store : sys.Store

-- The other globals: `packets_queue` up to its length (of an entry the `meta`), `count_down`, the
-- policies and the three times, which are `unsigned long`.
pub record Guard : Type 0 where
  pub policies : List Policy
  pub queue : List PktMeta
  pub count_down : List (ℕ × ℕ)
  pub time_start : ℕ
  pub time_end : ℕ
  pub prev_time : ℕ
