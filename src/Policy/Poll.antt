-- ===== src/Policy/Poll.antt =====
-- main/start_policy.c: `policy_stats`, `event_received` and `event_poller`. What the environment
-- brings to a round is its argument: the times that are read, the memory under `psi`, and for each
-- CPU whether `poll` reports events, the records that libbpf hands to the callback and the number
-- that it returns. `none` is an access past `poll_fds`, `mem_buf` or `packets_queue`, or a fault of
-- `detect_attackers`.
pub mod Stall
pub mod Safe
pub mod Paced
pub mod Stages
pub mod Locks
pub mod Second
pub mod Whole
pub mod Cycle
pub mod Floods
pub mod Quiet
pub mod Ticks
use anti_dos.Base.{
  ℕ, zero, suc, ◌+◌, ◌-◌, ◌%◌, ◌^◌, Bool, true, false, ◌&&◌, ◌||◌, not, List, [], ◌∷◌, ◌++◌, Option,
  none, some, length, ℤ, pos, negsuc, ◌==◌, ltb, if◌then◌else◌, ◌>>=◌,
}
use anti_dos.Filter.Stats.{PktMeta}
use anti_dos.Maps.Kernel.{Sys, Text}
use anti_dos.Policy.{Guard, PolicyStatsIp, World, interval, max_cpu, queue_size}
use anti_dos.Policy.Detect.{detect_attackers}
use anti_dos.Policy.Unlock.{age, sweep}

abbrev pub perf_record_sample : ℕ
perf_record_sample = 9

-- LIBBPF_PERF_EVENT_CONT is -2.
abbrev pub event_cont : ℤ
event_cont = negsuc 1

abbrev pub is_cont : ℤ → Bool
is_cont (pos n) = false
is_cont (negsuc n) = n == 1

-- `struct perf_event_sample`: the header's type and the `meta`.
pub record Sample : Type 0 where
  pub kind : ℕ
  pub meta : PktMeta

-- The queue takes the sample; the array has `queue_size` entries and the index is not checked.
unfoldable pub policy_stats : Sample → List PktMeta → Option (ℤ × List PktMeta)
policy_stats sample queue =
    if ltb (length queue) queue_size then some (event_cont, queue ++ (sample.meta ∷ [])) else none

unfoldable pub event_received : Sample → List PktMeta → Option (ℤ × List PktMeta)
unfolding policy_stats
event_received sample queue =
    if sample.kind == perf_record_sample
    then policy_stats sample queue
    else some (event_cont, queue)

-- One CPU's part of a round.
pub record CpuEvents : Type 0 where
  pub revents : Bool
  pub samples : List Sample
  pub res : ℤ

-- libbpf hands the records over in order, as long as the callback returns CONT, which it always
-- does.
unfoldable pub receive : List Sample → List PktMeta → Option (List PktMeta)
unfolding event_received
receive [] queue = some queue
receive (s ∷ ss) queue = do r ← event_received s queue; receive ss r.1

-- The last loop, with `room` entries left of the arrays: it ends at the first read that does not
-- return CONT.
unfoldable pub read_cpus : List CpuEvents → ℕ → List PktMeta → Option (List PktMeta)
unfolding receive
read_cpus [] room queue = some queue
read_cpus (c ∷ cs) zero queue = none
read_cpus (c ∷ cs) (suc room) queue = do
  queue' ← if c.revents then receive c.samples queue else some queue
  let rest = read_cpus cs room queue'
  if c.revents && not (is_cont c.res) then some queue' else rest

pub record Round : Type 0 where
  pub now : ℕ
  pub detect_now : ℕ → ℕ → ℕ
  pub junk : List PolicyStatsIp
  pub cpus : List CpuEvents

-- `a - b` in `unsigned long`.
abbrev pub sub64 : ℕ → ℕ → ℕ
sub64 a b = (a + 2 ^ 64 - b) % 2 ^ 64

-- The first `if` and the assignment below it.
unfoldable pub start_clock : ℕ → Guard → Guard
start_clock now g =
    if (g.time_start == 0) || (g.prev_time == 0)
    then record g { time_start = now; prev_time = now; time_end = now }
    else record g { time_end = now }

-- `struct pollfd` as `event_poller` fills it.
pub record PollFd : Type 0 where
  pub fd : ℕ
  pub events : ℕ

abbrev pub pollin : ℕ
pollin = 1

-- The first loop, with `room` entries of `poll_fds` left.
unfoldable pub fill_poll_fds : List ℕ → ℕ → Option (List PollFd)
fill_poll_fds [] room = some []
fill_poll_fds (fd ∷ sys_fds) zero = none
fill_poll_fds (fd ∷ sys_fds) (suc room) = do
  poll_fds ← fill_poll_fds sys_fds room
  some (record { fd = fd; events = pollin } ∷ poll_fds)

module _ (sys : Sys) (pin_dir : Text) where
  -- The check of the policies, and the reset of the queue.
  unfoldable pub detect_step : Round → Guard → World sys → Option (Guard × World sys)
  unfolding detect_attackers
  detect_step r g w =
      if sub64 g.time_end g.time_start == interval
      then (detect_attackers sys pin_dir r.detect_now g.policies g.queue r.junk (g.count_down, w)
          >>= λ st.
              some (record g { time_start = g.time_end; queue = []; count_down = st.0 }, st.1))
      else some (g, w)

  -- The sweep, once a second.
  unfoldable pub unlock_step : ℕ → Guard → World sys → Guard × World sys
  unfolding sweep
  unlock_step now g w =
      if sub64 g.time_end g.prev_time == 1
      then (
        record g { count_down = (sweep sys pin_dir now g.count_down w).0; prev_time = g.time_end },
        (sweep sys pin_dir now g.count_down w).1,
      )
      else (g, w)

  -- One round of `for (;;)`.
  unfoldable pub poll_round : Round → Guard → World sys → Option (Guard × World sys)
  unfolding start_clock detect_step unlock_step read_cpus
  poll_round r g w = do
    d ← detect_step r (start_clock r.now g) w
    let u = unlock_step r.now d.0 d.1
    queue ← read_cpus r.cpus max_cpu u.0.queue
    some (record (u.0) { queue = queue }, u.1)

  unfoldable pub poll_rounds : List Round → Guard → World sys → Option (Guard × World sys)
  unfolding poll_round
  poll_rounds [] g w = some (g, w)
  poll_rounds (r ∷ rs) g w = do s ← poll_round r g w; poll_rounds rs s.0 s.1

  -- `event_poller` with the descriptor of each CPU, for as many rounds as are given; a round brings
  -- the events of each CPU.
  unfoldable pub event_poller : List ℕ → List Round → Guard → World sys → Option (Guard × World sys)
  unfolding fill_poll_fds poll_rounds
  event_poller sys_fds rounds g w = do
    poll_fds ← fill_poll_fds sys_fds max_cpu
    poll_rounds rounds g w
