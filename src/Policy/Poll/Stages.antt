-- ===== src/Policy/Poll/Stages.antt =====
-- main/start_policy.c, `event_poller`: a round from its stages.
use anti_dos.Base.{ℕ, ◌+◌, ◌^◌, ◌<◌, ◌≡◌, ◌≢◌, List, [], some, ◌==◌, true, arith}
use anti_dos.Filter.Stats.{PktMeta}
use anti_dos.Maps.Kernel.{Sys, Text}
use anti_dos.Policy.{Guard, World, max_cpu}
use anti_dos.Policy.Detect.{detect_attackers}
use anti_dos.Policy.Unlock.{sweep}
use anti_dos.Policy.Poll.{
  Round, sub64, start_clock, detect_step, unlock_step, read_cpus, poll_round,
}

pub start_clock_running :
    (now : ℕ) (g : Guard)
    → g.time_start ≢ 0
    → g.prev_time ≢ 0
    → start_clock now g ≡ record g { time_end = now }
unfolding start_clock
start_clock_running now g x y = ground arith

pub sub64-suc : (a b : ℕ) → a ≡ b + 1 → a < 2 ^ 64 → (sub64 a b == 1) ≡ true
sub64-suc a b e h = ground arith

module _ (sys : Sys) (dir : Text) where
  -- A round one second after the last reset looks for attackers.
  pub detect_step_due :
      (r : Round) (g : Guard) (w : World sys) (st : List (ℕ × ℕ) × World sys)
      → g.time_end ≡ g.time_start + 1
      → g.time_end < 2 ^ 64
      → detect_attackers sys dir r.detect_now g.policies g.queue r.junk (g.count_down, w) ≡ some st
      → detect_step sys dir r g w
        ≡ some (record g { time_start = g.time_end; queue = []; count_down = st.0 }, st.1)
  unfolding detect_step
  detect_step_due r g w st due small e = ground (arith, sub64-suc g.time_end g.time_start due, e)

  pub unlock_step-queue :
      (now : ℕ) (g : Guard) (w : World sys) → (unlock_step sys dir now g w).0.queue ≡ g.queue
  unfolding unlock_step
  unlock_step-queue now g w = ground arith

  -- A round one second after the last sweep sweeps.
  pub unlock_step_due :
      (now : ℕ) (g : Guard) (w : World sys)
      → g.time_end ≡ g.prev_time + 1
      → g.time_end < 2 ^ 64
      → unlock_step sys dir now g w ≡ (
        record g { count_down = (sweep sys dir now g.count_down w).0; prev_time = g.time_end },
        (sweep sys dir now g.count_down w).1,
      )
  unfolding unlock_step
  unlock_step_due now g w due small = ground (arith, sub64-suc g.time_end g.prev_time due)

  pub poll_round_stages :
      (r : Round) (g : Guard) (w : World sys) (d : Guard × World sys) (queue : List PktMeta)
      → detect_step sys dir r (start_clock r.now g) w ≡ some d
      → read_cpus r.cpus max_cpu (d.0.queue) ≡ some queue
      → let u = unlock_step sys dir r.now d.0 d.1 in
        poll_round sys dir r g w ≡ some (record (u.0) { queue = queue }, u.1)
  unfolding poll_round
  poll_round_stages r g w d queue e e2 = rw e (rw (unlock_step-queue r.now d.0 d.1) (rw e2))
