-- ===== src/Policy/Poll/Floods.antt =====
-- main/start_policy.c, `event_poller`: a source that sends too much is locked by the next round
-- that is a second after the last.
use anti_dos.Base.{ℕ, ◌+◌, ◌^◌, ◌≤◌, ◌<◌, ◌≡◌, ◌≢◌, true, List, [], length, some, arith}
use anti_dos.Maps.Kernel.{Sys, Text}
use anti_dos.Policy.{Guard, World, lock_time, max_cpu, queue_size}
use anti_dos.Policy.BlackList.{ServesBlackList}
use anti_dos.Policy.Table.Noted.{sources}
use anti_dos.Policy.Table.Every.{Stack}
use anti_dos.Policy.Detect.{detect_attackers}
use anti_dos.Policy.Detect.Exact.{violates, Vouched}
use anti_dos.Policy.Poll.{Round, start_clock, detect_step, unlock_step, poll_round}
use anti_dos.Policy.Poll.Stages.{start_clock_running, detect_step_due, poll_round_stages}
use anti_dos.Policy.Poll.Stall.{offered, read_cpus_grows}
use anti_dos.Policy.Poll.Second.{detected}
use anti_dos.Policy.Poll.Locks.{Fresh, Locked, LockedGuard, unlock_step-Locked, enforce-Fresh}

module _ (sys : Sys) (dir : Text) (serves : ServesBlackList sys dir) (a t : ℕ)
    (some_address : a ≢ 0) (r : Round) (g : Guard) (w : World sys) (stack : Stack g.policies r.junk)
    (vouched : Vouched g.policies r.junk a) (few : sources g.queue g.policies ≤ 100)
    (flood : violates g.policies g.queue a ≡ true)
    (same_clock : (i j : ℕ) → r.detect_now i j ≡ r.now) (old : Fresh a t r.now g.count_down)
    (begun : t ≤ r.now) (window : r.now < t + lock_time) (small : r.now < 2 ^ 32) where
  located :
      (st : List (ℕ × ℕ) × World sys) × (detect_attackers sys dir r.detect_now g.policies g.queue
          r.junk
          (g.count_down, w)
        ≡ some st)
      × Locked sys dir serves a t some_address r.now st
  located =
      let (st, e, fresh, blocked) =
        detected sys dir serves r g w stack few (Fresh a t r.now)
          (λ i j p row st k.
            enforce-Fresh sys dir serves a t some_address r.now (r.detect_now i j) p row st
              (omega (arith, same_clock i j)) (omega (arith, same_clock i j)) small k)
          old in
      (st, e, (ground (arith, blocked a vouched, flood), fresh))

  -- A table of 100 rows for each policy, and at most 100 pairs of a policy and a source of it in
  -- the queue. If the round comes one second after the last reset, the clock does not tick within
  -- it, the packets of `a` to some policy are above its threshold, and there is one policy or the
  -- memory does not hold `a`, the round ends without a fault, `a` is blocked after it, and the rows
  -- of `a` are as young as before or of this second.
  pub poll_round-Locks :
      g.time_start ≢ 0
      → g.prev_time ≢ 0
      → r.now ≡ g.time_start + 1
      → length r.cpus ≤ max_cpu
      → offered r.cpus ≤ queue_size
      → (s : Guard × World sys) × (poll_round sys dir r g w ≡ some s)
        × LockedGuard sys dir serves a t some_address r.now s
  poll_round-Locks x y due cpus room =
      let (st, e, locked) = located in
      let g1 = record g { time_start = r.now; time_end = r.now; queue = []; count_down = st.0 } in
      let step : detect_step sys dir r (start_clock r.now g) w ≡ some (g1, st.1) =
        rw (start_clock_running r.now g x y)
          (detect_step_due sys dir r (record g { time_end = r.now }) w st due (omega arith) e) in
      let u = unlock_step sys dir r.now g1 st.1 in
      let (queue, e2, grown) = read_cpus_grows r.cpus max_cpu [] cpus (omega arith) in
      (
        (record (u.0) { queue = queue }, u.1),
        poll_round_stages sys dir r g w (g1, st.1) queue step e2,
        unlock_step-Locked sys dir serves a t some_address r.now g1 st.1 window small locked,
      )
