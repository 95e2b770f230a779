-- ===== src/Policy/Poll/Paced.antt =====
-- main/start_policy.c, `event_poller`: a loop that runs in every second.
use anti_dos.Base.{
  ℕ, ◌+◌, ◌*◌, ◌^◌, ◌≤◌, ◌<◌, ◌≡◌, ◌≢◌, refl, ◌∙◌, List, [], ◌∷◌, some, length, All, arith, ◌==◌,
  if◌then◌else◌, inl, inr, ◌⊎◌, Whenever-some,
}
use anti_dos.Maps.Kernel.{Sys, Text}
use anti_dos.Policy.{Policy, Guard, World, max_cpu, queue_size}
use anti_dos.Policy.Detect.Senders.{FromSenders, sources-FromSenders}
use anti_dos.Policy.Detect.Returns.{detect_attackers_returns}
use anti_dos.Policy.Poll.{
  Round, start_clock, detect_step, unlock_step, read_cpus, poll_round, poll_rounds, event_poller,
}
use anti_dos.Policy.Poll.Stages.{start_clock_running, detect_step_due, poll_round_stages}
use anti_dos.Policy.Poll.Stall.{offered, Grown-length, read_cpus_grows}
use anti_dos.Policy.Poll.Safe.{
  IsServed, event_poller-poll_rounds, read_cpus-FromSenders, unlock_step-policies,
}
use anti_dos.Policy.Poll.Quiet.{end_of}

-- The packets of the second of the round, `n` of which came before it in the second `t`.
abbrev pub packets : ℕ → ℕ → Round → ℕ
packets t n r = (if r.now == t then n else 0) + offered r.cpus

-- Each round comes in the second of the one before or in the next, and no second has more than
-- `queue_size` packets.
abbrev pub Paced : ℕ → ℕ → List Round → Type 0
Paced t n [] = Unit
Paced t n (r ∷ rs) =
    ((r.now ≡ t) ⊎ (r.now ≡ t + 1)) × (packets t n r ≤ queue_size) × Paced r.now (packets t n r) rs

end_of-Paced : (t n : ℕ) (rs : List Round) → Paced t n rs → t ≤ end_of t rs
end_of-Paced t n [] p = omega arith
end_of-Paced t n (r ∷ rs) (near, room, p) =
    omega (arith, near, end_of-Paced r.now (packets t n r) rs p)

-- The loop has reset its clock in the second `t`, and the queue has at most `n` packets.
pub record IsRunning (senders : List ℕ) (policies : List Policy) (t n : ℕ) (g : Guard)
    : Type 0 where
  pub start_at : g.time_start ≡ t
  pub swept : g.prev_time ≢ 0
  pub policies_same : g.policies ≡ policies
  pub from : FromSenders senders g.queue
  pub held : length g.queue ≤ n

module _ (sys : Sys) (dir : Text) (senders : List ℕ) (policies : List Policy)
    (few : length policies * length senders ≤ 100) where
  detect_step-IsRunning :
      (t n : ℕ) (r : Round) (g : Guard) (w : World sys)
      → t ≢ 0
      → r.now < 2 ^ 64
      → IsServed senders policies r
      → IsRunning senders policies t n g
      → (r.now ≡ t) ⊎ (r.now ≡ t + 1)
      → (d : Guard × World sys) × (detect_step sys dir r (start_clock r.now g) w ≡ some d)
        × IsRunning senders policies r.now (if r.now == t then n else 0) d.0
        × (d.0.time_end ≡ r.now)
  unfolding detect_step
  detect_step-IsRunning t n r g w z b served i (inl same) = (
    (record g { time_end = r.now }, w),
    rw (start_clock_running r.now g (omega (arith, i.start_at)) i.swept)
        (ground (arith, i.start_at)),
    record {
      start_at = omega (arith, i.start_at);
      swept = i.swept;
      policies_same = i.policies_same;
      from = i.from;
      held = ground (arith, i.held);
    },
    refl,
  )
  detect_step-IsRunning t n r g w z b served i (inr next) =
      let (st, e) =
        detect_attackers_returns sys dir r.detect_now g.policies g.queue r.junk (g.count_down, w)
          (rw i.policies_same served.0)
          (rw i.policies_same
            (omega (arith, few, sources-FromSenders senders g.queue policies i.from))) in
      (
        (record g { time_start = r.now; time_end = r.now; queue = []; count_down = st.0 }, st.1),
        rw (start_clock_running r.now g (omega (arith, i.start_at)) i.swept) (
            detect_step_due sys dir r (record g { time_end = r.now }) w st
              (omega (arith, i.start_at)) (omega arith) e),
        record {
          start_at = refl;
          swept = i.swept;
          policies_same = i.policies_same;
          from = tt;
          held = omega arith;
        },
        refl,
      )

  unlock_step-times :
      (now : ℕ) (g : Guard) (w : World sys)
      → g.prev_time ≢ 0
      → g.time_end ≢ 0
      → ((unlock_step sys dir now g w).0.time_start ≡ g.time_start)
        × ((unlock_step sys dir now g w).0.prev_time ≢ 0)
  unfolding unlock_step
  unlock_step-times now g w p e = ground arith

  poll_round-IsRunning :
      (t n : ℕ) (r : Round) (g : Guard) (w : World sys)
      → t ≢ 0
      → r.now < 2 ^ 64
      → IsServed senders policies r
      → IsRunning senders policies t n g
      → (r.now ≡ t) ⊎ (r.now ≡ t + 1)
      → packets t n r ≤ queue_size
      → (s : Guard × World sys) × (poll_round sys dir r g w ≡ some s)
        × IsRunning senders policies r.now (packets t n r) s.0
  poll_round-IsRunning t n r g w z b served i near room =
      let (d, e, j, ended) = detect_step-IsRunning t n r g w z b served i near in
      let (queue, e2, grown) =
        read_cpus_grows r.cpus max_cpu d.0.queue served.2 (omega (arith, j.held)) in
      let u = unlock_step sys dir r.now d.0 d.1 in
      let (start, swept) = unlock_step-times r.now d.0 d.1 j.swept (omega (arith, near)) in
      (
        (record (u.0) { queue = queue }, u.1),
        poll_round_stages sys dir r g w d queue e e2,
        record {
          start_at = start ∙ j.start_at;
          swept = swept;
          policies_same = unlock_step-policies sys dir senders r.now d.0 d.1 ∙ j.policies_same;
          from =
              Whenever-some (FromSenders senders) (read_cpus r.cpus max_cpu d.0.queue) queue e2
                (read_cpus-FromSenders senders r.cpus max_cpu d.0.queue served.1 j.from);
          held = omega (arith, Grown-length d.0.queue queue (offered r.cpus) grown, j.held);
        },
      )

  poll_rounds-IsRunning :
      (rs : List Round) (t n : ℕ) (g : Guard) (w : World sys)
      → t ≢ 0
      → end_of t rs < 2 ^ 64
      → n ≤ queue_size
      → All (IsServed senders policies) rs
      → Paced t n rs
      → IsRunning senders policies t n g
      → (s : Guard × World sys) × (poll_rounds sys dir rs g w ≡ some s)
        × IsRunning senders policies (end_of t rs) queue_size s.0
  unfolding poll_rounds
  poll_rounds-IsRunning [] t n g w z b le served p i = (
    (g, w),
    refl,
    record {
      start_at = i.start_at;
      swept = i.swept;
      policies_same = i.policies_same;
      from = i.from;
      held = omega (arith, i.held);
    },
  )
  poll_rounds-IsRunning (r ∷ rs) t n g w z b le served (near, room, p) i =
      let later = end_of-Paced r.now (packets t n r) rs p in
      let (s1, e1, i1) = poll_round-IsRunning t n r g w z (omega arith) served.0 i near room in
      let (s2, e2, i2) =
        poll_rounds-IsRunning rs r.now (packets t n r) s1.0 s1.1 (omega (arith, near)) b room
          served.1 p i1 in
      (s2, rw e1 e2, i2)

  -- In any system, on a host of at most 128 CPUs: the loop has reset its clock in the second `t`,
  -- with at most `n` packets in the queue, and each later round comes in the second of the one
  -- before or in the next. If every round finds a table of 100 rows for each policy, all packets
  -- are from `senders`, the number of policies times that of senders is at most 100, and no second
  -- has more than `queue_size` packets, then `event_poller` runs for any number of rounds without
  -- an access outside of its arrays, and at the end it has reset its clock in the second of the
  -- last round.
  pub event_poller-IsRunning :
      (sys_fds : List ℕ) (rs : List Round) (t n : ℕ) (g : Guard) (w : World sys)
      → length sys_fds ≤ max_cpu
      → t ≢ 0
      → end_of t rs < 2 ^ 64
      → n ≤ queue_size
      → All (IsServed senders policies) rs
      → Paced t n rs
      → IsRunning senders policies t n g
      → (s : Guard × World sys) × (event_poller sys dir sys_fds rs g w ≡ some s)
        × IsRunning senders policies (end_of t rs) queue_size s.0
  event_poller-IsRunning sys_fds rs t n g w fits z b le served p i =
      let (s, e, running) = poll_rounds-IsRunning rs t n g w z b le served p i in
      (s, event_poller-poll_rounds sys dir sys_fds rs g w fits ∙ e, running)
