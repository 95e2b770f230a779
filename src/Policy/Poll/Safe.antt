-- ===== src/Policy/Poll/Safe.antt =====
-- main/start_policy.c, `event_poller`: rounds at any times stay inside the arrays, if the senders
-- and the packets are few.
use anti_dos.Base.{
  ℕ, zero, suc, ◌+◌, ◌*◌, ◌≤◌, ◌≡◌, refl, ◌∙◌, true, List, [], ◌∷◌, ◌++◌, some, length, All, arith,
  ◌==◌, Bool-cases, inl, inr, ◌⊎◌, Whenever, Whenever-some, Whenever->>=,
}
use anti_dos.Filter.Stats.{PktMeta}
use anti_dos.Maps.Kernel.{Sys, Text}
use anti_dos.Policy.{Policy, Guard, World, max_cpu, queue_size}
use anti_dos.Policy.Table.Every.{Stack}
use anti_dos.Policy.Detect.Senders.{is_sender, FromSenders, sources-FromSenders}
use anti_dos.Policy.Detect.Returns.{detect_attackers_returns}
use anti_dos.Policy.Poll.{
  Sample, CpuEvents, Round, sub64, event_received, receive, read_cpus, is_cont, start_clock,
  detect_step, unlock_step, poll_round, poll_rounds, PollFd, fill_poll_fds, event_poller,
}
use anti_dos.Policy.Poll.Stages.{poll_round_stages}
use anti_dos.Policy.Poll.Stall.{offered, offered_all, Grown-length, read_cpus_grows}

-- All samples of the round are of senders.
abbrev pub Offers : List ℕ → List CpuEvents → Type 0
Offers senders cs =
    All (λ (c : CpuEvents). All (λ (s : Sample). is_sender s.meta.src senders ≡ true) c.samples) cs

append-FromSenders :
    (senders : List ℕ) (queue : List PktMeta) (m : PktMeta)
    → is_sender m.src senders ≡ true
    → FromSenders senders queue
    → FromSenders senders (queue ++ (m ∷ []))
append-FromSenders senders [] m s h = (s, tt)
append-FromSenders senders (n ∷ queue) m s h = (h.0, append-FromSenders senders queue m s h.1)

event_received-FromSenders :
    (senders : List ℕ) (s : Sample) (queue : List PktMeta)
    → is_sender s.meta.src senders ≡ true
    → FromSenders senders queue
    → Whenever (λ r. FromSenders senders r.1) (event_received s queue)
unfolding event_received
event_received-FromSenders senders s queue from h =
    ground (arith, h, append-FromSenders senders queue s.meta from h)

receive-FromSenders :
    (senders : List ℕ) (ss : List Sample) (queue : List PktMeta)
    → All (λ (s : Sample). is_sender s.meta.src senders ≡ true) ss
    → FromSenders senders queue
    → Whenever (FromSenders senders) (receive ss queue)
unfolding receive
receive-FromSenders senders [] queue from h = h
receive-FromSenders senders (s ∷ ss) queue from h =
    Whenever->>= (λ r. FromSenders senders r.1) (FromSenders senders) (event_received s queue) _
      (event_received-FromSenders senders s queue from.0 h)
      (λ r k. receive-FromSenders senders ss r.1 from.1 k)

pub read_cpus-FromSenders :
    (senders : List ℕ) (cs : List CpuEvents) (left : ℕ) (queue : List PktMeta)
    → Offers senders cs
    → FromSenders senders queue
    → Whenever (FromSenders senders) (read_cpus cs left queue)
unfolding read_cpus
read_cpus-FromSenders senders [] left queue from h = h
read_cpus-FromSenders senders (c ∷ cs) zero queue from h = tt
read_cpus-FromSenders senders (c ∷ cs) (suc left) queue from h = elim (Bool-cases c.revents) [
  | inr idle ↦ rw idle (read_cpus-FromSenders senders cs left queue from.1 h)
  | inl ready ↦ rw ready (
      Whenever->>= (FromSenders senders) (FromSenders senders) (receive c.samples queue) _
        (receive-FromSenders senders c.samples queue from.0 h)
        (λ queue' k. elim (Bool-cases (is_cont c.res)) [
          | inl more ↦ rw more (read_cpus-FromSenders senders cs left queue' from.1 k)
          | inr stop ↦ rw stop k
        ]))
]

-- The round finds a table for each policy, its samples are of senders, and it has at most 128 CPUs.
abbrev pub IsServed : List ℕ → List Policy → Round → Type 0
IsServed senders pols r = Stack pols r.junk × Offers senders r.cpus × (length r.cpus ≤ max_cpu)

-- What a run of rounds keeps.
pub record Kept (senders : List ℕ) (g : Guard) (n : ℕ) (g' : Guard) : Type 0 where
  pub policies_same : g'.policies ≡ g.policies
  pub from : FromSenders senders g'.queue
  pub grown : length g'.queue ≤ length g.queue + n

-- With a descriptor for at most as many CPUs as the array has entries, it is filled.
fill_poll_fds_lem :
    (sys_fds : List ℕ) (left : ℕ)
    → length sys_fds ≤ left
    → (poll_fds : List PollFd) × (fill_poll_fds sys_fds left ≡ some poll_fds)
unfolding fill_poll_fds
fill_poll_fds_lem [] left fits = ([], refl)
fill_poll_fds_lem (fd ∷ sys_fds) zero fits = absurd (omega arith)
fill_poll_fds_lem (fd ∷ sys_fds) (suc left) fits =
    let (poll_fds, e) = fill_poll_fds_lem sys_fds left (omega arith) in
    (record { fd = fd; events = 1 } ∷ poll_fds, rw e refl)

pub event_poller-poll_rounds :
    (sys : Sys) (dir : Text) (sys_fds : List ℕ) (rs : List Round) (g : Guard) (w : World sys)
    → length sys_fds ≤ max_cpu
    → event_poller sys dir sys_fds rs g w ≡ poll_rounds sys dir rs g w
unfolding event_poller
event_poller-poll_rounds sys dir sys_fds rs g w fits =
    let (poll_fds, e) = fill_poll_fds_lem sys_fds max_cpu fits in rw e refl

module _ (sys : Sys) (dir : Text) (senders : List ℕ) where
  detect_step_returns :
      (r : Round) (g : Guard) (w : World sys)
      → Stack g.policies r.junk
      → length g.policies * length senders ≤ 100
      → FromSenders senders g.queue
      → (d : Guard × World sys) × (detect_step sys dir r g w ≡ some d)
        × (d.0.policies ≡ g.policies)
        × ((d.0.queue ≡ g.queue) ⊎ (d.0.queue ≡ []))
  unfolding detect_step
  detect_step_returns r g w stack few from =
      let (st, e) =
        detect_attackers_returns sys dir r.detect_now g.policies g.queue r.junk (g.count_down, w)
          stack (omega (arith, sources-FromSenders senders g.queue g.policies from)) in
      elim (Bool-cases (sub64 g.time_end g.time_start == 1)) [
        | inl due ↦ (
          (record g { time_start = g.time_end; queue = []; count_down = st.0 }, st.1),
          rw (due, e) refl,
          refl,
          inr refl,
        )
        | inr idle ↦ ((g, w), rw idle refl, refl, inl refl)
      ]

  pub start_clock_same :
      (now : ℕ) (g : Guard)
      → ((start_clock now g).policies ≡ g.policies) × ((start_clock now g).queue ≡ g.queue)
  unfolding start_clock
  start_clock_same now g = ground arith

  pub unlock_step-policies :
      (now : ℕ) (g : Guard) (w : World sys) → (unlock_step sys dir now g w).0.policies ≡ g.policies
  unfolding unlock_step
  unlock_step-policies now g w = ground arith

  kept_queue :
      (queue queue' : List PktMeta)
      → FromSenders senders queue
      → (queue' ≡ queue) ⊎ (queue' ≡ [])
      → FromSenders senders queue' × (length queue' ≤ length queue)
  kept_queue queue queue' from (inl same) = rw same (from, omega arith)
  kept_queue queue queue' from (inr reset) = rw reset (tt, omega arith)

  poll_round_returns :
      (r : Round) (g : Guard) (w : World sys)
      → length g.policies * length senders ≤ 100
      → FromSenders senders g.queue
      → IsServed senders g.policies r
      → length g.queue + offered r.cpus ≤ queue_size
      → (s : Guard × World sys) × (poll_round sys dir r g w ≡ some s)
        × Kept senders g (offered r.cpus) s.0
  poll_round_returns r g w few from (stack, offers, cpus) room =
      let (same, same_queue) = start_clock_same r.now g in
      let (d, e, policies, either) =
        detect_step_returns r (start_clock r.now g) w (rw same stack) (rw same few)
          (rw same_queue from) in
      let (from', le) = kept_queue g.queue d.0.queue from (rw same_queue at either) in
      let (queue, e2, grown) = read_cpus_grows r.cpus max_cpu d.0.queue cpus (omega (arith, le)) in
      let u = unlock_step sys dir r.now d.0 d.1 in
      (
        (record (u.0) { queue = queue }, u.1),
        poll_round_stages sys dir r g w d queue e e2,
        record {
          policies_same = unlock_step-policies r.now d.0 d.1 ∙ policies ∙ same;
          from =
              Whenever-some (FromSenders senders) (read_cpus r.cpus max_cpu d.0.queue) queue e2
                (read_cpus-FromSenders senders r.cpus max_cpu d.0.queue offers from');
          grown = omega (arith, Grown-length d.0.queue queue (offered r.cpus) grown, le);
        },
      )

  poll_rounds_safe :
      (rs : List Round) (g : Guard) (w : World sys)
      → length g.policies * length senders ≤ 100
      → FromSenders senders g.queue
      → All (IsServed senders g.policies) rs
      → length g.queue + offered_all rs ≤ queue_size
      → (s : Guard × World sys) × (poll_rounds sys dir rs g w ≡ some s)
        × Kept senders g (offered_all rs) s.0
  unfolding poll_rounds
  poll_rounds_safe [] g w few from served room =
      ((g, w), refl, record { policies_same = refl; from = from; grown = omega arith })
  poll_rounds_safe (r ∷ rs) g w few from served room =
      let (s1, e1, k1) = poll_round_returns r g w few from served.0 (omega arith) in
      let (s2, e2, k2) =
        poll_rounds_safe rs s1.0 s1.1 (rw k1.policies_same few) k1.from
          (rw k1.policies_same served.1) (omega (arith, k1.grown)) in
      (
        s2,
        rw e1 e2,
        record {
          policies_same = k2.policies_same ∙ k1.policies_same;
          from = k2.from;
          grown = omega (arith, k1.grown, k2.grown);
        },
      )

  -- In any system and at any times of the clock, on a host of at most 128 CPUs: if every round
  -- finds a table of 100 rows for each policy, all packets that are queued or come are from
  -- `senders`, the number of policies times that of senders is at most 100, and at most
  -- `queue_size` packets are queued or come in all, then `event_poller` runs on without an access
  -- outside of its arrays, however often it resets the queue.
  pub event_poller_safe :
      (sys_fds : List ℕ) (rs : List Round) (g : Guard) (w : World sys)
      → length sys_fds ≤ max_cpu
      → length g.policies * length senders ≤ 100
      → FromSenders senders g.queue
      → All (IsServed senders g.policies) rs
      → length g.queue + offered_all rs ≤ queue_size
      → (s : Guard × World sys) × (event_poller sys dir sys_fds rs g w ≡ some s)
        × Kept senders g (offered_all rs) s.0
  event_poller_safe sys_fds rs g w fits few from served room =
      let (s, e, kept) = poll_rounds_safe rs g w few from served room in
      (s, event_poller-poll_rounds sys dir sys_fds rs g w fits ∙ e, kept)
