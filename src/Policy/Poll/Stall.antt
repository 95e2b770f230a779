-- ===== src/Policy/Poll/Stall.antt =====
-- main/start_policy.c, `event_poller`: a round that comes two seconds or more after the last reset
-- passes both `== 1` tests by, and so do all later ones.
use anti_dos.Base.{
  ℕ, zero, suc, ◌+◌, ◌^◌, ◌≤◌, ◌<◌, ◌≡◌, ◌≢◌, refl, ◌∙◌, List, [], ◌∷◌, ◌++◌, some, negsuc, length,
  length-append, All, arith, ◌==◌, if◌then◌else◌, Bool-cases, inl, inr,
}
use mathlib.Core.List.{append_assoc, append-nil}
use anti_dos.Filter.Stats.{PktMeta}
use anti_dos.Maps.Kernel.{Sys, Text}
use anti_dos.Policy.{Guard, World, max_cpu, queue_size}
use anti_dos.Policy.Poll.{
  Sample, CpuEvents, Round, event_received, receive, read_cpus, is_cont, start_clock, detect_step,
  unlock_step, poll_round, poll_rounds,
}

-- How many samples the environment offers.
abbrev pub offered : List CpuEvents → ℕ
offered [] = 0
offered (c ∷ cs) = length c.samples + offered cs

abbrev pub offered_all : List Round → ℕ
offered_all [] = 0
offered_all (r ∷ rs) = offered r.cpus + offered_all rs

-- The queue has grown by at most `n` entries at its end.
abbrev pub Grown : List PktMeta → ℕ → List PktMeta → Type 0
Grown queue n queue' = (new : List PktMeta) × (queue' ≡ queue ++ new) × (length new ≤ n)

Grown-trans : (a b c : List PktMeta) (m n : ℕ) → Grown a m b → Grown b n c → Grown a (m + n) c
Grown-trans a b c m n (x, e, h) (y, f, k) =
    (x ++ y, rw (f, e) (append_assoc a x y), omega (arith, length-append x y))

pub Grown-length : (a b : List PktMeta) (n : ℕ) → Grown a n b → length b ≤ length a + n
Grown-length a b n (x, e, h) = rw e (omega (arith, length-append a x))

Grown-refl : (a : List PktMeta) (n : ℕ) → Grown a n a
Grown-refl a n = ([], ground (arith, append-nil a), omega arith)

Grown-le : (a b : List PktMeta) (m n : ℕ) → m ≤ n → Grown a m b → Grown a n b
Grown-le a b m n le (x, e, h) = (x, e, omega arith)

-- What an event leaves in the queue.
abbrev pub event_queue : Sample → List PktMeta → List PktMeta
event_queue s queue = if s.kind == 9 then queue ++ (s.meta ∷ []) else queue

pub event_received_lem :
    (s : Sample) (queue : List PktMeta)
    → length queue < queue_size
    → event_received s queue ≡ some (negsuc 1, event_queue s queue)
unfolding event_received
event_received_lem s queue room = ground arith

event_queue-Grown : (s : Sample) (queue : List PktMeta) → Grown queue 1 (event_queue s queue)
event_queue-Grown s queue = elim (Bool-cases (s.kind == 9)) [
  | inl sample ↦ rw sample (s.meta ∷ [], refl, omega arith)
  | inr other ↦ rw other (Grown-refl queue 1)
]

receive_grows :
    (ss : List Sample) (queue : List PktMeta)
    → length queue + length ss ≤ queue_size
    → (queue' : List PktMeta) × (receive ss queue ≡ some queue') × Grown queue (length ss) queue'
unfolding receive
receive_grows [] queue room = (queue, refl, Grown-refl queue 0)
receive_grows (s ∷ ss) queue room =
    let q1 = event_queue s queue in
    let g1 = event_queue-Grown s queue in
    let len1 = Grown-length queue q1 1 g1 in
    let (q2, e2, g2) = receive_grows ss q1 (omega (arith, len1)) in
    (
      q2,
      rw (event_received_lem s queue (omega arith)) e2,
      Grown-le queue q2 (1 + length ss) (suc (length ss)) (omega arith)
          (Grown-trans queue q1 q2 1 (length ss) g1 g2),
    )

pub read_cpus_grows :
    (cs : List CpuEvents) (left : ℕ) (queue : List PktMeta)
    → length cs ≤ left
    → length queue + offered cs ≤ queue_size
    → (queue' : List PktMeta) × (read_cpus cs left queue ≡ some queue')
      × Grown queue (offered cs) queue'
unfolding read_cpus
read_cpus_grows [] left queue fits room = (queue, refl, Grown-refl queue 0)
read_cpus_grows (c ∷ cs) zero queue fits room = absurd (omega arith)
read_cpus_grows (c ∷ cs) (suc left) queue fits room = elim (Bool-cases c.revents) [
  | inr idle ↦
      let (q, e, g) = read_cpus_grows cs left queue (omega arith) (omega arith) in
      (q, rw idle e, Grown-le queue q (offered cs) (offered (c ∷ cs)) (omega arith) g)
  | inl ready ↦
      let (q1, e1, g1) = receive_grows c.samples queue (omega arith) in
      elim (Bool-cases (is_cont c.res)) [
        | inr stop ↦ (
          q1,
          rw (ready, e1, stop) refl,
          Grown-le queue q1 (length c.samples) (offered (c ∷ cs)) (omega arith) g1,
        )
        | inl more ↦
            let (q2, e2, g2) =
              read_cpus_grows cs left q1 (omega arith)
                (omega (arith, Grown-length queue q1 (length c.samples) g1)) in
            (
              q2,
              rw (ready, e1, more) e2,
              Grown-trans queue q1 q2 (length c.samples) (offered cs) g1 g2,
            )
      ]
]

-- Both times are set, and every round comes two seconds or more after them; no time is 2^64. There
-- are at most 128 CPUs.
abbrev pub IsLate : Guard → Round → Type 0
IsLate g r =
    (g.time_start + 2 ≤ r.now)
    × (g.prev_time + 2 ≤ r.now)
    × (r.now < 2 ^ 64)
    × (length r.cpus ≤ max_cpu)

pub record Stalled (sys : Sys) (g : Guard) (w : World sys) (n : ℕ) (g' : Guard) (w' : World sys)
    : Type 0 where
  pub start_same : g'.time_start ≡ g.time_start
  pub prev_same : g'.prev_time ≡ g.prev_time
  pub locks_same : g'.count_down ≡ g.count_down
  pub world_same : w' ≡ w
  pub queue_kept : Grown g.queue n g'.queue

module _ (sys : Sys) (dir : Text) where
  late_round :
      (r : Round) (g : Guard) (w : World sys)
      → g.time_start ≢ 0
      → g.prev_time ≢ 0
      → IsLate g r
      → length g.queue + offered r.cpus ≤ queue_size
      → (g' : Guard) × (poll_round sys dir r g w ≡ some (g', w))
        × Stalled sys g w (offered r.cpus) g' w
  unfolding poll_round start_clock detect_step unlock_step
  late_round r g w a b late room =
      let (q, e, grown) = read_cpus_grows r.cpus max_cpu g.queue late.3 room in
      (
        record g { time_end = r.now; queue = q },
        ground (arith, e),
        record {
          start_same = refl;
          prev_same = refl;
          locks_same = refl;
          world_same = refl;
          queue_kept = grown;
        },
      )

  still-IsLate :
      (g g1 : Guard) (rs : List Round)
      → g1.time_start ≡ g.time_start
      → g1.prev_time ≡ g.prev_time
      → All (IsLate g) rs
      → All (IsLate g1) rs
  still-IsLate g g1 [] s p h = tt
  still-IsLate g g1 (r ∷ rs) s p h = (omega arith, still-IsLate g g1 rs s p h.1)

  -- On at most 128 CPUs, once the loop is two seconds late it stays so: over any further rounds
  -- with room in the queue it runs on without a fault, never looks for attackers or resets the
  -- queue, which only grows, never moves its times, and never ends a lock.
  pub late_rounds_stall :
      (rs : List Round) (g : Guard) (w : World sys)
      → g.time_start ≢ 0
      → g.prev_time ≢ 0
      → All (IsLate g) rs
      → length g.queue + offered_all rs ≤ queue_size
      → (g' : Guard) × (poll_rounds sys dir rs g w ≡ some (g', w))
        × Stalled sys g w (offered_all rs) g' w
  unfolding poll_rounds
  late_rounds_stall [] g w a b late room = (
    g,
    refl,
    record {
      start_same = refl;
      prev_same = refl;
      locks_same = refl;
      world_same = refl;
      queue_kept = Grown-refl g.queue 0;
    },
  )
  late_rounds_stall (r ∷ rs) g w a b late room =
      let (g1, e1, s1) = late_round r g w a b late.0 (omega arith) in
      let (g2, e2, s2) =
        late_rounds_stall rs g1 w (omega (arith, s1.start_same)) (omega (arith, s1.prev_same))
          (still-IsLate g g1 rs s1.start_same s1.prev_same late.1)
          (omega (arith, Grown-length g.queue g1.queue (offered r.cpus) s1.queue_kept)) in
      (
        g2,
        rw e1 e2,
        record {
          start_same = s2.start_same ∙ s1.start_same;
          prev_same = s2.prev_same ∙ s1.prev_same;
          locks_same = s2.locks_same ∙ s1.locks_same;
          world_same = refl;
          queue_kept =
              Grown-trans g.queue g1.queue g2.queue (offered r.cpus) (offered_all rs) s1.queue_kept
                s2.queue_kept;
        },
      )
