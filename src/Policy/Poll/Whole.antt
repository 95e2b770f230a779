-- ===== src/Policy/Poll/Whole.antt =====
-- main/start_policy.c, `event_poller`: from the records that come within a second to the black list
-- after it.
use anti_dos.Base.{
  ℕ, zero, suc, ◌+◌, ◌^◌, ◌≤◌, ◌<◌, ◌≡◌, ◌≢◌, refl, ap, ◌∙◌, true, List, [], ◌∷◌, ◌++◌, Option,
  none, some, Option-cases, ◌>>=◌, length, length-append, All, arith, ◌==◌, if◌then◌else◌,
  Bool-cases, inl, inr,
}
use mathlib.Core.List.{append_assoc, append-nil}
use anti_dos.Filter.Stats.{PktMeta}
use anti_dos.Maps.Kernel.{Sys, Text}
use anti_dos.Policy.{Guard, World, max_cpu, queue_size}
use anti_dos.Policy.BlackList.{ServesBlackList}
use anti_dos.Policy.Table.Noted.{sources}
use anti_dos.Policy.Table.Every.{Stack}
use anti_dos.Policy.Poll.{
  Sample, CpuEvents, Round, perf_record_sample, event_cont, event_received, receive, read_cpus,
  is_cont, detect_step, unlock_step, poll_round, poll_rounds,
}
use anti_dos.Policy.Poll.Stages.{start_clock_running}
use anti_dos.Policy.Poll.Stall.{event_received_lem}
use anti_dos.Policy.Poll.Second.{Passed, due_round}

-- The packets of the samples, which are the records of one kind.
unfoldable pub packets_of : List Sample → List PktMeta
packets_of [] = []
packets_of (s ∷ ss) = if s.kind == perf_record_sample then s.meta ∷ packets_of ss else packets_of ss

-- Those of the CPUs that have events.
unfoldable pub arrived : List CpuEvents → List PktMeta
arrived [] = []
arrived (c ∷ cs) = (if c.revents then packets_of c.samples else []) ++ arrived cs

abbrev pub arrived_all : List Round → List PktMeta
arrived_all [] = []
arrived_all (r ∷ rs) = arrived r.cpus ++ arrived_all rs

-- Every buffer is read to its end.
abbrev Drained : List CpuEvents → Type 0
Drained cs = All (λ c. is_cont c.res ≡ true) cs

-- There are at most 128 CPUs, whose buffers are read to their ends.
abbrev pub AllRead : List CpuEvents → Type 0
AllRead cs = (length cs ≤ max_cpu) × Drained cs

receive_lem :
    (ss : List Sample) (queue : List PktMeta)
    → length queue + length (packets_of ss) ≤ queue_size
    → receive ss queue ≡ some (queue ++ packets_of ss)
unfolding receive event_received packets_of
receive_lem [] queue room = ground (arith, append-nil queue)
receive_lem (s ∷ ss) queue room = elim (Bool-cases (s.kind == 9)) [
  | inr other ↦
      let room' : length queue + length (packets_of ss) ≤ queue_size = rw other at room in
      let passed : event_received s queue ≡ some (event_cont, queue) = ground (arith, other) in
      rw (passed, other) (receive_lem ss queue room')
  | inl sample ↦
      let room' : length queue + length (s.meta ∷ packets_of ss) ≤ queue_size = rw sample at room in
      let q1 = queue ++ (s.meta ∷ []) in
      let got : event_received s queue ≡ some (event_cont, q1) =
        rw (event_received_lem s queue (omega arith), sample) refl in
      let rest : receive ss q1 ≡ some (q1 ++ packets_of ss) =
        receive_lem ss q1 (omega (arith, length-append queue (s.meta ∷ []))) in
      rw (got, sample, rest) (ap some (append_assoc queue (s.meta ∷ []) (packets_of ss)))
]

read_cpus_lem :
    (cs : List CpuEvents) (left : ℕ) (queue : List PktMeta)
    → length cs ≤ left
    → Drained cs
    → length queue + length (arrived cs) ≤ queue_size
    → read_cpus cs left queue ≡ some (queue ++ arrived cs)
unfolding read_cpus arrived
read_cpus_lem [] left queue fits read room = ground (arith, append-nil queue)
read_cpus_lem (c ∷ cs) zero queue fits read room = absurd (omega arith)
read_cpus_lem (c ∷ cs) (suc left) queue fits read room = elim (Bool-cases c.revents) [
  | inr idle ↦
      let room' : length queue + length (arrived cs) ≤ queue_size = rw idle at room in
      rw idle (read_cpus_lem cs left queue (omega arith) read.1 room')
  | inl ready ↦
      let ms = packets_of c.samples in
      let q1 = queue ++ ms in
      let room' : length queue + length (ms ++ arrived cs) ≤ queue_size = rw ready at room in
      let len = length-append ms (arrived cs) in
      let got = receive_lem c.samples queue (omega (arith, len)) in
      let rest =
        read_cpus_lem cs left q1 (omega arith) read.1
          (omega (arith, len, length-append queue ms)) in
      rw (ready, got, read.0, rest) (ap some (append_assoc queue ms (arrived cs)))
]

-- The rounds of one second, whose buffers are read to their ends.
abbrev pub Within : ℕ → List Round → Type 0
Within t rs = All (λ r. (r.now ≡ t) × AllRead r.cpus) rs

module _ (sys : Sys) (dir : Text) where
  poll_rounds-append :
      (rs : List Round) (r : Round) (g g1 : Guard) (w w1 : World sys)
      → poll_rounds sys dir rs g w ≡ some (g1, w1)
      → poll_rounds sys dir (rs ++ (r ∷ [])) g w ≡ poll_round sys dir r g1 w1
  unfolding poll_rounds
  poll_rounds-append [] r g g1 w w1 e =
      let same : (g, w) ≡ (g1, w1) = cc in
      returned (poll_round sys dir r g w)
      ∙ ap (λ (s : Guard × World sys). poll_round sys dir r s.0 s.1) same
    where
      returned : (o : Option (Guard × World sys)) → (o >>= λ s. some (s.0, s.1)) ≡ o
      returned none = refl
      returned (some s) = refl
  poll_rounds-append (q ∷ rs) r g g1 w w1 e = elim (Option-cases (poll_round sys dir q g w)) [
    | inl fault ↦ cc
    | inr (s, e1) ↦ rw e1 (poll_rounds-append rs r s.0 g1 s.1 w1 (rw e1 at e))
  ]

  -- A round in the second of the last reset and sweep only reads.
  pub gather :
      (t : ℕ) (r : Round) (g : Guard) (w : World sys)
      → t ≢ 0
      → g.time_start ≡ t
      → g.prev_time ≡ t
      → r.now ≡ t
      → AllRead r.cpus
      → length g.queue + length (arrived r.cpus) ≤ queue_size
      → poll_round sys dir r g w
        ≡ some (record g { time_end = r.now; queue = g.queue ++ arrived r.cpus }, w)
  unfolding poll_round detect_step unlock_step
  gather t r g w z start swept now read room =
      rw (start_clock_running r.now g (omega arith) (omega arith))
        (ground (arith, start, swept, now, read_cpus_lem r.cpus max_cpu g.queue read.0 read.1 room))

  gather_all :
      (t : ℕ) (rs : List Round) (g : Guard) (w : World sys)
      → t ≢ 0
      → g.time_start ≡ t
      → g.prev_time ≡ t
      → Within t rs
      → length g.queue + length (arrived_all rs) ≤ queue_size
      → (e : ℕ) × (poll_rounds sys dir rs g w
          ≡ some (record g { time_end = e; queue = g.queue ++ arrived_all rs }, w))
  unfolding poll_rounds
  gather_all t [] g w z start swept within room = (g.time_end, ground (arith, append-nil g.queue))
  gather_all t (r ∷ rs) g w z start swept ((now, read), within) room =
      let ms = arrived r.cpus in
      let len = length-append ms (arrived_all rs) in
      let g1 = record g { time_end = r.now; queue = g.queue ++ ms } in
      let (e, rest) =
        gather_all t rs g1 w z start swept within (omega (arith, len, length-append g.queue ms)) in
      (
        e,
        rw (gather t r g w z start swept now read (omega (arith, len)), rest)
            (ap (λ queue. some (record g { time_end = e; queue = queue }, w))
              (append_assoc g.queue ms (arrived_all rs))),
      )

  -- In a system that serves the black list, the loop has reset and swept in the second `t`. Rounds
  -- of this second, on at most 128 CPUs, read all that comes to them, a round of the next second
  -- follows, within which the clock does not tick, and which finds a table of 100 rows of any
  -- content for each policy. The queue has room for the packets of each second, and the first
  -- second's have at most 100 pairs of a policy and a source of packets to it. Then there is no
  -- fault, the next second begins with the packets of the last round, `count_down` is as the
  -- detection leaves it with the expired rows free, and an address is blocked if and only if none
  -- of its locks is over and it was blocked before or has sent some policy's address more than the
  -- threshold within the first second. With several policies this is said of the addresses that the
  -- uninitialised tables did not hold.
  pub whole_second-Passed :
      (serves : ServesBlackList sys dir) (t : ℕ) (rs : List Round) (r : Round) (g : Guard)
      (w : World sys)
      → t ≢ 0
      → g.time_start ≡ t
      → g.prev_time ≡ t
      → Within t rs
      → length g.queue + length (arrived_all rs) ≤ queue_size
      → r.now ≡ t + 1
      → ((i j : ℕ) → r.detect_now i j ≡ r.now)
      → r.now < 2 ^ 32
      → AllRead r.cpus
      → length (arrived r.cpus) ≤ queue_size
      → Stack g.policies r.junk
      → sources (g.queue ++ arrived_all rs) g.policies ≤ 100
      → (s : Guard × World sys) × (poll_rounds sys dir (rs ++ (r ∷ [])) g w ≡ some s)
        × Passed sys dir serves r
            (record g { queue = g.queue ++ arrived_all rs })
            w
            (arrived r.cpus)
            s.0
            s.1
  whole_second-Passed serves t rs r g w z start swept within room now same small read room' stack
        few =
      let queue = g.queue ++ arrived_all rs in
      let (e, gathered) = gather_all t rs g w z start swept within room in
      let g1 = record g { time_end = e; queue = queue } in
      let (s, run, p) =
        due_round sys dir serves r g1 w stack few (arrived r.cpus)
          (read_cpus_lem r.cpus max_cpu [] read.0 read.1 (omega arith)) (omega arith) (omega arith)
          (omega arith) (omega arith) same small in
      (
        s,
        poll_rounds-append rs r g g1 w w gathered ∙ run,
        record {
          start_at = p.start_at;
          prev_at = p.prev_at;
          policies_same = p.policies_same;
          queued = p.queued;
          locks = p.locks;
          blocked = p.blocked;
        },
      )
