-- ===== src/Policy/Poll/Quiet.antt =====
-- main/start_policy.c, `event_poller`: rounds without events, at least one in each second. Every
-- lock comes to its end.
use anti_dos.Base.{
  ℕ, zero, suc, ◌+◌, ◌^◌, ◌≤◌, ◌<◌, ◌≡◌, ◌≢◌, ◌⊎◌, inl, inr, refl, ◌∙◌, sym, ap, not, ◌&&◌, List,
  [], ◌∷◌, some, All, map, length, arith,
}
use anti_dos.Filter.Stats.{PktMeta}
use anti_dos.Maps.Kernel.{Sys, Text}
use anti_dos.Policy.{Policy, PolicyStatsIp, Guard, World, lock_time, max_cpu}
use anti_dos.Policy.BlackList.{ServesBlackList}
use anti_dos.Policy.Table.{count_packets, reset}
use anti_dos.Policy.Detect.{each_row, each_table, detect_attackers}
use anti_dos.Policy.Unlock.{sweep}
use anti_dos.Policy.Unlock.Expiry.{expires, free_row, sweep_lem}
use anti_dos.Policy.Unlock.Seconds.{
  Swept, Swept-none, Swept-free_row, Swept-next, free_row-twice, expires-twice, registered,
  all_expire, all_free,
}
use anti_dos.Policy.Poll.{
  CpuEvents, Round, start_clock, detect_step, unlock_step, receive, read_cpus, poll_round,
  poll_rounds,
}
use anti_dos.Policy.Poll.Stages.{
  start_clock_running, detect_step_due, unlock_step_due, poll_round_stages,
}

-- The environment offers no record.
abbrev NoSamples : List CpuEvents → Type 0
NoSamples cs = All (λ c. c.samples ≡ []) cs

-- There are at most 128 CPUs, without events.
abbrev pub NoEvents : List CpuEvents → Type 0
NoEvents cs = (length cs ≤ max_cpu) × NoSamples cs

read_cpus_quiet :
    (cs : List CpuEvents) (left : ℕ) (queue : List PktMeta)
    → length cs ≤ left
    → NoSamples cs
    → read_cpus cs left queue ≡ some queue
unfolding read_cpus receive
read_cpus_quiet [] left queue fits h = refl
read_cpus_quiet (c ∷ cs) zero queue fits h = absurd (omega arith)
read_cpus_quiet (c ∷ cs) (suc left) queue fits h =
    ground (arith, h.0, read_cpus_quiet cs left queue (omega arith) h.1)

module _ (sys : Sys) (dir : Text) (clock : ℕ → ℕ → ℕ) where
  each_table_quiet :
      (pols : List Policy) (psis : List PolicyStatsIp) (st : List (ℕ × ℕ) × World sys)
      → length pols ≤ length psis
      → each_table sys dir clock pols (reset psis) st ≡ some st
  unfolding each_table each_row
  each_table_quiet [] psis st h = refl
  each_table_quiet (pol ∷ pols) [] st h = absurd (omega arith)
  each_table_quiet (pol ∷ pols) (psi ∷ psis) st h = each_table_quiet pols psis st (omega arith)

  detect_quiet :
      (pols : List Policy) (junk : List PolicyStatsIp) (st : List (ℕ × ℕ) × World sys)
      → length pols ≤ length junk
      → detect_attackers sys dir clock pols [] junk st ≡ some st
  unfolding detect_attackers count_packets
  detect_quiet pols junk st h = each_table_quiet pols junk st h

-- The round comes in the second of the last one or in the next, and brings nothing.
abbrev pub Quiet : ℕ → ℕ → Round → Type 0
Quiet n t r = ((r.now ≡ t) ⊎ (r.now ≡ t + 1)) × (n ≤ length r.junk) × NoEvents r.cpus

abbrev pub AllQuiet : ℕ → ℕ → List Round → Type 0
AllQuiet n t [] = Unit
AllQuiet n t (r ∷ rs) = Quiet n t r × AllQuiet n r.now rs

-- When the last round runs.
abbrev pub end_of : ℕ → List Round → ℕ
end_of t [] = t
end_of t (r ∷ rs) = end_of r.now rs

end_of-le : (n t : ℕ) (rs : List Round) → AllQuiet n t rs → t ≤ end_of t rs
end_of-le n t [] h = omega arith
end_of-le n t (r ∷ rs) h = omega (arith, end_of-le n r.now rs h.1, h.0.0)

-- The loop has reset and swept at `t`, and the queue is empty.
pub record IsAt (t : ℕ) (g : Guard) : Type 0 where
  pub start_at : g.time_start ≡ t
  pub prev_at : g.prev_time ≡ t
  pub empty : g.queue ≡ []

module _ (sys : Sys) (dir : Text) where
  -- A round in the second of the last one only notes the time.
  same_second :
      (r : Round) (g : Guard) (w : World sys)
      → r.now ≢ 0
      → r.now < 2 ^ 32
      → IsAt r.now g
      → NoEvents r.cpus
      → poll_round sys dir r g w ≡ some (record g { time_end = r.now }, w)
  unfolding poll_round detect_step unlock_step
  same_second r g w n b i quiet = rw (start_clock_running r.now g (omega arith) (omega arith)) (
      ground (arith, i.start_at, i.prev_at, read_cpus_quiet r.cpus max_cpu g.queue quiet.0 quiet.1))

  -- A round of the next second sweeps.
  next_second :
      (t : ℕ) (r : Round) (g : Guard) (w : World sys)
      → t ≢ 0
      → r.now ≡ t + 1
      → r.now < 2 ^ 32
      → IsAt t g
      → length g.policies ≤ length r.junk
      → NoEvents r.cpus
      → poll_round sys dir r g w
        ≡ some (
          record g {
            time_start = r.now;
            time_end = r.now;
            prev_time = r.now;
            queue = [];
            count_down = (sweep sys dir r.now g.count_down w).0;
          },
          (sweep sys dir r.now g.count_down w).1,
        )
  next_second t r g w n e b i enough quiet =
      let d = record g { time_start = r.now; time_end = r.now; queue = [] } in
      let detected : detect_step sys dir r (start_clock r.now g) w ≡ some (d, w) =
        rw (start_clock_running r.now g (omega arith) (omega arith)) (
          detect_step_due sys dir r (record g { time_end = r.now }) w (g.count_down, w)
            (omega arith) (omega arith)
            (rw i.empty
              (detect_quiet sys dir r.detect_now g.policies r.junk (g.count_down, w) enough))) in
      poll_round_stages sys dir r g w (d, w) [] detected
        (read_cpus_quiet r.cpus max_cpu [] quiet.0 quiet.1)
      ∙ ap (λ (u : Guard × World sys). some (record (u.0) { queue = [] }, u.1))
          (unlock_step_due sys dir r.now d w (omega arith) (omega arith))

  module _ (serves : ServesBlackList sys dir) where
    open serves use {holds}

    -- The locks taken by `rows` that are over at `later` have ended, and only those.
    record Ended (later : ℕ) (rows : List (ℕ × ℕ)) (w : World sys) (g' : Guard) (w' : World sys)
        : Type 0 where
      freed : g'.count_down ≡ map (free_row later) rows
      unblocked : (a : ℕ) → holds w'.store a ≡ not (expires later a rows) && holds w.store a

    quiet_rounds :
        (rs : List Round) (t : ℕ) (g : Guard) (w : World sys)
        → t ≢ 0
        → end_of t rs < 2 ^ 32
        → IsAt t g
        → Swept t g.count_down
        → AllQuiet (length g.policies) t rs
        → (g' : Guard) × (w' : World sys) × (poll_rounds sys dir rs g w ≡ some (g', w'))
          × Ended (end_of t rs) g.count_down w g' w'
    unfolding poll_rounds
    quiet_rounds [] t g w n b i s q = (
      g,
      w,
      refl,
      record {
        freed = sym (Swept-free_row t g.count_down b s);
        unblocked = λ a. ground (arith, Swept-none t a g.count_down b s);
      },
    )
    quiet_rounds (r ∷ rs) t g w n b i s ((inl same, enough, quiet), q) =
        let le = end_of-le (length g.policies) r.now rs q in
        let here : IsAt r.now g = record {
          start_at = i.start_at ∙ sym same;
          prev_at = i.prev_at ∙ sym same;
          empty = i.empty;
        } in
        let (g', w', e, ended) =
          quiet_rounds rs r.now (record g { time_end = r.now }) w (omega arith) b
            (record { start_at = here.start_at; prev_at = here.prev_at; empty = here.empty })
            (rw same s) q in
        (g', w', rw (same_second r g w (omega arith) (omega arith) here quiet) e, ended)
    quiet_rounds (r ∷ rs) t g w n b i s ((inr next, enough, quiet), q) =
        let le = end_of-le (length g.policies) r.now rs q in
        let (rows, kept) = sweep_lem sys dir serves r.now g.count_down w in
        let g1 = record g {
          time_start = r.now;
          time_end = r.now;
          prev_time = r.now;
          queue = [];
          count_down = (sweep sys dir r.now g.count_down w).0;
        } in
        let w1 = (sweep sys dir r.now g.count_down w).1 in
        let (g', w', e, ended) =
          quiet_rounds rs r.now g1 w1 (omega arith) b
            (record { start_at = refl; prev_at = refl; empty = refl })
            (rw rows (Swept-next t r.now next g.count_down (omega arith) s)) q in
        (
          g',
          w',
          rw (next_second t r g w n next (omega arith) i enough quiet) e,
          record {
            freed =
                ended.freed
                ∙ rw rows (free_row-twice t r.now next (end_of r.now rs) g.count_down le b s);
            unblocked = λ a. ground (
              arith,
              ended.unblocked a,
              kept a,
              ap (expires (end_of r.now rs) a) rows,
              expires-twice t r.now next (end_of r.now rs) a g.count_down le b s,
            );
          },
        )

    -- In a system that serves the black list, the loop has reset and swept at `t`, its queue is
    -- empty, and no lock is older than five seconds. If no event comes, and the rounds come in
    -- every second until five seconds later or more, the loop runs on without a fault, each row of
    -- `count_down` is free at its end, and the addresses that stood there are unblocked, and no
    -- others.
    pub quiet_rounds-unlock :
        (rs : List Round) (t : ℕ) (g : Guard) (w : World sys)
        → t ≢ 0
        → t + lock_time ≤ end_of t rs
        → end_of t rs < 2 ^ 32
        → IsAt t g
        → Swept t g.count_down
        → AllQuiet (length g.policies) t rs
        → (g' : Guard) × (w' : World sys) × (poll_rounds sys dir rs g w ≡ some (g', w'))
          × (g'.count_down ≡ map (λ row. (0, row.1)) g.count_down)
          × ((a : ℕ) → holds w'.store a ≡ not (registered a g.count_down) && holds w.store a)
    quiet_rounds-unlock rs t g w n five b i s q =
        let (g', w', e, ended) = quiet_rounds rs t g w n b i s q in
        (
          g',
          w',
          e,
          ended.freed ∙ all_free t (end_of t rs) g.count_down five b s,
          λ a.
              ground (arith, ended.unblocked a, all_expire t (end_of t rs) a g.count_down five b s),
        )
