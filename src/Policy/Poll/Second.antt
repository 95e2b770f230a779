-- ===== src/Policy/Poll/Second.antt =====
-- main/start_policy.c, `event_poller`: what a round makes of the black list when a second has
-- passed since the last reset and sweep.
use anti_dos.Base.{
  ℕ, ◌+◌, ◌^◌, ◌≤◌, ◌<◌, ◌≡◌, ◌≢◌, refl, ap, map, ◌∙◌, not, ◌&&◌, ◌||◌, List, [], ◌∷◌, Option, none,
  some, arith, Bool-cases, inl, inr, Whenever,
}
use anti_dos.Filter.Stats.{PktMeta}
use anti_dos.Maps.Kernel.{Sys, Text}
use anti_dos.Policy.{Policy, Guard, World, max_cpu}
use anti_dos.Policy.BlackList.{ServesBlackList}
use anti_dos.Policy.Table.Noted.{sources}
use anti_dos.Policy.Table.Every.{Stack}
use anti_dos.Policy.Detect.{over_limit, register, enforce, detect_attackers}
use anti_dos.Policy.Detect.Exact.{violates, Vouched, Right, detect_attackers_exact}
use anti_dos.Policy.Detect.Keeps.{detect_attackers_keeps}
use anti_dos.Policy.Unlock.{sweep}
use anti_dos.Policy.Unlock.Expiry.{expires, free_row, sweep_lem}
use anti_dos.Policy.Poll.{Round, start_clock, detect_step, read_cpus, poll_round}
use anti_dos.Policy.Poll.Stages.{
  start_clock_running, detect_step_due, unlock_step_due, poll_round_stages,
}

register-expires :
    (now ip a : ℕ) (rows : List (ℕ × ℕ))
    → now < 2 ^ 32
    → expires now a (register ip now rows) ≡ expires now a rows
unfolding register expires
register-expires now ip a [] small = refl
register-expires now ip a ((x, t) ∷ rows) small =
    ground (arith, register-expires now ip a rows small)

module _ (sys : Sys) (dir : Text) (r : Round) where
  pub enforce-expires :
      (a i j : ℕ) (pol : Policy) (row : ℕ × ℕ) (st : List (ℕ × ℕ) × World sys)
      → ((i j : ℕ) → r.detect_now i j ≡ r.now)
      → r.now < 2 ^ 32
      → expires r.now a (enforce sys dir (r.detect_now i j) pol row st).0 ≡ expires r.now a st.0
  unfolding enforce
  enforce-expires a i j pol (ip, c) (rows, w) same small = elim (Bool-cases (over_limit pol c)) [
    | inl over ↦ rw (over, same i j) (register-expires r.now ip a rows small)
    | inr fine ↦ rw fine refl
  ]

-- What a round leaves after a second, in which it has read `queue`: the next second begins, with
-- the same policies, the expired rows of `count_down` are free, and an address is blocked if and
-- only if none of its locks is over and it was blocked before or has sent too much.
pub record Passed (sys : Sys) (dir : Text) (serves : ServesBlackList sys dir) (r : Round)
    (g : Guard) (w : World sys) (queue : List PktMeta) (g' : Guard) (w' : World sys) : Type 0 where
  pub start_at : g'.time_start ≡ r.now
  pub prev_at : g'.prev_time ≡ r.now
  pub policies_same : g'.policies ≡ g.policies
  pub queued : g'.queue ≡ queue
  pub locks :
      (st : List (ℕ × ℕ) × World sys) × (detect_attackers sys dir r.detect_now g.policies g.queue
          r.junk
          (g.count_down, w)
        ≡ some st)
      × (g'.count_down ≡ map (free_row r.now) st.0)
  pub blocked :
      (a : ℕ)
      → Vouched g.policies r.junk a
      → serves.holds w'.store a
        ≡ not (expires r.now a g.count_down)
          && (violates g.policies g.queue a || serves.holds w.store a)

module _ (sys : Sys) (dir : Text) (serves : ServesBlackList sys dir) (r : Round) (g : Guard)
    (w : World sys) (stack : Stack g.policies r.junk) (few : sources g.queue g.policies ≤ 100) where
  open serves use {holds}

  -- The detection of the round, with what every row's part of it keeps.
  pub detected :
      (P : List (ℕ × ℕ) → Type 0)
      → ((i j : ℕ) (pol : Policy) (row : ℕ × ℕ) (st : List (ℕ × ℕ) × World sys)
          → P st.0
          → P (enforce sys dir (r.detect_now i j) pol row st).0)
      → P g.count_down
      → (st : List (ℕ × ℕ) × World sys) × (detect_attackers sys dir r.detect_now g.policies g.queue
            r.junk
            (g.count_down, w)
          ≡ some st)
        × P st.0
        × ((a : ℕ)
            → Vouched g.policies r.junk a
            → holds st.1.store a ≡ violates g.policies g.queue a || holds w.store a)
  detected P keep start =
      both (detect_attackers sys dir r.detect_now g.policies g.queue r.junk (g.count_down, w))
        (detect_attackers_exact sys dir serves r.detect_now g.policies g.queue r.junk
          (g.count_down, w) stack few)
        (detect_attackers_keeps sys dir r.detect_now (λ st. P st.0) keep g.policies g.queue r.junk
          (g.count_down, w) start)
    where
      both :
          (o : Option (List (ℕ × ℕ) × World sys))
          → Right sys dir serves r.detect_now g.policies g.queue r.junk (g.count_down, w) o
          → Whenever (λ st. P st.0) o
          → (st : List (ℕ × ℕ) × World sys) × (o ≡ some st)
            × P st.0
            × ((a : ℕ)
                → Vouched g.policies r.junk a
                → holds st.1.store a ≡ violates g.policies g.queue a || holds w.store a)
      both none f k = absurd f
      both (some st) f k = (st, refl, k, f)

  pub due_round :
      (queue : List PktMeta)
      → read_cpus r.cpus max_cpu [] ≡ some queue
      → g.time_start ≢ 0
      → g.prev_time ≢ 0
      → r.now ≡ g.time_start + 1
      → r.now ≡ g.prev_time + 1
      → ((i j : ℕ) → r.detect_now i j ≡ r.now)
      → r.now < 2 ^ 32
      → (s : Guard × World sys) × (poll_round sys dir r g w ≡ some s)
        × Passed sys dir serves r g w queue s.0 s.1
  due_round queue e2 running swept due due_sweep same small =
      let (st, e, kept, blocked) =
        detected (λ rows. (a : ℕ) → expires r.now a rows ≡ expires r.now a g.count_down)
          (λ i j pol row st k a. enforce-expires sys dir r a i j pol row st same small ∙ k a)
          (λ a. refl) in
      let d = record g { time_start = r.now; time_end = r.now; queue = []; count_down = st.0 } in
      let step : detect_step sys dir r (start_clock r.now g) w ≡ some (d, st.1) =
        rw (start_clock_running r.now g running swept)
          (detect_step_due sys dir r (record g { time_end = r.now }) w st due (omega arith) e) in
      let (rows, w') = sweep sys dir r.now st.0 st.1 in
      (
        (record d { count_down = rows; prev_time = r.now; queue = queue }, w'),
        poll_round_stages sys dir r g w (d, st.1) queue step e2
            ∙ ap (λ (u : Guard × World sys). some (record (u.0) { queue = queue }, u.1))
                (unlock_step_due sys dir r.now d st.1 due_sweep (omega arith)),
        record {
          start_at = refl;
          prev_at = refl;
          policies_same = refl;
          queued = refl;
          locks = (st, e, (sweep_lem sys dir serves r.now st.0 st.1).0);
          blocked = λ a v.
              ground (arith, (sweep_lem sys dir serves r.now st.0 st.1).1 a, kept a, blocked a v);
        },
      )
