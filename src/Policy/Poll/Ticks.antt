-- ===== src/Policy/Poll/Ticks.antt =====
-- main/start_policy.c, `event_poller`: the second ends between the call of `time` in the round and
-- those in `detect_attackers`.
use anti_dos.Base.{
  ℕ, ◌+◌, ◌*◌, ◌^◌, ◌≤◌, ◌<◌, ◌≡◌, ◌≢◌, true, false, List, [], ◌∷◌, some, length, arith, inl, inr,
}
use anti_dos.Maps.Kernel.{Sys, Text}
use anti_dos.Policy.{Guard, World, max_cpu, queue_size}
use anti_dos.Policy.BlackList.{ServesBlackList}
use anti_dos.Policy.Table.Noted.{sources}
use anti_dos.Policy.Table.Every.{Stack, Absent}
use anti_dos.Policy.Detect.{detect_attackers}
use anti_dos.Policy.Detect.Exact.{violates}
use anti_dos.Policy.Detect.Registers.{free_rows, detect_attackers-registered}
use anti_dos.Policy.Unlock.Expiry.{expires, sweep_lem}
use anti_dos.Policy.Unlock.Seconds.{registered}
use anti_dos.Policy.Poll.{Round, start_clock, detect_step, unlock_step, poll_round}
use anti_dos.Policy.Poll.Stages.{
  start_clock_running, detect_step_due, unlock_step_due, poll_round_stages,
}
use anti_dos.Policy.Poll.Stall.{offered, read_cpus_grows}
use anti_dos.Policy.Poll.Second.{detected}
use anti_dos.Policy.Poll.Locks.{Fresh, enforce-Fresh}

Fresh-unregistered :
    (a t last : ℕ) (rows : List (ℕ × ℕ)) → a ≢ 0 → registered a rows ≡ false → Fresh a t last rows
unfolding registered
Fresh-unregistered a t last [] z h = tt
Fresh-unregistered a t last ((x, u) ∷ rows) z h =
    (inl (ground (arith, h)), Fresh-unregistered a t last rows z (ground (arith, h)))

-- The age of a lock that is dated later than `now` wraps around, and the lock counts as over.
later-expires :
    (a now last : ℕ) (rows : List (ℕ × ℕ))
    → last < 2 ^ 32
    → Fresh a (now + 1) last rows
    → registered a rows ≡ true
    → expires now a rows ≡ true
unfolding registered expires
later-expires a now last [] small h e = cc
later-expires a now last ((x, u) ∷ rows) small h e =
    ground (arith, h.0, e, later-expires a now last rows small h.1)

-- What holds when the round begins: it is one second after the last reset and sweep, the source `a`
-- has sent some policy more than its threshold, it has no lock and no row in the uninitialised
-- tables, `count_down` has rows enough, and each time that `detect_attackers` reads is later than
-- the round's, and not later than `last`.
pub record Ticking (a last : ℕ) (r : Round) (g : Guard) : Type 0 where
  pub some_address : a ≢ 0
  pub running : (g.time_start ≢ 0) × (g.prev_time ≢ 0)
  pub due : (r.now ≡ g.time_start + 1) × (r.now ≡ g.prev_time + 1)
  pub ticked : (i j : ℕ) → (r.now + 1 ≤ r.detect_now i j) × (r.detect_now i j ≤ last)
  pub small : (r.now < 2 ^ 32) × (last < 2 ^ 32)
  pub room : (length r.cpus ≤ max_cpu) × (offered r.cpus ≤ queue_size)
  pub stack : Stack g.policies r.junk
  pub absent : Absent a r.junk
  pub few : sources g.queue g.policies ≤ 100
  pub flood : violates g.policies g.queue a ≡ true
  pub no_lock : registered a g.count_down ≡ false
  pub free : length g.policies * sources g.queue g.policies ≤ free_rows g.count_down

pub poll_round-Ticking :
    (sys : Sys) (dir : Text) (serves : ServesBlackList sys dir) (a last : ℕ) (r : Round) (g : Guard)
    (w : World sys)
    → Ticking a last r g
    → (st : List (ℕ × ℕ) × World sys) × (s : Guard × World sys) × (detect_attackers sys dir
          r.detect_now g.policies g.queue r.junk
          (g.count_down, w)
        ≡ some st)
      × (serves.holds st.1.store a ≡ true)
      × (poll_round sys dir r g w ≡ some s)
      × (serves.holds s.1.store a ≡ false)
poll_round-Ticking sys dir serves a last r g w k =
    let (st, e, fresh, blocked) =
      detected sys dir serves r g w k.stack k.few (Fresh a (r.now + 1) last)
        (λ i j pol row x h.
          enforce-Fresh sys dir serves a (r.now + 1) k.some_address last (r.detect_now i j) pol row
            x (k.ticked i j).0 (k.ticked i j).1 k.small.1 h)
        (Fresh-unregistered a (r.now + 1) last g.count_down k.some_address k.no_lock) in
    let locked =
      detect_attackers-registered sys dir r.detect_now a k.some_address g.policies g.queue r.junk
        (g.count_down, w) st k.stack k.absent k.few k.free e k.flood in
    let d = record g { time_start = r.now; time_end = r.now; queue = []; count_down = st.0 } in
    let step : detect_step sys dir r (start_clock r.now g) w ≡ some (d, st.1) =
      rw (start_clock_running r.now g k.running.0 k.running.1) (
        detect_step_due sys dir r (record g { time_end = r.now }) w st k.due.0
          (omega (arith, k.small)) e) in
    let (queue, read, grown) = read_cpus_grows r.cpus max_cpu [] k.room.0 (omega (arith, k.room)) in
    let u = unlock_step sys dir r.now d st.1 in
    let swept = unlock_step_due sys dir r.now d st.1 k.due.1 (omega (arith, k.small)) in
    (
      st,
      (record (u.0) { queue = queue }, u.1),
      e,
      ground (arith, blocked a (inr k.absent), k.flood),
      poll_round_stages sys dir r g w (d, st.1) queue step read,
      rw swept (
          ground (
            arith,
            (sweep_lem sys dir serves r.now st.0 st.1).1 a,
            later-expires a r.now last st.0 k.small.1 fresh locked,
          )),
    )
