-- ===== src/Policy/Poll/Cycle.antt =====
-- main/start_policy.c, `event_poller`: from an attack to the end of its lock.
use anti_dos.Base.{
  ℕ, ◌+◌, ◌*◌, ◌^◌, ◌≤◌, ◌<◌, ◌≡◌, ◌≢◌, ◌⊎◌, inl, inr, refl, ◌∙◌, true, false, List, [], ◌∷◌, ◌++◌,
  some, All, map, length, arith, ◌==◌, Bool-cases, Whenever-some,
}
use anti_dos.Maps.Kernel.{Sys, Text}
use anti_dos.Policy.{Policy, Guard, World, lock_time, queue_size}
use anti_dos.Policy.BlackList.{ServesBlackList}
use anti_dos.Policy.Table.Noted.{sources}
use anti_dos.Policy.Table.Every.{Stack, Absent}
use anti_dos.Policy.Detect.{over_limit, register, enforce, detect_attackers}
use anti_dos.Policy.Detect.Exact.{violates}
use anti_dos.Policy.Detect.Keeps.{detect_attackers_keeps}
use anti_dos.Policy.Detect.Registers.{free_rows, detect_attackers-registered}
use anti_dos.Policy.Unlock.Expiry.{expires, free_row}
use anti_dos.Policy.Unlock.Seconds.{Swept, registered}
use anti_dos.Policy.Poll.{Round, poll_rounds}
use anti_dos.Policy.Poll.Second.{enforce-expires}
use anti_dos.Policy.Poll.Whole.{arrived, arrived_all, AllRead, Within, whole_second-Passed}
use anti_dos.Policy.Poll.Quiet.{AllQuiet, end_of, quiet_rounds-unlock}

-- No row in use is dated later than `now`.
abbrev Dated : ℕ → List (ℕ × ℕ) → Type 0
Dated now rows = All (λ row. (row.0 ≡ 0) ⊎ (row.1 ≤ now)) rows

Swept-Dated : (t now : ℕ) (rows : List (ℕ × ℕ)) → t ≤ now → Swept t rows → Dated now rows
Swept-Dated t now [] le h = tt
Swept-Dated t now (row ∷ rows) le h = (ground (arith, h.0), Swept-Dated t now rows le h.1)

register-Dated :
    (ip now : ℕ) (rows : List (ℕ × ℕ))
    → now < 2 ^ 32
    → Dated now rows
    → Dated now (register ip now rows)
unfolding register
register-Dated ip now [] small h = tt
register-Dated ip now ((x, t) ∷ rows) small h = elim (Bool-cases (x == 0)) [
  | inl free ↦ rw free (inr (omega arith), h.1)
  | inr used ↦ rw used (h.0, register-Dated ip now rows small h.1)
]

Dated-Swept :
    (now : ℕ) (rows : List (ℕ × ℕ))
    → now < 2 ^ 32
    → Dated now rows
    → Swept now (map (free_row now) rows)
Dated-Swept now [] small h = tt
Dated-Swept now ((x, t) ∷ rows) small h = (ground (arith, h.0), Dated-Swept now rows small h.1)

-- A row whose lock is not over stays.
registered-free_row :
    (now a : ℕ) (rows : List (ℕ × ℕ))
    → expires now a rows ≡ false
    → registered a rows ≡ true
    → registered a (map (free_row now) rows) ≡ true
unfolding expires registered
registered-free_row now a [] e h = h
registered-free_row now a ((x, t) ∷ rows) e h = ground (arith, registered-free_row now a rows)

expires-unregistered :
    (now a : ℕ) (rows : List (ℕ × ℕ)) → registered a rows ≡ false → expires now a rows ≡ false
unfolding expires registered
expires-unregistered now a [] h = refl
expires-unregistered now a ((x, t) ∷ rows) h = ground (arith, expires-unregistered now a rows)

-- In the second `t` the rounds `rs` read what comes, and the round `r` of the next second nothing
-- more; `a` has sent some policy's address more than the threshold, it has no lock and no row in
-- the uninitialised tables, and `count_down` has a free row for each policy and each pair of a
-- policy and a source.
pub record Struck (a t : ℕ) (rs : List Round) (r : Round) (g : Guard) : Type 0 where
  pub some_address : a ≢ 0
  pub begun : (t ≢ 0) × (g.time_start ≡ t) × (g.prev_time ≡ t)
  pub swept : Swept t g.count_down
  pub within : Within t rs
  pub room : length g.queue + length (arrived_all rs) ≤ queue_size
  pub next : r.now ≡ t + 1
  pub same_clock : (i j : ℕ) → r.detect_now i j ≡ r.now
  pub small : r.now < 2 ^ 32
  pub read : AllRead r.cpus
  pub no_more : arrived r.cpus ≡ []
  pub stack : Stack g.policies r.junk
  pub absent : Absent a r.junk
  pub few : sources (g.queue ++ arrived_all rs) g.policies ≤ 100
  pub flood : violates g.policies (g.queue ++ arrived_all rs) a ≡ true
  pub no_lock : registered a g.count_down ≡ false
  pub free :
      length g.policies * sources (g.queue ++ arrived_all rs) g.policies ≤ free_rows g.count_down

module _ (sys : Sys) (dir : Text) where
  enforce-Dated :
      (now : ℕ) (pol : Policy) (row : ℕ × ℕ) (st : List (ℕ × ℕ) × World sys)
      → now < 2 ^ 32
      → Dated now st.0
      → Dated now (enforce sys dir now pol row st).0
  unfolding enforce
  enforce-Dated now pol (ip, c) (rows, w) small h = elim (Bool-cases (over_limit pol c)) [
    | inl over ↦ rw over (register-Dated ip now rows small h)
    | inr fine ↦ rw fine h
  ]

  -- What the detection leaves in `count_down`.
  detected_rows :
      (a t : ℕ) (rs : List Round) (r : Round) (g : Guard) (w : World sys)
      (st : List (ℕ × ℕ) × World sys)
      → Struck a t rs r g
      → detect_attackers sys dir r.detect_now g.policies
          (g.queue ++ arrived_all rs)
          r.junk
          (g.count_down, w)
        ≡ some st
      → Dated r.now st.0 × (expires r.now a st.0 ≡ false) × (registered a st.0 ≡ true)
  detected_rows a t rs r g w st k e =
      let queue = g.queue ++ arrived_all rs in
      (
        Whenever-some (λ x. Dated r.now x.0) _ st e
            (detect_attackers_keeps sys dir r.detect_now (λ x. Dated r.now x.0)
              (λ i j pol row x h. rw (k.same_clock i j) (enforce-Dated r.now pol row x k.small h))
              g.policies queue r.junk (g.count_down, w)
              (Swept-Dated t r.now g.count_down (omega (arith, k.next)) k.swept)),
        Whenever-some (λ x. expires r.now a x.0 ≡ false) _ st e
            (detect_attackers_keeps sys dir r.detect_now (λ x. expires r.now a x.0 ≡ false)
              (λ i j pol row x h.
                enforce-expires sys dir r a i j pol row x k.same_clock k.small ∙ h)
              g.policies queue r.junk (g.count_down, w)
              (expires-unregistered r.now a g.count_down k.no_lock)),
        detect_attackers-registered sys dir r.detect_now a k.some_address g.policies queue r.junk
            (g.count_down, w) st k.stack k.absent k.few k.free e k.flood,
      )

  pub poll_rounds-unlock :
      (serves : ServesBlackList sys dir) (a t : ℕ) (rs : List Round) (r : Round) (qs : List Round)
      (g : Guard) (w : World sys)
      → Struck a t rs r g
      → AllQuiet (length g.policies) r.now qs
      → r.now + lock_time ≤ end_of r.now qs
      → end_of r.now qs < 2 ^ 32
      → (s : Guard × World sys) × (s' : Guard × World sys) × (poll_rounds sys dir
            (rs ++ (r ∷ []))
            g
            w
          ≡ some s)
        × (serves.holds s.1.store a ≡ true)
        × (poll_rounds sys dir qs s.0 s.1 ≡ some s')
        × (serves.holds s'.1.store a ≡ false)
  poll_rounds-unlock serves a t rs r qs g w k quiet five small =
      let (s, run, p) =
        whole_second-Passed sys dir serves t rs r g w k.begun.0 k.begun.1 k.begun.2 k.within k.room
          k.next k.same_clock k.small k.read (rw k.no_more (omega arith)) k.stack k.few in
      let (st, e, rows) = p.locks in
      let (dated, not_over, locked) = detected_rows a t rs r g w st k e in
      let held : registered a s.0.count_down ≡ true =
        rw rows (registered-free_row r.now a st.0 not_over locked) in
      let (g', w', run', freed, unblocked) =
        quiet_rounds-unlock sys dir serves qs r.now s.0 s.1 (omega (arith, k.next)) five small
          (record { start_at = p.start_at; prev_at = p.prev_at; empty = p.queued ∙ k.no_more })
          (rw rows (Dated-Swept r.now st.0 k.small dated)) (rw p.policies_same quiet) in
      (
        s,
        (g', w'),
        run,
        ground (
          arith,
          p.blocked a (inr k.absent),
          expires-unregistered r.now a g.count_down k.no_lock,
          k.flood,
        ),
        run',
        ground (arith, unblocked a, held),
      )
