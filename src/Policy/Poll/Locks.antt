-- ===== src/Policy/Poll/Locks.antt =====
-- main/start_policy.c, `event_poller`: what the rounds do to an address while its lock lasts.
use anti_dos.Base.{
  ℕ, ◌+◌, ◌^◌, ◌≤◌, ◌<◌, ◌≡◌, ◌≢◌, ◌⊎◌, inl, inr, refl, true, false, List, [], ◌∷◌, All, map, arith,
  ◌==◌, Whenever, Whenever-tt, Whenever->>=, Bool-cases,
}
use anti_dos.Maps.Kernel.{Sys, Text}
use anti_dos.Policy.{Policy, Guard, World, lock_time, max_cpu}
use anti_dos.Policy.BlackList.{ServesBlackList}
use anti_dos.Policy.Detect.{over_limit, register, enforce}
use anti_dos.Policy.Detect.Blocks.{enforce_holds}
use anti_dos.Policy.Detect.Keeps.{detect_attackers_keeps}
use anti_dos.Policy.Unlock.Expiry.{expires, free_row, sweep_lem}
use anti_dos.Policy.Poll.{
  Round, sub64, start_clock, detect_step, unlock_step, read_cpus, poll_round,
}

-- Every row of the address `a` was written between `t` and `last`.
abbrev pub Fresh : ℕ → ℕ → ℕ → List (ℕ × ℕ) → Type 0
Fresh a t last rows = All (λ row. (row.0 ≢ a) ⊎ ((t ≤ row.1) × (row.1 ≤ last))) rows

pub Fresh-le :
    (a t last next : ℕ) (rows : List (ℕ × ℕ))
    → last ≤ next
    → Fresh a t last rows
    → Fresh a t next rows
Fresh-le a t last next [] le h = tt
Fresh-le a t last next (row ∷ rows) le h = (ground (arith, h.0), Fresh-le a t last next rows le h.1)

register-Fresh :
    (a t last ip now : ℕ) (rows : List (ℕ × ℕ))
    → t ≤ now
    → now ≤ last
    → last < 2 ^ 32
    → Fresh a t last rows
    → Fresh a t last (register ip now rows)
unfolding register
register-Fresh a t last ip now [] p q b h = tt
register-Fresh a t last ip now ((x, u) ∷ rows) p q b h = elim (Bool-cases (x == 0)) [
  | inl free ↦ rw free (inr (omega arith), h.1)
  | inr used ↦ rw used (h.0, register-Fresh a t last ip now rows p q b h.1)
]

free_row-Fresh :
    (a t last now : ℕ) (rows : List (ℕ × ℕ))
    → a ≢ 0
    → Fresh a t last rows
    → Fresh a t last (map (free_row now) rows)
free_row-Fresh a t last now [] n h = tt
free_row-Fresh a t last now ((x, u) ∷ rows) n h =
    (ground (arith, h.0), free_row-Fresh a t last now rows n h.1)

-- A fresh row is not expired before five seconds have passed.
Fresh-expires :
    (a t last now : ℕ) (rows : List (ℕ × ℕ))
    → last ≤ now
    → now < t + lock_time
    → now < 2 ^ 32
    → Fresh a t last rows
    → expires now a rows ≡ false
unfolding expires
Fresh-expires a t last now [] le lt b h = refl
Fresh-expires a t last now ((x, u) ∷ rows) le lt b h =
    ground (arith, h.0, Fresh-expires a t last now rows)

module _ (sys : Sys) (dir : Text) (serves : ServesBlackList sys dir) (a t : ℕ)
    (some_address : a ≢ 0) where
  open serves use {holds}

  -- The address is blocked, and its locks were taken between `t` and `last`.
  abbrev pub Locked : ℕ → List (ℕ × ℕ) × World sys → Type 0
  Locked last st = (holds st.1.store a ≡ true) × Fresh a t last st.0

  pub enforce-Fresh :
      (last now : ℕ) (pol : Policy) (row : ℕ × ℕ) (st : List (ℕ × ℕ) × World sys)
      → t ≤ now
      → now ≤ last
      → last < 2 ^ 32
      → Fresh a t last st.0
      → Fresh a t last (enforce sys dir now pol row st).0
  unfolding enforce
  enforce-Fresh last now pol (ip, c) (rows, w) p q b h = elim (Bool-cases (over_limit pol c)) [
    | inl over ↦ rw over (register-Fresh a t last ip now rows p q b h)
    | inr fine ↦ rw fine h
  ]

  pub enforce-Locked :
      (last now : ℕ) (pol : Policy) (row : ℕ × ℕ) (st : List (ℕ × ℕ) × World sys)
      → t ≤ now
      → now ≤ last
      → last < 2 ^ 32
      → Locked last st
      → Locked last (enforce sys dir now pol row st)
  enforce-Locked last now pol (ip, c) (rows, w) p q b h = (
    rw (enforce_holds sys dir serves pol now ip c (rows, w) a) (ground (arith, h.0)),
    enforce-Fresh last now pol (ip, c) (rows, w) p q b h.1,
  )

  -- A round in the window: its time and those that `detect_attackers` reads.
  abbrev pub InWindow : ℕ → Round → Type 0
  InWindow last r =
      (last ≤ r.now)
      × ((i j : ℕ) → (t ≤ r.detect_now i j) × (r.detect_now i j ≤ r.now))
      × (r.now < t + lock_time)
      × (r.now < 2 ^ 32)

  abbrev pub LockedGuard : ℕ → Guard × World sys → Type 0
  LockedGuard last s = Locked last (s.0.count_down, s.1)

  pub detect_step-Locked :
      (last : ℕ) (r : Round) (g : Guard) (w : World sys)
      → InWindow last r
      → LockedGuard last (g, w)
      → Whenever (LockedGuard r.now) (detect_step sys dir r g w)
  unfolding detect_step
  detect_step-Locked last r g w i h =
      let later : Locked r.now (g.count_down, w) =
        (h.0, Fresh-le a t last r.now g.count_down i.0 h.1) in
      elim (Bool-cases (sub64 g.time_end g.time_start == 1)) [
        | inr idle ↦ rw idle later
        | inl due ↦ rw due (
            Whenever->>= (Locked r.now) (LockedGuard r.now) _ _
              (detect_attackers_keeps sys dir r.detect_now (Locked r.now)
                (λ m n pol row st k.
                  enforce-Locked r.now (r.detect_now m n) pol row st (i.1 m n).0 (i.1 m n).1 i.3 k)
                g.policies g.queue r.junk (g.count_down, w) later)
              (λ st k. k))
      ]

  pub unlock_step-Locked :
      (now : ℕ) (g : Guard) (w : World sys)
      → now < t + lock_time
      → now < 2 ^ 32
      → LockedGuard now (g, w)
      → LockedGuard now (unlock_step sys dir now g w)
  unfolding unlock_step
  unlock_step-Locked now g w lt b h =
      let (rows, kept) = sweep_lem sys dir serves now g.count_down w in
      elim (Bool-cases (sub64 g.time_end g.prev_time == 1)) [
        | inr idle ↦ rw idle h
        | inl due ↦
            rw (due, rows)
              (
                ground (
                  arith,
                  kept a,
                  h.0,
                  Fresh-expires a t now now g.count_down (omega arith) lt b h.1,
                ),
                free_row-Fresh a t now now g.count_down some_address h.1,
              )
      ]

  pub start_clock-count_down : (now : ℕ) (g : Guard) → (start_clock now g).count_down ≡ g.count_down
  unfolding start_clock
  start_clock-count_down now g = ground arith

  -- In a round of the window an address that is blocked stays blocked.
  pub poll_round-Locked :
      (last : ℕ) (r : Round) (g : Guard) (w : World sys)
      → InWindow last r
      → LockedGuard last (g, w)
      → Whenever (LockedGuard r.now) (poll_round sys dir r g w)
  unfolding poll_round
  poll_round-Locked last r g w i h =
      Whenever->>= (LockedGuard r.now) (LockedGuard r.now) _ _
        (detect_step-Locked last r (start_clock r.now g) w i
          (h.0, rw (start_clock-count_down r.now g) h.1))
        (λ d k.
          Whenever->>= (λ _. Unit {0}) (LockedGuard r.now) (read_cpus r.cpus max_cpu _) _
            (Whenever-tt (read_cpus r.cpus max_cpu _))
            (λ queue _. unlock_step-Locked r.now d.0 d.1 i.2 i.3 k))
