-- ===== src/Host/Floods.antt =====
-- The composition of the detection and the filter: a flood ends in five seconds without a packet.
use anti_dos.Base.{
  ℕ, ◌+◌, ◌^◌, ◌≤◌, ◌<◌, ◌≡◌, ◌≢◌, inl, true, false, List, [], ◌∷◌, length, All, arith,
}
use mathlib.Core.Path.{subst}
use anti_dos.Filter.Prog.Effects.{HasSlots}
use anti_dos.Maps.Kernel.{Sys, Text}
use anti_dos.Policy.{max_cpu, queue_size}
use anti_dos.Policy.BlackList.{ServesBlackList}
use anti_dos.Policy.Table.Rows.{sent}
use anti_dos.Policy.Table.Noted.{sources}
use anti_dos.Policy.Table.Every.{Stack}
use anti_dos.Policy.Detect.Exact.{violates, Vouched}
use anti_dos.Policy.Poll.{Round}
use anti_dos.Policy.Poll.Stall.{offered}
use anti_dos.Policy.Poll.Locks.{Fresh, LockedGuard}
use anti_dos.Policy.Poll.Floods.{poll_round-Locks}
use anti_dos.Host.{Host, Happened, round, Run, step, polls}
use anti_dos.Host.Drops.{Dropped, Window, Locked-Dropped}

-- No row is of the address.
abbrev pub NoRow : ℕ → List (ℕ × ℕ) → Type 0
NoRow a rows = All (λ row. row.0 ≢ a) rows

NoRow-Fresh : (a t last : ℕ) (rows : List (ℕ × ℕ)) → NoRow a rows → Fresh a t last rows
NoRow-Fresh a t last [] h = tt
NoRow-Fresh a t last (row ∷ rows) h = (inl h.0, NoRow-Fresh a t last rows h.1)

module _ (sys : Sys) (dir : Text) (serves : ServesBlackList sys dir) (a : ℕ) (some_address : a ≢ 0)
    (r : Round) (h : Host sys) where
  -- What holds when the round begins.
  pub record Flooded : Type 0 where
    pub stack : Stack h.guard.policies r.junk
    pub vouched : Vouched h.guard.policies r.junk a
    pub few : sources h.guard.queue h.guard.policies ≤ 100
    pub flood : violates h.guard.policies h.guard.queue a ≡ true
    pub running : (h.guard.time_start ≢ 0) × (h.guard.prev_time ≢ 0)
    pub due : r.now ≡ h.guard.time_start + 1
    pub same_clock : (i j : ℕ) → r.detect_now i j ≡ r.now
    pub small : r.now < 2 ^ 32
    pub cpus : length r.cpus ≤ max_cpu
    pub room : offered r.cpus ≤ queue_size
    pub fresh : NoRow a h.guard.count_down
    pub slots : HasSlots h.kern
    pub not_white : h.kern.white_list a ≡ false

  -- A source with no lock, not on the white list, has more packets in the queue to the address of
  -- some policy than that policy allows when the round of the next second begins; there is one
  -- policy, or the uninitialised tables do not hold the source. Then in every run that begins with
  -- this round and stays within five seconds, with clocks in order, each later whole IPv4 packet of
  -- the source is dropped, and the source is blocked at its end.
  pub flood-Dropped :
      {h' : Host sys} {xs : List Happened}
      → Flooded
      → Run sys dir serves h (round r ∷ xs) h'
      → Window sys dir serves a r.now some_address r.now xs
      → All (Dropped a) xs × (serves.holds h'.world.store a ≡ true)
  flood-Dropped f (step (polls rd g w sent e) rest) window =
      let (s, e', locked) =
        poll_round-Locks sys dir serves a r.now some_address r h.guard h.world f.stack f.vouched
          f.few f.flood f.same_clock (NoRow-Fresh a r.now r.now h.guard.count_down f.fresh)
          (omega arith) (omega arith) f.small f.running.0 f.running.1 f.due f.cpus f.room in
      let same : s ≡ (g, w) = cc in
      Locked-Dropped sys dir serves a r.now some_address r.now rest window f.slots f.not_white
        (subst (LockedGuard sys dir serves a r.now some_address r.now) same locked)
