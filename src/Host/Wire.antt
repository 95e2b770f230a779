-- ===== src/Host/Wire.antt =====
-- The composition of main/xdp_prog_kern.c and main/start_policy.c, from the packets of a second to
-- those that are dropped after it.
use anti_dos.Base.{
  ℕ, ◌+◌, ◌^◌, ◌≤◌, ◌<◌, ◌≡◌, ◌≢◌, sym, ◌∙◌, true, false, List, ◌∷◌, ◌++◌, length, All, arith,
}
use mathlib.Core.List.{append_cancel_left}
use anti_dos.Filter.Prog.Effects.{HasSlots}
use anti_dos.Maps.Kernel.{Sys, Text}
use anti_dos.Policy.{max_cpu, queue_size}
use anti_dos.Policy.BlackList.{ServesBlackList}
use anti_dos.Policy.Table.Noted.{sources}
use anti_dos.Policy.Table.Every.{Stack}
use anti_dos.Policy.Detect.Exact.{violates, Vouched}
use anti_dos.Policy.Poll.{Round}
use anti_dos.Policy.Poll.Stall.{offered}
use anti_dos.Host.{Host, Happened, round, Run}
use anti_dos.Host.Drops.{Dropped, Window}
use anti_dos.Host.Floods.{NoRow, Flooded, flood-Dropped}
use anti_dos.Host.Gathered.{reports, read_by, InSecond, metas, Run-Gathered}

module _ (sys : Sys) (dir : Text) (serves : ServesBlackList sys dir) where
  open serves use {holds}

  -- A second `t` of the host, from `h` to `h1`, and the round `r` behind it.
  pub record Attacked (a t : ℕ) (xs : List Happened) (r : Round) (h h1 : Host sys) : Type 0 where
    pub begun : (t ≢ 0) × (h.guard.time_start ≡ t) × (h.guard.prev_time ≡ t)
    pub within : InSecond t xs
    pub all_read : metas h1.kern.events ≡ metas h.kern.events ++ read_by xs
    pub room : length h.guard.queue + length (read_by xs) ≤ queue_size
    pub next : r.now ≡ t + 1
    pub same_clock : (i j : ℕ) → r.detect_now i j ≡ r.now
    pub small : r.now < 2 ^ 32
    pub next_cpus : length r.cpus ≤ max_cpu
    pub next_room : offered r.cpus ≤ queue_size
    pub stack : Stack h.guard.policies r.junk
    pub vouched : Vouched h.guard.policies r.junk a
    pub few :
        sources
          (h.guard.queue ++ reports h.kern.white_list (holds h.world.store) xs)
          h.guard.policies
        ≤ 100
    pub flood :
        violates h.guard.policies
          (h.guard.queue ++ reports h.kern.white_list (holds h.world.store) xs)
          a
        ≡ true
    pub fresh : NoRow a h.guard.count_down
    pub slots : HasSlots h.kern
    pub not_white : h.kern.white_list a ≡ false

  Attacked-Flooded :
      {h h1 : Host sys} {xs : List Happened} (a t : ℕ) (some_address : a ≢ 0) (r : Round)
      → Run sys dir serves h xs h1
      → Attacked a t xs r h h1
      → Flooded sys dir serves a some_address r h1
  Attacked-Flooded {h} {h1} {xs} a t some_address r run k =
      let g =
        Run-Gathered sys dir serves t run k.begun.0 k.begun.1 k.begun.2 k.within k.room k.slots in
      let read : read_by xs ≡ reports h.kern.white_list (holds h.world.store) xs =
        append_cancel_left (metas h.kern.events) _ _ (sym k.all_read ∙ g.events_are) in
      let (e, guard_is) = g.guard_is in
      record {
        stack = rw guard_is k.stack;
        vouched = rw guard_is k.vouched;
        few = rw (guard_is, read) k.few;
        flood = rw (guard_is, read) k.flood;
        running = rw guard_is (omega (arith, k.begun));
        due = rw guard_is (omega (arith, k.begun, k.next));
        same_clock = k.same_clock;
        small = k.small;
        cpus = k.next_cpus;
        room = k.next_room;
        fresh = rw guard_is k.fresh;
        slots = g.slots;
        not_white = rw g.white_same k.not_white;
      }

  -- On a host that serves the black list and has the five counters, packets come and rounds are run
  -- within the second `t`, in which the loop has reset and swept, and the rounds read each record
  -- that the program writes in it. Nowhere does the clock tick within a round: each time that the
  -- check of the policies reads is the round's, or, after the detection, not earlier than that of
  -- the detection and not later than the round's. By the verdicts of the filter the packets of the
  -- source `a` to the address of some policy that pass, with those queued before, are more than it
  -- allows; `a` has no lock and is not on the white list. There are at most 100 pairs of a policy
  -- and a source, at most 128 CPUs, room in the queue, a table of 100 rows for each policy, and one
  -- policy or no row of `a` in the uninitialised tables. Then in every run that goes on with a
  -- round of the next second and stays within five seconds, with such clocks in order, each later
  -- whole IPv4 packet of `a` is dropped, and `a` is blocked at its end.
  pub Attacked-Dropped :
      {h h1 h' : Host sys} {xs ys : List Happened} (a t : ℕ) (some_address : a ≢ 0) (r : Round)
      → Run sys dir serves h xs h1
      → Attacked a t xs r h h1
      → Run sys dir serves h1 (round r ∷ ys) h'
      → Window sys dir serves a r.now some_address r.now ys
      → All (Dropped a) ys × (holds h'.world.store a ≡ true)
  Attacked-Dropped {h} {h1} a t some_address r second attacked rest window =
      flood-Dropped sys dir serves a some_address r h1
        (Attacked-Flooded a t some_address r second attacked) rest window
