-- ===== src/Host/Drops.antt =====
-- The composition of main/xdp_prog_kern.c and main/start_policy.c: while the lock of a source lasts,
-- its packets are dropped.
use mathlib.Core.Path.{subst}
use anti_dos.Base.{
  ap, ℕ, ◌≡◌, ◌≢◌, ◌⊎◌, inl, inr, ◌∙◌, Bool, true, false, ◌&&◌, List, [], ◌∷◌, some, arith, ◌==◌,
  length, Whenever-some, Bool-cases, All,
}
use anti_dos.Packet.{Packet, IsBytes}
use anti_dos.Filter.Parse.Fits.{eth_fits, ip_fits}
use anti_dos.Filter.Stats.{Kern}
use anti_dos.Filter.Spec.{black, action_of, verdict, source, is_ipv4, event_of}
use anti_dos.Filter.Prog.{xdp_parser_func}
use anti_dos.Filter.Prog.Effects.{HasSlots, Decides, Decided}
use anti_dos.Filter.Prog.Decides.{xdp_parser_func-Decides}
use anti_dos.Filter.Prog.Runs.{Decided-HasSlots}
use anti_dos.Maps.Kernel.{Sys, Text}
use anti_dos.Policy.BlackList.{ServesBlackList}
use anti_dos.Policy.Poll.Locks.{Locked, InWindow, poll_round-Locked}
use anti_dos.Host.{Host, Happened, packet, round, seen, arrives, polls, Run, done, step}

-- A whole IPv4 packet of the source `a`.
abbrev pub is_from : ℕ → Packet → Bool
is_from a p = eth_fits p 0 && is_ipv4 p && ip_fits p 14 && (source p == a)

-- If the step is such a packet, the program has dropped it.
abbrev pub Dropped : ℕ → Happened → Type 0
Dropped a (packet p action) = (is_from a p ≡ false) ⊎ (action ≡ 1)
Dropped a (round r) = Unit

from-verdict :
    (a : ℕ) (white_list black_list : ℕ → Bool) (p : Packet)
    → is_from a p ≡ true
    → white_list a ≡ false
    → black_list a ≡ true
    → verdict white_list black_list p ≡ black
unfolding verdict
from-verdict a white_list black_list p f w b =
    let same : source p ≡ a = ground (arith, f) in
    ground (arith, f, ap white_list same, ap black_list same, w, b)

pub Decided-of :
    (p : Packet) (bytes : IsBytes p) (k : Kern) (slots : HasSlots k) (action : ℕ) (k' : Kern)
    → xdp_parser_func p k ≡ some (action, k')
    → Decided (verdict k.white_list k.black_list p) (length p) (event_of p) k action k'
Decided-of p bytes k slots action k' e =
    subst (Decides (verdict k.white_list k.black_list p) (length p) (event_of p) k) e
      (xdp_parser_func-Decides p bytes k slots)

module _ (sys : Sys) (dir : Text) (serves : ServesBlackList sys dir) (a t : ℕ)
    (some_address : a ≢ 0) where
  -- The rounds of a run come in the window of the lock, their clocks in order.
  abbrev pub Window : ℕ → List Happened → Type 0
  Window last [] = Unit
  Window last (packet p action ∷ xs) = Window last xs
  Window last (round r ∷ xs) = InWindow sys dir serves a t some_address last r × Window r.now xs

  -- What a run keeps: the lock, the counters and the white list.
  record Held (last : ℕ) (h : Host sys) : Type 0 where
    locked : Locked sys dir serves a t some_address last (h.guard.count_down, h.world)
    slots : HasSlots h.kern
    not_white : h.kern.white_list a ≡ false

  packet-Held :
      (last : ℕ) (h : Host sys) (p : Packet) (action : ℕ) (k : Kern)
      → IsBytes p
      → xdp_parser_func p (seen sys dir serves h) ≡ some (action, k)
      → Held last h
      → Dropped a (packet p action) × Held last (record h { kern = k })
  packet-Held last h p action k bytes e held =
      let d = Decided-of p bytes (seen sys dir serves h) held.slots action k e in
      (
        elim (Bool-cases (is_from a p)) [
          | inr other ↦ inl other
          | inl from ↦
              let v =
                from-verdict a h.kern.white_list (serves.holds h.world.store) p from held.not_white
                  held.locked.0 in
              inr (d.action_is ∙ ap action_of v)
        ],
        record {
          locked = held.locked;
          slots = Decided-HasSlots d held.slots;
          not_white = rw d.white_same held.not_white;
        },
      )

  Run-Dropped :
      {h h' : Host sys} {xs : List Happened} (last : ℕ)
      → Run sys dir serves h xs h'
      → Window last xs
      → Held last h
      → All (Dropped a) xs × (serves.holds h'.world.store a ≡ true)
  Run-Dropped last done w k = (tt, k.locked.0)
  Run-Dropped {h} last (step (arrives p action k' bytes e) r) w k =
      let (d, k1) = packet-Held last h p action k' bytes e k in
      let (ds, b) = Run-Dropped last r w k1 in ((d, ds), b)
  Run-Dropped {h} last (step (polls rd g w' sent e) r) w k =
      let later =
        Whenever-some _ _ (g, w') e
          (poll_round-Locked sys dir serves a t some_address last rd h.guard h.world w.0
            k.locked) in
      let (ds, b) =
        Run-Dropped rd.now r w.1
          (record { locked = later; slots = k.slots; not_white = k.not_white }) in
      ((tt, ds), b)

  -- On a host that serves the black list and has the five counters, a source is blocked, its locks
  -- were taken between `t` and `last`, and it is not on the white list. In any run of packets and
  -- rounds, whose clocks are in order, not before `last` and less than five seconds after `t`, and
  -- where each time that the check of the policies reads within a round is not before `t` and not
  -- later than the round's first time, so that the clock does not tick in it, every whole IPv4
  -- packet of the source is dropped, and the source stays blocked.
  pub Locked-Dropped :
      {h h' : Host sys} {xs : List Happened} (last : ℕ)
      → Run sys dir serves h xs h'
      → Window last xs
      → HasSlots h.kern
      → h.kern.white_list a ≡ false
      → Locked sys dir serves a t some_address last (h.guard.count_down, h.world)
      → All (Dropped a) xs × (serves.holds h'.world.store a ≡ true)
  Locked-Dropped last r w slots listed lock =
      Run-Dropped last r w (record { locked = lock; slots = slots; not_white = listed })
