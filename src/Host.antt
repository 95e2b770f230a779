-- ===== src/Host.antt =====
-- The whole host: the XDP program of main/xdp_prog_kern.c and the daemon of main/start_policy.c act
-- on one black list. The program sees the map that the daemon changes; the daemon reads the events
-- that the program has written. Packets come, and rounds of the loop are run, in any order.
pub mod Drops
pub mod Floods
pub mod Gathered
pub mod Wire
use anti_dos.Base.{ℕ, ◌≡◌, ◌⊎◌, List, [], ◌∷◌, Option, some, ◌==◌, map}
use mathlib.Core.List.{Mem}
use anti_dos.Packet.{Packet, IsBytes}
use anti_dos.Filter.Stats.{Kern, Event, PktMeta}
use anti_dos.Filter.Prog.{xdp_parser_func}
use anti_dos.Maps.Kernel.{Sys, Text}
use anti_dos.Policy.{Guard, World}
use anti_dos.Policy.BlackList.{ServesBlackList}
use anti_dos.Policy.Poll.{Sample, CpuEvents, Round, perf_record_sample, poll_round}

pub record Host (sys : Sys) : Type 0 where
  pub kern : Kern
  pub guard : Guard
  pub world : World sys

-- Every sample that a round hands to the callback was written by the program.
abbrev pub Delivered : List Event → List Sample → Type 0
Delivered events [] = Unit
Delivered events (s ∷ ss) = Mem s.meta (map (λ (e : Event). e.meta) events) × Delivered events ss

abbrev pub AllDelivered : List Event → List CpuEvents → Type 0
AllDelivered events [] = Unit
AllDelivered events (c ∷ cs) = Delivered events c.samples × AllDelivered events cs

-- What happened in a step: a packet with the program's action, or a round.
pub data Happened : Type 0 where
  packet : Packet → ℕ → Happened
  round : Round → Happened

module _ (sys : Sys) (dir : Text) (serves : ServesBlackList sys dir) where
  open serves use {holds}

  -- The maps as the program sees them.
  abbrev pub seen : Host sys → Kern
  seen h = record (h.kern) { black_list = holds h.world.store }

  pub data Step (h : Host sys) : Happened → Host sys → Type 0 where
    arrives :
        (p : Packet) (action : ℕ) (k : Kern)
        → IsBytes p
        → xdp_parser_func p (seen h) ≡ some (action, k)
        → Step h (packet p action) (record h { kern = k })
    polls :
        (r : Round) (g : Guard) (w : World sys)
        → AllDelivered h.kern.events r.cpus
        → poll_round sys dir r h.guard h.world ≡ some (g, w)
        → Step h (round r) (record h { guard = g; world = w })

  -- Steps in order, the first one first.
  pub data Run : Host sys → List Happened → Host sys → Type 0 where
    done : {h : Host sys} → Run h [] h
    step :
        {x : Happened} {xs : List Happened} {h h' h'' : Host sys}
        → Step h x h'
        → Run h' xs h''
        → Run h (x ∷ xs) h''
