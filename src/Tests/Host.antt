-- ===== src/Tests/Host.antt =====
-- Witnesses of the whole host, and of the daemon's locks.
use anti_dos.Base.{
  ℕ, ◌≡◌, ◌≢◌, refl, true, false, ◌||◌, not, ◌&&◌, List, [], ◌∷◌, some, All, replicate, arith, ◌==◌,
}
use anti_dos.Packet.{IsBytes}
use anti_dos.Filter.Stats.{Kern}
use anti_dos.Filter.Rules.{black_listed}
use anti_dos.Filter.Parse.{parse_ethhdr, parse_iphdr}
use anti_dos.Filter.Prog.{xdp_parser_func, ipv4_case}
use anti_dos.Policy.{PolicyStatsIp, Guard, World}
use anti_dos.Policy.Unlock.{sweep}
use anti_dos.Policy.Unlock.Early.{sweep_early}
use anti_dos.Policy.Unlock.Seconds.{registered}
use anti_dos.Policy.Poll.{Round, poll_round, poll_rounds}
use anti_dos.Policy.Poll.Quiet.{quiet_rounds-unlock}
use anti_dos.Host.{Host, packet, round, Run, step, done, arrives, polls}
use anti_dos.Host.Drops.{Dropped, Locked-Dropped}
use anti_dos.Tests.Packets.{syn_packet, fresh}
use anti_dos.Tests.System.{toy, toy_serves, quiet, web, mail}

-- 10.0.0.1, the source of `syn_packet`, as a 32-bit load gives it.
abbrev pub attacker : ℕ
attacker = 0x0100000a

pub attacker-ne-zero : attacker ≢ 0
attacker-ne-zero = omega arith

abbrev pub stack : PolicyStatsIp
stack = record { slots = replicate 100 (0, 0); num_ip = 0 }

abbrev locked_guard : Guard
locked_guard = record {
  policies = web ∷ mail ∷ [];
  queue = [];
  count_down = (attacker, 101) ∷ (0, 0) ∷ [];
  time_start = 101;
  time_end = 101;
  prev_time = 101;
}

abbrev pub blocked : World toy
blocked = record quiet { store = λ j. (j == attacker) || false }

abbrev locked_host : Host toy
locked_host = record { kern = fresh; guard = locked_guard; world = blocked }

abbrev dropped_kern : Kern
dropped_kern = record fresh {
  black_list = λ j. (j == attacker) || false;
  trace = black_listed attacker 0x0200000a ∷ [];
}

pub syn_packet-IsBytes : IsBytes syn_packet
syn_packet-IsBytes = omega arith

packet_runs :
    xdp_parser_func syn_packet (record fresh { black_list = λ j. (j == attacker) || false })
    ≡ some (1, dropped_kern)
unfolding xdp_parser_func parse_ethhdr ipv4_case parse_iphdr
packet_runs = refl

-- A round of the next second, whose check reads the same time.
abbrev sweeping : Round
sweeping = record { now = 102; detect_now = λ i j. 102; junk = stack ∷ stack ∷ []; cpus = [] }

abbrev swept_guard : Guard
swept_guard = record locked_guard { time_start = 102; time_end = 102; prev_time = 102 }

sweeping_runs : poll_round toy [] sweeping locked_guard blocked ≡ some (swept_guard, blocked)
unfolding poll_round
sweeping_runs = refl

abbrev end_host : Host toy
end_host = record locked_host { kern = dropped_kern; guard = swept_guard }

locked-Run :
    Run toy [] (toy_serves []) locked_host (round sweeping ∷ packet syn_packet 1 ∷ []) end_host
locked-Run =
    step (polls sweeping swept_guard blocked tt sweeping_runs)
      (step (arrives syn_packet 1 dropped_kern syn_packet-IsBytes packet_runs) done)

Locked-Dropped_example :
    All (Dropped attacker) (round sweeping ∷ packet syn_packet 1 ∷ [])
    × (end_host.world.store attacker ≡ true)
Locked-Dropped_example =
    Locked-Dropped toy [] (toy_serves []) attacker 101 attacker-ne-zero 101 locked-Run
      ((omega arith, λ i j. omega arith, omega arith, omega arith), tt) (omega arith) refl
      (refl, omega arith)

abbrev at_second : ℕ → Round
at_second n = record { now = n; detect_now = λ i j. n; junk = stack ∷ []; cpus = [] }

abbrev five_seconds : List Round
five_seconds = at_second 101 ∷ at_second 102 ∷ at_second 103 ∷ at_second 104 ∷ at_second 105 ∷ []

abbrev waiting : Guard
waiting = record {
  policies = web ∷ [];
  queue = [];
  count_down = (7, 100) ∷ (0, 3) ∷ [];
  time_start = 100;
  time_end = 100;
  prev_time = 100;
}

quiet_rounds-unlock_example :
    (g' : Guard) × (w' : World toy) × (poll_rounds toy [] five_seconds waiting quiet
      ≡ some (g', w'))
    × (g'.count_down ≡ (0, 100) ∷ (0, 3) ∷ [])
    × ((a : ℕ) → w'.store a ≡ not (registered a waiting.count_down) && false)
quiet_rounds-unlock_example =
    quiet_rounds-unlock toy [] (toy_serves []) five_seconds 100 waiting quiet (omega arith)
      (omega arith) (omega arith) (record { start_at = refl; prev_at = refl; empty = refl })
      (omega arith) (omega arith)

-- Dated 102, swept at 101.
sweep_early_example : (sweep toy [] 101 ((7, 102) ∷ []) quiet).1.store 7 ≡ false
sweep_early_example =
    sweep_early toy [] (toy_serves []) 101 7 102 0 ((7, 102) ∷ []) quiet (omega arith) (omega arith)
      (omega arith) refl
