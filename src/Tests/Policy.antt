-- ===== src/Tests/Policy.antt =====
-- Tests and witnesses of the policy daemon.
use anti_dos.Base.{
  ◌⊎◌, ℕ, ◌+◌, ◌≡◌, refl, true, some, [], ◌∷◌, ◌&&◌, ◌||◌, not, arith, ◌==◌, List, replicate, ◌↔◌,
  false,
}
use anti_dos.Filter.Stats.{PktMeta}
use anti_dos.Maps.{check_map_fd_info}
use anti_dos.Maps.Checks.{MeetsAll, check_map_fd_info_iff}
use anti_dos.Policy.{PolicyStatsIp, World, Guard}
use anti_dos.Policy.BlackList.{policy_change_black_list, map_expect}
use anti_dos.Policy.BlackList.Keys.{policy_change_black_list_lem}
use anti_dos.Policy.Table.{count_packets}
use anti_dos.Policy.Detect.{detect_attackers}
use anti_dos.Policy.Detect.Shared.{rows_of, junk_is_blocked}
use anti_dos.Policy.Poll.{poll_rounds, Round, event_cont}
use anti_dos.Policy.Poll.Stall.{Stalled, late_rounds_stall}
use anti_dos.Tests.System.{toy, toy_serves, map_info, quiet, packet_to, web, mail}

-- 1 sends three packets to the web server, and 2 one.
abbrev traffic : List PktMeta
traffic = packet_to 1 80 ∷ packet_to 2 80 ∷ packet_to 1 80 ∷ packet_to 1 80 ∷ []

-- The memory under a table.
abbrev junk : PolicyStatsIp
junk = record { slots = replicate 100 (7, 9); num_ip = 5 }

traffic_counted :
    count_packets (packet_to 1 80 ∷ packet_to 1 80 ∷ []) (web ∷ []) (rows_of (7, 9) (7, 9) [] ∷ [])
    ≡ some (1, record { slots = (1, 2) ∷ (7, 9) ∷ []; num_ip = 1 } ∷ [])
unfolding count_packets
traffic_counted = refl

check_map_fd_info_iff_example :
    ((check_map_fd_info map_info map_expect ≡ 0) ↔ MeetsAll map_info map_expect)
    × ((check_map_fd_info map_info map_expect ≡ 0) ⊎ (check_map_fd_info map_info map_expect ≡ 1))
check_map_fd_info_iff_example = check_map_fd_info_iff map_info map_expect

policy_change_black_list_lem_example :
    ((policy_change_black_list toy [] 7 1 quiet).0 ≡ 0)
    × ((policy_change_black_list toy [] 7 0 quiet).0 ≡ 0)
    × ((j : ℕ)
        → ((policy_change_black_list toy [] 7 1 quiet).1.store j ≡ (j == 7) || false)
          × ((policy_change_black_list toy [] 7 0 quiet).1.store j ≡ not (j == 7) && false))
policy_change_black_list_lem_example = policy_change_black_list_lem toy [] (toy_serves []) quiet 7

-- 9 has sent nothing.
junk_is_blocked_example :
    (st' : List (ℕ × ℕ) × World toy) × (detect_attackers toy []
        (λ i j. 5 + i)
        (web ∷ mail ∷ [])
        (packet_to 1 80 ∷ packet_to 2 25 ∷ [])
        (rows_of (0, 0) (0, 0) [] ∷ rows_of (9, 200) (0, 0) [] ∷ [])
        ([], quiet)
      ≡ some st')
    × (st'.1.store 9 ≡ true)
junk_is_blocked_example =
    junk_is_blocked web mail (packet_to 1 80) (packet_to 2 25) (0, 0) (0, 0) (9, 200) (0, 0) [] []
      (omega arith) refl refl toy [] (toy_serves []) (λ i j. 5 + i) ([], quiet) refl

abbrev running : Guard
running = record {
  policies = web ∷ [];
  queue = [];
  count_down = (7, 100) ∷ [];
  time_start = 100;
  time_end = 100;
  prev_time = 100;
}

-- The loop was held up for two seconds.
abbrev late : Round
late = record {
  now = 102;
  detect_now = λ i j. 102;
  junk = [];
  cpus =
      record {
        revents = true;
        samples = record { kind = 9; meta = packet_to 1 80 } ∷ [];
        res = event_cont;
      }
      ∷ [];
}

late_rounds_stall_example :
    (g' : Guard) × (poll_rounds toy [] (late ∷ []) running quiet ≡ some (g', quiet))
    × Stalled toy running quiet 1 g' quiet
late_rounds_stall_example =
    late_rounds_stall toy [] (late ∷ []) running quiet (omega arith) (omega arith) (omega arith)
      (omega arith)
