-- ===== src/Tests/Rounds.antt =====
-- Witnesses of the detection with two policies, and of the rounds of a second.
use anti_dos.Base.{ℕ, ◌+◌, ◌≡◌, refl, true, ◌≤◌, false, List, [], ◌∷◌, some, replicate, arith}
use anti_dos.Filter.Stats.{PktMeta}
use anti_dos.Policy.{PolicyStatsIp, Guard, World}
use anti_dos.Policy.Table.Rows.{note_all, note, contains, count_up, sent}
use anti_dos.Policy.Table.Noted.{sources}
use anti_dos.Policy.Table.Every.{Stack}
use anti_dos.Policy.Detect.{detect_attackers}
use anti_dos.Policy.Detect.Exact.{violates, Right, detect_attackers_exact}
use anti_dos.Policy.Detect.Senders.{is_sender}
use anti_dos.Policy.Poll.{CpuEvents, Round, poll_round, poll_rounds, event_poller, event_cont}
use anti_dos.Policy.Poll.Safe.{Kept, IsServed, event_poller_safe}
use anti_dos.Policy.Poll.Paced.{IsRunning, event_poller-IsRunning}
use anti_dos.Policy.Poll.Second.{Passed}
use anti_dos.Policy.Poll.Whole.{arrived, packets_of, whole_second-Passed}
use anti_dos.Policy.Detect.Registers.{free_rows}
use anti_dos.Policy.Unlock.Seconds.{registered}
use anti_dos.Policy.Poll.Cycle.{Struck, poll_rounds-unlock}
use anti_dos.Policy.Poll.Ticks.{Ticking, poll_round-Ticking}
use anti_dos.Tests.System.{toy, toy_serves, quiet, packet_to, web, mail}

-- 1 sends three packets to the web server, and 2 one to the mail server.
abbrev traffic : List PktMeta
traffic = packet_to 1 80 ∷ packet_to 2 25 ∷ packet_to 1 80 ∷ packet_to 1 80 ∷ []

-- The memory of both tables holds the address 7.
abbrev stack : List PolicyStatsIp
stack =
    record { slots = replicate 100 (7, 9); num_ip = 5 }
    ∷ record { slots = replicate 100 (7, 200); num_ip = 5 }
    ∷ []

traffic_few : sources traffic (web ∷ mail ∷ []) ≤ 100
unfolding sources note_all note contains count_up
traffic_few = omega arith

stack-Stack : Stack (web ∷ mail ∷ []) stack
stack-Stack = (refl, (refl, (refl, tt)))

detect_attackers_exact_example :
    Right toy []
      (toy_serves [])
      (λ i j. 5 + i)
      (web ∷ mail ∷ [])
      traffic
      stack
      (replicate 100 (0, 0), quiet)
      (detect_attackers toy []
        (λ i j. 5 + i)
        (web ∷ mail ∷ [])
        traffic
        stack
        (replicate 100 (0, 0), quiet))
detect_attackers_exact_example =
    detect_attackers_exact toy [] (toy_serves []) (λ i j. 5 + i) (web ∷ mail ∷ []) traffic stack
      (replicate 100 (0, 0), quiet) stack-Stack traffic_few

abbrev guard : Guard
guard = record {
  policies = web ∷ mail ∷ [];
  queue = [];
  count_down = (7, 97) ∷ (0, 0) ∷ [];
  time_start = 100;
  time_end = 100;
  prev_time = 100;
}

-- One CPU reports a packet from 1 to the web server, and another none.
abbrev events : List CpuEvents
events =
    record {
      revents = true;
      samples = record { kind = 9; meta = packet_to 1 80 } ∷ [];
      res = event_cont;
    }
    ∷ record { revents = true; samples = []; res = event_cont }
    ∷ []

abbrev at_second : ℕ → Round
at_second n = record { now = n; detect_now = λ i j. n; junk = stack; cpus = events }

served : (n : ℕ) → IsServed (1 ∷ 2 ∷ []) (web ∷ mail ∷ []) (at_second n)
unfolding is_sender
served n = (stack-Stack, ((refl, tt), (tt, tt)), omega arith)

-- The loop is held up between the rounds.
event_poller_safe_example :
    (s : Guard × World toy) × (event_poller toy []
        (3 ∷ 4 ∷ [])
        (at_second 101 ∷ at_second 107 ∷ [])
        guard
        quiet
      ≡ some s)
    × Kept (1 ∷ 2 ∷ []) guard 2 s.0
event_poller_safe_example =
    event_poller_safe toy [] (1 ∷ 2 ∷ []) (3 ∷ 4 ∷ []) (at_second 101 ∷ at_second 107 ∷ []) guard
      quiet (omega arith) (omega arith) tt (served 101, (served 107, tt)) (omega arith)

event_poller-IsRunning_example :
    (s : Guard × World toy) × (event_poller toy []
        (3 ∷ 4 ∷ [])
        (at_second 100 ∷ at_second 101 ∷ at_second 101 ∷ [])
        guard
        quiet
      ≡ some s)
    × IsRunning (1 ∷ 2 ∷ []) (web ∷ mail ∷ []) 101 3000000 s.0
event_poller-IsRunning_example =
    event_poller-IsRunning toy [] (1 ∷ 2 ∷ []) (web ∷ mail ∷ []) (omega arith) (3 ∷ 4 ∷ [])
      (at_second 100 ∷ at_second 101 ∷ at_second 101 ∷ []) 100 0 guard quiet (omega arith)
      (omega arith) (omega arith) (omega arith) (served 100, (served 101, (served 101, tt)))
      (omega arith)
      (record {
        start_at = refl;
        swept = omega arith;
        policies_same = refl;
        from = tt;
        held = omega arith;
      })

-- Two packets of 1 come within the second, where the policy allows one.
second_few : sources (packet_to 1 80 ∷ packet_to 1 80 ∷ []) (web ∷ mail ∷ []) ≤ 100
unfolding sources note_all note contains count_up
second_few = omega arith

whole_second-Passed_example :
    (s : Guard × World toy) × (poll_rounds toy []
        (at_second 100 ∷ at_second 100 ∷ at_second 101 ∷ [])
        guard
        quiet
      ≡ some s)
    × Passed toy []
        (toy_serves [])
        (at_second 101)
        (record guard { queue = packet_to 1 80 ∷ packet_to 1 80 ∷ [] })
        quiet
        (packet_to 1 80 ∷ [])
        s.0
        s.1
unfolding arrived packets_of
whole_second-Passed_example =
    whole_second-Passed toy [] (toy_serves []) 100 (at_second 100 ∷ at_second 100 ∷ [])
      (at_second 101) guard quiet (omega arith) refl refl
      ((refl, (omega arith, (refl, (refl, tt)))), ((refl, (omega arith, (refl, (refl, tt)))), tt))
      (omega arith) refl (λ i j. refl) (omega arith) (omega arith, (refl, (refl, tt))) (omega arith)
      stack-Stack second_few

abbrev roomy_guard : Guard
roomy_guard = record guard { count_down = (7, 97) ∷ (0, 0) ∷ (0, 0) ∷ [] }

-- Nothing comes.
abbrev still : ℕ → Round
still n = record { now = n; detect_now = λ i j. n; junk = stack; cpus = [] }

struck : Struck 1 100 (at_second 100 ∷ at_second 100 ∷ []) (still 101) roomy_guard
unfolding arrived packets_of sources violates note_all note contains count_up sent registered
    free_rows
struck = record {
  some_address = omega arith;
  begun = omega arith;
  swept = omega arith;
  within =
      ((refl, (omega arith, (refl, (refl, tt)))), ((refl, (omega arith, (refl, (refl, tt)))), tt));
  room = omega arith;
  next = refl;
  same_clock = λ i j. refl;
  small = omega arith;
  read = (omega arith, tt);
  no_more = refl;
  stack = stack-Stack;
  absent = (refl, (refl, tt));
  few = omega arith;
  flood = refl;
  no_lock = refl;
  free = omega arith;
}

poll_rounds-unlock_example :
    (s : Guard × World toy) × (s' : Guard × World toy) × (poll_rounds toy []
        (at_second 100 ∷ at_second 100 ∷ still 101 ∷ [])
        roomy_guard
        quiet
      ≡ some s)
    × (s.1.store 1 ≡ true)
    × (poll_rounds toy [] (still 102 ∷ still 103 ∷ still 104 ∷ still 105 ∷ still 106 ∷ []) s.0 s.1
        ≡ some s')
    × (s'.1.store 1 ≡ false)
poll_rounds-unlock_example =
    poll_rounds-unlock toy [] (toy_serves []) 1 100 (at_second 100 ∷ at_second 100 ∷ []) (still 101)
      (still 102 ∷ still 103 ∷ still 104 ∷ still 105 ∷ still 106 ∷ []) roomy_guard quiet struck
      (omega arith) (omega arith) (omega arith)

-- The second ends within the round.
abbrev ticking : Round
ticking = record (still 101) { detect_now = λ i j. 102 }

abbrev flooded_guard : Guard
flooded_guard = record roomy_guard { queue = packet_to 1 80 ∷ packet_to 1 80 ∷ [] }

flooded : Ticking 1 102 ticking flooded_guard
unfolding sources violates note_all note contains count_up sent registered free_rows
flooded = record {
  some_address = omega arith;
  running = omega arith;
  due = (refl, refl);
  ticked = λ i j. omega arith;
  small = omega arith;
  room = omega arith;
  stack = stack-Stack;
  absent = (refl, (refl, tt));
  few = omega arith;
  flood = refl;
  no_lock = refl;
  free = omega arith;
}

poll_round-Ticking_example :
    (st : List (ℕ × ℕ) × World toy) × (s : Guard × World toy) × (detect_attackers toy []
        ticking.detect_now flooded_guard.policies flooded_guard.queue stack
        (flooded_guard.count_down, quiet)
      ≡ some st)
    × (st.1.store 1 ≡ true)
    × (poll_round toy [] ticking flooded_guard quiet ≡ some s)
    × (s.1.store 1 ≡ false)
poll_round-Ticking_example =
    poll_round-Ticking toy [] (toy_serves []) 1 102 ticking flooded_guard quiet flooded
