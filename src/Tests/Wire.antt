-- ===== src/Tests/Wire.antt =====
-- The witness of the host from a second's packets to the drops behind it.
use anti_dos.Base.{◌≡◌, refl, true, false, ◌||◌, List, [], ◌∷◌, some, inr, All, arith, ◌==◌}
use mathlib.Core.List.{mem-cons_self}
use anti_dos.Filter.Stats.{Kern, PktMeta, xdp_stats_record_action}
use anti_dos.Filter.Spec.{verdict, l4_verdict, event_of, reported}
use anti_dos.Filter.Rules.{black_listed, tcp_stupid, tcp_fragment}
use anti_dos.Filter.Parse.{parse_ethhdr, parse_iphdr, parse_tcphdr}
use anti_dos.Filter.Prog.{
  xdp_parser_func, ipv4_case, transport, tcp_case, packet_rec, pass_meta, out,
}
use anti_dos.Policy.{Policy, Guard}
use anti_dos.Policy.BlackList.{policy_change_black_list}
use anti_dos.Policy.Table.Rows.{note_all, note, contains, count_up, sent}
use anti_dos.Policy.Table.Noted.{sources}
use anti_dos.Policy.Detect.Exact.{violates}
use anti_dos.Policy.Poll.{Round, poll_round, event_cont}
use anti_dos.Policy.Poll.Whole.{arrived, packets_of}
use anti_dos.Host.{Host, packet, round, Run, step, done, arrives, polls}
use anti_dos.Host.Drops.{Dropped}
use anti_dos.Host.Gathered.{reports, read_by}
use anti_dos.Host.Wire.{Attacked, Attacked-Dropped}
use anti_dos.Tests.Packets.{syn_packet, fresh}
use anti_dos.Tests.System.{toy, toy_serves, quiet, web}
use anti_dos.Tests.Host.{attacker, attacker-ne-zero, stack, syn_packet-IsBytes, blocked}

-- No packet to the destination of `syn_packet` is allowed.
abbrev site : Policy
site = record { id = 2; ip = 0x0200000a; threshold = 0 }

abbrev syn_meta : PktMeta
syn_meta = record {
  src = attacker;
  dst = 0x0200000a;
  port0 = 0x3412;
  port1 = 0x5000;
  l3_proto = 0x0800;
  l4_proto = 6;
  data_len = 0;
  pkt_len = 54;
  seq = 0x07000000;
}

abbrev passed_kern : Kern
passed_kern = record fresh {
  stats =
      record { rx_packets = 0; rx_bytes = 0 }
      ∷ record { rx_packets = 0; rx_bytes = 0 }
      ∷ record { rx_packets = 1; rx_bytes = 54 }
      ∷ record { rx_packets = 0; rx_bytes = 0 }
      ∷ record { rx_packets = 0; rx_bytes = 0 }
      ∷ [];
  events = record { copied = 54; meta = syn_meta } ∷ [];
}

abbrev guard : List PktMeta → Guard
guard queue = record {
  policies = web ∷ site ∷ [];
  queue = queue;
  count_down = (0, 0) ∷ (0, 0) ∷ [];
  time_start = 100;
  time_end = 100;
  prev_time = 100;
}

abbrev host : Host toy
host = record { kern = fresh; guard = guard []; world = quiet }

abbrev reading : Round
reading = record {
  now = 100;
  detect_now = λ i j. 100;
  junk = stack ∷ stack ∷ [];
  cpus =
      record {
        revents = true;
        samples = record { kind = 9; meta = syn_meta } ∷ [];
        res = event_cont;
      }
      ∷ [];
}

abbrev checking : Round
checking = record { now = 101; detect_now = λ i j. 101; junk = stack ∷ stack ∷ []; cpus = [] }

abbrev read_host : Host toy
read_host = record { kern = passed_kern; guard = guard (syn_meta ∷ []); world = quiet }

abbrev locked_guard : Guard
locked_guard = record (guard []) {
  count_down = (attacker, 101) ∷ (0, 0) ∷ [];
  time_start = 101;
  time_end = 101;
  prev_time = 101;
}

abbrev end_host : Host toy
end_host = record {
  kern = record passed_kern {
    black_list = λ j. (j == attacker) || false;
    trace = black_listed attacker 0x0200000a ∷ [];
  };
  guard = locked_guard;
  world = blocked;
}

syn_packet_passes : xdp_parser_func syn_packet fresh ≡ some (2, passed_kern)
unfolding xdp_parser_func parse_ethhdr ipv4_case parse_iphdr transport tcp_case parse_tcphdr
    tcp_stupid tcp_fragment packet_rec pass_meta out xdp_stats_record_action
syn_packet_passes = refl

reading_runs : poll_round toy [] reading (guard []) quiet ≡ some (guard (syn_meta ∷ []), quiet)
unfolding poll_round
reading_runs = refl

checking_runs :
    poll_round toy [] checking (guard (syn_meta ∷ [])) quiet ≡ some (locked_guard, blocked)
unfolding poll_round policy_change_black_list
checking_runs = refl

dropped_runs :
    xdp_parser_func syn_packet (record passed_kern { black_list = λ j. (j == attacker) || false })
    ≡ some (1, end_host.kern)
unfolding xdp_parser_func parse_ethhdr ipv4_case parse_iphdr
dropped_runs = refl

-- A packet passes, and its record is read.
second-Run : Run toy [] (toy_serves []) host (packet syn_packet 2 ∷ round reading ∷ []) read_host
second-Run =
    step (arrives syn_packet 2 passed_kern syn_packet-IsBytes syn_packet_passes) (
      step (polls reading (guard (syn_meta ∷ [])) quiet ((mem-cons_self, tt), tt) reading_runs)
        done)

-- The source is blocked, and its next packet is dropped.
rest-Run : Run toy [] (toy_serves []) read_host (round checking ∷ packet syn_packet 1 ∷ []) end_host
rest-Run =
    step (polls checking locked_guard blocked tt checking_runs)
      (step (arrives syn_packet 1 end_host.kern syn_packet-IsBytes dropped_runs) done)

attacked :
    Attacked toy []
      (toy_serves [])
      attacker
      100
      (packet syn_packet 2 ∷ round reading ∷ [])
      checking
      host
      read_host
unfolding reports read_by arrived packets_of verdict l4_verdict event_of reported sources violates
    note_all note contains count_up sent
attacked = record {
  begun = omega arith;
  within = ((refl, (omega arith, (refl, tt))), tt);
  all_read = refl;
  room = omega arith;
  next = refl;
  same_clock = λ i j. refl;
  small = omega arith;
  next_cpus = omega arith;
  next_room = omega arith;
  stack = (refl, (refl, (refl, tt)));
  vouched = inr (refl, (refl, tt));
  few = omega arith;
  flood = refl;
  fresh = omega arith;
  slots = omega arith;
  not_white = refl;
}

Attacked-Dropped_example :
    All (Dropped attacker) (packet syn_packet 1 ∷ []) × (end_host.world.store attacker ≡ true)
Attacked-Dropped_example =
    Attacked-Dropped toy [] (toy_serves []) attacker 100 attacker-ne-zero checking second-Run
      attacked rest-Run tt
