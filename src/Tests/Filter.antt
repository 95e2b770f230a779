-- ===== src/Tests/Filter.antt =====
-- Tests and witnesses of the kernel side.
use mathlib.Core.Option
use anti_dos.Base.{◌≡◌, refl, some, [], ◌∷◌, arith}
use anti_dos.Packet.{IsBytes}
use anti_dos.Filter.Parse.{parse_ethhdr, parse_iphdr, parse_icmphdr, parse_udphdr, parse_tcphdr}
use anti_dos.Filter.Parse.Bounds.{Bounded, parsers-Bounded}
use anti_dos.Filter.Stats.{Kern, xdp_stats_record_action}
use anti_dos.Filter.Spec.{verdict, l4_verdict, event_of, drop}
use anti_dos.Filter.Prog.{xdp_parser_func, ipv4_case, transport, tcp_case, packet_rec, out}
use anti_dos.Filter.Rules.{tcp_stupid, tcp_fragment}
use anti_dos.Filter.Prog.Effects.{Decides}
use anti_dos.Filter.Prog.Decides.{xdp_parser_func-Decides}
use anti_dos.Filter.Prog.Runs.{run, run_tally, Tallied}
use anti_dos.Filter.Prog.Icmp.{Reports, short_icmp_wraps}
use anti_dos.Tests.Packets.{syn_packet, syn_fragment, short_icmp, fresh}

syn_fragment-IsBytes : IsBytes syn_fragment
syn_fragment-IsBytes = omega arith

short_icmp-IsBytes : IsBytes short_icmp
short_icmp-IsBytes = omega arith

-- A SYN packet passes, and a fragmented one is dropped.
syn_passes : Option.map (λ r. r.0) (xdp_parser_func syn_packet fresh) ≡ some 2
unfolding xdp_parser_func parse_ethhdr ipv4_case parse_iphdr transport tcp_case parse_tcphdr
    tcp_stupid tcp_fragment packet_rec out xdp_stats_record_action
syn_passes = refl

parsers-Bounded_example :
    Bounded syn_packet 14 (parse_ethhdr syn_packet 14)
    × Bounded syn_packet 14 (parse_iphdr syn_packet 14)
    × Bounded syn_packet 14 (parse_icmphdr syn_packet 14)
    × Bounded syn_packet 14 (parse_udphdr syn_packet 14)
    × Bounded syn_packet 14 (parse_tcphdr syn_packet 14)
parsers-Bounded_example = parsers-Bounded syn_packet 14 (omega arith)

xdp_parser_func-Decides_example :
    Decides drop 54 (event_of syn_fragment) fresh (xdp_parser_func syn_fragment fresh)
unfolding verdict l4_verdict
xdp_parser_func-Decides_example =
    xdp_parser_func-Decides syn_fragment syn_fragment-IsBytes fresh (omega arith)

run_tally_example :
    (k' : Kern) × (run (syn_fragment ∷ short_icmp ∷ []) fresh ≡ some k')
    × Tallied 1 (syn_fragment ∷ short_icmp ∷ []) fresh k'
run_tally_example =
    run_tally 1 (syn_fragment ∷ short_icmp ∷ []) fresh
      (syn_fragment-IsBytes, (short_icmp-IsBytes, tt)) (omega arith)

short_icmp_wraps_example : Reports 65528 fresh (xdp_parser_func short_icmp fresh)
unfolding verdict l4_verdict
short_icmp_wraps_example =
    short_icmp_wraps short_icmp fresh short_icmp-IsBytes (omega arith) refl refl refl (omega arith)
      (omega arith)
