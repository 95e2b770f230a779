-- ===== src/Filter/Prog/Transport.antt =====
-- main/xdp_prog_kern.c: the cases of the inner `switch` decide as the specification.
use anti_dos.Base.{◌+◌, ◌/◌, ◌≡◌, ◌≢◌, arith, length, get_elem?-some}
use native.Mathlib.Decide.{ℕ_discrete}
use anti_dos.Packet.{Packet, IsBytes, byte, view_iphdr}
use anti_dos.Filter.Parse.Fits.{parse_tcphdr_lem, parse_udphdr_lem, parse_icmphdr_lem}
use anti_dos.Filter.Rules.{icmp_stupid, tcp_stupid}
use anti_dos.Filter.Stats.{Kern, xdp_stats_record_action}
use anti_dos.Filter.Spec.{l4_verdict, l4_at, reported}
use anti_dos.Filter.Prog.{out, pass_meta, packet_rec, tcp_case, udp_case, icmp_case, transport}
use anti_dos.Filter.Prog.Effects.{HasSlots, Decides}
use anti_dos.Filter.Rules.Masks.{fragment_test, syn_fragment_test, large_test}

module _ (p : Packet) (bytes : IsBytes p) (k : Kern) (slots : HasSlots k) where
  tcp-Decides :
      byte p 23 ≡ 6
      → Decides
          (l4_verdict p)
          (length p)
          (reported p)
          k
          (tcp_case p (l4_at p) 8 (view_iphdr p 14) (packet_rec 6 (view_iphdr p 14)) k)
  unfolding tcp_case out xdp_stats_record_action tcp_stupid packet_rec pass_meta l4_verdict reported
  tcp-Decides e = ground (
    arith,
    parse_tcphdr_lem p (l4_at p),
    syn_fragment_test p 20 (byte p (l4_at p + 13) / 2) bytes,
    get_elem?-some k.stats 1 (omega arith),
    get_elem?-some k.stats 2 (omega arith),
  )

  udp-Decides :
      byte p 23 ≡ 17
      → Decides
          (l4_verdict p)
          (length p)
          (reported p)
          k
          (udp_case p (l4_at p) 8 (view_iphdr p 14) k)
  unfolding udp_case out xdp_stats_record_action pass_meta l4_verdict reported
  udp-Decides e = ground (
    arith,
    parse_udphdr_lem p (l4_at p) bytes,
    get_elem?-some k.stats 1 (omega arith),
    get_elem?-some k.stats 2 (omega arith),
  )

  icmp-Decides :
      byte p 23 ≡ 1
      → Decides
          (l4_verdict p)
          (length p)
          (reported p)
          k
          (icmp_case p (l4_at p) 8 (view_iphdr p 14) (packet_rec 1 (view_iphdr p 14)) k)
  unfolding icmp_case out xdp_stats_record_action icmp_stupid packet_rec pass_meta l4_verdict
      reported
  icmp-Decides e = ground (
    arith,
    parse_icmphdr_lem p (l4_at p),
    fragment_test p 20 bytes,
    large_test p 16 bytes,
    get_elem?-some k.stats 1 (omega arith),
    get_elem?-some k.stats 2 (omega arith),
  )

  other-Decides :
      byte p 23 ≢ 6
      → byte p 23 ≢ 17
      → byte p 23 ≢ 1
      → Decides (l4_verdict p) (length p) (reported p) k (
          transport p
            (l4_at p)
            (byte p 23)
            8
            (view_iphdr p 14)
            (packet_rec (byte p 23) (view_iphdr p 14))
            k)
  unfolding transport out xdp_stats_record_action l4_verdict reported
  other-Decides a b c = ground (arith, get_elem?-some k.stats 2 (omega arith))

  pub transport-Decides : Decides (l4_verdict p) (length p) (reported p) k (
      transport p
        (l4_at p)
        (byte p 23)
        8
        (view_iphdr p 14)
        (packet_rec (byte p 23) (view_iphdr p 14))
        k)
  unfolding transport
  transport-Decides = elim (ℕ_discrete (byte p 23) 6) [
    | yes tcp ↦ rw tcp (rw tcp at (tcp-Decides tcp))
    | no a ↦ elim (ℕ_discrete (byte p 23) 17) [
      | yes udp ↦ rw udp (rw udp at (udp-Decides udp))
      | no b ↦ elim (ℕ_discrete (byte p 23) 1) [
        | yes icmp ↦ rw icmp (rw icmp at (icmp-Decides icmp))
        | no c ↦ other-Decides a b c
      ]
    ]
  ]
