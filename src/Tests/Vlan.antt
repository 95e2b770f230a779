-- ===== src/Tests/Vlan.antt =====
-- Witnesses of the VLAN helpers.
use anti_dos.Base.{
  ℕ, ◌*◌, ◌+◌, ◌≡◌, ◌≤◌, refl, Option, none, some, [], ◌∷◌, ℤ, pos, negsuc, length, drop, arith,
}
use anti_dos.Packet.{Packet, le16}
use anti_dos.Filter.Parse.{
  accepted, parse_ethhdr, parse_iphdr, parse_icmphdr, parse_udphdr, parse_tcphdr,
}
use anti_dos.Filter.Parse.Bounds.{Bounded}
use anti_dos.Vlan.{
  Vlans, parse_ethhdr_vlan, parse_ethhdr_any, parse_ip6hdr, parse_icmp6hdr, parse_icmphdr_common,
  proto_is_vlan,
}
use anti_dos.Vlan.Headers.{parse_iphdr_any, parse_icmphdr_any, parse_udphdr_any, parse_tcphdr_any}
use anti_dos.Vlan.Headers.Agree.{parsers_agree}
use anti_dos.Vlan.Depth.{tags, parse_ethhdr_vlan_lem, fixed_headers-Bounded}
use anti_dos.Vlan.Rewrite.{vlan_tag_pop, vlan_tag_push}
use anti_dos.Vlan.Rewrite.RoundTrip.{Frame, bytes_of, tagged, vlan_tag_pop-vlan_tag_push}
use anti_dos.Tests.Packets.{syn_packet}

abbrev frame : Frame
frame = record {
  a0 = 1;
  a1 = 2;
  a2 = 3;
  a3 = 4;
  a4 = 5;
  a5 = 6;
  b0 = 7;
  b1 = 8;
  b2 = 9;
  b3 = 10;
  b4 = 11;
  b5 = 12;
  t0 = 8;
  t1 = 0;
  rest = 69 ∷ [];
}

-- Room for one tag in front, and four bytes off.
abbrev adjust_one : ℤ → Packet → Option Packet
adjust_one (negsuc n) p = some (0 ∷ 0 ∷ 0 ∷ 0 ∷ p)
adjust_one (pos n) p = some (drop n p)

-- The tag of a tagged frame is collected.
tag_is_collected :
    parse_ethhdr_vlan (tagged frame 100) 0 (some (0 ∷ 0 ∷ []))
    ≡ some (accepted 0 18 8, some (100 ∷ 0 ∷ []))
unfolding parse_ethhdr_vlan
tag_is_collected = refl

parse_ethhdr_vlan_lem_example :
    (n : ℕ) × (v' : Vlans) × (n ≤ 2)
    × (0 + 14 + 4 * n ≤ length (tagged frame 100))
    × (n ≡ tags (tagged frame 100) 2 (0 + 12))
    × (parse_ethhdr_vlan (tagged frame 100) 0 none
        ≡ some (accepted 0 (0 + 12 + 4 * n + 2) (le16 (tagged frame 100) (0 + 12 + 4 * n)), v'))
parse_ethhdr_vlan_lem_example = parse_ethhdr_vlan_lem (tagged frame 100) 0 none (omega arith)

parsers_agree_example :
    (parse_ethhdr_any syn_packet 0 ≡ parse_ethhdr syn_packet 0)
    × (parse_iphdr_any syn_packet 0 ≡ parse_iphdr syn_packet 0)
    × (parse_icmphdr_any syn_packet 0 ≡ parse_icmphdr syn_packet 0)
    × (parse_udphdr_any syn_packet 0 ≡ parse_udphdr syn_packet 0)
    × (parse_tcphdr_any syn_packet 0 ≡ parse_tcphdr syn_packet 0)
unfolding proto_is_vlan
parsers_agree_example = parsers_agree syn_packet 0 refl

fixed_headers-Bounded_example :
    Bounded syn_packet 14 (parse_ip6hdr syn_packet 14)
    × Bounded syn_packet 14 (parse_icmp6hdr syn_packet 14)
    × Bounded syn_packet 14 (parse_icmphdr_common syn_packet 14)
fixed_headers-Bounded_example = fixed_headers-Bounded syn_packet 14 (omega arith)

vlan_tag_pop-vlan_tag_push_example :
    (vlan_tag_push adjust_one (bytes_of frame) 0 100 ≡ some (pos 0, tagged frame 100))
    × (vlan_tag_pop adjust_one (tagged frame 100) 0 ≡ some (pos 100, bytes_of frame))
vlan_tag_pop-vlan_tag_push_example =
    vlan_tag_pop-vlan_tag_push adjust_one frame 100 0 0 0 0 refl (omega arith) (omega arith)
      (omega arith) refl
