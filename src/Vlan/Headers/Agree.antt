-- ===== src/Vlan/Headers/Agree.antt =====
-- common/parsing_helpers.h and main/common/parsing.h: where their parsers agree.
use anti_dos.Base.{ℕ, ◌+◌, ◌≡◌, false, arith}
use anti_dos.Packet.{Packet, le16, deref}
use anti_dos.Filter.Parse.{parse_ethhdr, parse_iphdr, parse_icmphdr, parse_udphdr, parse_tcphdr}
use anti_dos.Vlan.{proto_is_vlan, parse_ethhdr_any}
use anti_dos.Vlan.Depth.{parse_ethhdr_any-parse_ethhdr}
use anti_dos.Vlan.Headers.{parse_iphdr_any, parse_icmphdr_any, parse_udphdr_any, parse_tcphdr_any}

iphdr_agrees : (p : Packet) (c : ℕ) → parse_iphdr_any p c ≡ parse_iphdr p c
unfolding parse_iphdr_any parse_iphdr deref
iphdr_agrees p c = ground arith

icmphdr_agrees : (p : Packet) (c : ℕ) → parse_icmphdr_any p c ≡ parse_icmphdr p c
unfolding parse_icmphdr_any parse_icmphdr deref
icmphdr_agrees p c = ground arith

udphdr_agrees : (p : Packet) (c : ℕ) → parse_udphdr_any p c ≡ parse_udphdr p c
unfolding parse_udphdr_any parse_udphdr deref
udphdr_agrees p c = ground arith

tcphdr_agrees : (p : Packet) (c : ℕ) → parse_tcphdr_any p c ≡ parse_tcphdr p c
unfolding parse_tcphdr_any parse_tcphdr deref
tcphdr_agrees p c = ground arith

pub parsers_agree :
    (p : Packet) (c : ℕ)
    → proto_is_vlan (le16 p (c + 12)) ≡ false
    → (parse_ethhdr_any p c ≡ parse_ethhdr p c)
      × (parse_iphdr_any p c ≡ parse_iphdr p c)
      × (parse_icmphdr_any p c ≡ parse_icmphdr p c)
      × (parse_udphdr_any p c ≡ parse_udphdr p c)
      × (parse_tcphdr_any p c ≡ parse_tcphdr p c)
parsers_agree p c h = (
  parse_ethhdr_any-parse_ethhdr p c h,
  iphdr_agrees p c,
  icmphdr_agrees p c,
  udphdr_agrees p c,
  tcphdr_agrees p c,
)
