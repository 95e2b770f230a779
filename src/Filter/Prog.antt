-- ===== src/Filter/Prog.antt =====
-- main/xdp_prog_kern.c: `xdp_parser_func`, cut at its `switch` statements. A result `none` is a
-- fault: a read outside the packet or through a pointer that no parser has set.
pub mod Effects
pub mod Transport
pub mod Decides
pub mod Runs
pub mod Icmp
use anti_dos.Base.{
  ℕ, ◌+◌, ◌-◌, ◌%◌, ◌^◌, List, [], ◌++◌, ◌∷◌, Option, some, pos_part, is_neg, length, set,
  replicate, ◌==◌, if◌then◌else◌, ◌>>=◌,
}
use anti_dos.Packet.{Packet, htons, deref, Iphdr, view_iphdr, view_tcphdr, view_udphdr}
use anti_dos.Filter.Parse.{
  parse_ethhdr, parse_iphdr, parse_tcphdr, parse_udphdr, parse_icmphdr, sizeof_ethhdr, sizeof_iphdr,
  sizeof_tcphdr, sizeof_udphdr, sizeof_icmphdr,
}
use anti_dos.Filter.Rules.{Trace, white_listed, black_listed, PacketRec, tcp_stupid, icmp_stupid}
use anti_dos.Filter.Stats.{Kern, PktMeta, no_meta, xdp_stats_record_action, xdp_drop, xdp_pass}

abbrev pub eth_p_ip : ℕ
eth_p_ip = 0x0800

abbrev pub ipproto_icmp : ℕ
ipproto_icmp = 1

abbrev pub ipproto_tcp : ℕ
ipproto_tcp = 6

abbrev pub ipproto_udp : ℕ
ipproto_udp = 17

-- `bpf_printk`.
abbrev pub traced : List Trace → Kern → Kern
traced lines k = record k { trace = k.trace ++ lines }

-- The label `out`.
unfoldable pub out : Packet → ℕ → PktMeta → Kern → Option (ℕ × Kern)
out pkt action meta k = some (xdp_stats_record_action (length pkt) action meta k)

-- What a case of the inner `switch` leaves for the code behind it.
pub record L4 : Type 0 where
  pub off : ℕ
  pub port0 : ℕ
  pub port1 : ℕ
  pub seq : ℕ

-- The record of a passed packet. The pointer difference less `off`, which is at most 54, is cut to
-- 16 bits.
unfoldable pub pass_meta : Packet → ℕ → Iphdr → L4 → PktMeta
unfolding htons
pass_meta pkt eth_type iph l4 =
    let off = l4.off + (sizeof_ethhdr + sizeof_iphdr) in
    record {
      src = iph.saddr;
      dst = iph.daddr;
      port0 = l4.port0;
      port1 = l4.port1;
      l3_proto = htons eth_type;
      l4_proto = iph.protocol;
      data_len = (length pkt + 2 ^ 16 - off) % 2 ^ 16;
      pkt_len = length pkt % 2 ^ 16;
      seq = l4.seq;
    }

-- `struct packet_rec pkt = {}` with the fields of the IP header. `protocol` has 8 bits.
unfoldable pub packet_rec : ℕ → Iphdr → PacketRec
unfolding htons
packet_rec ip_type iph = record {
  protocol = htons ip_type % 2 ^ 8;
  src_addr = iph.saddr;
  dest_addr = iph.daddr;
  tot_len = iph.tot_len;
  ip_flags = replicate 3 0;
  frag_off = iph.frag_off;
  tcp_flags = replicate 6 0;
}

-- `case IPPROTO_TCP`.
unfoldable pub tcp_case : Packet → ℕ → ℕ → Iphdr → PacketRec → Kern → Option (ℕ × Kern)
unfolding deref
tcp_case pkt cur eth_type iph rec k = do
  t ← parse_tcphdr pkt cur
  if is_neg t.ret then out pkt xdp_drop no_meta k else do
    p ← t.hdr
    tcphdr ← deref pkt p sizeof_tcphdr (view_tcphdr pkt p)
    let check = tcp_stupid (record rec { tcp_flags = set rec.tcp_flags 4 tcphdr.syn })
    let k' = traced check.1 k
    if check.0
        then out pkt xdp_drop no_meta k'
        else out pkt xdp_pass
            (pass_meta pkt eth_type iph (record {
              off = sizeof_tcphdr;
              port0 = tcphdr.source;
              port1 = tcphdr.dest;
              seq = tcphdr.seq;
            }))
            k'

-- `case IPPROTO_UDP`.
unfoldable pub udp_case : Packet → ℕ → ℕ → Iphdr → Kern → Option (ℕ × Kern)
unfolding deref
udp_case pkt cur eth_type iph k = do
  u ← parse_udphdr pkt cur
  if is_neg u.ret then out pkt xdp_drop no_meta k else do
    p ← u.hdr
    udphdr ← deref pkt p sizeof_udphdr (view_udphdr pkt p)
    out pkt xdp_pass
        (pass_meta pkt eth_type iph
          (record { off = sizeof_udphdr; port0 = udphdr.source; port1 = udphdr.dest; seq = 0 }))
        k

-- `case IPPROTO_ICMP`: the result of the parser is not looked at.
unfoldable pub icmp_case : Packet → ℕ → ℕ → Iphdr → PacketRec → Kern → Option (ℕ × Kern)
icmp_case pkt cur eth_type iph rec k = do
  _ ← parse_icmphdr pkt cur
  let check = icmp_stupid rec
  let k' = traced check.1 k
  if check.0
      then out pkt xdp_drop no_meta k'
      else out pkt xdp_pass
          (pass_meta pkt eth_type iph
            (record { off = sizeof_icmphdr; port0 = 0; port1 = 0; seq = 0 }))
          k'

-- The inner `switch`.
unfoldable pub transport : Packet → ℕ → ℕ → ℕ → Iphdr → PacketRec → Kern → Option (ℕ × Kern)
transport pkt cur ip_type eth_type iph rec k =
    if ip_type == ipproto_tcp
    then tcp_case pkt cur eth_type iph rec k
    else if ip_type == ipproto_udp
    then udp_case pkt cur eth_type iph k
    else if ip_type == ipproto_icmp
    then icmp_case pkt cur eth_type iph rec k
    else out pkt xdp_pass no_meta k

-- `case bpf_htons(ETH_P_IP)`: a listed source is decided here, past the label `out`.
unfoldable pub ipv4_case : Packet → ℕ → ℕ → Kern → Option (ℕ × Kern)
unfolding deref
ipv4_case pkt cur eth_type k = do
  i ← parse_iphdr pkt cur
  if is_neg i.ret then out pkt xdp_drop no_meta k else do
    p ← i.hdr
    iph ← deref pkt p sizeof_iphdr (view_iphdr pkt p)
    if k.white_list iph.saddr
        then some (xdp_pass, traced (white_listed iph.saddr iph.daddr ∷ []) k)
        else if k.black_list iph.saddr
        then some (xdp_drop, traced (black_listed iph.saddr iph.daddr ∷ []) k)
        else transport pkt i.cursor (pos_part i.ret) eth_type iph (packet_rec (pos_part i.ret) iph)
            k

-- IPv6 and all other types go to `out` as they are.
unfoldable pub xdp_parser_func : Packet → Kern → Option (ℕ × Kern)
unfolding htons
xdp_parser_func pkt k = do
  e ← parse_ethhdr pkt 0
  if is_neg e.ret
      then out pkt xdp_drop no_meta k
      else if pos_part e.ret == htons eth_p_ip
      then ipv4_case pkt e.cursor (pos_part e.ret) k
      else out pkt xdp_pass no_meta k
