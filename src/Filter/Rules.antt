-- ===== src/Filter/Rules.antt =====
-- main/common/check_rules.h and `struct packet_rec`: the rules that drop a packet by its headers.
pub mod Masks
use anti_dos.Base.{
  ℕ, Bool, true, false, not, ◌&&◌, List, [], ◌∷◌, get_or, ◌==◌, ltb, bit_and, bit_or, if◌then◌else◌,
}
use anti_dos.Packet.{htons}

-- `ip_flags` is never written and stays zero.
pub record PacketRec : Type 0 where
  pub protocol : ℕ
  pub src_addr : ℕ
  pub dest_addr : ℕ
  pub tot_len : ℕ
  pub ip_flags : List ℕ
  pub frag_off : ℕ
  pub tcp_flags : List ℕ

-- What `bpf_printk` writes: the message, with the source and the destination address.
pub data Trace : Type 0 where
  white_listed black_listed fragmented_icmp large_icmp fragmented_tcp : ℕ → ℕ → Trace

abbrev pub ip_mf : ℕ
ip_mf = 0x2000

abbrev pub ip_offmask : ℕ
ip_offmask = 0x1fff

unfoldable pub icmp_fragment : ℕ → Bool
unfolding htons
icmp_fragment frag_off = not (bit_and frag_off (htons (bit_or ip_mf ip_offmask)) == 0)

unfoldable pub icmp_large_packet : ℕ → Bool
unfolding htons
icmp_large_packet tot_len = ltb 0x0400 (htons tot_len)

-- The verdict and what is traced.
unfoldable pub icmp_stupid : PacketRec → Bool × List Trace
icmp_stupid pkt =
    if icmp_fragment pkt.frag_off
    then (true, fragmented_icmp pkt.src_addr pkt.dest_addr ∷ [])
    else if icmp_large_packet pkt.tot_len
    then (true, large_icmp pkt.src_addr pkt.dest_addr ∷ [])
    else (false, [])

unfoldable pub tcp_fragment : ℕ → ℕ → Bool
unfolding htons
tcp_fragment frag_off syn_flag =
    not (bit_and frag_off (htons (bit_or ip_mf ip_offmask)) == 0)
    && not (bit_and syn_flag 0x0001 == 0)

unfoldable pub tcp_stupid : PacketRec → Bool × List Trace
tcp_stupid pkt =
    if tcp_fragment pkt.frag_off (get_or pkt.tcp_flags 4 0)
    then (true, fragmented_tcp pkt.src_addr pkt.dest_addr ∷ [])
    else (false, [])
