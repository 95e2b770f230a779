-- ===== src/Filter/Spec.antt =====
-- What the filter is meant to decide, read off the packet in network byte order: an independent
-- description of `xdp_parser_func` of main/xdp_prog_kern.c.
use anti_dos.Base.{
  ℕ, ◌+◌, ◌*◌, ◌/◌, ◌%◌, ◌-◌, ◌^◌, Bool, not, ◌&&◌, ◌||◌, ltb, ◌==◌, if◌then◌else◌, length,
}
use anti_dos.Packet.{Packet, byte, be16, le16, le32}
use anti_dos.Filter.Stats.{PktMeta, no_meta}
use anti_dos.Filter.Parse.Fits.{eth_fits, ip_fits, tcp_fits, udp_fits}

-- `white` and `black` are decided by the lists alone.
pub data Verdict : Type 0 where
  white black drop pass : Verdict

-- The action returned.
abbrev pub action_of : Verdict → ℕ
action_of white = 2
action_of black = 1
action_of drop = 1
action_of pass = 2

abbrev pub source : Packet → ℕ
source p = le32 p 26

-- The first byte behind the IP header.
abbrev pub l4_at : Packet → ℕ
l4_at p = 14 + 4 * (byte p 14 % 16)

-- More fragments follow, or the fragment offset is not zero: the low 14 bits of the field.
abbrev pub is_fragment : Packet → Bool
is_fragment p = not (be16 p 20 % 0x4000 == 0)

abbrev pub is_syn : Packet → Bool
is_syn p = not (byte p (l4_at p + 13) / 2 % 2 == 0)

-- The total length of the IP header is above 1024.
abbrev pub is_large : Packet → Bool
is_large p = ltb 1024 (be16 p 16)

abbrev pub is_ipv4 : Packet → Bool
is_ipv4 p = be16 p 12 == 0x0800

unfoldable pub l4_verdict : Packet → Verdict
l4_verdict p =
    if byte p 23 == 6
    then if tcp_fits p (l4_at p) && not (is_fragment p && is_syn p) then pass else drop
    else if byte p 23 == 17
    then if udp_fits p (l4_at p) then pass else drop
    else if byte p 23 == 1
    then if is_fragment p || is_large p then drop else pass
    else pass

unfoldable pub verdict : (ℕ → Bool) → (ℕ → Bool) → Packet → Verdict
verdict white_list black_list p =
    if not (eth_fits p 0)
    then drop
    else if not (is_ipv4 p)
    then pass
    else if not (ip_fits p 14)
    then drop
    else if white_list (source p)
    then white
    else if black_list (source p)
    then black
    else l4_verdict p

-- The payload length that is reported: the IP header is taken for 20 bytes and the next for `size`,
-- and the difference is cut to 16 bits.
abbrev pub reported_len : ℕ → ℕ → ℕ
reported_len len size = (len + 2 ^ 16 - (34 + size)) % 2 ^ 16

-- The fields keep the network's byte order, but for `l3_proto`.
unfoldable pub reported : Packet → PktMeta
reported p =
    if byte p 23 == 6
    then record {
      src = le32 p 26;
      dst = le32 p 30;
      port0 = le16 p (l4_at p);
      port1 = le16 p (l4_at p + 2);
      l3_proto = 0x0800;
      l4_proto = 6;
      data_len = reported_len (length p) 20;
      pkt_len = length p % 2 ^ 16;
      seq = le32 p (l4_at p + 4);
    }
    else if byte p 23 == 17
    then record {
      src = le32 p 26;
      dst = le32 p 30;
      port0 = le16 p (l4_at p);
      port1 = le16 p (l4_at p + 2);
      l3_proto = 0x0800;
      l4_proto = 17;
      data_len = reported_len (length p) 8;
      pkt_len = length p % 2 ^ 16;
      seq = 0;
    }
    else if byte p 23 == 1
    then record {
      src = le32 p 26;
      dst = le32 p 30;
      port0 = 0;
      port1 = 0;
      l3_proto = 0x0800;
      l4_proto = 1;
      data_len = reported_len (length p) 8;
      pkt_len = length p % 2 ^ 16;
      seq = 0;
    }
    else no_meta

-- A packet that is no IPv4 packet is reported with an empty record.
unfoldable pub event_of : Packet → PktMeta
event_of p = if is_ipv4 p then reported p else no_meta
