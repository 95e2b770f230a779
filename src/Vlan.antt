-- ===== src/Vlan.antt =====
-- common/parsing_helpers.h: parsers with VLAN tags, and those of IPv6 and ICMPv6. As in
-- Filter.Parse, a parser takes the cursor and returns the cursor, the stored pointer and the `int`
-- result.
pub mod Headers
pub mod Depth
pub mod Rewrite
use anti_dos.Base.{
  ℕ, zero, suc, ◌+◌, ◌%◌, ◌^◌, Bool, ◌||◌, not, bit_and, List, [], ◌∷◌, Option, none, some, ℤ, pos,
  negsuc, ◌==◌, length, set, if◌then◌else◌, ◌>>=◌,
}
use anti_dos.Packet.{Packet, byte, le16, htons, deref, view_ethhdr}
use anti_dos.Filter.Parse.{Parsed, rejected, accepted, sizeof_ethhdr, past_end}

abbrev pub eth_p_8021q : ℕ
eth_p_8021q = 0x8100

abbrev pub eth_p_8021ad : ℕ
eth_p_8021ad = 0x88a8

abbrev pub vlan_max_depth : ℕ
vlan_max_depth = 2

pub record VlanHdr : Type 0 where
  pub h_vlan_tci : ℕ
  pub h_vlan_encapsulated_proto : ℕ

abbrev pub sizeof_vlan_hdr : ℕ
sizeof_vlan_hdr = 4

abbrev pub view_vlan : Packet → ℕ → VlanHdr
view_vlan p i = record { h_vlan_tci = le16 p i; h_vlan_encapsulated_proto = le16 p (i + 2) }

unfoldable pub proto_is_vlan : ℕ → Bool
unfolding htons
proto_is_vlan h_proto = (h_proto == htons eth_p_8021q) || (h_proto == htons eth_p_8021ad)

-- `bpf_ntohs(tci) & VLAN_VID_MASK`: the low twelve bits.
abbrev pub vlan_id : ℕ → ℕ
vlan_id tci = bit_and (htons tci) 0x0fff

-- `vlans` is NULL or points to an array, here its list.
abbrev pub Vlans : Type 0
Vlans = Option (List ℕ)

abbrev pub collect : ℕ → ℕ → Vlans → Vlans
collect i id none = none
collect i id (some ids) = some (set ids i id)

-- The variables of the loop.
pub record Scan : Type 0 where
  pub vlh : ℕ
  pub h_proto : ℕ
  pub vlans : Vlans

-- The loop from round `i` with `n` rounds left.
unfoldable pub vlan_loop : Packet → ℕ → ℕ → Scan → Option Scan
unfolding proto_is_vlan deref
vlan_loop pkt zero i s = some s
vlan_loop pkt (suc n) i s =
    let rest =
      (deref pkt s.vlh sizeof_vlan_hdr (view_vlan pkt s.vlh) >>= λ v.
      vlan_loop pkt n (i + 1) (record {
        vlh = s.vlh + sizeof_vlan_hdr;
        h_proto = v.h_vlan_encapsulated_proto;
        vlans = collect i (vlan_id v.h_vlan_tci) s.vlans;
      })) in
    if not (proto_is_vlan s.h_proto)
    then some s
    else if past_end pkt (s.vlh + sizeof_vlan_hdr)
    then some s
    else rest

unfoldable pub parse_ethhdr_vlan : Packet → ℕ → Vlans → Option (Parsed × Vlans)
unfolding vlan_loop
parse_ethhdr_vlan pkt cur vlans =
    if past_end pkt (cur + sizeof_ethhdr) then some (rejected cur, vlans) else do
      eth ← deref pkt cur sizeof_ethhdr (view_ethhdr pkt cur)
      s ←
          vlan_loop pkt vlan_max_depth 0
            (record { vlh = cur + sizeof_ethhdr; h_proto = eth.h_proto; vlans = vlans })
      some (accepted cur s.vlh s.h_proto, s.vlans)

-- `parse_ethhdr` of this header.
unfoldable pub parse_ethhdr_any : Packet → ℕ → Option Parsed
unfolding parse_ethhdr_vlan
parse_ethhdr_any pkt cur = do r ← parse_ethhdr_vlan pkt cur none; some r.0

-- A header of `size` bytes whose result is the byte at `field`.
abbrev pub fixed_header : ℕ → ℕ → Packet → ℕ → Option Parsed
fixed_header size field pkt cur = if past_end pkt (cur + size) then some (rejected cur) else do
  kind ← deref pkt cur size (byte pkt (cur + field))
  some (accepted cur (cur + size) kind)

-- `sizeof(struct ipv6hdr)` is 40, with `nexthdr` at 6.
unfoldable pub parse_ip6hdr : Packet → ℕ → Option Parsed
unfolding deref
parse_ip6hdr = fixed_header 40 6

-- `sizeof(struct icmp6hdr)` is 8.
unfoldable pub parse_icmp6hdr : Packet → ℕ → Option Parsed
unfolding deref
parse_icmp6hdr = fixed_header 8 0

-- `sizeof(struct icmphdr_common)` is 4.
unfoldable pub parse_icmphdr_common : Packet → ℕ → Option Parsed
unfolding deref
parse_icmphdr_common = fixed_header 4 0
