-- ===== src/Filter/Parse.antt =====
-- main/common/parsing.h: the header parsers. Each takes the cursor `nh->pos` and returns the cursor
-- it leaves, the header pointer it stores (`none` while it stores none) and its `int` result.
pub mod Fits
pub mod Bounds
use anti_dos.Base.{
  ℕ, ◌+◌, ◌-◌, ◌*◌, Option, none, some, ℤ, pos, negsuc, is_neg, Bool, length, ltb, leb,
  if◌then◌else◌, ◌>>=◌,
}
use anti_dos.Packet.{
  Packet, htons, deref, view_ethhdr, view_iphdr, view_tcphdr, view_udphdr, view_icmphdr,
}

pub record Parsed : Type 0 where
  pub cursor : ℕ
  pub hdr : Option ℕ
  pub ret : ℤ

abbrev pub rejected : ℕ → Parsed
rejected cur = record { cursor = cur; hdr = none; ret = negsuc 0 }

abbrev pub accepted : ℕ → ℕ → ℕ → Parsed
accepted cur next ret = record { cursor = next; hdr = some cur; ret = pos ret }

abbrev pub sizeof_ethhdr : ℕ
sizeof_ethhdr = 14

abbrev pub sizeof_iphdr : ℕ
sizeof_iphdr = 20

abbrev pub sizeof_tcphdr : ℕ
sizeof_tcphdr = 20

abbrev pub sizeof_udphdr : ℕ
sizeof_udphdr = 8

abbrev pub sizeof_icmphdr : ℕ
sizeof_icmphdr = 8

-- `p > data_end`
abbrev pub past_end : Packet → ℕ → Bool
past_end pkt p = ltb (length pkt) p

unfoldable pub parse_ethhdr : Packet → ℕ → Option Parsed
unfolding deref
parse_ethhdr pkt cur = if past_end pkt (cur + sizeof_ethhdr) then some (rejected cur) else do
  eth ← deref pkt cur sizeof_ethhdr (view_ethhdr pkt cur)
  some (accepted cur (cur + sizeof_ethhdr) eth.h_proto)

unfoldable pub parse_iphdr : Packet → ℕ → Option Parsed
unfolding deref
parse_iphdr pkt cur = if past_end pkt (cur + sizeof_iphdr) then some (rejected cur) else do
  iph ← deref pkt cur sizeof_iphdr (view_iphdr pkt cur)
  let hdrsize = iph.ihl * 4
  if ltb hdrsize sizeof_iphdr
      then some (rejected cur)
      else if past_end pkt (cur + hdrsize)
      then some (rejected cur)
      else some (accepted cur (cur + hdrsize) iph.protocol)

unfoldable pub parse_icmphdr : Packet → ℕ → Option Parsed
unfolding deref
parse_icmphdr pkt cur = if past_end pkt (cur + sizeof_icmphdr) then some (rejected cur) else do
  icmph ← deref pkt cur sizeof_icmphdr (view_icmphdr pkt cur)
  some (accepted cur (cur + sizeof_icmphdr) icmph.kind)

-- `(int)(n - sizeof(struct udphdr))`: the difference of `size_t`s wraps, and the cut to `int` gives
-- the signed difference.
abbrev pub payload_len : ℕ → ℤ
payload_len n =
    if leb sizeof_udphdr n then pos (n - sizeof_udphdr) else negsuc (sizeof_udphdr - n - 1)

unfoldable pub parse_udphdr : Packet → ℕ → Option Parsed
unfolding deref htons
parse_udphdr pkt cur = if past_end pkt (cur + sizeof_udphdr) then some (rejected cur) else do
  h ← deref pkt cur sizeof_udphdr (view_udphdr pkt cur)
  let len = payload_len (htons h.len)
  some (record {
    cursor = cur + sizeof_udphdr;
    hdr = some cur;
    ret = if is_neg len then negsuc 0 else len;
  })

unfoldable pub parse_tcphdr : Packet → ℕ → Option Parsed
unfolding deref
parse_tcphdr pkt cur = if past_end pkt (cur + sizeof_tcphdr) then some (rejected cur) else do
  h ← deref pkt cur sizeof_tcphdr (view_tcphdr pkt cur)
  let len = h.doff * 4
  if ltb len sizeof_tcphdr
      then some (rejected cur)
      else if past_end pkt (cur + len)
      then some (rejected cur)
      else some (accepted cur (cur + len) len)
