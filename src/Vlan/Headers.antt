-- ===== src/Vlan/Headers.antt =====
-- common/parsing_helpers.h: `parse_iphdr`, `parse_icmphdr`, `parse_udphdr` and `parse_tcphdr`, which
-- main/common/parsing.h has as well; here by what the headers have in common.
pub mod Agree
use anti_dos.Base.{ℕ, ◌+◌, ◌*◌, Option, none, some, pos, negsuc, ltb, if◌then◌else◌, ◌>>=◌, is_neg}
use anti_dos.Packet.{Packet, htons, deref, view_iphdr, view_tcphdr, view_udphdr, view_icmphdr}
use anti_dos.Filter.Parse.{Parsed, rejected, accepted, past_end, payload_len}
use anti_dos.Vlan.{fixed_header}

-- A header of `size` bytes or more, which holds its length, and the result for it.
abbrev pub sized_header : ℕ → (ℕ → ℕ) → (ℕ → ℕ) → Packet → ℕ → Option Parsed
sized_header size len_at ret_at pkt cur =
    if past_end pkt (cur + size) then some (rejected cur) else do
      len ← deref pkt cur size (len_at cur)
      ret ← deref pkt cur size (ret_at cur)
      if ltb len size
          then some (rejected cur)
          else if past_end pkt (cur + len)
          then some (rejected cur)
          else some (accepted cur (cur + len) ret)

unfoldable pub parse_iphdr_any : Packet → ℕ → Option Parsed
unfolding deref
parse_iphdr_any pkt =
    sized_header 20 (λ cur. (view_iphdr pkt cur).ihl * 4) (λ cur. (view_iphdr pkt cur).protocol) pkt

-- `sizeof(struct icmphdr)` is 8.
unfoldable pub parse_icmphdr_any : Packet → ℕ → Option Parsed
unfolding deref
parse_icmphdr_any = fixed_header 8 0

unfoldable pub parse_udphdr_any : Packet → ℕ → Option Parsed
unfolding deref htons
parse_udphdr_any pkt cur = if past_end pkt (cur + 8) then some (rejected cur) else do
  len ← deref pkt cur 8 (payload_len (htons (view_udphdr pkt cur).len))
  if is_neg len
      then some (record { cursor = cur + 8; hdr = some cur; ret = negsuc 0 })
      else some (record { cursor = cur + 8; hdr = some cur; ret = len })

unfoldable pub parse_tcphdr_any : Packet → ℕ → Option Parsed
unfolding deref
parse_tcphdr_any pkt =
    sized_header 20 (λ cur. (view_tcphdr pkt cur).doff * 4) (λ cur. (view_tcphdr pkt cur).doff * 4)
      pkt
