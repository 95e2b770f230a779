-- ===== src/Vlan/Rewrite.antt =====
-- common/rewrite_helpers.h: VLAN tags taken off and put on, and addresses swapped. `adjust_head` is
-- the kernel's helper: `none` if it fails, which leaves the packet as it is. A negative `int`
-- result is -1.
pub mod RoundTrip
use anti_dos.Base.{
  ℕ, zero, suc, ◌+◌, ◌/◌, ◌%◌, not, List, [], ◌∷◌, Option, none, some, ℤ, pos, negsuc, set, take,
  drop, if◌then◌else◌, ◌>>=◌,
}
use anti_dos.Packet.{Packet, le16, htons, deref}
use anti_dos.Filter.Parse.{past_end, sizeof_ethhdr}
use anti_dos.Vlan.{proto_is_vlan, sizeof_vlan_hdr, view_vlan, eth_p_8021q}

-- `__builtin_memcpy` from and to the packet.
abbrev pub slice : Packet → ℕ → ℕ → List ℕ
slice p at size = take size (drop at p)

abbrev pub blit : Packet → ℕ → List ℕ → Packet
blit p at [] = p
blit p at (b ∷ bs) = blit (set p at b) (suc at) bs

-- A 16-bit store of a little-endian host.
abbrev pub store16 : Packet → ℕ → ℕ → Packet
store16 p at v = set (set p at (v % 256)) (suc at) (v / 256 % 256)

module _ (adjust_head : ℤ → Packet → Option Packet) where
  unfoldable pub vlan_tag_pop : Packet → ℕ → Option (ℤ × Packet)
  unfolding proto_is_vlan deref htons
  vlan_tag_pop pkt eth = do
    h_proto ← deref pkt eth sizeof_ethhdr (le16 pkt (eth + 12))
    let vlh = eth + sizeof_ethhdr
    if not (proto_is_vlan h_proto)
        then some (negsuc 0, pkt)
        else if past_end pkt (vlh + sizeof_vlan_hdr)
        then some (negsuc 0, pkt)
        else do
          v ← deref pkt vlh sizeof_vlan_hdr (view_vlan pkt vlh)
          eth_cpy ← deref pkt eth sizeof_ethhdr (slice pkt eth sizeof_ethhdr)
          elim (adjust_head (pos 4) pkt) [
            | none ↦ some (negsuc 0, pkt)
            | some q ↦
                if past_end q sizeof_ethhdr
                then some (negsuc 0, q)
                else some (
                  pos (htons v.h_vlan_tci),
                  store16 (blit q 0 eth_cpy) 12 v.h_vlan_encapsulated_proto,
                )
          ]

  -- The three writes behind the copy of the Ethernet header.
  unfoldable pub put_tag : Packet → ℕ → Packet
  unfolding htons
  put_tag pkt vlid =
      let q = store16 pkt 14 (htons vlid) in
      let q' = store16 q 16 (le16 q 12) in store16 q' 12 (htons eth_p_8021q)

  unfoldable pub vlan_tag_push : Packet → ℕ → ℕ → Option (ℤ × Packet)
  unfolding deref put_tag
  vlan_tag_push pkt eth vlid = do
    eth_cpy ← deref pkt eth sizeof_ethhdr (slice pkt eth sizeof_ethhdr)
    elim (adjust_head (negsuc 3) pkt) [
      | none ↦ some (negsuc 0, pkt)
      | some q ↦
          if past_end q sizeof_ethhdr
          then some (negsuc 0, q)
          else (let q' = blit q 0 eth_cpy in
              if past_end q' (sizeof_ethhdr + sizeof_vlan_hdr)
              then some (negsuc 0, q')
              else some (pos 0, put_tag q' vlid))
    ]

-- The bytes `a .. a + n` and `b .. b + n` change places.
abbrev pub swap_fields : ℕ → ℕ → ℕ → Packet → Packet
swap_fields a b n p = let tmp = slice p a n in blit (blit p a (slice p b n)) b tmp

-- `h_dest` and `h_source` of six bytes.
unfoldable pub swap_src_dst_mac : Packet → ℕ → Packet
swap_src_dst_mac p eth = swap_fields (eth + 6) eth 6 p

-- `saddr` and `daddr` of sixteen bytes.
unfoldable pub swap_src_dst_ipv6 : Packet → ℕ → Packet
swap_src_dst_ipv6 p ipv6 = swap_fields (ipv6 + 8) (ipv6 + 24) 16 p

-- `saddr` and `daddr` of four bytes.
unfoldable pub swap_src_dst_ipv4 : Packet → ℕ → Packet
swap_src_dst_ipv4 p iphdr = swap_fields (iphdr + 12) (iphdr + 16) 4 p
