-- ===== src/Vlan/Depth.antt =====
-- common/parsing_helpers.h: how far `parse_ethhdr_vlan` goes, and what collecting the tags changes.
use anti_dos.Base.{
  ℕ, zero, suc, ◌+◌, ◌*◌, ◌≤◌, ◌≡◌, refl, ◌&&◌, false, not, some, length, if◌then◌else◌, arith,
  Bool-cases, inl, inr,
}
use anti_dos.Packet.{Packet, le16, deref}
use anti_dos.Filter.Parse.{past_end, parse_ethhdr, accepted}
use anti_dos.Filter.Parse.Bounds.{Bounded}
use anti_dos.Vlan.{
  Vlans, Scan, collect, proto_is_vlan, vlan_loop, parse_ethhdr_vlan, parse_ethhdr_any, parse_ip6hdr,
  parse_icmp6hdr, parse_icmphdr_common, vlan_id,
}

-- How many tags follow the Ethernet type at offset `at`: `n` at most, each whole in the packet.
unfoldable pub tags : Packet → ℕ → ℕ → ℕ
tags p zero at = 0
tags p (suc n) at =
    if proto_is_vlan (le16 p at) && not (past_end p (at + 6)) then suc (tags p n (at + 4)) else 0

tags-le : (p : Packet) (n at : ℕ) → tags p n at ≤ n
unfolding tags
tags-le p zero at = omega arith
tags-le p (suc n) at = ground (arith, tags-le p n (at + 4))

tags_inside : (p : Packet) (n at : ℕ) → at + 2 ≤ length p → at + 2 + 4 * tags p n at ≤ length p
unfolding tags
tags_inside p zero at h = omega arith
tags_inside p (suc n) at h = ground (arith, tags_inside p n (at + 4))

-- The variables of the loop behind the type at `at`.
abbrev behind : Packet → ℕ → Vlans → Scan
behind p at v = record { vlh = at + 2; h_proto = le16 p at; vlans = v }

vlan_loop_lem :
    (p : Packet) (n i at : ℕ) (v : Vlans)
    → (v' : Vlans) × (vlan_loop p n i (behind p at v) ≡ some (behind p (at + 4 * tags p n at) v'))
unfolding vlan_loop tags
vlan_loop_lem p zero i at v = (v, ground arith)
vlan_loop_lem p (suc n) i at v =
    let v1 = collect i (vlan_id (le16 p (at + 2))) v in
    let (v', e) = vlan_loop_lem p n (i + 1) (at + 4) v1 in
    elim (Bool-cases (proto_is_vlan (le16 p at) && not (past_end p (at + 6)))) [
      | inr stop ↦ (v, ground (arith, stop))
      | inl more ↦ (v', ground (arith, more, e, shift))
    ]
  where
    shift : (at + 2 + 4 ≡ at + 4 + 2) × (at + 2 + 2 ≡ at + 4) × (at + 2 + 4 ≡ at + 6)
    shift = omega arith

loop_start :
    (p : Packet) (c : ℕ) (v : Vlans)
    → c + 14 ≤ length p
    → (v' : Vlans) × (parse_ethhdr_vlan p c v
        ≡ some (
          accepted c (c + 12 + 4 * tags p 2 (c + 12) + 2) (le16 p (c + 12 + 4 * tags p 2 (c + 12))),
          v',
        ))
unfolding parse_ethhdr_vlan deref
loop_start p c v h = let (v', e) = vlan_loop_lem p 2 0 (c + 12) v in (v', ground (arith, e, same))
  where
    same : c + 14 ≡ c + 12 + 2
    same = omega arith

-- Of a packet that holds an Ethernet header at the cursor, `parse_ethhdr_vlan` skips the header and
-- two VLAN tags at most, all of them whole in the packet, whether or not the tags are collected. It
-- leaves the cursor behind them and returns the type in front of it.
pub parse_ethhdr_vlan_lem :
    (p : Packet) (c : ℕ) (v : Vlans)
    → c + 14 ≤ length p
    → (n : ℕ) × (v' : Vlans) × (n ≤ 2)
      × (c + 14 + 4 * n ≤ length p)
      × (n ≡ tags p 2 (c + 12))
      × (parse_ethhdr_vlan p c v
          ≡ some (accepted c (c + 12 + 4 * n + 2) (le16 p (c + 12 + 4 * n)), v'))
parse_ethhdr_vlan_lem p c v h =
    let (v', e) = loop_start p c v h in
    (
      tags p 2 (c + 12),
      v',
      tags-le p 2 (c + 12),
      omega (arith, tags_inside p 2 (c + 12) (omega arith)),
      refl,
      e,
    )

untagged : (p : Packet) (n at : ℕ) → proto_is_vlan (le16 p at) ≡ false → tags p n at ≡ 0
unfolding tags
untagged p zero at h = refl
untagged p (suc n) at h = ground (arith, h)

-- A frame whose type is not a VLAN type is parsed by `parse_ethhdr` of common/parsing_helpers.h as
-- by that of main/common/parsing.h.
pub parse_ethhdr_any-parse_ethhdr :
    (p : Packet) (c : ℕ)
    → proto_is_vlan (le16 p (c + 12)) ≡ false
    → parse_ethhdr_any p c ≡ parse_ethhdr p c
unfolding parse_ethhdr_any parse_ethhdr_vlan parse_ethhdr deref vlan_loop
parse_ethhdr_any-parse_ethhdr p c h = ground (arith, h)

-- From a cursor inside the packet the parsers of the IPv6, the ICMPv6 and the common ICMP header
-- return without a fault. The cursor has not moved back and is still inside the packet, and if the
-- result is not negative it has moved on and the header pointer is the old cursor.
pub fixed_headers-Bounded :
    (p : Packet) (c : ℕ)
    → c ≤ length p
    → Bounded p c (parse_ip6hdr p c)
      × Bounded p c (parse_icmp6hdr p c)
      × Bounded p c (parse_icmphdr_common p c)
unfolding parse_ip6hdr parse_icmp6hdr parse_icmphdr_common
fixed_headers-Bounded p c h = (ground arith, ground arith, ground arith)
