-- ===== src/Vlan/Rewrite/RoundTrip.antt =====
-- common/rewrite_helpers.h: a tag that is put on comes off again.
use anti_dos.Base.{
  ℕ, ◌/◌, ◌%◌, ◌^◌, ◌<◌, ◌≤◌, ◌≡◌, ◌⊎◌, false, none, refl, ◌∷◌, Option, some, ℤ, pos, negsuc,
  length, drop, arith,
}
use anti_dos.Packet.{Packet, htons, le16}
use anti_dos.Vlan.{proto_is_vlan}
use anti_dos.Vlan.Rewrite.{vlan_tag_pop, put_tag, vlan_tag_push, swap_src_dst_mac}

-- A frame: two addresses, the type, and what follows.
pub record Frame : Type 0 where
  pub a0 : ℕ
  pub a1 : ℕ
  pub a2 : ℕ
  pub a3 : ℕ
  pub a4 : ℕ
  pub a5 : ℕ
  pub b0 : ℕ
  pub b1 : ℕ
  pub b2 : ℕ
  pub b3 : ℕ
  pub b4 : ℕ
  pub b5 : ℕ
  pub t0 : ℕ
  pub t1 : ℕ
  pub rest : Packet

abbrev pub bytes_of : Frame → Packet
bytes_of f =
    f.a0 ∷ f.a1 ∷ f.a2 ∷ f.a3 ∷ f.a4 ∷ f.a5 ∷ f.b0 ∷ f.b1 ∷ f.b2 ∷ f.b3 ∷ f.b4 ∷ f.b5 ∷ f.t0 ∷ f.t1
    ∷ f.rest

-- The frame with the tag `vlid`.
abbrev pub tagged : Frame → ℕ → Packet
tagged f vlid =
    f.a0
    ∷ f.a1
    ∷ f.a2
    ∷ f.a3
    ∷ f.a4
    ∷ f.a5
    ∷ f.b0
    ∷ f.b1
    ∷ f.b2
    ∷ f.b3
    ∷ f.b4
    ∷ f.b5
    ∷ 0x81
    ∷ 0x00
    ∷ (vlid / 256 % 256)
    ∷ (vlid % 256)
    ∷ f.t0
    ∷ f.t1
    ∷ f.rest

module _ (adjust_head : ℤ → Packet → Option Packet) (f : Frame) (vlid : ℕ) (g0 g1 g2 g3 : ℕ)
    (grows : adjust_head (negsuc 3) (bytes_of f) ≡ some (g0 ∷ g1 ∷ g2 ∷ g3 ∷ bytes_of f))
    (t0_byte : f.t0 < 256) (t1_byte : f.t1 < 256) where
  push_tagged : vlan_tag_push adjust_head (bytes_of f) 0 vlid ≡ some (pos 0, tagged f vlid)
  unfolding vlan_tag_push put_tag htons
  push_tagged = ground (arith, grows)

  pop_tagged :
      vlid < 2 ^ 16
      → adjust_head (pos 4) (tagged f vlid) ≡ some (drop 4 (tagged f vlid))
      → vlan_tag_pop adjust_head (tagged f vlid) 0 ≡ some (pos vlid, bytes_of f)
  unfolding vlan_tag_pop
  pop_tagged small shrinks = ground (arith, shrinks)

  -- Where the kernel makes room for a tag in front of a frame and takes four bytes off the tagged
  -- one, `vlan_tag_push` puts the tag between the addresses and the type, and `vlan_tag_pop` then
  -- returns the tag and gives the frame back as it was.
  pub vlan_tag_pop-vlan_tag_push :
      vlid < 2 ^ 16
      → adjust_head (pos 4) (tagged f vlid) ≡ some (drop 4 (tagged f vlid))
      → (vlan_tag_push adjust_head (bytes_of f) 0 vlid ≡ some (pos 0, tagged f vlid))
        × (vlan_tag_pop adjust_head (tagged f vlid) 0 ≡ some (pos vlid, bytes_of f))
  vlan_tag_pop-vlan_tag_push small shrinks = (push_tagged, pop_tagged small shrinks)

-- `vlan_tag_pop` leaves a frame alone that has no tag, or whose tag is cut off, and returns -1; and
-- so does `vlan_tag_push` when the kernel makes no room.
pub tags_refused :
    (adjust_head : ℤ → Packet → Option Packet) (p : Packet) (vlid : ℕ)
    → 14 ≤ length p
    → ((proto_is_vlan (le16 p 12) ≡ false) ⊎ (length p < 18)
        → vlan_tag_pop adjust_head p 0 ≡ some (negsuc 0, p))
      × (adjust_head (negsuc 3) p ≡ none → vlan_tag_push adjust_head p 0 vlid ≡ some (negsuc 0, p))
unfolding vlan_tag_pop vlan_tag_push
tags_refused adjust_head p vlid h = (λ c. ground arith, λ e. ground (arith, e))

-- Swapping the MAC addresses of a frame exchanges its first two fields, and twice is nothing.
swap_src_dst_mac_lem :
    (f : Frame)
    → (swap_src_dst_mac (bytes_of f) 0
        ≡ f.b0 ∷ f.b1 ∷ f.b2 ∷ f.b3 ∷ f.b4 ∷ f.b5 ∷ f.a0 ∷ f.a1 ∷ f.a2 ∷ f.a3 ∷ f.a4 ∷ f.a5 ∷ f.t0
          ∷ f.t1 ∷ f.rest)
      × (swap_src_dst_mac (swap_src_dst_mac (bytes_of f) 0) 0 ≡ bytes_of f)
unfolding swap_src_dst_mac
swap_src_dst_mac_lem f = (refl, refl)
