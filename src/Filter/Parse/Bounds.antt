-- ===== src/Filter/Parse/Bounds.antt =====
-- main/common/parsing.h: the cursor never leaves the packet, whatever its bytes are.
use anti_dos.Base.{ℕ, ◌≤◌, ◌<◌, ◌≡◌, false, Option, none, some, is_neg, arith, length}
use anti_dos.Packet.{Packet}
use anti_dos.Filter.Parse.{
  Parsed, parse_ethhdr, parse_iphdr, parse_icmphdr, parse_udphdr, parse_tcphdr,
}

pub record Moves (p : Packet) (c : ℕ) (r : Parsed) : Type 0 where
  pub forward : c ≤ r.cursor
  pub inside : r.cursor ≤ length p
  pub header : is_neg r.ret ≡ false → (r.hdr ≡ some c) × (c < r.cursor)

-- The parser returns, with no fault, and moves as stated.
abbrev pub Bounded : Packet → ℕ → Option Parsed → Type 0
Bounded p c none = ⊥
Bounded p c (some r) = Moves p c r

module _ (p : Packet) (c : ℕ) (h : c ≤ length p) where
  ethhdr-Bounded : Bounded p c (parse_ethhdr p c)
  unfolding parse_ethhdr
  ethhdr-Bounded = ground arith

  iphdr-Bounded : Bounded p c (parse_iphdr p c)
  unfolding parse_iphdr
  iphdr-Bounded = ground arith

  icmphdr-Bounded : Bounded p c (parse_icmphdr p c)
  unfolding parse_icmphdr
  icmphdr-Bounded = ground arith

  udphdr-Bounded : Bounded p c (parse_udphdr p c)
  unfolding parse_udphdr
  udphdr-Bounded = ground arith

  tcphdr-Bounded : Bounded p c (parse_tcphdr p c)
  unfolding parse_tcphdr
  tcphdr-Bounded = ground arith

-- From a cursor inside the packet each of the five parsers returns without a fault, on every byte
-- content. Its cursor has not moved back and is still inside the packet, and if the result is not
-- negative it has moved on and the header pointer is the old cursor.
pub parsers-Bounded :
    (p : Packet) (c : ℕ)
    → c ≤ length p
    → Bounded p c (parse_ethhdr p c)
      × Bounded p c (parse_iphdr p c)
      × Bounded p c (parse_icmphdr p c)
      × Bounded p c (parse_udphdr p c)
      × Bounded p c (parse_tcphdr p c)
parsers-Bounded p c h = (
  ethhdr-Bounded p c h,
  iphdr-Bounded p c h,
  icmphdr-Bounded p c h,
  udphdr-Bounded p c h,
  tcphdr-Bounded p c h,
)
