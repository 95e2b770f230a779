-- ===== src/Filter/Parse/Fits.antt =====
-- main/common/parsing.h: when a header is accepted, and where its parser leaves the cursor.
use anti_dos.Base.{
  ℕ, ◌+◌, ◌-◌, ◌*◌, ◌/◌, ◌%◌, ◌<◌, ◌≡◌, Bool, ◌&&◌, some, negsuc, All-get_or, arith, length, leb,
  if◌then◌else◌,
}
use anti_dos.Packet.{Packet, IsBytes, byte, be16, le16, htons}
use anti_dos.Filter.Parse.{
  rejected, accepted, parse_ethhdr, parse_iphdr, parse_icmphdr, parse_udphdr, parse_tcphdr,
}

-- The whole header lies in the packet, options included, and its length field is not too small.
abbrev pub eth_fits : Packet → ℕ → Bool
eth_fits p c = leb (c + 14) (length p)

abbrev pub ip_fits : Packet → ℕ → Bool
ip_fits p c =
    leb (c + 20) (length p) && leb 5 (byte p c % 16) && leb (c + 4 * (byte p c % 16)) (length p)

abbrev pub tcp_fits : Packet → ℕ → Bool
tcp_fits p c =
    leb (c + 20) (length p)
    && leb 5 (byte p (c + 12) / 16)
    && leb (c + 4 * (byte p (c + 12) / 16)) (length p)

abbrev pub udp_fits : Packet → ℕ → Bool
udp_fits p c = leb (c + 8) (length p) && leb 8 (be16 p (c + 4))

pub parse_ethhdr_lem :
    (p : Packet) (c : ℕ)
    → parse_ethhdr p c
      ≡ some (if eth_fits p c then accepted c (c + 14) (le16 p (c + 12)) else rejected c)
unfolding parse_ethhdr
parse_ethhdr_lem p c = ground arith

pub parse_iphdr_lem :
    (p : Packet) (c : ℕ)
    → parse_iphdr p c
      ≡ some (
          if ip_fits p c then accepted c (c + 4 * (byte p c % 16)) (byte p (c + 9)) else rejected c)
unfolding parse_iphdr
parse_iphdr_lem p c = ground arith

pub parse_icmphdr_lem :
    (p : Packet) (c : ℕ)
    → parse_icmphdr p c
      ≡ some (if leb (c + 8) (length p) then accepted c (c + 8) (byte p c) else rejected c)
unfolding parse_icmphdr
parse_icmphdr_lem p c = ground arith

pub parse_tcphdr_lem :
    (p : Packet) (c : ℕ)
    → parse_tcphdr p c
      ≡ some (
          if tcp_fits p c
          then accepted c (c + 4 * (byte p (c + 12) / 16)) (4 * (byte p (c + 12) / 16))
          else rejected c)
unfolding parse_tcphdr
parse_tcphdr_lem p c = ground arith

pub htons-le16 : (p : Packet) (i : ℕ) → IsBytes p → htons (le16 p i) ≡ be16 p i
unfolding htons
htons-le16 p i h = omega (
  arith,
  All-get_or (λ b. b < 256) p i 0 h (omega arith),
  All-get_or (λ b. b < 256) p (i + 1) 0 h (omega arith),
)

-- With a length field below 8 the cursor and the pointer are stored all the same.
pub parse_udphdr_lem :
    (p : Packet) (c : ℕ)
    → IsBytes p
    → parse_udphdr p c
      ≡ some (
          if leb (c + 8) (length p)
          then if leb 8 (be16 p (c + 4))
            then accepted c (c + 8) (be16 p (c + 4) - 8)
            else record { cursor = c + 8; hdr = some c; ret = negsuc 0 }
          else rejected c)
unfolding parse_udphdr
parse_udphdr_lem p c h = ground (arith, htons-le16 p (c + 4) h)
