-- ===== src/Filter/Rules/Masks.antt =====
-- main/common/check_rules.h: the masks on the 16-bit fields as tests on the network's numbers.
use anti_dos.Base.{
  ℕ, ◌+◌, ◌%◌, ◌<◌, ◌≡◌, not, ◌&&◌, arith, ◌==◌, bit_and_fragment, bit_and_bit, ap, ltb, All-get_or,
}
use anti_dos.Packet.{Packet, IsBytes, byte, be16, le16}
use anti_dos.Filter.Parse.Fits.{htons-le16}
use anti_dos.Filter.Rules.{icmp_fragment, icmp_large_packet, tcp_fragment}

pub fragment_test :
    (p : Packet) (i : ℕ) → IsBytes p → icmp_fragment (le16 p i) ≡ not (be16 p i % 0x4000 == 0)
unfolding icmp_fragment
fragment_test p i h = ap not (
    bit_and_fragment (byte p i) (byte p (i + 1)) (All-get_or (λ b. b < 256) p i 0 h (omega arith))
      (All-get_or (λ b. b < 256) p (i + 1) 0 h (omega arith)))

pub syn_fragment_test :
    (p : Packet) (i b : ℕ)
    → IsBytes p
    → tcp_fragment (le16 p i) (b % 2) ≡ not (be16 p i % 0x4000 == 0) && not (b % 2 == 0)
unfolding tcp_fragment icmp_fragment
syn_fragment_test p i b h = ground (arith, fragment_test p i h, bit_and_bit (b % 2) (omega arith))

pub large_test :
    (p : Packet) (i : ℕ) → IsBytes p → icmp_large_packet (le16 p i) ≡ ltb 1024 (be16 p i)
unfolding icmp_large_packet
large_test p i h = ground (arith, htons-le16 p i h)
