-- ===== src/Tests/Packets.antt =====
-- Packets as bytes: an Ethernet header, an IPv4 header without options, and a transport header.
use anti_dos.Base.{ℕ, [], ◌∷◌, ◌++◌, false, replicate}
use anti_dos.Packet.{Packet}
use anti_dos.Filter.Stats.{Kern}

abbrev pub ethernet : Packet
ethernet = replicate 12 0xaa ++ (0x08 ∷ 0x00 ∷ [])

-- 20 bytes, total length 60, fragment field `hi lo`, protocol `proto`, from 10.0.0.1 to 10.0.0.2.
abbrev pub ipv4 : ℕ → ℕ → ℕ → Packet
ipv4 hi lo proto =
    0x45 ∷ 0 ∷ 0 ∷ 60 ∷ 0 ∷ 0 ∷ hi ∷ lo ∷ 64 ∷ proto ∷ 0 ∷ 0 ∷ 10 ∷ 0 ∷ 0 ∷ 1 ∷ 10 ∷ 0 ∷ 0 ∷ 2 ∷ []

-- Port 4660 to port 80, 20 bytes, with the given flags.
abbrev pub tcp : ℕ → Packet
tcp flags =
    0x12 ∷ 0x34 ∷ 0 ∷ 80 ∷ 0 ∷ 0 ∷ 0 ∷ 7 ∷ 0 ∷ 0 ∷ 0 ∷ 0 ∷ 0x50 ∷ flags ∷ 1 ∷ 0 ∷ 0 ∷ 0 ∷ 0 ∷ 0 ∷ []

abbrev pub syn_packet : Packet
syn_packet = ethernet ++ (ipv4 0x40 0 6 ++ tcp 2)

-- More fragments follow.
abbrev pub syn_fragment : Packet
syn_fragment = ethernet ++ (ipv4 0x20 0 6 ++ tcp 2)

-- It ends four bytes behind the IP header.
abbrev pub short_icmp : Packet
short_icmp = ethernet ++ (ipv4 0 0 1 ++ (8 ∷ 0 ∷ 0 ∷ 0 ∷ []))

abbrev pub fresh : Kern
fresh = record {
  white_list = λ _. false;
  black_list = λ _. false;
  stats = replicate 5 (record { rx_packets = 0; rx_bytes = 0 });
  events = [];
  trace = [];
}
