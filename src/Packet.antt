-- ===== src/Packet.antt =====
-- Packet memory as the XDP program sees it: the bytes between `ctx->data` and `ctx->data_end`, with
-- pointers as offsets from `data`. The header structs are the platform's (linux/if_ether.h, ip.h,
-- tcp.h, udp.h, icmp.h) on a little-endian host, and a read of a struct that is not whole in the
-- packet is a fault. `bpf_htons` is headers/bpf_endian.h.
use anti_dos.Base.{
  ℕ, ◌+◌, ◌*◌, ◌/◌, ◌%◌, ◌<◌, List, Option, none, some, All, length, get_or, leb, if◌then◌else◌,
}

abbrev pub Packet : Type 0
Packet = List ℕ

abbrev pub IsBytes : Packet → Type 0
IsBytes p = All (λ b. b < 256) p

abbrev pub byte : Packet → ℕ → ℕ
byte p i = get_or p i 0

-- A 16 or 32 bit field as a little-endian host loads it, and as the network writes it.
abbrev pub le16 : Packet → ℕ → ℕ
le16 p i = byte p i + 256 * byte p (i + 1)

abbrev pub be16 : Packet → ℕ → ℕ
be16 p i = 256 * byte p i + byte p (i + 1)

abbrev pub le32 : Packet → ℕ → ℕ
le32 p i = le16 p i + 65536 * le16 p (i + 2)

-- `bpf_htons` and `bpf_ntohs` of an argument that is cut to 16 bits.
unfoldable pub htons : ℕ → ℕ
htons x = x % 256 * 256 + x / 256 % 256

-- Access to an object of `size` bytes at `p`.
unfoldable pub deref {ℓ} : {A : Type ℓ} → Packet → ℕ → ℕ → A → Option A
deref pkt p size v = if leb (p + size) (length pkt) then some v else none

pub record Ethhdr : Type 0 where
  pub h_proto : ℕ

pub record Iphdr : Type 0 where
  pub ihl : ℕ
  pub tot_len : ℕ
  pub frag_off : ℕ
  pub protocol : ℕ
  pub saddr : ℕ
  pub daddr : ℕ

pub record Tcphdr : Type 0 where
  pub source : ℕ
  pub dest : ℕ
  pub seq : ℕ
  pub doff : ℕ
  pub syn : ℕ

pub record Udphdr : Type 0 where
  pub source : ℕ
  pub dest : ℕ
  pub len : ℕ

pub record Icmphdr : Type 0 where
  pub kind : ℕ

abbrev pub view_ethhdr : Packet → ℕ → Ethhdr
view_ethhdr p i = record { h_proto = le16 p (i + 12) }

abbrev pub view_iphdr : Packet → ℕ → Iphdr
view_iphdr p i = record {
  ihl = byte p i % 16;
  tot_len = le16 p (i + 2);
  frag_off = le16 p (i + 6);
  protocol = byte p (i + 9);
  saddr = le32 p (i + 12);
  daddr = le32 p (i + 16);
}

abbrev pub view_tcphdr : Packet → ℕ → Tcphdr
view_tcphdr p i = record {
  source = le16 p i;
  dest = le16 p (i + 2);
  seq = le32 p (i + 4);
  doff = byte p (i + 12) / 16;
  syn = byte p (i + 13) / 2 % 2;
}

abbrev pub view_udphdr : Packet → ℕ → Udphdr
view_udphdr p i = record { source = le16 p i; dest = le16 p (i + 2); len = le16 p (i + 4) }

abbrev pub view_icmphdr : Packet → ℕ → Icmphdr
view_icmphdr p i = record { kind = byte p i }
