-- ===== src/Filter/Prog/Icmp.antt =====
-- main/xdp_prog_kern.c, `case IPPROTO_ICMP`: the result of `parse_icmphdr` is not looked at.
use anti_dos.Base.{ℕ, ◌≤◌, ◌<◌, ◌≡◌, true, [], ◌∷◌, ◌++◌, Option, none, some, arith, length}
use anti_dos.Packet.{Packet, IsBytes, byte}
use anti_dos.Filter.Stats.{Kern, Event}
use anti_dos.Filter.Spec.{pass, verdict, event_of, reported, is_ipv4}
use anti_dos.Filter.Prog.{xdp_parser_func}
use anti_dos.Filter.Prog.Effects.{HasSlots, Decides}
use anti_dos.Filter.Prog.Decides.{xdp_parser_func-Decides}

-- The event that a call appends reports at least `n` bytes of payload.
abbrev pub Reports : ℕ → Kern → Option (ℕ × Kern) → Type 0
Reports n k none = ⊥
Reports n k (some (action, k')) =
    (action ≡ 2) × ((e : Event) × (k'.events ≡ k.events ++ (e ∷ [])) × (n ≤ e.meta.data_len))

short_len :
    (p : Packet)
    → is_ipv4 p ≡ true
    → byte p 23 ≡ 1
    → 34 ≤ length p
    → length p < 42
    → 65528 ≤ (event_of p).data_len
unfolding event_of reported
short_len p v4 icmp lo hi = ground arith

reports :
    (p : Packet) (k : Kern) (o : Option (ℕ × Kern))
    → 65528 ≤ (event_of p).data_len
    → Decides pass (length p) (event_of p) k o
    → Reports 65528 k o
reports p k none long d = absurd d
reports p k (some (action, k')) long d =
    (d.action_is, (record { copied = (event_of p).pkt_len; meta = event_of p }, d.events_is, long))

-- A passed ICMP packet of fewer than 42 bytes that ends inside its ICMP header is reported with a
-- payload of 65528 bytes or more: the subtraction of the header sizes goes below zero and is cut to
-- 16 bits.
pub short_icmp_wraps :
    (p : Packet) (k : Kern)
    → IsBytes p
    → HasSlots k
    → verdict k.white_list k.black_list p ≡ pass
    → is_ipv4 p ≡ true
    → byte p 23 ≡ 1
    → 34 ≤ length p
    → length p < 42
    → Reports 65528 k (xdp_parser_func p k)
short_icmp_wraps p k bytes slots passed v4 icmp lo hi =
    reports p k (xdp_parser_func p k) (short_len p v4 icmp lo hi)
      (rw passed at (xdp_parser_func-Decides p bytes k slots))
