-- ===== src/Filter/Prog/Decides.antt =====
-- main/xdp_prog_kern.c: the whole program decides and counts as Filter/Spec.antt says.
use anti_dos.Base.{
  ℕ, ◌<◌, ◌≡◌, true, false, not, [], ◌∷◌, Option, some, arith, length, ◌==◌, if◌then◌else◌,
  All-get_or, Bool-cases, inl, inr,
}
use anti_dos.Packet.{Packet, IsBytes, byte, le16, le32, view_iphdr}
use anti_dos.Filter.Parse.Fits.{eth_fits, ip_fits, parse_ethhdr_lem, parse_iphdr_lem}
use anti_dos.Filter.Rules.{white_listed, black_listed}
use anti_dos.Filter.Stats.{no_meta, Kern}
use anti_dos.Filter.Spec.{
  white, black, verdict, l4_verdict, source, l4_at, is_ipv4, reported, event_of,
}
use anti_dos.Filter.Prog.{out, traced, packet_rec, transport, ipv4_case, xdp_parser_func}
use anti_dos.Filter.Prog.Effects.{HasSlots, Decides, out-drop, out-pass}
use anti_dos.Filter.Prog.Transport.{transport-Decides}

module _ (p : Packet) (bytes : IsBytes p) (k : Kern) (slots : HasSlots k) where
  listed : Kern → Option (ℕ × Kern) → Option (ℕ × Kern)
  listed k0 rest =
      if k0.white_list (source p)
      then some (2, traced (white_listed (source p) (le32 p 30) ∷ []) k0)
      else if k0.black_list (source p)
      then some (1, traced (black_listed (source p) (le32 p 30) ∷ []) k0)
      else rest

  ipv4_case-eq :
      ip_fits p 14 ≡ true
      → ipv4_case p 14 8 k
        ≡ listed k (
            transport p
              (l4_at p)
              (byte p 23)
              8
              (view_iphdr p 14)
              (packet_rec (byte p 23) (view_iphdr p 14))
              k)
  unfolding ipv4_case listed
  ipv4_case-eq fits = ground (arith, parse_iphdr_lem p 14)

  listed-Decides :
      (rest : Option (ℕ × Kern))
      → Decides (l4_verdict p) (length p) (reported p) k rest
      → Decides
          (if k.white_list (source p)
            then white
            else if k.black_list (source p)
            then black
            else l4_verdict p)
          (length p)
          (reported p)
          k
          (listed k rest)
  unfolding listed
  listed-Decides rest d = elim (Bool-cases (k.white_list (source p))) [
    | inl w ↦ rw w (ground arith)
    | inr w ↦ elim (Bool-cases (k.black_list (source p))) [
      | inl b ↦ rw (w, b) (ground arith)
      | inr b ↦ rw (w, b) d
    ]
  ]

  ipv4_case_short : ip_fits p 14 ≡ false → ipv4_case p 14 8 k ≡ out p 1 no_meta k
  unfolding ipv4_case
  ipv4_case_short short = ground (arith, parse_iphdr_lem p 14)

  ipv4-Decides :
      is_ipv4 p ≡ true
      → eth_fits p 0 ≡ true
      → Decides (verdict k.white_list k.black_list p) (length p) (event_of p) k (ipv4_case p 14 8 k)
  unfolding verdict event_of
  ipv4-Decides v4 whole = elim (Bool-cases (ip_fits p 14)) [
    | inl fits ↦
        rw (v4, whole, fits, ipv4_case-eq fits)
          (listed-Decides _ (transport-Decides p bytes k slots))
    | inr short ↦ rw (v4, whole, short, ipv4_case_short short) (out-drop p (reported p) k slots)
  ]

  -- `h_proto` as the host loads it is 8 exactly when the packet says 0x0800.
  ipv4_test : (le16 p 12 == 8) ≡ is_ipv4 p
  ipv4_test = ground (
    arith,
    All-get_or (λ b. b < 256) p 12 0 bytes (omega arith),
    All-get_or (λ b. b < 256) p 13 0 bytes (omega arith),
  )

  parser_eq : xdp_parser_func p k ≡ (
      if not (eth_fits p 0)
      then out p 1 no_meta k
      else if is_ipv4 p
      then ipv4_case p 14 8 k
      else out p 2 no_meta k)
  unfolding xdp_parser_func
  parser_eq = ground (arith, parse_ethhdr_lem p 0, ipv4_test)

  -- On every packet of bytes and every state of the maps with the five counters or more the program
  -- ends without a fault, and its action, the counters, the events and the lists afterwards are
  -- those of the verdict.
  pub xdp_parser_func-Decides :
      Decides (verdict k.white_list k.black_list p) (length p) (event_of p) k (xdp_parser_func p k)
  unfolding verdict event_of
  xdp_parser_func-Decides = elim (Bool-cases (eth_fits p 0)) [
    | inr short ↦ rw (parser_eq, short) (out-drop p (event_of p) k slots)
    | inl whole ↦ elim (Bool-cases (is_ipv4 p)) [
      | inr other ↦ rw (parser_eq, whole, other) (out-pass p no_meta k slots)
      | inl v4 ↦ rw (parser_eq, whole, v4) (rw (v4, whole) at (ipv4-Decides v4 whole))
    ]
  ]
