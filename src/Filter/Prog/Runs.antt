-- ===== src/Filter/Prog/Runs.antt =====
-- main/xdp_prog_kern.c over a sequence of packets on one CPU: the counters add up.
use anti_dos.Base.{
  ℕ, ◌+◌, ◌%◌, ◌^◌, ◌≤◌, ◌<◌, ◌≡◌, ◌≢◌, refl, sym, ap, Bool, false, List, [], ◌∷◌, Option, none,
  some, arith, length, All, get_elem?, get_elem?-some, get_elem?-set_self, get_elem?-set_ne,
  length-set, set, ◌==◌, if◌then◌else◌, ◌>>=◌,
}
use native.Mathlib.Decide.{ℕ_discrete}
use anti_dos.Packet.{Packet, IsBytes}
use anti_dos.Filter.Stats.{Kern, Datarec, PktMeta, bump}
use anti_dos.Filter.Spec.{Verdict, white, black, drop, pass, verdict, event_of}
use anti_dos.Filter.Prog.{xdp_parser_func}
use anti_dos.Filter.Prog.Effects.{HasSlots, count, stats_after, Decided, Decides}
use anti_dos.Filter.Prog.Decides.{xdp_parser_func-Decides}

-- The hook is run on each packet in turn.
unfoldable pub run : List Packet → Kern → Option Kern
run [] k = some k
run (p ∷ ps) k = do r ← xdp_parser_func p k; run ps r.1

abbrev pub packets_of : ℕ → List Datarec → ℕ
packets_of a stats = elim (get_elem? stats a) [ none ↦ 0 | some r ↦ r.rx_packets ]

abbrev pub bytes_of : ℕ → List Datarec → ℕ
bytes_of a stats = elim (get_elem? stats a) [ none ↦ 0 | some r ↦ r.rx_bytes ]

abbrev pub counts_under : Verdict → ℕ → Bool
counts_under white a = false
counts_under black a = false
counts_under drop a = a == 1
counts_under pass a = a == 2

-- How many packets, and how many bytes, are to be counted under action `a`.
unfoldable pub tally : (ℕ → Bool) → (ℕ → Bool) → ℕ → List Packet → ℕ
tally w b a [] = 0
tally w b a (p ∷ ps) = (if counts_under (verdict w b p) a then 1 else 0) + tally w b a ps

unfoldable pub volume : (ℕ → Bool) → (ℕ → Bool) → ℕ → List Packet → ℕ
volume w b a [] = 0
volume w b a (p ∷ ps) = (if counts_under (verdict w b p) a then length p else 0) + volume w b a ps

-- Slot `a` after one packet of `len` bytes under action `b`.
record Counted (a b len : ℕ) (stats stats' : List Datarec) : Type 0 where
  packets : packets_of a stats' % 2 ^ 64 ≡ (packets_of a stats + (if a == b then 1 else 0)) % 2 ^ 64
  bytes : bytes_of a stats' % 2 ^ 64 ≡ (bytes_of a stats + (if a == b then len else 0)) % 2 ^ 64
  slots : length stats' ≡ length stats

count_self :
    (b len : ℕ) (r : Datarec) (stats : List Datarec)
    → b < length stats
    → get_elem? stats b ≡ some r
    → Counted b b len stats (set stats b (bump len r))
unfolding bump
count_self b len r stats h e =
    ground (arith, get_elem?-set_self stats b (bump len r) h, length-set stats b (bump len r))

count_other :
    (a b : ℕ) {len : ℕ} (r : Datarec) (stats : List Datarec)
    → a ≢ b
    → Counted a b len stats (set stats b r)
count_other a b r stats ne =
    ground (arith, get_elem?-set_ne stats b a r (λ e. ne (sym e)), length-set stats b r)

get_elem?-count :
    (a b len : ℕ) (stats : List Datarec)
    → b < length stats
    → Counted a b len stats (count b len stats)
get_elem?-count a b len stats h = found (get_elem?-some stats b h)
  where
    found : (r : Datarec) × (get_elem? stats b ≡ some r) → Counted a b len stats (count b len stats)
    found (r, e) =
        rw (count, e)
          (elim (ℕ_discrete a b) [
            | yes same ↦ rw same (count_self b len r stats h e)
            | no other ↦ count_other a b (bump len r) stats other
          ])

stats_after_lem :
    (v : Verdict) (a len : ℕ) (stats : List Datarec)
    → 5 ≤ length stats
    → (packets_of a (stats_after v len stats) % 2 ^ 64
        ≡ (packets_of a stats + (if counts_under v a then 1 else 0)) % 2 ^ 64)
      × (bytes_of a (stats_after v len stats) % 2 ^ 64
          ≡ (bytes_of a stats + (if counts_under v a then len else 0)) % 2 ^ 64)
      × (5 ≤ length (stats_after v len stats))
stats_after_lem white a len stats h = omega arith
stats_after_lem black a len stats h = omega arith
stats_after_lem drop a len stats h = omega (arith, get_elem?-count a 1 len stats (omega arith))
stats_after_lem pass a len stats h = omega (arith, get_elem?-count a 2 len stats (omega arith))

-- The state after a run: the slots of every action hold what was there and what was to be counted.
pub record Tallied (a : ℕ) (ps : List Packet) (k k' : Kern) : Type 0 where
  pub packets :
      packets_of a k'.stats % 2 ^ 64
      ≡ (packets_of a k.stats + tally k.white_list k.black_list a ps) % 2 ^ 64
  pub bytes :
      bytes_of a k'.stats % 2 ^ 64
      ≡ (bytes_of a k.stats + volume k.white_list k.black_list a ps) % 2 ^ 64

Tallied-cons :
    (a : ℕ) (p : Packet) (ps : List Packet) (m : PktMeta) (k k1 k' : Kern) (action : ℕ)
    → HasSlots k
    → Decided (verdict k.white_list k.black_list p) (length p) m k action k1
    → Tallied a ps k1 k'
    → Tallied a (p ∷ ps) k k'
unfolding tally volume
Tallied-cons a p ps m k k1 k' action slots d t =
    let v = verdict k.white_list k.black_list p in
    let same : tally k1.white_list k1.black_list a ps ≡ tally k.white_list k.black_list a ps =
      cc (d.white_same, d.black_same) in
    let same' : volume k1.white_list k1.black_list a ps ≡ volume k.white_list k.black_list a ps =
      cc (d.white_same, d.black_same) in
    let here = stats_after_lem v a (length p) k.stats slots in
    omega (arith, same, same', here, ap (packets_of a) d.stats_is, ap (bytes_of a) d.stats_is)

pub Decided-HasSlots :
    {v : Verdict} {len action : ℕ} {m : PktMeta} {k k1 : Kern}
    → Decided v len m k action k1
    → HasSlots k
    → HasSlots k1
Decided-HasSlots {v} {len} {k = k} d slots =
    omega (arith, stats_after_lem v 0 len k.stats slots, ap (length {A = Datarec}) d.stats_is)

pub run_tally :
    (a : ℕ) (ps : List Packet) (k : Kern)
    → All IsBytes ps
    → HasSlots k
    → (k' : Kern) × (run ps k ≡ some k') × Tallied a ps k k'
unfolding run tally volume
run_tally a [] k bytes slots = (k, refl, omega arith)
run_tally a (p ∷ ps) k bytes slots =
    step (xdp_parser_func p k) (xdp_parser_func-Decides p bytes.0 k slots)
      (λ k1 slots1. run_tally a ps k1 bytes.1 slots1)
  where
    step :
        (o : Option (ℕ × Kern))
        → Decides (verdict k.white_list k.black_list p) (length p) (event_of p) k o
        → ((k1 : Kern) → HasSlots k1 → (k' : Kern) × (run ps k1 ≡ some k') × Tallied a ps k1 k')
        → (k' : Kern) × ((o >>= λ r. run ps r.1) ≡ some k') × Tallied a (p ∷ ps) k k'
    step none d rest = absurd d
    step (some (action, k1)) d rest =
        let (k', e, t) = rest k1 (Decided-HasSlots d slots) in
        (k', e, Tallied-cons a p ps (event_of p) k k1 k' action slots d t)
