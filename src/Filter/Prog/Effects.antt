-- ===== src/Filter/Prog/Effects.antt =====
-- main/xdp_prog_kern.c: what a verdict of Filter/Spec.antt does to the counters, the events and the
-- lists, and the label `out`.
use anti_dos.Base.{
  ℕ, ◌≤◌, ◌≡◌, List, [], ◌∷◌, ◌++◌, Option, none, some, arith, length, get_elem?, get_elem?-some,
  set,
}
use anti_dos.Packet.{Packet}
use anti_dos.Filter.Stats.{Event, no_meta, Kern, Datarec, PktMeta, bump, xdp_stats_record_action}
use anti_dos.Filter.Spec.{Verdict, white, black, drop, pass, action_of}
use anti_dos.Filter.Prog.{out}

-- The array map of counters has a slot for each action.
abbrev pub HasSlots : Kern → Type 0
HasSlots k = 5 ≤ length k.stats

-- One packet of `len` bytes is counted under `action`, and under no other.
abbrev pub count : ℕ → ℕ → List Datarec → List Datarec
count action len stats = elim (get_elem? stats action) [
  | none ↦ stats
  | some rec ↦ set stats action (bump len rec)
]

-- A packet that a list decides is not counted.
abbrev pub stats_after : Verdict → ℕ → List Datarec → List Datarec
stats_after white len stats = stats
stats_after black len stats = stats
stats_after drop len stats = count 1 len stats
stats_after pass len stats = count 2 len stats

-- An event is written for a passed packet, and for no other.
abbrev pub events_after : Verdict → PktMeta → List Event → List Event
events_after white m events = events
events_after black m events = events
events_after drop m events = events
events_after pass m events = events ++ (record { copied = m.pkt_len; meta = m } ∷ [])

pub record Decided (v : Verdict) (len : ℕ) (m : PktMeta) (k : Kern) (action : ℕ) (k' : Kern)
    : Type 0 where
  pub action_is : action ≡ action_of v
  pub stats_is : k'.stats ≡ stats_after v len k.stats
  pub events_is : k'.events ≡ events_after v m k.events
  pub white_same : k'.white_list ≡ k.white_list
  pub black_same : k'.black_list ≡ k.black_list

-- The call returns, with no fault, as the verdict says.
abbrev pub Decides : Verdict → ℕ → PktMeta → Kern → Option (ℕ × Kern) → Type 0
Decides v len m k none = ⊥
Decides v len m k (some (action, k')) = Decided v len m k action k'

module _ (p : Packet) (m : PktMeta) (k : Kern) (slots : HasSlots k) where
  pub out-drop : Decides drop (length p) m k (out p 1 no_meta k)
  unfolding out xdp_stats_record_action
  out-drop = ground (arith, get_elem?-some k.stats 1 (omega arith))

  pub out-pass : Decides pass (length p) m k (out p 2 m k)
  unfolding out xdp_stats_record_action
  out-pass = ground (arith, get_elem?-some k.stats 2 (omega arith))
