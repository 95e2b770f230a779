-- ===== src/Filter/Stats/Plain.antt =====
-- common/xdp_stats_kern.h: the version that counts and writes no event.
use anti_dos.Base.{
  ℕ, ◌≡◌, inl, inr, List, none, some, Option-cases, get_elem?, set, leb, if◌then◌else◌, arith,
}
use anti_dos.Filter.Stats.{
  Datarec, PktMeta, Kern, xdp_aborted, xdp_action_max, bump, xdp_stats_record_action,
}

-- `len` is `ctx->data_end - ctx->data`.
unfoldable pub record_action : ℕ → ℕ → List Datarec → ℕ × List Datarec
unfolding bump
record_action len action stats =
    if leb xdp_action_max action then (xdp_aborted, stats) else elim (get_elem? stats action) [
      | none ↦ (xdp_aborted, stats)
      | some rec ↦ (action, set stats action (bump len rec))
    ]

-- It returns what the version of main/common returns, and leaves the same counters.
record_action-xdp_stats_record_action :
    (len action : ℕ) (pkt : PktMeta) (k : Kern)
    → let r = xdp_stats_record_action len action pkt k in
      ((record_action len action k.stats).0 ≡ r.0)
      × ((record_action len action k.stats).1 ≡ r.1.stats)
unfolding record_action xdp_stats_record_action
record_action-xdp_stats_record_action len action pkt k =
    elim (Option-cases (get_elem? k.stats action)) [
      | inl missing ↦ ground (arith, missing)
      | inr (rec, found) ↦ ground (arith, found)
    ]
