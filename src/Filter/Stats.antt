-- ===== src/Filter/Stats.antt =====
-- main/common/xdp_stats_kern.h, xdp_stats_kern_user.h and `struct pkt_meta`: the per-action counters
-- of the running CPU, and the event that user space is sent for a passed packet.
pub mod Plain
use anti_dos.Base.{
  ℕ, Bool, ◌+◌, ◌%◌, ◌^◌, List, [], ◌++◌, ◌∷◌, none, some, get_elem?, set, ◌==◌, leb, if◌then◌else◌,
}
use anti_dos.Filter.Rules.{Trace}

pub record Datarec : Type 0 where
  pub rx_packets : ℕ
  pub rx_bytes : ℕ

pub record PktMeta : Type 0 where
  pub src : ℕ
  pub dst : ℕ
  pub port0 : ℕ
  pub port1 : ℕ
  pub l3_proto : ℕ
  pub l4_proto : ℕ
  pub data_len : ℕ
  pub pkt_len : ℕ
  pub seq : ℕ

-- `struct pkt_meta pkt_meta = {}`.
abbrev pub no_meta : PktMeta
no_meta = record {
  src = 0;
  dst = 0;
  port0 = 0;
  port1 = 0;
  l3_proto = 0;
  l4_proto = 0;
  data_len = 0;
  pkt_len = 0;
  seq = 0;
}

-- A perf event: how many bytes of the packet go with it, and the record.
pub record Event : Type 0 where
  pub copied : ℕ
  pub meta : PktMeta

-- What the program can reach: the two lists (whether a key is there), the counters of the running
-- CPU with one slot for each key of the array map, the events and the trace written, oldest first.
pub record Kern : Type 0 where
  pub white_list : ℕ → Bool
  pub black_list : ℕ → Bool
  pub stats : List Datarec
  pub events : List Event
  pub trace : List Trace

abbrev pub xdp_aborted : ℕ
xdp_aborted = 0

abbrev pub xdp_drop : ℕ
xdp_drop = 1

abbrev pub xdp_pass : ℕ
xdp_pass = 2

abbrev pub xdp_action_max : ℕ
xdp_action_max = 5

-- `rx_packets++` and `rx_bytes += len` on 64-bit counters.
unfoldable pub bump : ℕ → Datarec → Datarec
bump len rec = record {
  rx_packets = (rec.rx_packets + 1) % 2 ^ 64;
  rx_bytes = (rec.rx_bytes + len) % 2 ^ 64;
}

-- Only what passes is reported.
unfoldable pub report : ℕ → PktMeta → List Event → List Event
report action pkt events =
    if action == xdp_pass
    then events ++ (record { copied = pkt.pkt_len; meta = pkt } ∷ [])
    else events

-- `len` is `ctx->data_end - ctx->data`.
unfoldable pub xdp_stats_record_action : ℕ → ℕ → PktMeta → Kern → ℕ × Kern
unfolding bump report
xdp_stats_record_action len action pkt k =
    if leb xdp_action_max action then (xdp_aborted, k) else elim (get_elem? k.stats action) [
      | none ↦ (xdp_aborted, k)
      | some rec ↦ (
        action,
        record k { stats = set k.stats action (bump len rec); events = report action pkt k.events },
      )
    ]
