-- ===== src/Host/Gathered.antt =====
-- The host within a second: what the program writes and what the rounds of main/start_policy.c read.
use anti_dos.Base.{
  ℕ, ◌+◌, ◌≤◌, ◌≡◌, ◌≢◌, refl, sym, ap, ◌∙◌, Bool, List, [], ◌∷◌, ◌++◌, Option, some, length,
  length-append, map, arith,
}
use mathlib.Core.List.{append_assoc, append-nil, map-append}
use anti_dos.Packet.{Packet}
use anti_dos.Filter.Stats.{Kern, Event, PktMeta}
use anti_dos.Filter.Spec.{Verdict, white, black, drop, pass, verdict, event_of}
use anti_dos.Filter.Prog.Effects.{HasSlots, events_after, Decided}
use anti_dos.Filter.Prog.Runs.{Decided-HasSlots}
use anti_dos.Maps.Kernel.{Sys, Text}
use anti_dos.Policy.{Guard, World, queue_size}
use anti_dos.Policy.BlackList.{ServesBlackList}
use anti_dos.Policy.Poll.{Round}
use anti_dos.Policy.Poll.Whole.{arrived, AllRead, gather}
use anti_dos.Host.{Host, Happened, packet, round, seen, Run, step, done, arrives, polls}
use anti_dos.Host.Drops.{Decided-of}

-- What the program is to report of a packet.
abbrev reported_of : Verdict → PktMeta → List PktMeta
reported_of white m = []
reported_of black m = []
reported_of drop m = []
reported_of pass m = m ∷ []

-- The records of the packets that pass, for fixed lists.
unfoldable pub reports : (ℕ → Bool) → (ℕ → Bool) → List Happened → List PktMeta
reports w b [] = []
reports w b (packet p action ∷ xs) = reported_of (verdict w b p) (event_of p) ++ reports w b xs
reports w b (round r ∷ xs) = reports w b xs

-- What the rounds read.
unfoldable pub read_by : List Happened → List PktMeta
read_by [] = []
read_by (packet p action ∷ xs) = read_by xs
read_by (round r ∷ xs) = arrived r.cpus ++ read_by xs

-- The rounds come in the second `t`, and read the buffers of at most 128 CPUs to the end.
abbrev pub InSecond : ℕ → List Happened → Type 0
InSecond t [] = Unit
InSecond t (packet p action ∷ xs) = InSecond t xs
InSecond t (round r ∷ xs) = ((r.now ≡ t) × AllRead r.cpus) × InSecond t xs

-- The records of the events.
abbrev pub metas : List Event → List PktMeta
metas events = map (λ (e : Event). e.meta) events

metas-events_after :
    (v : Verdict) (m : PktMeta) (events : List Event)
    → metas (events_after v m events) ≡ metas events ++ reported_of v m
metas-events_after white m events = sym (append-nil (metas events))
metas-events_after black m events = sym (append-nil (metas events))
metas-events_after drop m events = sym (append-nil (metas events))
metas-events_after pass m events =
    map-append (λ (e : Event). e.meta) events (record { copied = m.pkt_len; meta = m } ∷ [])

same_pair :
    {A B : Type 0} {o : Option (A × B)} {a a' : A} {b b' : B}
    → o ≡ some (a, b)
    → o ≡ some (a', b')
    → (a ≡ a') × (b ≡ b')
same_pair {A} {B} {o} {a} {a'} {b} {b'} e f =
    let same : ◌≡◌ {A = Option (A × B)} (some (a, b)) (some (a', b')) = sym e ∙ f in
    let pair : ◌≡◌ {A = A × B} (a, b) (a', b') = cc in (ap (λ s. s.0) pair, ap (λ s. s.1) pair)

module _ (sys : Sys) (dir : Text) (serves : ServesBlackList sys dir) where
  open serves use {holds}

  -- A run within a second: the queue takes what is read, and the events what is to be reported.
  pub record Gathered (xs : List Happened) (h h' : Host sys) : Type 0 where
    pub guard_is :
        (e : ℕ) × (h'.guard
          ≡ record (h.guard) { time_end = e; queue = h.guard.queue ++ read_by xs })
    pub world_same : h'.world ≡ h.world
    pub slots : HasSlots h'.kern
    pub white_same : h'.kern.white_list ≡ h.kern.white_list
    pub events_are :
        metas h'.kern.events
        ≡ metas h.kern.events ++ reports h.kern.white_list (holds h.world.store) xs

  packet-Gathered :
      {h' : Host sys} {xs : List Happened} (h : Host sys) (p : Packet) (action : ℕ) (k : Kern)
      → Decided
          (verdict h.kern.white_list (holds h.world.store) p)
          (length p)
          (event_of p)
          (seen sys dir serves h)
          action
          k
      → Gathered xs (record h { kern = k }) h'
      → Gathered (packet p action ∷ xs) h h'
  unfolding reports read_by
  packet-Gathered {xs = xs} h p action k d g =
      let v = verdict h.kern.white_list (holds h.world.store) p in
      let old = metas h.kern.events in
      let new = reported_of v (event_of p) in
      let rest = reports h.kern.white_list (holds h.world.store) xs in
      let here : metas k.events ≡ old ++ new =
        ap metas d.events_is ∙ metas-events_after v (event_of p) h.kern.events in
      record {
        guard_is = g.guard_is;
        world_same = g.world_same;
        slots = g.slots;
        white_same = g.white_same ∙ d.white_same;
        events_are = g.events_are ∙ rw (here, d.white_same) (append_assoc old new rest);
      }

  round-Gathered :
      {h' : Host sys} {xs : List Happened} (h : Host sys) (r : Round) (g : Guard) (w : World sys)
      → g ≡ record (h.guard) { time_end = r.now; queue = h.guard.queue ++ arrived r.cpus }
      → w ≡ h.world
      → Gathered xs (record h { guard = g; world = w }) h'
      → Gathered (round r ∷ xs) h h'
  unfolding reports read_by
  round-Gathered {xs = xs} h r g w guard_is world_is k =
      let (e, eq) = k.guard_is in
      record {
        guard_is = (
          e,
          eq
              ∙ ap (λ (x : Guard). record x { time_end = e; queue = x.queue ++ read_by xs })
                  guard_is
              ∙ ap (λ queue. record (h.guard) { time_end = e; queue = queue })
                  (append_assoc h.guard.queue (arrived r.cpus) (read_by xs)),
        );
        world_same = k.world_same ∙ world_is;
        slots = k.slots;
        white_same = k.white_same;
        events_are =
            k.events_are
            ∙ ap
                (λ (x : World sys).
                  metas h.kern.events ++ reports h.kern.white_list (holds x.store) xs)
                world_is;
      }

  done-Gathered : (h : Host sys) → HasSlots h.kern → Gathered [] h h
  unfolding reports read_by
  done-Gathered h slots = record {
    guard_is = (h.guard.time_end, ground (arith, append-nil h.guard.queue));
    world_same = refl;
    slots = slots;
    white_same = refl;
    events_are = sym (append-nil (metas h.kern.events));
  }

  pub Run-Gathered :
      {h h' : Host sys} {xs : List Happened} (t : ℕ)
      → Run sys dir serves h xs h'
      → t ≢ 0
      → h.guard.time_start ≡ t
      → h.guard.prev_time ≡ t
      → InSecond t xs
      → length h.guard.queue + length (read_by xs) ≤ queue_size
      → HasSlots h.kern
      → Gathered xs h h'
  unfolding read_by
  Run-Gathered {h} t done z start swept within room slots = done-Gathered h slots
  Run-Gathered {h} t (step (arrives p action k bytes e) rest) z start swept within room slots =
      let d = Decided-of p bytes (seen sys dir serves h) slots action k e in
      packet-Gathered h p action k d
        (Run-Gathered t rest z start swept within room (Decided-HasSlots d slots))
  Run-Gathered {h} t (step {xs = ys} (polls r g w sent e) rest) z start swept ((now, read), within)
        room slots =
      let ms = arrived r.cpus in
      let len = length-append ms (read_by ys) in
      let room' : length (h.guard.queue ++ ms) + length (read_by ys) ≤ queue_size =
        omega (arith, len, length-append h.guard.queue ms) in
      let (guard_is, world_is) =
        same_pair e
          (gather sys dir t r h.guard h.world z start swept now read (omega (arith, len))) in
      round-Gathered h r g w guard_is world_is (
        Run-Gathered t rest z (ap (λ (x : Guard). x.time_start) guard_is ∙ start)
          (ap (λ (x : Guard). x.prev_time) guard_is ∙ swept) within (rw guard_is room') slots)
