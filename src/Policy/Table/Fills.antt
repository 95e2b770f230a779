-- ===== src/Policy/Table/Fills.antt =====
-- main/start_policy.c: with one policy the counting loop of `detect_attackers` stays in its table
-- and fills it as Policy/Table/Rows.antt says.
use anti_dos.Base.{
  ℕ, ◌+◌, ◌≤◌, ◌≡◌, refl, sym, List, [], ◌∷◌, ◌++◌, Option, none, some, ◌==◌, ◌>>=◌, length,
  length-append, arith, Bool-cases, inl, inr,
}
use mathlib.Core.List.{append_assoc}
use anti_dos.Filter.Stats.{PktMeta}
use anti_dos.Policy.{Policy, PolicyStatsIp}
use anti_dos.Policy.Table.{scan, store, visit, each_packet, count_packets}
use anti_dos.Policy.Table.Rows.{
  contains, count_up, note, note_all, count_up_absent, length-count_up, length-note_new,
  length-note_all-le,
}

-- The scan of the used rows leaves the others alone.
pub scan-append :
    (src : ℕ) (used free : List (ℕ × ℕ))
    → scan src (length used) (used ++ free) ≡ some (count_up src used ++ free, contains src used)
unfolding scan contains count_up
scan-append src [] free = refl
scan-append src ((ip, c) ∷ used) free = ground (arith, scan-append src used free)

pub store-append :
    (v f : ℕ × ℕ) (used free : List (ℕ × ℕ))
    → store (length used) v (used ++ (f ∷ free)) ≡ some (used ++ (v ∷ free))
unfolding store
store-append v f [] free = refl
store-append v f (r ∷ used) free = rw (store-append v f used free)

-- The state of the table with `used` rows in use, and rows to spare.
abbrev pub table : List (ℕ × ℕ) → List (ℕ × ℕ) → PolicyStatsIp
table used free = record { slots = used ++ free; num_ip = length used }

abbrev pub Fills : List (ℕ × ℕ) → ℕ → Option (ℕ × PolicyStatsIp) → Type 0
Fills used size none = ⊥
Fills used size (some (num, psi)) =
    (num ≡ length used)
    × ((free : List (ℕ × ℕ)) × (psi ≡ table used free) × (length used + length free ≡ size))

visit_new :
    (src : ℕ) (used free : List (ℕ × ℕ))
    → length used + 1 ≤ length used + length free
    → Fills (used ++ ((src, 1) ∷ [])) (length used + length free) (
        store (length used) (src, 1) (used ++ free) >>= λ rows.
        some (length used + 1, record { slots = rows; num_ip = length used + 1 }))
visit_new src used [] room = absurd (omega arith)
visit_new src used (f ∷ free) room = rw (store-append (src, 1) f used free) (
  omega (arith, more),
  (free, ground (arith, append_assoc used ((src, 1) ∷ []) free, more), omega (arith, more)),
)
  where
    more : length (used ++ ((src, 1) ∷ [])) ≡ length used + 1
    more = omega (arith, length-append used ((src, 1) ∷ []))

visit-note :
    (src : ℕ) (used free : List (ℕ × ℕ))
    → length (note src used) ≤ length used + length free
    → Fills (note src used) (length used + length free) (visit src (length used) (table used free))
unfolding visit note
visit-note src used free room = elim (Bool-cases (contains src used)) [
  | inl old ↦
      rw (scan-append src used free, old)
        (
          sym (length-count_up src used),
          (free, ground (arith, length-count_up src used), omega (arith, length-count_up src used)),
        )
  | inr new ↦
      rw (scan-append src used free, new, count_up_absent src used new)
        (visit_new src used free (omega (arith, length-note_new src used new)))
]

-- The loop ends without a fault, with one table that holds `used`.
abbrev pub FillsOne : List (ℕ × ℕ) → ℕ → Option (ℕ × List PolicyStatsIp) → Type 0
FillsOne used size none = ⊥
FillsOne used size (some (num, [])) = ⊥
FillsOne used size (some (num, psi ∷ [])) = Fills used size (some (num, psi))
FillsOne used size (some (num, psi ∷ more ∷ psis)) = ⊥

abbrev one : ℕ × PolicyStatsIp → Option (ℕ × List PolicyStatsIp)
one v = some (v.0, v.1 ∷ [])

module _ (pol : Policy) where
  after_visit :
      (ms : List PktMeta) (used rows : List (ℕ × ℕ)) (size : ℕ) (o : Option (ℕ × PolicyStatsIp))
      → Fills used size o
      → ((free : List (ℕ × ℕ))
          → length used + length free ≡ size
          → FillsOne rows size (each_packet ms (length used) (pol ∷ []) (table used free ∷ [])))
      → FillsOne rows size ((o >>= one) >>= λ r. each_packet ms r.0 (pol ∷ []) r.1)
  after_visit ms used rows size none f rest = absurd f
  after_visit ms used rows size (some (num, psi)) f rest = rw (f.0, f.1.1) (rest f.1.0 f.1.2)

  pub each_packet-note_all :
      (ms : List PktMeta) (used free : List (ℕ × ℕ)) (size : ℕ)
      → length used + length free ≡ size
      → length (note_all pol.ip ms used) ≤ size
      → FillsOne
          (note_all pol.ip ms used)
          size
          (each_packet ms (length used) (pol ∷ []) (table used free ∷ []))
  unfolding each_packet note_all
  each_packet-note_all [] used free size e room = (refl, (free, refl, e))
  each_packet-note_all (m ∷ ms) used free size e room = elim (Bool-cases (m.dst == pol.ip)) [
    | inl hit ↦
        let room' : length (note_all pol.ip ms (note m.src used)) ≤ size = rw hit at room in
        let fits : length (note m.src used) ≤ length used + length free =
          omega (arith, length-note_all-le pol.ip ms (note m.src used)) in
        rw hit (
          after_visit ms (note m.src used) (note_all pol.ip ms (note m.src used)) size
            (visit m.src (length used) (table used free))
            (rw e at (visit-note m.src used free fits))
            (λ free' e'. each_packet-note_all ms (note m.src used) free' size e' room'))
    | inr miss ↦ rw miss (each_packet-note_all ms used free size e (rw miss at room))
  ]

-- With one policy, whose table has 100 rows of any content, and packets from at most 100 sources
-- counted by it, the loop ends inside the table: the rows in use are those of `note_all`.
pub count_packets-note_all :
    (pol : Policy) (ms : List PktMeta) (junk : PolicyStatsIp)
    → length junk.slots ≡ 100
    → length (note_all pol.ip ms []) ≤ 100
    → FillsOne (note_all pol.ip ms []) 100 (count_packets ms (pol ∷ []) (junk ∷ []))
unfolding count_packets
count_packets-note_all pol ms junk size room =
    each_packet-note_all pol ms [] junk.slots 100 (omega (arith, size)) room
