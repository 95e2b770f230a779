-- ===== src/Policy/Table/Every.antt =====
-- main/start_policy.c: what all tables hold after the counting loop, whatever their memory held.
use anti_dos.Base.{
  ℕ, ◌+◌, ◌≤◌, ◌≡◌, refl, sym, ap, false, List, [], ◌∷◌, Option, some, ◌==◌, ◌>>=◌, length, All,
  arith, Bool-cases, inl, inr, if◌then◌else◌,
}
use mathlib.Core.Path.{subst}
use anti_dos.Filter.Stats.{PktMeta}
use anti_dos.Policy.{Policy, PolicyStatsIp}
use anti_dos.Policy.Table.{visit, each_policy, each_packet, reset, count_packets}
use anti_dos.Policy.Table.Rows.{contains, note_all, row_count, length-note_all-le}
use anti_dos.Policy.Table.Noted.{
  noted, used, noted-cons, used-noted_mono, blank, sources, used-sources, used-blank,
}
use anti_dos.Policy.Table.Several.{Tab, visit-Tab}
use anti_dos.Policy.Table.Single.{Single}

-- A list of rows and a table for each policy.
abbrev pub Tabs : ℕ → Type 0 → List Policy → List (List (ℕ × ℕ)) → ℕ → List PolicyStatsIp → Type 0
Tabs a P [] [] num [] = Unit
Tabs a P [] [] num (psi ∷ psis) = ⊥
Tabs a P [] (U ∷ Us) num psis = ⊥
Tabs a P (pol ∷ pols) [] num psis = ⊥
Tabs a P (pol ∷ pols) (U ∷ Us) num [] = ⊥
Tabs a P (pol ∷ pols) (U ∷ Us) num (psi ∷ psis) = Tab a P U num psi × Tabs a P pols Us num psis

module _ (a : ℕ) (P : Type 0) where
  -- A run of the loop that turns the lists `Us` into `Ws`.
  abbrev Reached :
      List Policy
      → List (List (ℕ × ℕ))
      → List (List (ℕ × ℕ))
      → ℕ
      → Option (ℕ × List PolicyStatsIp)
      → Type 0
  Reached pols Us Ws num o =
      (num' : ℕ) × (psis' : List PolicyStatsIp) × (o ≡ some (num', psis'))
      × Tabs a P pols Ws num' psis'
      × (num ≤ num')
      × (num' + used Us ≤ num + used Ws)

  abbrev Counted :
      List PktMeta
      → List Policy
      → List (List (ℕ × ℕ))
      → ℕ
      → Option (ℕ × List PolicyStatsIp)
      → Type 0
  Counted ms pols Us num o = Reached pols Us (noted ms pols Us) num o

  Tab-le :
      (U : List (ℕ × ℕ)) (num num' : ℕ) (psi : PolicyStatsIp)
      → num ≤ num'
      → Tab a P U num psi
      → Tab a P U num' psi
  Tab-le U num num' psi le t = record {
    rows = t.rows;
    free = t.free;
    is_table = t.is_table;
    size = t.size;
    below = omega (arith, t.below);
    known = t.known;
    clean = t.clean;
  }

  used-noted-le :
      (ms : List PktMeta) (pols : List Policy) (Us : List (List (ℕ × ℕ))) (num : ℕ)
      (psis : List PolicyStatsIp)
      → Tabs a P pols Us num psis
      → used Us ≤ used (noted ms pols Us)
  used-noted-le ms [] [] num [] t = omega arith
  used-noted-le ms [] [] num (psi ∷ psis) t = absurd t
  used-noted-le ms [] (U ∷ Us) num psis t = absurd t
  used-noted-le ms (pol ∷ pols) [] num psis t = absurd t
  used-noted-le ms (pol ∷ pols) (U ∷ Us) num [] t = absurd t
  used-noted-le ms (pol ∷ pols) (U ∷ Us) num (psi ∷ psis) t =
      omega (arith, length-note_all-le pol.ip ms U, used-noted-le ms pols Us num psis t.1)

  -- One policy's part of a packet.
  one_policy :
      (m : PktMeta) (num : ℕ) (pol : Policy) (U : List (ℕ × ℕ)) (psi : PolicyStatsIp)
      → num + length (note_all pol.ip (m ∷ []) U) ≤ 100 + length U
      → Tab a P U num psi
      → (num' : ℕ) × (psi' : PolicyStatsIp) × ((if m.dst == pol.ip
            then visit m.src num psi
            else some (num, psi))
          ≡ some (num', psi'))
        × Tab a P (note_all pol.ip (m ∷ []) U) num' psi'
        × (num ≤ num')
        × (num' + length U ≤ num + length (note_all pol.ip (m ∷ []) U))
  unfolding note_all
  one_policy m num pol U psi room t = elim (Bool-cases (m.dst == pol.ip)) [
    | inl hit ↦ rw hit (visit-Tab a P m.src num U psi (rw hit at room) t)
    | inr miss ↦ rw miss (num, psi, refl, t, omega arith, omega arith)
  ]

  Tabs-le :
      (pols : List Policy) (Us : List (List (ℕ × ℕ))) (num num' : ℕ) (psis : List PolicyStatsIp)
      → num ≤ num'
      → Tabs a P pols Us num psis
      → Tabs a P pols Us num' psis
  Tabs-le [] [] num num' [] le t = tt
  Tabs-le [] [] num num' (psi ∷ psis) le t = absurd t
  Tabs-le [] (U ∷ Us) num num' psis le t = absurd t
  Tabs-le (pol ∷ pols) [] num num' psis le t = absurd t
  Tabs-le (pol ∷ pols) (U ∷ Us) num num' [] le t = absurd t
  Tabs-le (pol ∷ pols) (U ∷ Us) num num' (psi ∷ psis) le (t, ts) =
      (Tab-le U num num' psi le t, Tabs-le pols Us num num' psis le ts)

  each_policy-Counted :
      (m : PktMeta) (num : ℕ) (pols : List Policy) (Us : List (List (ℕ × ℕ)))
      (psis : List PolicyStatsIp)
      → num + used (noted (m ∷ []) pols Us) ≤ 100 + used Us
      → Tabs a P pols Us num psis
      → Counted (m ∷ []) pols Us num (each_policy m num pols psis)
  unfolding each_policy
  each_policy-Counted m num [] [] [] room t = (num, [], refl, tt, omega arith, omega arith)
  each_policy-Counted m num [] [] (psi ∷ psis) room t = absurd t
  each_policy-Counted m num [] (U ∷ Us) psis room t = absurd t
  each_policy-Counted m num (pol ∷ pols) [] psis room t = absurd t
  each_policy-Counted m num (pol ∷ pols) (U ∷ Us) [] room t = absurd t
  each_policy-Counted m num (pol ∷ pols) (U ∷ Us) (psi ∷ psis) room (t, ts) =
      let more = used-noted-le (m ∷ []) pols Us num psis ts in
      let (num1, psi', e, t', le, few) = one_policy m num pol U psi (omega (arith, more)) t in
      let (num2, psis', e', ts', le', few') =
        each_policy-Counted m num1 pols Us psis (omega (arith, few))
          (Tabs-le pols Us num num1 psis le ts) in
      (
        num2,
        psi' ∷ psis',
        rw (e, e') refl,
        (Tab-le (note_all pol.ip (m ∷ []) U) num1 num2 psi' le' t', ts'),
        omega arith,
        omega (arith, few, few'),
      )

  noted-nil :
      (pols : List Policy) (Us : List (List (ℕ × ℕ))) (num : ℕ) (psis : List PolicyStatsIp)
      → Tabs a P pols Us num psis
      → noted [] pols Us ≡ Us
  unfolding note_all
  noted-nil [] [] num psis t = refl
  noted-nil [] (U ∷ Us) num psis t = absurd t
  noted-nil (pol ∷ pols) [] num psis t = absurd t
  noted-nil (pol ∷ pols) (U ∷ Us) num [] t = absurd t
  noted-nil (pol ∷ pols) (U ∷ Us) num (psi ∷ psis) t =
      ap (λ Vs. U ∷ Vs) (noted-nil pols Us num psis t.1)

  -- One run behind another.
  Reached-chain :
      (ms : List PktMeta) (pols : List Policy) (Us Vs Ws : List (List (ℕ × ℕ))) (num : ℕ)
      (o : Option (ℕ × List PolicyStatsIp))
      → Reached pols Us Vs num o
      → ((num1 : ℕ) (psis1 : List PolicyStatsIp)
          → num1 + used Us ≤ num + used Vs
          → Tabs a P pols Vs num1 psis1
          → Reached pols Vs Ws num1 (each_packet ms num1 pols psis1))
      → Reached pols Us Ws num (o >>= λ r. each_packet ms r.0 pols r.1)
  Reached-chain ms pols Us Vs Ws num o (num1, psis1, e, t1, le, few) rest =
      let (num2, psis2, e', t2, le', few') = rest num1 psis1 few t1 in
      (num2, psis2, rw e e', t2, omega arith, omega (arith, few, few'))

  each_packet-Counted :
      (ms : List PktMeta) (num : ℕ) (pols : List Policy) (Us : List (List (ℕ × ℕ)))
      (psis : List PolicyStatsIp)
      → num + used (noted ms pols Us) ≤ 100 + used Us
      → Tabs a P pols Us num psis
      → Counted ms pols Us num (each_packet ms num pols psis)
  unfolding each_packet
  each_packet-Counted [] num pols Us psis room t =
      rw (noted-nil pols Us num psis t) (num, psis, refl, t, omega arith, omega arith)
  each_packet-Counted (m ∷ ms) num pols Us psis room t =
      let Vs = noted (m ∷ []) pols Us in
      let whole = noted-cons m ms pols Us in
      let room' : num + used (noted ms pols Vs) ≤ 100 + used Us = rw whole at room in
      let first =
        each_policy-Counted m num pols Us psis (omega (arith, used-noted_mono m ms pols Us)) t in
      let o = each_policy m num pols psis in
      subst (λ Ws. Reached pols Us Ws num (o >>= λ r. each_packet ms r.0 pols r.1)) (sym whole)
        (Reached-chain ms pols Us Vs (noted ms pols Vs) num o first
          (λ num1 psis1 few. each_packet-Counted ms num1 pols Vs psis1 (omega (arith, few))))

-- A table of 100 rows for each policy.
abbrev pub Stack : List Policy → List PolicyStatsIp → Type 0
Stack pols junk = (length junk ≡ length pols) × All (λ psi. length psi.slots ≡ 100) junk

-- The memory does not hold the address.
abbrev pub Absent : ℕ → List PolicyStatsIp → Type 0
Absent a junk = All (λ psi. contains a psi.slots ≡ false) junk

reset-Tabs :
    (a : ℕ) (P : Type 0) (pols : List Policy) (junk : List PolicyStatsIp)
    → Stack pols junk
    → (P → Absent a junk)
    → Tabs a P pols (blank pols) 0 (reset junk)
unfolding contains row_count Single
reset-Tabs a P [] [] s absent = tt
reset-Tabs a P [] (psi ∷ junk) s absent = absurd (omega (arith, s.0))
reset-Tabs a P (pol ∷ pols) [] s absent = absurd (omega (arith, s.0))
reset-Tabs a P (pol ∷ pols) (psi ∷ junk) (len, (size, sizes)) absent = (
  record {
    rows = [];
    free = psi.slots;
    is_table = refl;
    size = omega (arith, size);
    below = omega arith;
    known = λ x h. cc;
    clean = λ p. record {
      unwritten = (absent p).0;
      listed = refl;
      counted = refl;
      fits = omega arith;
      single = tt;
    };
  },
  reset-Tabs a P pols junk (omega (arith, len), sizes) (λ p. (absent p).1),
)

-- With any number of policies, a table of 100 rows of any content for each, and at most 100 pairs
-- of a policy and a source of it, the loop ends inside the tables, and they agree with the lists of
-- rows on every address that their memory did not hold. No table has more rows in use than there
-- are such pairs.
pub count_packets-Tabs :
    (a : ℕ) (P : Type 0) (queue : List PktMeta) (pols : List Policy) (junk : List PolicyStatsIp)
    → Stack pols junk
    → (P → Absent a junk)
    → sources queue pols ≤ 100
    → (num : ℕ) × (psis : List PolicyStatsIp) × (count_packets queue pols junk ≡ some (num, psis))
      × Tabs a P pols (noted queue pols (blank pols)) num psis
      × (num ≤ sources queue pols)
unfolding count_packets
count_packets-Tabs a P queue pols junk s absent few =
    let (num, psis, e, t, _, counted) =
      each_packet-Counted a P queue 0 pols (blank pols) (reset junk)
        (omega (arith, used-sources queue pols, used-blank pols))
        (reset-Tabs a P pols junk s absent) in
    (num, psis, e, t, omega (arith, counted, used-sources queue pols))
