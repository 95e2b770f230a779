-- ===== src/Policy/Detect/Registers.antt =====
-- main/start_policy.c: where `count_down` has rows enough, `detect_attackers` registers the
-- attackers.
use anti_dos.Base.{
  ℕ, ◌+◌, ◌*◌, ◌≤◌, ◌≡◌, ◌≢◌, refl, sym, Bool, true, ◌||◌, ◌&&◌, List, [], ◌∷◌, ◌++◌, some, ◌==◌,
  if◌then◌else◌, length, arith, Bool-cases, inl, inr,
}
use anti_dos.Filter.Stats.{PktMeta}
use anti_dos.Maps.Kernel.{Sys, Text}
use anti_dos.Policy.{Policy, PolicyStatsIp, World}
use anti_dos.Policy.Unlock.Seconds.{registered}
use anti_dos.Policy.Table.Rows.{row_count}
use anti_dos.Policy.Table.Noted.{noted, blank, sources}
use anti_dos.Policy.Table.Every.{Tabs, Stack, Absent, count_packets-Tabs}
use anti_dos.Policy.Detect.{over_limit, register, enforce, each_row, each_table, detect_attackers}
use anti_dos.Policy.Detect.Exact.{violates, over, over-noted, any_over-Single}
use anti_dos.Policy.Detect.Returns.{each_row_returns}
use anti_dos.Policy.Detect.Blocks.{any_over}

-- The rows that are free.
unfoldable pub free_rows : List (ℕ × ℕ) → ℕ
free_rows [] = 0
free_rows (row ∷ rows) = (if row.0 == 0 then 1 else 0) + free_rows rows

free_rows-register :
    (ip now : ℕ) (rows : List (ℕ × ℕ)) → free_rows rows ≤ 1 + free_rows (register ip now rows)
unfolding free_rows register
free_rows-register ip now [] = omega arith
free_rows-register ip now ((x, t) ∷ rows) = ground (arith, free_rows-register ip now rows)

registered-register :
    (a ip now : ℕ) (rows : List (ℕ × ℕ))
    → a ≢ 0
    → registered a rows ≡ true
    → registered a (register ip now rows) ≡ true
unfolding registered register
registered-register a ip now [] z h = h
registered-register a ip now ((x, t) ∷ rows) z h = ground (arith, registered-register a ip now rows)

registered-register_self :
    (a now : ℕ) (rows : List (ℕ × ℕ))
    → a ≢ 0
    → 1 ≤ free_rows rows
    → registered a (register a now rows) ≡ true
unfolding registered register free_rows
registered-register_self a now [] z h = absurd (omega arith)
registered-register_self a now ((x, t) ∷ rows) z h =
    ground (arith, registered-register_self a now rows)

later : (x y z z' : Bool) → (x || z ≡ true → z' ≡ true) → (x || y) || z ≡ true → y || z' ≡ true
later x y z z' f h = ground (arith, f, h)

module _ (sys : Sys) (dir : Text) (clock : ℕ → ℕ → ℕ) (a : ℕ) (some_address : a ≢ 0) where
  -- A row of a table.
  enforce-registered :
      (now : ℕ) (pol : Policy) (ip c : ℕ) (st : List (ℕ × ℕ) × World sys)
      → 1 ≤ free_rows st.0
      → (free_rows st.0 ≤ 1 + free_rows (enforce sys dir now pol (ip, c) st).0)
        × ((a == ip && over_limit pol c) || registered a st.0 ≡ true
            → registered a (enforce sys dir now pol (ip, c) st).0 ≡ true)
  unfolding enforce
  enforce-registered now pol ip c (rows, w) room = elim (Bool-cases (over_limit pol c)) [
    | inr fine ↦ rw fine (omega arith, λ h. ground (arith, h))
    | inl above ↦ rw above (
      free_rows-register ip now rows,
      λ h. elim (Bool-cases (a == ip)) [
        | inl same ↦
            let e : ip ≡ a = ground (arith, same) in
            rw e (registered-register_self a now rows some_address room)
        | inr other ↦ registered-register a ip now rows some_address (ground (arith, h, other))
      ],
    )
  ]

  -- The first rows of a table, for each of which `count_down` has a free row.
  each_row-registered :
      (i : ℕ) (pol : Policy) (n : ℕ) (used free : List (ℕ × ℕ)) (st st' : List (ℕ × ℕ) × World sys)
      → length used + n ≤ free_rows st.0
      → each_row sys dir (clock i) pol (length used) (used ++ free) st ≡ some st'
      → (n ≤ free_rows st'.0)
        × (any_over pol a used || registered a st.0 ≡ true → registered a st'.0 ≡ true)
  unfolding each_row any_over
  each_row-registered i pol n [] free st st' room e =
      let same : st ≡ st' = cc in rw (sym same) (omega arith, λ h. h)
  each_row-registered i pol n ((ip, c) ∷ used) free st st' room e =
      let (left, mine) = enforce-registered (clock i (length used)) pol ip c st (omega arith) in
      let (left', rest) =
        each_row-registered i pol n used free
          (enforce sys dir (clock i (length used)) pol (ip, c) st) st' (omega (arith, left)) e in
      (
        left',
        λ h. rest (
            later ((a == ip) && over_limit pol c) (any_over pol a used) (registered a st.0) _ mine
              h),
      )

  each_table-registered :
      (pols : List Policy) (Us : List (List (ℕ × ℕ))) (num : ℕ) (psis : List PolicyStatsIp)
      (st st' : List (ℕ × ℕ) × World sys)
      → Tabs a Unit pols Us num psis
      → length pols * num ≤ free_rows st.0
      → each_table sys dir clock pols psis st ≡ some st'
      → over a pols Us || registered a st.0 ≡ true
      → registered a st'.0 ≡ true
  unfolding each_table
  each_table-registered [] [] num [] st st' t room e h = let same : st ≡ st' = cc in rw (sym same) h
  each_table-registered [] [] num (psi ∷ psis) st st' t room e h = absurd t
  each_table-registered [] (U ∷ Us) num psis st st' t room e h = absurd t
  each_table-registered (pol ∷ pols) [] num psis st st' t room e h = absurd t
  each_table-registered (pol ∷ pols) (U ∷ Us) num [] st st' t room e h = absurd t
  each_table-registered (pol ∷ pols) (U ∷ Us) num (psi ∷ psis) st st' (t, ts) room e h =
      let (st1, e1) = each_row_returns sys dir (clock (length pols)) pol t.rows t.free st in
      let e' : each_table sys dir clock pols psis st1 ≡ some st' = rw (t.is_table, e1) at e in
      let c = t.clean tt in
      let fits : length t.rows + length pols * num ≤ free_rows st.0 =
        grind (arith, room, t.below) in
      let (left, mine) =
        each_row-registered (length pols) pol (length pols * num) t.rows t.free st st1 fits e1 in
      let counts : any_over pol a t.rows ≡ over_limit pol (row_count a U) =
        rw (any_over-Single pol a t.rows c.single, c.counted) refl in
      each_table-registered pols Us num psis st1 st' ts left e' (
        later (over_limit pol (row_count a U)) (over a pols Us) (registered a st.0) _
          (rw counts at mine) h)

  -- If `count_down` has a free row for each pair of a policy and a row in use, a source over the
  -- limit that the memory does not hold has a row in it afterwards.
  pub detect_attackers-registered :
      (pols : List Policy) (queue : List PktMeta) (junk : List PolicyStatsIp)
      (st st' : List (ℕ × ℕ) × World sys)
      → Stack pols junk
      → Absent a junk
      → sources queue pols ≤ 100
      → length pols * sources queue pols ≤ free_rows st.0
      → detect_attackers sys dir clock pols queue junk st ≡ some st'
      → violates pols queue a ≡ true
      → registered a st'.0 ≡ true
  unfolding detect_attackers
  detect_attackers-registered pols queue junk st st' s absent few room e v =
      let (num, psis, e1, t, le) = count_packets-Tabs a Unit queue pols junk s (λ u. absent) few in
      let e' : each_table sys dir clock pols psis st ≡ some st' = rw e1 at e in
      each_table-registered pols (noted queue pols (blank pols)) num psis st st' t
        (grind (arith, room, le)) e' (ground (arith, over-noted a queue pols, v))
