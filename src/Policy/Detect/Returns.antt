-- ===== src/Policy/Detect/Returns.antt =====
-- main/start_policy.c: `detect_attackers` returns, whatever the system does.
use anti_dos.Base.{ℕ, ◌≤◌, ◌≡◌, refl, List, [], ◌∷◌, ◌++◌, some, length}
use anti_dos.Filter.Stats.{PktMeta}
use anti_dos.Maps.Kernel.{Sys, Text}
use anti_dos.Policy.{Policy, PolicyStatsIp, World}
use anti_dos.Policy.Table.Noted.{noted, blank, sources}
use anti_dos.Policy.Table.Every.{Tabs, Stack, count_packets-Tabs}
use anti_dos.Policy.Detect.{enforce, each_row, each_table, detect_attackers}

module _ (sys : Sys) (dir : Text) where
  -- The used rows are in the array.
  pub each_row_returns :
      (clock : ℕ → ℕ) (pol : Policy) (used free : List (ℕ × ℕ)) (st : List (ℕ × ℕ) × World sys)
      → (st' : List (ℕ × ℕ) × World sys) × (each_row sys dir clock pol
            (length used)
            (used ++ free)
            st
          ≡ some st')
  unfolding each_row
  each_row_returns clock pol [] free st = (st, refl)
  each_row_returns clock pol (row ∷ used) free st =
      each_row_returns clock pol used free (enforce sys dir (clock (length used)) pol row st)

  each_table_returns :
      (clock : ℕ → ℕ → ℕ) (pols : List Policy) (Us : List (List (ℕ × ℕ))) (num : ℕ)
      (psis : List PolicyStatsIp) (st : List (ℕ × ℕ) × World sys)
      → Tabs 0 ⊥ pols Us num psis
      → (st' : List (ℕ × ℕ) × World sys) × (each_table sys dir clock pols psis st ≡ some st')
  unfolding each_table
  each_table_returns clock [] [] num [] st t = (st, refl)
  each_table_returns clock [] [] num (psi ∷ psis) st t = absurd t
  each_table_returns clock [] (U ∷ Us) num psis st t = absurd t
  each_table_returns clock (pol ∷ pols) [] num psis st t = absurd t
  each_table_returns clock (pol ∷ pols) (U ∷ Us) num [] st t = absurd t
  each_table_returns clock (pol ∷ pols) (U ∷ Us) num (psi ∷ psis) st (t, ts) =
      let (st1, e) = each_row_returns (clock (length pols)) pol t.rows t.free st in
      let (st2, e') = each_table_returns clock pols Us num psis st1 ts in
      (st2, rw (t.is_table, e) e')

  pub detect_attackers_returns :
      (clock : ℕ → ℕ → ℕ) (pols : List Policy) (queue : List PktMeta) (junk : List PolicyStatsIp)
      (st : List (ℕ × ℕ) × World sys)
      → Stack pols junk
      → sources queue pols ≤ 100
      → (st' : List (ℕ × ℕ) × World sys) × (detect_attackers sys dir clock pols queue junk st
          ≡ some st')
  unfolding detect_attackers
  detect_attackers_returns clock pols queue junk st s few =
      let (num, psis, e, t, _) = count_packets-Tabs 0 ⊥ queue pols junk s (λ p. absurd p) few in
      let (st', e') = each_table_returns clock pols (noted queue pols (blank pols)) num psis st t in
      (st', rw e e')
