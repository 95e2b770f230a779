-- ===== src/Policy/Detect/Keeps.antt =====
-- main/start_policy.c, `detect_attackers`: what every row's part of the second half keeps, the whole
-- keeps, for any policies and any tables.
use anti_dos.Base.{ℕ, zero, suc, length, List, [], ◌∷◌, Whenever, Whenever-tt, Whenever->>=}
use anti_dos.Filter.Stats.{PktMeta}
use anti_dos.Maps.Kernel.{Sys, Text}
use anti_dos.Policy.{Policy, PolicyStatsIp, World}
use anti_dos.Policy.Table.{count_packets}
use anti_dos.Policy.Detect.{enforce, each_row, each_table, detect_attackers}

module _ (sys : Sys) (dir : Text) (clock : ℕ → ℕ → ℕ) (P : List (ℕ × ℕ) × World sys → Type 0)
    (keep : (i j : ℕ) (pol : Policy) (row : ℕ × ℕ) (st : List (ℕ × ℕ) × World sys)
      → P st
      → P (enforce sys dir (clock i j) pol row st)) where
  each_row_keeps :
      (i : ℕ) (pol : Policy) (n : ℕ) (rows : List (ℕ × ℕ)) (st : List (ℕ × ℕ) × World sys)
      → P st
      → Whenever P (each_row sys dir (clock i) pol n rows st)
  unfolding each_row
  each_row_keeps i pol zero rows st h = h
  each_row_keeps i pol (suc n) [] st h = tt
  each_row_keeps i pol (suc n) (row ∷ rows) st h =
      each_row_keeps i pol n rows (enforce sys dir (clock i n) pol row st) (keep i n pol row st h)

  each_table_keeps :
      (pols : List Policy) (psis : List PolicyStatsIp) (st : List (ℕ × ℕ) × World sys)
      → P st
      → Whenever P (each_table sys dir clock pols psis st)
  unfolding each_table
  each_table_keeps [] psis st h = h
  each_table_keeps (pol ∷ pols) [] st h = tt
  each_table_keeps (pol ∷ pols) (psi ∷ psis) st h =
      Whenever->>= P P (each_row sys dir (clock (length pols)) pol psi.num_ip psi.slots st) _
        (each_row_keeps (length pols) pol psi.num_ip psi.slots st h) (each_table_keeps pols psis)

  pub detect_attackers_keeps :
      (pols : List Policy) (queue : List PktMeta) (junk : List PolicyStatsIp)
      (st : List (ℕ × ℕ) × World sys)
      → P st
      → Whenever P (detect_attackers sys dir clock pols queue junk st)
  unfolding detect_attackers
  detect_attackers_keeps pols queue junk st h =
      Whenever->>= (λ _. Unit {0}) P (count_packets queue pols junk) _
        (Whenever-tt (count_packets queue pols junk)) (λ r _. each_table_keeps pols r.1 st h)
