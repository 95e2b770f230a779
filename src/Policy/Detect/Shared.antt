-- ===== src/Policy/Detect/Shared.antt =====
-- main/start_policy.c, `detect_attackers`: `num_ip` is one variable for all policies, so the table
-- of a later policy counts rows as used that were never written.
use anti_dos.Base.{ℕ, ◌≡◌, ◌≢◌, refl, true, List, [], ◌∷◌, some, arith}
use anti_dos.Filter.Stats.{PktMeta}
use anti_dos.Maps.Kernel.{Sys, Text}
use anti_dos.Policy.{Policy, PolicyStatsIp, World}
use anti_dos.Policy.BlackList.{ServesBlackList}
use anti_dos.Policy.Table.{count_packets}
use anti_dos.Policy.Detect.{over_limit, enforce, each_table, detect_attackers}
use anti_dos.Policy.Detect.Blocks.{enforce_holds}

-- A table whose memory begins with rows `a` and `b`.
abbrev pub rows_of : ℕ × ℕ → ℕ × ℕ → List (ℕ × ℕ) → PolicyStatsIp
rows_of a b rest = record { slots = a ∷ b ∷ rest; num_ip = 0 }

module _ (pol0 pol1 : Policy) (m0 m1 : PktMeta) (a0 b0 a1 b1 : ℕ × ℕ) (rest0 rest1 : List (ℕ × ℕ))
    (differ : pol0.ip ≢ pol1.ip) (first : m0.dst ≡ pol0.ip) (second : m1.dst ≡ pol1.ip) where
  counted :
      count_packets
        (m0 ∷ m1 ∷ [])
        (pol0 ∷ pol1 ∷ [])
        (rows_of a0 b0 rest0 ∷ rows_of a1 b1 rest1 ∷ [])
      ≡ some (
        2,
        record { slots = (m0.src, 1) ∷ b0 ∷ rest0; num_ip = 1 }
            ∷ record { slots = a1 ∷ (m1.src, 1) ∷ rest1; num_ip = 2 }
            ∷ [],
      )
  unfolding count_packets
  counted = ground arith

  -- In a system that serves the black list, one packet comes to each of two policies with different
  -- addresses. If the memory of the second table happens to begin with an address and a count above
  -- the second threshold, that address is blocked, though it sent nothing.
  pub junk_is_blocked :
      (sys : Sys) (dir : Text) (serves : ServesBlackList sys dir) (clock : ℕ → ℕ → ℕ)
      (st : List (ℕ × ℕ) × World sys)
      → over_limit pol1 a1.1 ≡ true
      → (st' : List (ℕ × ℕ) × World sys) × (detect_attackers sys dir clock
            (pol0 ∷ pol1 ∷ [])
            (m0 ∷ m1 ∷ [])
            (rows_of a0 b0 rest0 ∷ rows_of a1 b1 rest1 ∷ [])
            st
          ≡ some st')
        × (serves.holds st'.1.store a1.0 ≡ true)
  unfolding detect_attackers each_table
  junk_is_blocked sys dir serves clock st over =
      let s1 = enforce sys dir (clock 1 0) pol0 (m0.src, 1) st in
      let s2 = enforce sys dir (clock 0 1) pol1 a1 s1 in
      let s3 = enforce sys dir (clock 0 0) pol1 (m1.src, 1) s2 in
      (
        s3,
        rw counted refl,
        ground (
          arith,
          over,
          enforce_holds sys dir serves pol1 (clock 0 1) a1.0 a1.1 s1 a1.0,
          enforce_holds sys dir serves pol1 (clock 0 0) m1.src 1 s2 a1.0,
        ),
      )
