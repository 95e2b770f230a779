-- ===== src/Policy/Detect.antt =====
-- main/start_policy.c: `detect_attackers`. The clock is read for each row above the threshold:
-- `clock i j` is what it shows when `i` policies and `j` rows of the table are left behind the row.
pub mod Blocks
pub mod Exact
pub mod Senders
pub mod Returns
pub mod Registers
pub mod Shared
pub mod Keeps
use anti_dos.Base.{
  ℕ, zero, suc, ◌/◌, ◌%◌, ◌^◌, Bool, List, [], ◌∷◌, Option, none, some, length, ◌==◌, ltb,
  if◌then◌else◌, ◌>>=◌,
}
use anti_dos.Filter.Stats.{PktMeta}
use anti_dos.Maps.Kernel.{Sys, Text}
use anti_dos.Policy.{Policy, PolicyStatsIp, World, interval}
use anti_dos.Policy.BlackList.{policy_change_black_list, block}
use anti_dos.Policy.Table.{count_packets}

-- `psi.ip[1][j] / INTERVAL > threshold`, in `unsigned int`.
abbrev pub over_limit : Policy → ℕ → Bool
over_limit pol count = ltb pol.threshold (count / interval)

-- The first row of `count_down` with address 0 takes the address and the time, cut to 32 bits; if
-- there is none, nothing is written.
unfoldable pub register : ℕ → ℕ → List (ℕ × ℕ) → List (ℕ × ℕ)
register ip now [] = []
register ip now ((x, t) ∷ rows) =
    if x == 0 then (ip, now % 2 ^ 32) ∷ rows else (x, t) ∷ register ip now rows

module _ (sys : Sys) (pin_dir : Text) where
  -- A row of a policy's table.
  unfoldable pub enforce : ℕ → Policy → ℕ × ℕ → List (ℕ × ℕ) × World sys → List (ℕ × ℕ) × World sys
  unfolding register
  enforce now pol (ip, count) (count_down, w) =
      if over_limit pol count
      then (register ip now count_down, (policy_change_black_list sys pin_dir ip block w).1)
      else (count_down, w)

  -- The first `n` rows.
  unfoldable pub each_row :
      (ℕ → ℕ)
      → Policy
      → ℕ
      → List (ℕ × ℕ)
      → List (ℕ × ℕ) × World sys
      → Option (List (ℕ × ℕ) × World sys)
  unfolding enforce
  each_row clock pol zero rows st = some st
  each_row clock pol (suc n) [] st = none
  each_row clock pol (suc n) (row ∷ rows) st =
      each_row clock pol n rows (enforce (clock n) pol row st)

  unfoldable pub each_table :
      (ℕ → ℕ → ℕ)
      → List Policy
      → List PolicyStatsIp
      → List (ℕ × ℕ) × World sys
      → Option (List (ℕ × ℕ) × World sys)
  unfolding each_row
  each_table clock [] psis st = some st
  each_table clock (pol ∷ pols) [] st = none
  each_table clock (pol ∷ pols) (psi ∷ psis) st = do
    st' ← each_row (clock (length pols)) pol psi.num_ip psi.slots st
    each_table clock pols psis st'

  -- `junk` is what the stack holds where `psi` lies.
  unfoldable pub detect_attackers :
      (ℕ → ℕ → ℕ)
      → List Policy
      → List PktMeta
      → List PolicyStatsIp
      → List (ℕ × ℕ) × World sys
      → Option (List (ℕ × ℕ) × World sys)
  unfolding count_packets each_table
  detect_attackers clock policies queue junk st = do
    r ← count_packets queue policies junk
    each_table clock policies r.1 st
