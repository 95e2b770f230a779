-- ===== src/Policy/Unlock.antt =====
-- main/start_policy.c, in `event_poller`: the sweep over `count_down` that ends expired locks.
pub mod Expiry
pub mod Early
pub mod Seconds
use anti_dos.Base.{ℕ, ◌+◌, ◌-◌, ◌%◌, ◌^◌, Bool, List, [], ◌∷◌, ◌==◌, ltb, if◌then◌else◌}
use anti_dos.Maps.Kernel.{Sys, Text}
use anti_dos.Policy.{World, lock_time}
use anti_dos.Policy.BlackList.{policy_change_black_list, unblock}

-- `now - count_down[1][i]`, in `unsigned long`.
abbrev pub age : ℕ → ℕ → ℕ
age now t = (now + 2 ^ 64 - t) % 2 ^ 64

module _ (sys : Sys) (pin_dir : Text) (now : ℕ) where
  -- A row of `count_down`.
  unfoldable pub sweep_row : ℕ × ℕ → World sys → (ℕ × ℕ) × World sys
  sweep_row (ip, t) w =
      if ip == 0
      then ((ip, t), w)
      else if ltb (age now t) lock_time
      then ((ip, t), w)
      else ((0, t), (policy_change_black_list sys pin_dir ip unblock w).1)

  unfoldable pub sweep : List (ℕ × ℕ) → World sys → List (ℕ × ℕ) × World sys
  unfolding sweep_row
  sweep [] w = ([], w)
  sweep (row ∷ rows) w =
      let (row', w') = sweep_row row w in let (rows', w'') = sweep rows w' in (row' ∷ rows', w'')
