-- ===== src/Policy/Unlock/Expiry.antt =====
-- main/start_policy.c: the sweep unblocks the addresses whose lock has lasted LOCK_TIME seconds, and
-- frees their rows.
use anti_dos.Base.{
  ℕ, ◌≡◌, refl, Bool, false, not, ◌&&◌, ◌||◌, List, [], ◌∷◌, ◌==◌, leb, map, if◌then◌else◌, arith,
}
use anti_dos.Maps.Kernel.{Sys, Text}
use anti_dos.Policy.{World, lock_time}
use anti_dos.Policy.BlackList.{ServesBlackList}
use anti_dos.Policy.BlackList.Keys.{unblock_holds}
use anti_dos.Policy.Unlock.{age, sweep, sweep_row}

-- A row in use whose lock is over.
abbrev pub is_expired : ℕ → ℕ × ℕ → Bool
is_expired now (ip, t) = not (ip == 0) && leb lock_time (age now t)

-- Some expired row is of address `a`.
unfoldable pub expires : ℕ → ℕ → List (ℕ × ℕ) → Bool
expires now a [] = false
expires now a (row ∷ rows) = (row.0 == a && is_expired now row) || expires now a rows

abbrev pub free_row : ℕ → ℕ × ℕ → ℕ × ℕ
free_row now (ip, t) = if is_expired now (ip, t) then (0, t) else (ip, t)

module _ (sys : Sys) (dir : Text) (serves : ServesBlackList sys dir) (now : ℕ) where
  open serves use {holds}

  sweep_row_lem :
      (ip t : ℕ) (w : World sys)
      → let r = sweep_row sys dir now (ip, t) w in
        (r.0 ≡ free_row now (ip, t))
        × ((a : ℕ) → holds r.1.store a ≡ not (ip == a && is_expired now (ip, t)) && holds w.store a)
  unfolding sweep_row
  sweep_row_lem ip t w =
      (ground arith, λ a. ground (arith, (unblock_holds sys dir serves w ip).1 a))

  -- In a system that serves the black list, the sweep frees exactly the rows in use whose lock is 5
  -- seconds old or older, leaves the others as they are, and an address is blocked afterwards if
  -- and only if it was blocked before and no expired row is of that address.
  pub sweep_lem :
      (rows : List (ℕ × ℕ)) (w : World sys)
      → ((sweep sys dir now rows w).0 ≡ map (free_row now) rows)
        × ((a : ℕ)
            → holds (sweep sys dir now rows w).1.store a
              ≡ not (expires now a rows) && holds w.store a)
  unfolding sweep expires
  sweep_lem [] w = (refl, λ a. refl)
  sweep_lem ((ip, t) ∷ rows) w =
      let r = sweep_row sys dir now (ip, t) w in
      let (row, kept) = sweep_row_lem ip t w in
      let (rest, kept') = sweep_lem rows r.1 in (cc, λ a. ground (arith, kept a, kept' a))
