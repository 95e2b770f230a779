-- ===== src/Policy/Unlock/Seconds.antt =====
-- main/start_policy.c: the sweeps of several seconds over `count_down`, one after the other.
use anti_dos.Base.{
  ℕ, ◌+◌, ◌^◌, ◌≤◌, ◌<◌, ◌≡◌, ◌⊎◌, refl, Bool, false, not, ◌&&◌, ◌||◌, List, [], ◌∷◌, All, map,
  arith, ◌==◌,
}
use anti_dos.Policy.{lock_time}
use anti_dos.Policy.Unlock.Expiry.{expires, free_row}

-- Every lock was taken at `t` or before, less than five seconds ago.
abbrev pub Swept : ℕ → List (ℕ × ℕ) → Type 0
Swept t rows = All (λ row. (row.0 ≡ 0) ⊎ ((row.1 ≤ t) × (t < row.1 + lock_time))) rows

pub Swept-none :
    (t a : ℕ) (rows : List (ℕ × ℕ)) → t < 2 ^ 32 → Swept t rows → expires t a rows ≡ false
unfolding expires
Swept-none t a [] b h = refl
Swept-none t a ((x, u) ∷ rows) b h = ground (arith, h.0, Swept-none t a rows b h.1)

pub Swept-free_row :
    (t : ℕ) (rows : List (ℕ × ℕ)) → t < 2 ^ 32 → Swept t rows → map (free_row t) rows ≡ rows
Swept-free_row t [] b h = refl
Swept-free_row t ((x, u) ∷ rows) b h = ground (arith, h.0, Swept-free_row t rows b h.1)

-- One second and its sweep later.
module _ (t now : ℕ) (next : now ≡ t + 1) where
  pub Swept-next :
      (rows : List (ℕ × ℕ)) → now < 2 ^ 32 → Swept t rows → Swept now (map (free_row now) rows)
  Swept-next [] b h = tt
  Swept-next ((x, u) ∷ rows) b h = (ground (arith, h.0, next), Swept-next rows b h.1)

  -- Sweeping now and later frees what sweeping later frees.
  pub free_row-twice :
      (later : ℕ) (rows : List (ℕ × ℕ))
      → now ≤ later
      → later < 2 ^ 32
      → Swept t rows
      → map (free_row later) (map (free_row now) rows) ≡ map (free_row later) rows
  free_row-twice later [] le b h = refl
  free_row-twice later ((x, u) ∷ rows) le b h =
      ground (arith, h.0, next, free_row-twice later rows le b h.1)

  pub expires-twice :
      (later a : ℕ) (rows : List (ℕ × ℕ))
      → now ≤ later
      → later < 2 ^ 32
      → Swept t rows
      → expires later a rows ≡ expires now a rows || expires later a (map (free_row now) rows)
  unfolding expires
  expires-twice later a [] le b h = refl
  expires-twice later a ((x, u) ∷ rows) le b h =
      ground (arith, h.0, next, expires-twice later a rows le b h.1)

-- The address stands in some row.
unfoldable pub registered : ℕ → List (ℕ × ℕ) → Bool
registered a [] = false
registered a (row ∷ rows) = (row.0 == a && not (row.0 == 0)) || registered a rows

pub all_expire :
    (t later a : ℕ) (rows : List (ℕ × ℕ))
    → t + lock_time ≤ later
    → later < 2 ^ 32
    → Swept t rows
    → expires later a rows ≡ registered a rows
unfolding expires registered
all_expire t later a [] le b h = refl
all_expire t later a ((x, u) ∷ rows) le b h =
    ground (arith, h.0, all_expire t later a rows le b h.1)

pub all_free :
    (t later : ℕ) (rows : List (ℕ × ℕ))
    → t + lock_time ≤ later
    → later < 2 ^ 32
    → Swept t rows
    → map (free_row later) rows ≡ map (λ row. (0, row.1)) rows
all_free t later [] le b h = refl
all_free t later ((x, u) ∷ rows) le b h = ground (arith, h.0, all_free t later rows le b h.1)
