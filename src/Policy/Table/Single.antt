-- ===== src/Policy/Table/Single.antt =====
-- main/start_policy.c: which rows of a table are of an address, and what an append and a count keep
-- of them.
use anti_dos.Base.{
  ℕ, zero, suc, ◌≡◌, refl, ap, true, false, ◌||◌, List, [], ◌∷◌, ◌++◌, ◌==◌, take, drop, arith,
  Bool-cases, inl, inr, ◌⊎◌,
}
use anti_dos.Policy.Table.Rows.{
  contains, count_up, note, row_count, contains-count_up, contains-append,
}

pub contains-++ :
    (a : ℕ) (xs ys : List (ℕ × ℕ)) → contains a (xs ++ ys) ≡ contains a xs || contains a ys
unfolding contains
contains-++ a [] ys = refl
contains-++ a ((ip, c) ∷ xs) ys = ground (arith, contains-++ a xs ys)

pub contains-take :
    (a n : ℕ) (xs : List (ℕ × ℕ)) → contains a xs ≡ false → contains a (take n xs) ≡ false
unfolding contains
contains-take a zero xs h = refl
contains-take a (suc n) [] h = refl
contains-take a (suc n) ((ip, c) ∷ xs) h = ground (arith, contains-take a n xs)

pub contains-drop :
    (a n : ℕ) (xs : List (ℕ × ℕ)) → contains a xs ≡ false → contains a (drop n xs) ≡ false
unfolding contains
contains-drop a zero xs h = h
contains-drop a (suc n) [] h = refl
contains-drop a (suc n) ((ip, c) ∷ xs) h = ground (arith, contains-drop a n xs)

same_row :
    (a src : ℕ) (rows : List (ℕ × ℕ)) → (a == src) ≡ true → contains a rows ≡ contains src rows
same_row a src rows h = let e : a ≡ src = ground (arith, h) in ap (λ x. contains x rows) e

pub contains-note :
    (a src : ℕ) (rows : List (ℕ × ℕ)) → contains a (note src rows) ≡ contains a rows || a == src
unfolding note
contains-note a src rows = elim (Bool-cases (contains src rows)) [
  | inl old ↦ rw old (ground (arith, old, contains-count_up a src rows, same_row a src rows))
  | inr new ↦ rw new (contains-append a src rows)
]

row_count-absent : (a : ℕ) (rows : List (ℕ × ℕ)) → contains a rows ≡ false → row_count a rows ≡ 0
unfolding contains row_count
row_count-absent a [] h = refl
row_count-absent a ((ip, c) ∷ rows) h = ground (arith, row_count-absent a rows)

-- Rows without the address behind others.
pub row_count-++ :
    (a : ℕ) (xs ys : List (ℕ × ℕ)) → contains a ys ≡ false → row_count a (xs ++ ys) ≡ row_count a xs
unfolding row_count
row_count-++ a [] ys h = row_count-absent a ys h
row_count-++ a ((ip, c) ∷ xs) ys h = ground (arith, row_count-++ a xs ys h)

-- At most one row is of the address.
unfoldable pub Single : ℕ → List (ℕ × ℕ) → Type 0
Single a [] = Unit
Single a ((ip, c) ∷ rows) = ((a == ip) ≡ false ⊎ contains a rows ≡ false) × Single a rows

pub Single-absent : (a : ℕ) (rows : List (ℕ × ℕ)) → contains a rows ≡ false → Single a rows
unfolding Single contains
Single-absent a [] h = tt
Single-absent a ((ip, c) ∷ rows) h = ground (arith, Single-absent a rows)

pub Single-++ :
    (a : ℕ) (xs ys : List (ℕ × ℕ)) → contains a ys ≡ false → Single a xs → Single a (xs ++ ys)
unfolding Single
Single-++ a [] ys h s = Single-absent a ys h
Single-++ a ((ip, c) ∷ xs) ys h (s, t) =
    (ground (arith, s, contains-++ a xs ys, h), Single-++ a xs ys h t)

pub Single-count_up :
    (a src : ℕ) (rows : List (ℕ × ℕ)) → Single a rows → Single a (count_up src rows)
unfolding Single count_up
Single-count_up a src [] s = tt
Single-count_up a src ((ip, c) ∷ rows) s =
    ground (arith, s, Single-count_up a src rows s.1, contains-count_up a src rows)

pub Single-append :
    (a src : ℕ) (rows : List (ℕ × ℕ))
    → contains src rows ≡ false
    → Single a rows
    → Single a (rows ++ ((src, 1) ∷ []))
unfolding Single contains
Single-append a src [] h s = (inr refl, tt)
Single-append a src ((ip, c) ∷ rows) h s =
    ground (arith, s, Single-append a src rows, contains-append a src rows)
