-- ===== src/Policy/Table/Noted.antt =====
-- main/start_policy.c: the lists of rows that the tables of several policies are to hold.
use anti_dos.Base.{ℕ, ◌+◌, ◌≤◌, ◌≡◌, refl, ap, List, [], ◌∷◌, length, arith}
use anti_dos.Filter.Stats.{PktMeta}
use anti_dos.Policy.{Policy}
use anti_dos.Policy.Table.Rows.{note_all, length-note_all-le}

-- For each policy, its list of rows when these packets are noted as well.
abbrev pub noted : List PktMeta → List Policy → List (List (ℕ × ℕ)) → List (List (ℕ × ℕ))
noted ms [] Us = []
noted ms (pol ∷ pols) [] = []
noted ms (pol ∷ pols) (U ∷ Us) = note_all pol.ip ms U ∷ noted ms pols Us

-- All rows together.
abbrev pub used : List (List (ℕ × ℕ)) → ℕ
used [] = 0
used (U ∷ Us) = length U + used Us

pub noted-cons :
    (m : PktMeta) (ms : List PktMeta) (pols : List Policy) (Us : List (List (ℕ × ℕ)))
    → noted (m ∷ ms) pols Us ≡ noted ms pols (noted (m ∷ []) pols Us)
unfolding note_all
noted-cons m ms [] Us = refl
noted-cons m ms (pol ∷ pols) [] = refl
noted-cons m ms (pol ∷ pols) (U ∷ Us) =
    ap (λ Vs. note_all pol.ip (m ∷ ms) U ∷ Vs) (noted-cons m ms pols Us)

pub used-noted_mono :
    (m : PktMeta) (ms : List PktMeta) (pols : List Policy) (Us : List (List (ℕ × ℕ)))
    → used (noted (m ∷ []) pols Us) ≤ used (noted (m ∷ ms) pols Us)
unfolding note_all
used-noted_mono m ms [] Us = omega arith
used-noted_mono m ms (pol ∷ pols) [] = omega arith
used-noted_mono m ms (pol ∷ pols) (U ∷ Us) =
    omega (
      arith,
      length-note_all-le pol.ip ms (note_all pol.ip (m ∷ []) U),
      used-noted_mono m ms pols Us,
    )

-- The lists at the beginning.
abbrev pub blank : List Policy → List (List (ℕ × ℕ))
blank [] = []
blank (pol ∷ pols) = [] ∷ blank pols

-- How many sources the policies have together.
unfoldable pub sources : List PktMeta → List Policy → ℕ
sources queue [] = 0
sources queue (pol ∷ pols) = length (note_all pol.ip queue []) + sources queue pols

pub used-sources :
    (queue : List PktMeta) (pols : List Policy)
    → used (noted queue pols (blank pols)) ≡ sources queue pols
unfolding sources
used-sources queue [] = refl
used-sources queue (pol ∷ pols) =
    ap (λ n. length (note_all pol.ip queue []) + n) (used-sources queue pols)

pub used-blank : (pols : List Policy) → used (blank pols) ≡ 0
used-blank [] = refl
used-blank (pol ∷ pols) = omega (arith, used-blank pols)
