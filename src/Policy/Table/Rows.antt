-- ===== src/Policy/Table/Rows.antt =====
-- main/start_policy.c: what the table of a policy is to hold, one row for each source in order of
-- appearance with the number of its packets.
use anti_dos.Base.{
  ℕ, ◌+◌, ◌%◌, ◌^◌, ◌≤◌, ◌<◌, ◌≡◌, refl, Bool, true, false, List, [], ◌∷◌, ◌++◌, ◌==◌, ◌&&◌, ◌||◌,
  if◌then◌else◌, length, length-append, arith, Bool-cases, inl, inr,
}
use anti_dos.Filter.Stats.{PktMeta}

-- What the table is to hold: rows by first appearance.
unfoldable pub contains : ℕ → List (ℕ × ℕ) → Bool
contains src [] = false
contains src ((ip, c) ∷ rows) = if src == ip then true else contains src rows

unfoldable pub count_up : ℕ → List (ℕ × ℕ) → List (ℕ × ℕ)
count_up src [] = []
count_up src ((ip, c) ∷ rows) =
    if src == ip then (ip, (c + 1) % 2 ^ 32) ∷ rows else (ip, c) ∷ count_up src rows

unfoldable pub note : ℕ → List (ℕ × ℕ) → List (ℕ × ℕ)
unfolding contains count_up
note src rows = if contains src rows then count_up src rows else rows ++ ((src, 1) ∷ [])

unfoldable pub note_all : ℕ → List PktMeta → List (ℕ × ℕ) → List (ℕ × ℕ)
unfolding note
note_all ip [] rows = rows
note_all ip (m ∷ ms) rows = note_all ip ms (if m.dst == ip then note m.src rows else rows)

pub count_up_absent :
    (src : ℕ) (rows : List (ℕ × ℕ)) → contains src rows ≡ false → count_up src rows ≡ rows
unfolding contains count_up
count_up_absent src [] h = refl
count_up_absent src ((ip, c) ∷ rows) h = ground (arith, count_up_absent src rows)

pub contains-count_up :
    (a src : ℕ) (rows : List (ℕ × ℕ)) → contains a (count_up src rows) ≡ contains a rows
unfolding contains count_up
contains-count_up a src [] = refl
contains-count_up a src ((ip, c) ∷ rows) = ground (arith, contains-count_up a src rows)

pub contains-append :
    (a src : ℕ) (rows : List (ℕ × ℕ))
    → contains a (rows ++ ((src, 1) ∷ [])) ≡ contains a rows || a == src
unfolding contains
contains-append a src [] = ground arith
contains-append a src ((ip, c) ∷ rows) = ground (arith, contains-append a src rows)

pub length-count_up : (src : ℕ) (rows : List (ℕ × ℕ)) → length (count_up src rows) ≡ length rows
unfolding count_up
length-count_up src [] = refl
length-count_up src ((ip, c) ∷ rows) = ground (arith, length-count_up src rows)

pub length-note_new :
    (src : ℕ) (rows : List (ℕ × ℕ))
    → contains src rows ≡ false
    → length (note src rows) ≡ length rows + 1
unfolding note
length-note_new src rows new = rw new (omega (arith, length-append rows ((src, 1) ∷ [])))

pub length-note-le : (src : ℕ) (rows : List (ℕ × ℕ)) → length rows ≤ length (note src rows)
unfolding note
length-note-le src rows =
    ground (arith, length-count_up src rows, length-append rows ((src, 1) ∷ []))

pub length-note_all-le :
    (ip : ℕ) (ms : List PktMeta) (rows : List (ℕ × ℕ)) → length rows ≤ length (note_all ip ms rows)
unfolding note_all
length-note_all-le ip [] rows = omega arith
length-note_all-le ip (m ∷ ms) rows = elim (Bool-cases (m.dst == ip)) [
  | inl hit ↦
      rw hit (omega (arith, length-note_all-le ip ms (note m.src rows), length-note-le m.src rows))
  | inr miss ↦ rw miss (length-note_all-le ip ms rows)
]

-- The number in the row of a source, and the number of its packets for the policy.
unfoldable pub row_count : ℕ → List (ℕ × ℕ) → ℕ
row_count a [] = 0
row_count a ((ip, c) ∷ rows) = if a == ip then c else row_count a rows

unfoldable pub sent : ℕ → ℕ → List PktMeta → ℕ
sent ip a [] = 0
sent ip a (m ∷ ms) = (if (m.dst == ip) && (m.src == a) then 1 else 0) + sent ip a ms

pub row_count-count_up :
    (a src : ℕ) (rows : List (ℕ × ℕ))
    → contains src rows ≡ true
    → row_count a rows < 2 ^ 32
    → row_count a (count_up src rows) ≡ (row_count a rows + (if src == a then 1 else 0)) % 2 ^ 32
unfolding row_count count_up contains
row_count-count_up a src [] h lt = cc
row_count-count_up a src ((ip, c) ∷ rows) h lt = ground (arith, row_count-count_up a src rows)

pub row_count-append :
    (a src : ℕ) (rows : List (ℕ × ℕ))
    → contains src rows ≡ false
    → row_count a rows < 2 ^ 32
    → row_count a (rows ++ ((src, 1) ∷ []))
      ≡ (row_count a rows + (if src == a then 1 else 0)) % 2 ^ 32
unfolding row_count contains
row_count-append a src [] h lt = ground arith
row_count-append a src ((ip, c) ∷ rows) h lt = ground (arith, row_count-append a src rows)

pub row_count-note :
    (a src : ℕ) (rows : List (ℕ × ℕ))
    → row_count a rows < 2 ^ 32
    → row_count a (note src rows) ≡ (row_count a rows + (if src == a then 1 else 0)) % 2 ^ 32
unfolding note
row_count-note a src rows lt = elim (Bool-cases (contains src rows)) [
  | inl old ↦ rw old (row_count-count_up a src rows old lt)
  | inr new ↦ rw new (row_count-append a src rows new lt)
]

-- A row holds the number of packets of its source, modulo 2^32.
pub row_count-note_all :
    (ip a : ℕ) (ms : List PktMeta) (rows : List (ℕ × ℕ))
    → row_count a rows < 2 ^ 32
    → row_count a (note_all ip ms rows) ≡ (row_count a rows + sent ip a ms) % 2 ^ 32
unfolding note_all sent
row_count-note_all ip a [] rows lt = omega arith
row_count-note_all ip a (m ∷ ms) rows lt = elim (Bool-cases (m.dst == ip)) [
  | inl hit ↦ rw hit (
      ground (
        arith,
        row_count-note a m.src rows lt,
        row_count-note_all ip a ms (note m.src rows)
            (ground (arith, row_count-note a m.src rows lt)),
      ))
  | inr miss ↦ rw miss (ground (arith, row_count-note_all ip a ms rows lt))
]
