-- ===== src/Policy/Detect/Senders.antt =====
-- main/start_policy.c: a policy has at most as many sources as there are senders.
use anti_dos.Base.{
  ℕ, ◌+◌, ◌*◌, ◌≤◌, ◌≡◌, refl, Bool, true, false, ◌||◌, List, [], ◌∷◌, ◌++◌, ◌==◌, if◌then◌else◌,
  length, All, arith, Bool-cases, inl, inr,
}
use anti_dos.Filter.Stats.{PktMeta}
use anti_dos.Policy.{Policy}
use anti_dos.Policy.Table.Rows.{contains, count_up, note, note_all}
use anti_dos.Policy.Table.Noted.{sources}
use anti_dos.Policy.Detect.Blocks.{Distinct, note_all-Distinct}

-- The address is one of the senders.
unfoldable pub is_sender : ℕ → List ℕ → Bool
is_sender a [] = false
is_sender a (s ∷ senders) = a == s || is_sender a senders

abbrev pub FromSenders : List ℕ → List PktMeta → Type 0
FromSenders senders queue = All (λ m. is_sender m.src senders ≡ true) queue

abbrev RowsFrom : List ℕ → List (ℕ × ℕ) → Type 0
RowsFrom senders rows = All (λ row. is_sender row.0 senders ≡ true) rows

-- The rows of other addresses.
unfoldable without : ℕ → List (ℕ × ℕ) → List (ℕ × ℕ)
without s [] = []
without s ((ip, c) ∷ rows) = if ip == s then without s rows else (ip, c) ∷ without s rows

contains-without :
    (a s : ℕ) (rows : List (ℕ × ℕ)) → contains a rows ≡ false → contains a (without s rows) ≡ false
unfolding contains without
contains-without a s [] h = refl
contains-without a s ((ip, c) ∷ rows) h = ground (arith, contains-without a s rows)

without-Distinct : (s : ℕ) (rows : List (ℕ × ℕ)) → Distinct rows → Distinct (without s rows)
unfolding without
without-Distinct s [] d = tt
without-Distinct s ((ip, c) ∷ rows) d =
    ground (arith, d, without-Distinct s rows d.1, contains-without ip s rows d.0)

length-without_absent :
    (s : ℕ) (rows : List (ℕ × ℕ)) → contains s rows ≡ false → length rows ≤ length (without s rows)
unfolding contains without
length-without_absent s [] h = omega arith
length-without_absent s ((ip, c) ∷ rows) h = ground (arith, length-without_absent s rows)

length-without :
    (s : ℕ) (rows : List (ℕ × ℕ)) → Distinct rows → length rows ≤ 1 + length (without s rows)
unfolding without
length-without s [] d = omega arith
length-without s ((ip, c) ∷ rows) d = elim (Bool-cases (ip == s)) [
  | inl same ↦
      let e : ip ≡ s = ground (arith, same) in
      rw same (omega (arith, length-without_absent s rows (rw e at d.0)))
  | inr other ↦ rw other (omega (arith, length-without s rows d.1))
]

without-RowsFrom :
    (s : ℕ) (senders : List ℕ) (rows : List (ℕ × ℕ))
    → RowsFrom (s ∷ senders) rows
    → RowsFrom senders (without s rows)
unfolding without is_sender
without-RowsFrom s senders [] h = tt
without-RowsFrom s senders ((ip, c) ∷ rows) h =
    ground (arith, h, without-RowsFrom s senders rows h.1)

-- Distinct addresses of senders are not more than the senders.
length-RowsFrom :
    (senders : List ℕ) (rows : List (ℕ × ℕ))
    → Distinct rows
    → RowsFrom senders rows
    → length rows ≤ length senders
unfolding is_sender
length-RowsFrom [] [] d h = omega arith
length-RowsFrom [] (row ∷ rows) d h = cc
length-RowsFrom (s ∷ senders) rows d h = omega (
  arith,
  length-without s rows d,
  length-RowsFrom senders (without s rows) (without-Distinct s rows d)
      (without-RowsFrom s senders rows h),
)

count_up-RowsFrom :
    (senders : List ℕ) (src : ℕ) (rows : List (ℕ × ℕ))
    → RowsFrom senders rows
    → RowsFrom senders (count_up src rows)
unfolding count_up
count_up-RowsFrom senders src [] h = tt
count_up-RowsFrom senders src ((ip, c) ∷ rows) h =
    ground (arith, h, count_up-RowsFrom senders src rows h.1)

append-RowsFrom :
    (senders : List ℕ) (src : ℕ) (rows : List (ℕ × ℕ))
    → is_sender src senders ≡ true
    → RowsFrom senders rows
    → RowsFrom senders (rows ++ ((src, 1) ∷ []))
append-RowsFrom senders src [] s h = (s, tt)
append-RowsFrom senders src (row ∷ rows) s h = (h.0, append-RowsFrom senders src rows s h.1)

note-RowsFrom :
    (senders : List ℕ) (src : ℕ) (rows : List (ℕ × ℕ))
    → is_sender src senders ≡ true
    → RowsFrom senders rows
    → RowsFrom senders (note src rows)
unfolding note
note-RowsFrom senders src rows s h = elim (Bool-cases (contains src rows)) [
  | inl old ↦ rw old (count_up-RowsFrom senders src rows h)
  | inr new ↦ rw new (append-RowsFrom senders src rows s h)
]

note_all-RowsFrom :
    (senders : List ℕ) (ip : ℕ) (ms : List PktMeta) (rows : List (ℕ × ℕ))
    → FromSenders senders ms
    → RowsFrom senders rows
    → RowsFrom senders (note_all ip ms rows)
unfolding note_all
note_all-RowsFrom senders ip [] rows from h = h
note_all-RowsFrom senders ip (m ∷ ms) rows from h = elim (Bool-cases (m.dst == ip)) [
  | inl hit ↦ rw hit (
      note_all-RowsFrom senders ip ms (note m.src rows) from.1
        (note-RowsFrom senders m.src rows from.0 h))
  | inr miss ↦ rw miss (note_all-RowsFrom senders ip ms rows from.1 h)
]

pub sources-FromSenders :
    (senders : List ℕ) (queue : List PktMeta) (pols : List Policy)
    → FromSenders senders queue
    → sources queue pols ≤ length pols * length senders
unfolding sources
sources-FromSenders senders queue [] from = omega arith
sources-FromSenders senders queue (pol ∷ pols) from = grind (
  arith,
  length-RowsFrom senders (note_all pol.ip queue []) (note_all-Distinct pol.ip queue [] tt)
      (note_all-RowsFrom senders pol.ip queue [] from tt),
  sources-FromSenders senders queue pols from,
)
