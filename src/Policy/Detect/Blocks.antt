-- ===== src/Policy/Detect/Blocks.antt =====
-- main/start_policy.c: with one policy `detect_attackers` blocks the sources above its threshold,
-- and no other.
use anti_dos.Base.{
  ℕ, ◌%◌, ◌^◌, ◌≤◌, ◌≡◌, refl, ap, ◌∙◌, Bool, false, ◌||◌, or_swap, ◌&&◌, List, [], ◌∷◌, ◌++◌,
  Option, none, some, ◌==◌, ◌>>=◌, arith, length, Bool-cases, inl, inr,
}
use anti_dos.Filter.Stats.{PktMeta}
use anti_dos.Maps.Kernel.{Sys, Text}
use anti_dos.Policy.{Policy, PolicyStatsIp, World}
use anti_dos.Policy.BlackList.{ServesBlackList}
use anti_dos.Policy.BlackList.Keys.{block_holds}
use anti_dos.Policy.Table.{count_packets}
use anti_dos.Policy.Table.Rows.{
  contains, contains-count_up, contains-append, row_count, sent, note, note_all, count_up,
  row_count-note_all,
}
use anti_dos.Policy.Table.Fills.{FillsOne, count_packets-note_all}
use anti_dos.Policy.Detect.{over_limit, enforce, each_row, each_table, detect_attackers}

-- Some row of the address is over the limit.
unfoldable pub any_over : Policy → ℕ → List (ℕ × ℕ) → Bool
any_over pol a [] = false
any_over pol a ((ip, c) ∷ rows) = (a == ip && over_limit pol c) || any_over pol a rows

-- No address has two rows.
abbrev pub Distinct : List (ℕ × ℕ) → Type 0
Distinct [] = Unit
Distinct ((ip, c) ∷ rows) = (contains ip rows ≡ false) × Distinct rows

count_up-Distinct : (src : ℕ) (rows : List (ℕ × ℕ)) → Distinct rows → Distinct (count_up src rows)
unfolding count_up
count_up-Distinct src [] d = tt
count_up-Distinct src ((ip, c) ∷ rows) d =
    ground (arith, count_up-Distinct src rows d.1, contains-count_up ip src rows)

append-Distinct :
    (src : ℕ) (rows : List (ℕ × ℕ))
    → contains src rows ≡ false
    → Distinct rows
    → Distinct (rows ++ ((src, 1) ∷ []))
unfolding contains
append-Distinct src [] new d = (refl, tt)
append-Distinct src ((ip, c) ∷ rows) new d =
    ground (arith, append-Distinct src rows, contains-append ip src rows)

note-Distinct : (src : ℕ) (rows : List (ℕ × ℕ)) → Distinct rows → Distinct (note src rows)
unfolding note
note-Distinct src rows d = elim (Bool-cases (contains src rows)) [
  | inl old ↦ rw old (count_up-Distinct src rows d)
  | inr new ↦ rw new (append-Distinct src rows new d)
]

pub note_all-Distinct :
    (ip : ℕ) (ms : List PktMeta) (rows : List (ℕ × ℕ))
    → Distinct rows
    → Distinct (note_all ip ms rows)
unfolding note_all
note_all-Distinct ip [] rows d = d
note_all-Distinct ip (m ∷ ms) rows d = elim (Bool-cases (m.dst == ip)) [
  | inl hit ↦ rw hit (note_all-Distinct ip ms (note m.src rows) (note-Distinct m.src rows d))
  | inr miss ↦ rw miss (note_all-Distinct ip ms rows d)
]

pub any_over-absent :
    (pol : Policy) (a : ℕ) (rows : List (ℕ × ℕ))
    → contains a rows ≡ false
    → any_over pol a rows ≡ false
unfolding any_over contains
any_over-absent pol a [] h = refl
any_over-absent pol a ((ip, c) ∷ rows) h = ground (arith, any_over-absent pol a rows)

-- An absent address has count 0, which no threshold is below.
any_over-row_count :
    (pol : Policy) (a : ℕ) (rows : List (ℕ × ℕ))
    → Distinct rows
    → any_over pol a rows ≡ over_limit pol (row_count a rows)
unfolding any_over row_count
any_over-row_count pol a [] d = ground arith
any_over-row_count pol a ((ip, c) ∷ rows) d =
    ground (arith, any_over-row_count pol a rows d.1, any_over-absent pol a rows)

module _ (sys : Sys) (dir : Text) (serves : ServesBlackList sys dir) (pol : Policy) where
  open serves use {holds}

  -- The black list holds exactly the addresses of `f`.
  abbrev pub Holds : (ℕ → Bool) → Option (List (ℕ × ℕ) × World sys) → Type 0
  Holds f none = ⊥
  Holds f (some (count_down, w)) = (a : ℕ) → holds w.store a ≡ f a

  pub enforce_holds :
      (now ip c : ℕ) (st : List (ℕ × ℕ) × World sys) (a : ℕ)
      → holds (enforce sys dir now pol (ip, c) st).1.store a
        ≡ (a == ip && over_limit pol c) || holds st.1.store a
  unfolding enforce
  enforce_holds now ip c (rows, w) a = ground (arith, (block_holds sys dir serves w ip).1 a)

  Holds-eq :
      (f g : ℕ → Bool) (o : Option (List (ℕ × ℕ) × World sys))
      → ((a : ℕ) → f a ≡ g a)
      → Holds f o
      → Holds g (o >>= λ st. some st)
  Holds-eq f g none e h = h
  Holds-eq f g (some (rows, w)) e h = λ a. h a ∙ e a

  enforced :
      (now ip c : ℕ) (used : List (ℕ × ℕ)) (st : List (ℕ × ℕ) × World sys) (a : ℕ)
      → any_over pol a used || holds (enforce sys dir now pol (ip, c) st).1.store a
        ≡ any_over pol a ((ip, c) ∷ used) || holds st.1.store a
  unfolding any_over
  enforced now ip c used st a =
      rw (enforce_holds now ip c st a) (or_swap (any_over pol a used) _ (holds st.1.store a))

  pub each_row_holds :
      (clock : ℕ → ℕ) (used free : List (ℕ × ℕ)) (st : List (ℕ × ℕ) × World sys)
      → Holds
          (λ a. any_over pol a used || holds st.1.store a)
          (each_row sys dir clock pol (length used) (used ++ free) st)
  unfolding each_row any_over
  each_row_holds clock [] free st = λ a. refl
  each_row_holds clock ((ip, c) ∷ used) free st =
      same
        (each_row sys dir clock pol (length used) (used ++ free)
          (enforce sys dir (clock (length used)) pol (ip, c) st))
        (each_row_holds clock used free (enforce sys dir (clock (length used)) pol (ip, c) st))
    where
      same :
          (o : Option (List (ℕ × ℕ) × World sys))
          → Holds
              (λ a.
                any_over pol a used
                || holds (enforce sys dir (clock (length used)) pol (ip, c) st).1.store a)
              o
          → Holds (λ a. any_over pol a ((ip, c) ∷ used) || holds st.1.store a) o
      same none h = h
      same (some (rows, w)) h = λ a. h a ∙ enforced (clock (length used)) ip c used st a

  blocks_rows :
      (clock : ℕ → ℕ → ℕ) (queue : List PktMeta) (used : List (ℕ × ℕ))
      (st : List (ℕ × ℕ) × World sys)
      → used ≡ note_all pol.ip queue []
      → (o : Option (ℕ × List PolicyStatsIp)) → FillsOne used 100 o
      → Holds
          (λ a. over_limit pol (sent pol.ip a queue % 2 ^ 32) || holds st.1.store a)
          (o >>= λ r. each_table sys dir clock (pol ∷ []) r.1 st)
  unfolding each_table row_count
  blocks_rows clock queue used st e none f = absurd f
  blocks_rows clock queue used st e (some (num, [])) f = absurd f
  blocks_rows clock queue used st e (some (num, psi ∷ [])) f = rw f.1.1 (
      Holds-eq _ _ (each_row sys dir (clock 0) pol (length used) (used ++ f.1.0) st) exact
        (each_row_holds (clock 0) used f.1.0 st))
    where
      exact :
          (a : ℕ)
          → any_over pol a used || holds st.1.store a
            ≡ over_limit pol (sent pol.ip a queue % 2 ^ 32) || holds st.1.store a
      exact a =
          ap (λ (b : Bool). b || holds st.1.store a)
            (any_over-row_count pol a used (rw e (note_all-Distinct pol.ip queue [] tt))
              ∙ ap (λ (n : ℕ). over_limit pol n)
                  (rw e (row_count-note_all pol.ip a queue [] (omega arith) ∙ omega arith)))
  blocks_rows clock queue used st e (some (num, psi ∷ more ∷ psis)) f = absurd f

  -- In a system that serves the black list, `detect_attackers` with this one policy, a table of 100
  -- rows of any content and at most 100 sources in the queue ends inside its arrays. Afterwards an
  -- address is blocked if and only if it was blocked before, or the number of its packets to the
  -- policy's address, modulo 2^32, is above the threshold.
  pub detect_attackers_blocks :
      (clock : ℕ → ℕ → ℕ) (queue : List PktMeta) (junk : PolicyStatsIp)
      (st : List (ℕ × ℕ) × World sys)
      → length junk.slots ≡ 100
      → length (note_all pol.ip queue []) ≤ 100
      → Holds
          (λ a. over_limit pol (sent pol.ip a queue % 2 ^ 32) || holds st.1.store a)
          (detect_attackers sys dir clock (pol ∷ []) queue (junk ∷ []) st)
  unfolding detect_attackers
  detect_attackers_blocks clock queue junk st rows sources =
      blocks_rows clock queue (note_all pol.ip queue []) st refl
        (count_packets queue (pol ∷ []) (junk ∷ []))
        (count_packets-note_all pol queue junk rows sources)
