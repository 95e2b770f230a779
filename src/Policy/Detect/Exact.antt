-- ===== src/Policy/Detect/Exact.antt =====
-- main/start_policy.c: `detect_attackers` with any number of policies. The table of a policy holds
-- what its memory held where another policy's packet moved `num_ip`, so an address that the memory
-- holds may be blocked too.
use anti_dos.Base.{
  ℕ, ◌%◌, ◌^◌, ◌≤◌, ◌≡◌, refl, sym, ◌∙◌, Bool, false, ◌||◌, or_swap, ◌⊎◌, inl, inr, length, List,
  [], ◌∷◌, Option, none, some, ◌>>=◌, arith,
}
use mathlib.Core.Path.{subst}
use anti_dos.Filter.Stats.{PktMeta}
use anti_dos.Maps.Kernel.{Sys, Text}
use anti_dos.Policy.{Policy, PolicyStatsIp, World}
use anti_dos.Policy.BlackList.{ServesBlackList}
use anti_dos.Policy.Table.Rows.{row_count, sent, note_all, row_count-note_all}
use anti_dos.Policy.Table.Single.{Single}
use anti_dos.Policy.Table.Noted.{noted, blank, sources}
use anti_dos.Policy.Table.Every.{Tabs, Stack, Absent, count_packets-Tabs}
use anti_dos.Policy.Detect.{over_limit, each_row, each_table, detect_attackers}
use anti_dos.Policy.Detect.Blocks.{
  any_over, any_over-absent, Holds, each_row_holds, detect_attackers_blocks,
}

-- The address sent one of the policies more than its threshold, counting modulo 2^32.
unfoldable pub violates : List Policy → List PktMeta → ℕ → Bool
violates [] queue a = false
violates (pol ∷ pols) queue a =
    over_limit pol (sent pol.ip a queue % 2 ^ 32) || violates pols queue a

pub any_over-Single :
    (pol : Policy) (a : ℕ) (rows : List (ℕ × ℕ))
    → Single a rows
    → any_over pol a rows ≡ over_limit pol (row_count a rows)
unfolding any_over row_count Single
any_over-Single pol a [] s = ground arith
any_over-Single pol a ((ip, c) ∷ rows) s =
    ground (arith, s, any_over-Single pol a rows s.1, any_over-absent pol a rows)

-- Some list of rows has the address over the limit of its policy.
abbrev pub over : ℕ → List Policy → List (List (ℕ × ℕ)) → Bool
over a [] Us = false
over a (pol ∷ pols) [] = false
over a (pol ∷ pols) (U ∷ Us) = over_limit pol (row_count a U) || over a pols Us

pub over-noted :
    (a : ℕ) (queue : List PktMeta) (pols : List Policy)
    → over a pols (noted queue pols (blank pols)) ≡ violates pols queue a
unfolding violates row_count
over-noted a queue [] = refl
over-noted a queue (pol ∷ pols) =
    let n : row_count a (note_all pol.ip queue []) ≡ sent pol.ip a queue % 2 ^ 32 =
      row_count-note_all pol.ip a queue [] (omega arith) ∙ omega arith in
    rw (n, over-noted a queue pols) refl

-- There is one policy, or no row of the memory holds the address.
abbrev pub Vouched : List Policy → List PolicyStatsIp → ℕ → Type 0
Vouched pols junk a = (length pols ≡ 1) ⊎ Absent a junk

module _ (sys : Sys) (dir : Text) (serves : ServesBlackList sys dir) (clock : ℕ → ℕ → ℕ) where
  open serves use {holds}

  -- There is no fault, and if `P` the black list is right about the address.
  abbrev Done : ℕ → Type 0 → Bool → Option (List (ℕ × ℕ) × World sys) → Type 0
  Done a P b none = ⊥
  Done a P b (some st) = P → holds st.1.store a ≡ b

  module _ (a : ℕ) (P : Type 0) where
    Done-eq :
        (b b' : Bool) (o : Option (List (ℕ × ℕ) × World sys))
        → (P → b ≡ b')
        → Done a P b o
        → Done a P b' o
    Done-eq b b' none e d = d
    Done-eq b b' (some st) e d = λ p. d p ∙ e p

    then_tables :
        (pols : List Policy) (psis : List PolicyStatsIp) (f : ℕ → Bool) (more : Bool) (pol : Policy)
        (o : Option (List (ℕ × ℕ) × World sys))
        → Holds sys dir serves pol f o
        → ((st : List (ℕ × ℕ) × World sys)
            → Done a P (more || holds st.1.store a) (each_table sys dir clock pols psis st))
        → Done a P (more || f a) (o >>= λ st. each_table sys dir clock pols psis st)
    then_tables pols psis f more pol none held rest = held
    then_tables pols psis f more pol (some (rows, w)) held rest =
        subst (λ (b : Bool). Done a P (more || b) (each_table sys dir clock pols psis (rows, w)))
          (held a) (rest (rows, w))

    each_table-Done :
        (pols : List Policy) (Us : List (List (ℕ × ℕ))) (num : ℕ) (psis : List PolicyStatsIp)
        (st : List (ℕ × ℕ) × World sys)
        → Tabs a P pols Us num psis
        → Done a P (over a pols Us || holds st.1.store a) (each_table sys dir clock pols psis st)
    unfolding each_table
    each_table-Done [] [] num [] st t = λ p. refl
    each_table-Done [] [] num (psi ∷ psis) st t = absurd t
    each_table-Done [] (U ∷ Us) num psis st t = absurd t
    each_table-Done (pol ∷ pols) [] num psis st t = absurd t
    each_table-Done (pol ∷ pols) (U ∷ Us) num [] st t = absurd t
    each_table-Done (pol ∷ pols) (U ∷ Us) num (psi ∷ psis) st (t, ts) =
        let o = each_row sys dir (clock (length pols)) pol psi.num_ip psi.slots st in
        let held : Holds sys dir serves pol (λ x. any_over pol x t.rows || holds st.1.store x) o =
          rw t.is_table
            (each_row_holds sys dir serves pol (clock (length pols)) t.rows t.free st) in
        Done-eq _ _ (o >>= λ st'. each_table sys dir clock pols psis st') right (
          then_tables pols psis (λ x. any_over pol x t.rows || holds st.1.store x) (over a pols Us)
            pol o held (λ st'. each_table-Done pols Us num psis st' ts))
      where
        right :
            P
            → over a pols Us || (any_over pol a t.rows || holds st.1.store a)
              ≡ (over_limit pol (row_count a U) || over a pols Us) || holds st.1.store a
        right p =
            let c = t.clean p in
            rw (any_over-Single pol a t.rows c.single, c.counted)
              (or_swap (over a pols Us) (over_limit pol (row_count a U)) (holds st.1.store a))

    detect_attackers-Done :
        (pols : List Policy) (queue : List PktMeta) (junk : List PolicyStatsIp)
        (st : List (ℕ × ℕ) × World sys)
        → Stack pols junk
        → (P → Absent a junk)
        → sources queue pols ≤ 100
        → Done a P
            (violates pols queue a || holds st.1.store a)
            (detect_attackers sys dir clock pols queue junk st)
    unfolding detect_attackers
    detect_attackers-Done pols queue junk st s absent few =
        let (num, psis, e, t, _) = count_packets-Tabs a P queue pols junk s absent few in
        rw (e, sym (over-noted a queue pols))
          (each_table-Done pols (noted queue pols (blank pols)) num psis st t)

  module _ (a : ℕ) where
    held-Done :
        (pol : Policy) (f : ℕ → Bool) (o : Option (List (ℕ × ℕ) × World sys))
        → Holds sys dir serves pol f o
        → Done a Unit (f a) o
    held-Done pol f none h = h
    held-Done pol f (some (rows, w)) h = λ u. h a

    -- With one policy no row is taken for one in use.
    one_policy-Done :
        (pols : List Policy) (queue : List PktMeta) (junk : List PolicyStatsIp)
        (st : List (ℕ × ℕ) × World sys)
        → length pols ≡ 1
        → Stack pols junk
        → sources queue pols ≤ 100
        → Done a Unit
            (violates pols queue a || holds st.1.store a)
            (detect_attackers sys dir clock pols queue junk st)
    unfolding violates sources
    one_policy-Done [] queue junk st one s few = absurd (omega arith)
    one_policy-Done (pol ∷ []) queue [] st one s few = absurd (omega (arith, s.0))
    one_policy-Done (pol ∷ []) queue (psi ∷ []) st one s few =
        Done-eq a Unit _ _ (detect_attackers sys dir clock (pol ∷ []) queue (psi ∷ []) st)
          (λ u. or_none (over_limit pol (sent pol.ip a queue % 2 ^ 32)) (holds st.1.store a))
          (held-Done pol (λ b. over_limit pol (sent pol.ip b queue % 2 ^ 32) || holds st.1.store b)
            (detect_attackers sys dir clock (pol ∷ []) queue (psi ∷ []) st)
            (detect_attackers_blocks sys dir serves pol clock queue psi st s.1.0 (omega arith)))
      where
        or_none : (x y : Bool) → x || y ≡ (x || false) || y
        or_none x y = ground arith
    one_policy-Done (pol ∷ []) queue (psi ∷ more ∷ psis) st one s few = absurd (omega (arith, s.0))
    one_policy-Done (pol ∷ more ∷ pols) queue junk st one s few = absurd (omega arith)

  -- The call ends, and the black list is right about every address that is vouched for.
  abbrev pub Right :
      List Policy
      → List PktMeta
      → List PolicyStatsIp
      → List (ℕ × ℕ) × World sys
      → Option (List (ℕ × ℕ) × World sys)
      → Type 0
  Right pols queue junk st none = ⊥
  Right pols queue junk st (some st') =
      (a : ℕ)
      → Vouched pols junk a
      → holds st'.1.store a ≡ violates pols queue a || holds st.1.store a

  right :
      (pols : List Policy) (queue : List PktMeta) (junk : List PolicyStatsIp)
      (st : List (ℕ × ℕ) × World sys) (o : Option (List (ℕ × ℕ) × World sys))
      → Done 0 ⊥ (violates pols queue 0 || holds st.1.store 0) o
      → ((a : ℕ)
          → Vouched pols junk a
          → Done a Unit (violates pols queue a || holds st.1.store a) o)
      → Right pols queue junk st o
  right pols queue junk st none d each = d
  right pols queue junk st (some st') d each = λ a v. each a v tt

  -- With any number of policies, in a system that serves the black list: a table of 100 rows of any
  -- content for each policy, and at most 100 pairs of a policy and a source of packets to it in the
  -- queue. Then `detect_attackers` ends inside its arrays. Afterwards an address is blocked if and
  -- only if it was blocked before, or the number of its packets to some policy's address, modulo
  -- 2^32, is above the threshold of that policy. With several policies this is said of the
  -- addresses that no row of the uninitialised tables held.
  pub detect_attackers_exact :
      (pols : List Policy) (queue : List PktMeta) (junk : List PolicyStatsIp)
      (st : List (ℕ × ℕ) × World sys)
      → Stack pols junk
      → sources queue pols ≤ 100
      → Right pols queue junk st (detect_attackers sys dir clock pols queue junk st)
  detect_attackers_exact pols queue junk st s few =
      right pols queue junk st (detect_attackers sys dir clock pols queue junk st)
        (detect_attackers-Done 0 ⊥ pols queue junk st s (λ p. absurd p) few)
        (λ a v. elim v [
          | inl one ↦ one_policy-Done a pols queue junk st one s few
          | inr absent ↦ detect_attackers-Done a Unit pols queue junk st s (λ u. absent) few
        ])
