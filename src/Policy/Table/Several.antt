-- ===== src/Policy/Table/Several.antt =====
-- main/start_policy.c: the counting loop with any number of policies. They share the variable
-- `num_ip`, so a table counts rows as used that were never written.
use anti_dos.Base.{
  ℕ, ◌+◌, ◌-◌, ◌≤◌, ◌≡◌, refl, true, false, ◌||◌, List, [], ◌∷◌, ◌++◌, Option, some, ◌==◌, length,
  take, drop, length-append, take-append-drop, length-take, arith, Bool-cases, inl, inr, ◌⊎◌,
}
use mathlib.Core.Path.{subst}
use mathlib.Core.List.{append_assoc}
use anti_dos.Policy.{PolicyStatsIp}
use anti_dos.Policy.Table.{store, visit}
use anti_dos.Policy.Table.Rows.{
  contains, count_up, count_up_absent, note, contains-count_up, contains-append, length-count_up,
  length-note_new, length-note-le,
}
use anti_dos.Policy.Table.Fills.{table, scan-append, store-append}
use anti_dos.Policy.Table.Clean.{Clean, padded, Clean-count_up, Clean-new}
use anti_dos.Policy.Table.Single.{contains-++, contains-note}

-- The rows in use hold every source of `U`, and they agree with `U` on `a` if the memory did not
-- hold `a`, which is `P`.
pub record Tab (a : ℕ) (P : Type 0) (U : List (ℕ × ℕ)) (num : ℕ) (psi : PolicyStatsIp)
    : Type 0 where
  pub rows : List (ℕ × ℕ)
  pub free : List (ℕ × ℕ)
  pub is_table : psi ≡ table rows free
  pub size : length rows + length free ≡ 100
  pub below : length rows ≤ num
  pub known : (x : ℕ) → contains x U ≡ true → contains x rows ≡ true
  pub clean : P → Clean a U rows free

module _ (a : ℕ) (P : Type 0) where
  -- What a packet of `src` makes of a table with the rows `U`: `num_ip` grows for a new source only.
  abbrev pub Visited : ℕ → List (ℕ × ℕ) → ℕ → Option (ℕ × PolicyStatsIp) → Type 0
  Visited src U num o =
      (num' : ℕ) × (psi' : PolicyStatsIp) × (o ≡ some (num', psi'))
      × Tab a P (note src U) num' psi'
      × (num ≤ num')
      × (num' + length U ≤ num + length (note src U))

  known-note :
      (src : ℕ) (U rows rows' : List (ℕ × ℕ))
      → ((x : ℕ) → contains x U ≡ true → contains x rows ≡ true)
      → ((x : ℕ) → contains x rows || x == src ≡ true → contains x rows' ≡ true)
      → (x : ℕ) → contains x (note src U) ≡ true
      → contains x rows' ≡ true
  known-note src U rows rows' k more x h = more x (ground (arith, h, contains-note x src U, k x))

  -- A source that some used row holds, with `num` reaching beyond these rows.
  visit_old :
      (src : ℕ) (U rows pad free : List (ℕ × ℕ))
      → length rows + length (pad ++ free) ≡ 100
      → ((x : ℕ) → contains x U ≡ true → contains x rows ≡ true)
      → (P → Clean a U rows (pad ++ free))
      → contains src rows ≡ true
      → Visited src U
          (length rows + length pad)
          (visit src (length rows + length pad) (table rows (pad ++ free)))
  unfolding visit
  visit_old src U rows pad free size known clean old =
      let rows' = count_up src rows in
      let len : length (rows' ++ pad) ≡ length rows + length pad =
        omega (arith, length-append rows' pad, length-count_up src rows) in
      (
        length rows + length pad,
        record { slots = rows' ++ (pad ++ free); num_ip = length rows + length pad },
        rw (scan-append src rows (pad ++ free), old) refl,
        record {
          rows = rows' ++ pad;
          free = free;
          is_table = ground (arith, append_assoc rows' pad free, len);
          size = omega (arith, len, length-append pad free);
          below = omega (arith, len);
          known = known-note src U rows (rows' ++ pad) known (λ x h.
              ground (arith, h, contains-++ x rows' pad, contains-count_up x src rows, same_row x));
          clean = λ p.
              padded a (note src U) rows' pad free
                (Clean-count_up a src U rows (pad ++ free) old (clean p));
        },
        omega arith,
        omega (arith, length-note-le src U),
      )
    where
      same_row : (x : ℕ) → (x == src) ≡ true → contains x rows ≡ true
      same_row x h =
          let e : src ≡ x = ground (arith, h) in subst (λ y. contains y rows ≡ true) e old

  -- A source that no used row holds takes the row behind `num`.
  visit_new :
      (src : ℕ) (U rows pad : List (ℕ × ℕ)) (f : ℕ × ℕ) (free : List (ℕ × ℕ))
      → length rows + length (pad ++ (f ∷ free)) ≡ 100
      → ((x : ℕ) → contains x U ≡ true → contains x rows ≡ true)
      → (P → Clean a U rows (pad ++ (f ∷ free)))
      → contains src rows ≡ false
      → Visited src U
          (length rows + length pad)
          (visit src (length rows + length pad) (table rows (pad ++ (f ∷ free))))
  unfolding visit
  visit_new src U rows pad f free size known clean new =
      let used = rows ++ pad in
      let rows' = used ++ ((src, 1) ∷ []) in
      let num = length rows + length pad in
      let len : length used ≡ num = length-append rows pad in
      let len' : length rows' ≡ num + 1 = omega (arith, length-append used ((src, 1) ∷ []), len) in
      let stored : store num (src, 1) (rows ++ (pad ++ (f ∷ free)))
          ≡ some (used ++ ((src, 1) ∷ free)) =
        ground (arith, store-append (src, 1) f used free, len, append_assoc rows pad (f ∷ free)) in
      let missing : contains src U ≡ false = ground (arith, new, known src) in
      (
        num + 1,
        record { slots = used ++ ((src, 1) ∷ free); num_ip = num + 1 },
        rw (scan-append src rows (pad ++ (f ∷ free)), new, count_up_absent src rows new, stored)
            refl,
        record {
          rows = rows';
          free = free;
          is_table = ground (arith, append_assoc used ((src, 1) ∷ []) free, len');
          size = omega (arith, len', length-append pad (f ∷ free));
          below = omega (arith, len');
          known =
              known-note src U rows rows' known
                (λ x h. ground (arith, h, contains-append x src used, contains-++ x rows pad));
          clean = λ p. Clean-new a src U rows pad free f new (clean p);
        },
        omega arith,
        omega (arith, length-note_new src U missing),
      )

  visit_either :
      (src num : ℕ) (U rows pad free : List (ℕ × ℕ))
      → num ≡ length rows + length pad
      → num + length (note src U) ≤ 100 + length U
      → length rows + length (pad ++ free) ≡ 100
      → ((x : ℕ) → contains x U ≡ true → contains x rows ≡ true)
      → (P → Clean a U rows (pad ++ free))
      → (contains src rows ≡ true) ⊎ (contains src rows ≡ false)
      → Visited src U num (visit src num (table rows (pad ++ free)))
  visit_either src num U rows pad free e room size known clean (inl old) =
      rw e (visit_old src U rows pad free size known clean old)
  visit_either src num U rows pad [] e room size known clean (inr new) =
      let missing : contains src U ≡ false = ground (arith, new, known src) in
      absurd (omega (arith, length-note_new src U missing, length-append pad []))
  visit_either src num U rows pad (f ∷ free) e room size known clean (inr new) =
      rw e (visit_new src U rows pad f free size known clean new)

  -- With room for the source, if it is new.
  pub visit-Tab :
      (src num : ℕ) (U : List (ℕ × ℕ)) (psi : PolicyStatsIp)
      → num + length (note src U) ≤ 100 + length U
      → Tab a P U num psi
      → Visited src U num (visit src num psi)
  visit-Tab src num U psi room t =
      let d = num - length t.rows in
      let cut = take-append-drop d t.free in
      let more = length-note-le src U in
      let here =
        visit_either src num U t.rows (take d t.free) (drop d t.free)
          (omega (arith, length-take d t.free (omega (arith, t.size, t.below)), t.below)) room
          (rw cut t.size) t.known (λ p. rw cut (t.clean p)) (Bool-cases (contains src t.rows)) in
      rw t.is_table (subst (λ xs. Visited src U num (visit src num (table t.rows xs))) cut here)
