-- ===== src/Policy/Table/Clean.antt =====
-- main/start_policy.c: a table that agrees with a list of rows on one address keeps agreeing, also
-- where rows of its memory come into use.
use anti_dos.Base.{
  ℕ, ◌^◌, ◌<◌, ◌≡◌, refl, sym, ◌∙◌, true, false, List, [], ◌∷◌, ◌++◌, ◌==◌, arith, Bool-cases, inl,
  inr,
}
use mathlib.Core.Path.{subst}
use anti_dos.Policy.Table.Rows.{
  contains, count_up, note, row_count, contains-count_up, contains-append, row_count-count_up,
  row_count-append, row_count-note,
}
use anti_dos.Policy.Table.Single.{
  contains-++, contains-note, row_count-++, Single, Single-++, Single-count_up, Single-append,
}

-- The rows of a table agree with the list `U` on the address `a`, which no free row holds.
pub record Clean (a : ℕ) (U rows free : List (ℕ × ℕ)) : Type 0 where
  pub unwritten : contains a free ≡ false
  pub listed : contains a rows ≡ contains a U
  pub counted : row_count a rows ≡ row_count a U
  pub fits : row_count a U < 2 ^ 32
  pub single : Single a rows

module _ (a : ℕ) where
  -- More free rows are in use.
  pub padded :
      (U rows pad free : List (ℕ × ℕ)) → Clean a U rows (pad ++ free) → Clean a U (rows ++ pad) free
  padded U rows pad free c =
      let absent : (contains a pad ≡ false) × (contains a free ≡ false) =
        ground (arith, contains-++ a pad free, c.unwritten) in
      record {
        unwritten = absent.1;
        listed = ground (arith, contains-++ a rows pad, absent, c.listed);
        counted = row_count-++ a rows pad absent.0 ∙ c.counted;
        fits = c.fits;
        single = Single-++ a rows pad absent.0 c.single;
      }

  pub Clean-count_up :
      (src : ℕ) (U rows free : List (ℕ × ℕ))
      → contains src rows ≡ true
      → Clean a U rows free
      → Clean a (note src U) (count_up src rows) free
  Clean-count_up src U rows free old c = record {
    unwritten = c.unwritten;
    listed =
        ground
          (arith, contains-count_up a src rows, contains-note a src U, c.listed, old, same_row);
    counted =
        row_count-count_up a src rows old (omega (arith, c.counted, c.fits))
        ∙ ground (arith, c.counted, row_count-note a src U c.fits);
    fits = ground (arith, row_count-note a src U c.fits);
    single = Single-count_up a src rows c.single;
  }
    where
      same_row : (a == src) ≡ true → contains a rows ≡ true
      same_row h = let e : src ≡ a = ground (arith, h) in subst (λ x. contains x rows ≡ true) e old

  Clean-append :
      (src : ℕ) (U rows free : List (ℕ × ℕ))
      → contains src rows ≡ false
      → Clean a U rows free
      → Clean a (note src U) (rows ++ ((src, 1) ∷ [])) free
  Clean-append src U rows free new c = record {
    unwritten = c.unwritten;
    listed = ground (arith, contains-append a src rows, contains-note a src U, c.listed);
    counted =
        row_count-append a src rows new (omega (arith, c.counted, c.fits))
        ∙ ground (arith, c.counted, row_count-note a src U c.fits);
    fits = ground (arith, row_count-note a src U c.fits);
    single = Single-append a src rows new c.single;
  }

  -- A row of another source.
  Clean-other :
      (src : ℕ) (U rows free : List (ℕ × ℕ))
      → (a == src) ≡ false
      → Clean a U rows free
      → Clean a (note src U) (rows ++ ((src, 1) ∷ [])) free
  unfolding contains
  Clean-other src U rows free other c =
      let absent : contains a ((src, 1) ∷ []) ≡ false = rw other refl in
      record {
        unwritten = c.unwritten;
        listed = ground (arith, contains-append a src rows, contains-note a src U, c.listed, other);
        counted =
            row_count-++ a rows ((src, 1) ∷ []) absent
            ∙ ground (arith, c.counted, row_count-note a src U c.fits, other, c.fits);
        fits = ground (arith, row_count-note a src U c.fits);
        single = Single-++ a rows ((src, 1) ∷ []) absent c.single;
      }

  pub Clean-new :
      (src : ℕ) (U rows pad free : List (ℕ × ℕ)) (f : ℕ × ℕ)
      → contains src rows ≡ false
      → Clean a U rows (pad ++ (f ∷ free))
      → Clean a (note src U) ((rows ++ pad) ++ ((src, 1) ∷ [])) free
  unfolding contains
  Clean-new src U rows pad free f new c =
      let p = padded U rows pad (f ∷ free) c in
      let q : Clean a U (rows ++ pad) free = record {
        unwritten = ground (arith, p.unwritten);
        listed = p.listed;
        counted = p.counted;
        fits = p.fits;
        single = p.single;
      } in
      elim (Bool-cases (a == src)) [
        | inr other ↦ Clean-other src U (rows ++ pad) free other q
        | inl same ↦ Clean-append src U (rows ++ pad) free (nowhere same) q
      ]
    where
      nowhere : (a == src) ≡ true → contains src (rows ++ pad) ≡ false
      nowhere same =
          let e : a ≡ src = ground (arith, same) in
          subst (λ x. contains x (rows ++ pad) ≡ false) e
            (ground (
              arith,
              contains-++ a rows pad,
              contains-++ a pad (f ∷ free),
              c.unwritten,
              subst (λ x. contains x rows ≡ false) (sym e) new,
            ))
