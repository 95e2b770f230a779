-- ===== src/Policy/Load/Lines.antt =====
-- main/start_policy.c: what `load_policy` makes of a file, line by line.
use mathlib.Core.Option
use anti_dos.Base.{
  ℕ, zero, suc, ◌≤◌, ◌<◌, ◌≡◌, refl, ap, sym, ◌∙◌, ◌>>=◌, List, [], ◌∷◌, Option, none, some, map,
  All, length, arith,
}
use anti_dos.Policy.{Policy}
use anti_dos.Maps.Kernel.{Text}
use anti_dos.Policy.Load.{
  Scanned, Vars, eof, nothing, three, to_policy, load_rest, load_policy, load_first, put_fields,
}

module _ {File : Type 0} (scan : File → Scanned × File) (inet_pton : Text → Option ℕ) where
  -- `file` begins with these well-formed lines, and `end` is behind them.
  unfoldable pub Begins : List Vars → File → File → Type 0
  Begins [] file end = file ≡ end
  Begins (v ∷ vs) file end =
      (next : File) × (scan file ≡ (three v.id v.ip v.threshold, next)) × Begins vs next end

  -- Every address fits `ip[20]`.
  unfoldable pub Fits : List Vars → Type 0
  Fits vs = All (λ v. length v.ip < 20) vs

  rest_lines :
      (room : ℕ) (vs : List Vars) (v : Vars) (file end : File)
      → Begins vs file end
      → (scan end).0 ≡ eof
      → Fits vs
      → length vs ≤ room
      → load_rest scan inet_pton room v file ≡ some (map (to_policy inet_pton) vs)
  unfolding load_rest put_fields Begins Fits
  rest_lines zero [] v file end b e f r = ground (arith, ap (λ x. (scan x).0) b, e)
  rest_lines (suc n) [] v file end b e f r = ground (arith, ap (λ x. (scan x).0) b, e)
  rest_lines zero (u ∷ us) v file end b e f r = absurd (omega arith)
  rest_lines (suc n) (u ∷ us) v file end (next, s, b) e f r =
      ground (arith, s, f.0, rest_lines n us u next end b e f.1 (omega arith))

  rest_stuck :
      (room : ℕ) (vs : List Vars) (v : Vars) (file end : File)
      → Begins vs file end
      → scan end ≡ (nothing, end)
      → Fits vs
      → load_rest scan inet_pton room v file ≡ none
  unfolding load_rest put_fields Begins Fits
  rest_stuck zero [] v file end b e f = ground (arith, ap (λ x. (scan x).0) b, e)
  rest_stuck (suc n) [] v file end b e f =
      ground (arith, ap scan b, e, rest_stuck n [] v end end refl e f)
  rest_stuck zero (u ∷ us) v file end (next, s, b) e f = ground (arith, s)
  rest_stuck (suc n) (u ∷ us) v file end (next, s, b) e f =
      ground (arith, s, f.0, rest_stuck n us u next end b e f.1)

  -- One round, with its entry and what the other rounds append.
  abbrev round : ℕ → Vars → Vars → File → Option (List Policy)
  round n v u next = do
    v' ← put_fields (three u.id u.ip u.threshold) v
    ps ← load_rest scan inet_pton n v' next
    some (to_policy inet_pton v' ∷ ps)

  rest-round :
      (n : ℕ) (v u : Vars) (file next : File)
      → scan file ≡ (three u.id u.ip u.threshold, next)
      → load_rest scan inet_pton (suc n) v file ≡ round n v u next
  unfolding load_rest
  rest-round n v u file next s = rw (load_rest, s) (ap (round n v u) (ap (λ x. x.1) s))

  first-round :
      (v u : Vars) (file next : File)
      → scan file ≡ (three u.id u.ip u.threshold, next)
      → load_first scan inet_pton v file ≡ round 9 v u next
  unfolding load_first
  first-round v u file next s = rw (load_first, s) (ap (round 9 v u) (ap (λ x. x.1) s))

  first-rest :
      (v u : Vars) (file next : File)
      → scan file ≡ (three u.id u.ip u.threshold, next)
      → load_first scan inet_pton v file ≡ load_rest scan inet_pton 10 v file
  first-rest v u file next s = first-round v u file next s ∙ sym (rest-round 9 v u file next s)

  -- A file of ten lines at most, each with an identifier, an address that fits the buffer and a
  -- threshold, is loaded: the result is 0, and the policies are the lines, in order.
  pub load_policy_lem :
      (vs : List Vars) (junk : Vars) (file end : File)
      → Begins vs file end
      → (scan end).0 ≡ eof
      → Fits vs
      → length vs ≤ 10
      → load_policy scan inet_pton junk (some file) ≡ some (0, map (to_policy inet_pton) vs)
  unfolding load_policy load_first put_fields Begins Fits
  load_policy_lem [] junk file end b e f r = ground (arith, ap (λ x. (scan x).0) b, e)
  load_policy_lem (u ∷ us) junk file end (next, s, b) e f r =
      ap (Option.map (λ ps. (0, ps)))
        (first-rest junk u file next s ∙ rest_lines 10 (u ∷ us) junk file end (next, s, b) e f r)

  -- If a line after the first does not begin with a number, `fscanf` returns 0 and reads nothing,
  -- and the loop, which waits for `EOF`, fills `list_policy` to its end and writes past it.
  pub load_policy_stuck :
      (v : Vars) (vs : List Vars) (junk : Vars) (file end : File)
      → Begins (v ∷ vs) file end
      → scan end ≡ (nothing, end)
      → Fits (v ∷ vs)
      → load_policy scan inet_pton junk (some file) ≡ none
  unfolding load_policy Begins
  load_policy_stuck v vs junk file end (next, s, b) e f =
      ap (Option.map (λ ps. (0, ps)))
        (first-rest junk v file next s ∙ rest_stuck 10 (v ∷ vs) junk file end (next, s, b) e f)
