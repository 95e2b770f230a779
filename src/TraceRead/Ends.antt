-- ===== src/TraceRead/Ends.antt =====
-- main/trace_read.c: every round of the loop takes characters off the line, so it ends.
use anti_dos.Base.{
  ℕ, zero, suc, ◌≤◌, ◌<◌, ◌≡◌, ◌≢◌, List, [], ◌∷◌, ◌++◌, Option, none, some, leb, length, arith,
  Bool-cases, Option-cases, inl, inr, Whenever, Whenever-some, Whenever->>=,
}
use mathlib.Core.Option
use anti_dos.Maps.Kernel.{Text}
use anti_dos.TraceRead.{
  Out, src, dst, skip, cut, strtok, starts, action_key, src_key, dst_key, Vars, put_action,
  action_size, scan_word, on_action, on_address, on_reason, body, Outcome, printed, crashed,
  out_of_fuel, after, tokens, read_line, read_lines, print_ip_addr,
}

length-skip-le : (d : ℕ) (s : Text) → length (skip d s) ≤ length s
unfolding skip
length-skip-le d [] = omega arith
length-skip-le d (c ∷ cs) = ground (arith, length-skip-le d cs)

length-cut-le : (d : ℕ) (s : Text) → length (cut d s).1 ≤ length s
unfolding cut
length-cut-le d [] = omega arith
length-cut-le d (c ∷ cs) = ground (arith, length-cut-le d cs)

-- What is left behind a token is shorter.
abbrev pub Shorter : ℕ → Option (Text × Text) → Type 0
Shorter n o = Whenever (λ t. length t.1 < n) o

pub strtok-Shorter : (d : ℕ) (s : Text) → Shorter (length s) (strtok d s)
unfolding strtok cut
strtok-Shorter d s = from (skip d s) (length-skip-le d s)
  where
    from :
        (r : Text)
        → length r ≤ length s
        → Shorter
            (length s)
            (elim r as (λ _. Option (Text × Text)) [ [] ↦ none | c ∷ cs ↦ some (cut d (c ∷ cs)) ])
    from [] h = tt
    from (c ∷ cs) h = ground (arith, length-cut-le d cs)

-- At most `n` characters are left.
abbrev pub Left : ℕ → Option Vars → Type 0
Left n o = Whenever (λ v. length v.rest ≤ n) o

put_action-Left :
    (v : Vars) (n : ℕ) (o : Option (Text × Text)) → Shorter n o → Left n (put_action v o)
unfolding put_action
put_action-Left v n none h = tt
put_action-Left v n (some (tok, rest)) h =
    elim (Bool-cases (leb action_size (length (scan_word tok)))) [
      | inl long ↦ rw long tt
      | inr fits ↦ rw fits (omega arith)
    ]

Left-le : (m n : ℕ) (o : Option Vars) → m ≤ n → Left m o → Left n o
Left-le m n none le h = tt
Left-le m n (some v) le h = omega arith

Shorter-map :
    (n : ℕ) (o : Option (Text × Text)) (v : Vars) (out : Text → List Out)
    → Shorter n o
    → Left n (Option.map (λ t. record v { tok = t.0; rest = t.1; outs = v.outs ++ out t.0 }) o)
Shorter-map n none v out h = tt
Shorter-map n (some t) v out h = omega arith

after-ends :
    (o : Outcome) (next : Text → List Out → Outcome)
    → o ≢ out_of_fuel
    → ((act : Text) (outs : List Out) → next act outs ≢ out_of_fuel)
    → after o next ≢ out_of_fuel
after-ends (printed act outs) next h k = k act outs
after-ends crashed next h k = h
after-ends out_of_fuel next h k = h

module _ (scan_u : Text → Option ℕ) where
  on_action-Left : (v : Vars) → Left (length v.rest) (on_action scan_u v)
  unfolding on_action
  on_action-Left v = elim (Bool-cases (starts action_key v.tok)) [
    | inl hit ↦ rw hit (put_action-Left v _ (strtok b',' v.rest) (strtok-Shorter b',' v.rest))
    | inr miss ↦ rw miss (omega arith)
  ]

  on_address-Left :
      (key : Text) (out : ℕ → Out) (v : Vars) → Left (length v.rest) (on_address scan_u key out v)
  unfolding on_address
  on_address-Left key out v = elim (Bool-cases (starts key v.tok)) [
    | inl hit ↦ rw hit (
        Shorter-map _ (strtok b' ' v.rest) v (print_ip_addr scan_u out)
          (strtok-Shorter b' ' v.rest))
    | inr miss ↦ rw miss (omega arith)
  ]

  on_reason-rest : (v : Vars) → length (on_reason scan_u v).rest ≡ length v.rest
  unfolding on_reason
  on_reason-rest v = ground arith

  body-Left : (v : Vars) → Left (length v.rest) (body scan_u v)
  unfolding body
  body-Left v = Whenever->>= _ _ (on_action scan_u v) _ (on_action-Left v) (λ a h.
      Whenever->>= _ _ (on_address scan_u src_key src a) _
        (Left-le _ (length v.rest) _ h (on_address-Left src_key src a))
        (λ s h'.
          Whenever->>= _ _ (on_address scan_u dst_key dst s) _
            (Left-le _ (length v.rest) _ h' (on_address-Left dst_key dst s))
            (λ d h''. omega (arith, on_reason-rest d))))

  tokens_end :
      (fuel : ℕ) (act : Text) (outs : List Out) (rest : Text)
      → length rest < fuel
      → tokens scan_u fuel act outs rest ≢ out_of_fuel
  unfolding tokens
  tokens_end zero act outs rest h = absurd (omega arith)
  tokens_end (suc fuel) act outs rest h = elim (Option-cases (strtok b' ' rest)) [
    | inl none_left ↦ ground (arith, none_left)
    | inr ((tok, rest'), e) ↦
        let v : Vars = record { act = act; tok = tok; rest = rest'; outs = outs } in
        let shorter = Whenever-some _ _ (tok, rest') e (strtok-Shorter b' ' rest) in
        elim (Option-cases (body scan_u v)) [
          | inl crash ↦ ground (arith, e, crash)
          | inr (v', e') ↦
              let left = Whenever-some _ _ v' e' (body-Left v) in
              ground (arith, e, e', tokens_end fuel v'.act v'.outs v'.rest (omega arith))
        ]
  ]

  read_line_ends :
      (act : Text) (outs : List Out) (line : Text) → read_line scan_u act outs line ≢ out_of_fuel
  unfolding read_line
  read_line_ends act outs line =
      ground (arith, tokens_end (suc (length line)) act outs line (omega arith))

  -- The program never loops for ever in a line: over any lines, what is read, and whatever `action`
  -- holds, all of them are printed or the program has crashed in one.
  pub read_lines_end :
      (lines : List Text) (act : Text) (outs : List Out)
      → read_lines scan_u lines act outs ≢ out_of_fuel
  unfolding read_lines
  read_lines_end [] act outs = ground arith
  read_lines_end (line ∷ lines) act outs =
      after-ends (read_line scan_u act outs line) _ (read_line_ends act outs line)
        (λ act' outs'. read_lines_end lines act' outs')
