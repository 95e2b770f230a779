-- ===== src/TraceRead.antt =====
-- main/trace_read.c: the fields of each line of the trace pipe, word by word. A line is its
-- characters up to the final 0. `strtok_r` is modelled with the text that `saveptr` points to.
pub mod Ends
pub mod Fields
use anti_dos.Base.{
  ℕ, zero, suc, Bool, true, false, ◌&&◌, ◌||◌, List, [], ◌∷◌, ◌++◌, Option, none, some, ◌==◌, leb,
  length, if◌then◌else◌, ◌>>=◌,
}
use mathlib.Core.Option
use anti_dos.Maps.Kernel.{Text}

-- What is printed, `src` and `dst` by the number that `inet_ntop` is given.
pub data Out : Type 0 where
  action : Text → Out
  src : ℕ → Out
  dst : ℕ → Out
  reason : Text → Out
  newline : Out

-- `strtok_r`: leading delimiters are skipped; what follows is cut at the next one.
unfoldable pub skip : ℕ → Text → Text
skip d [] = []
skip d (c ∷ cs) = elim (c == d) [ true ↦ skip d cs | false ↦ c ∷ cs ]

unfoldable pub cut : ℕ → Text → Text × Text
cut d [] = ([], [])
cut d (c ∷ cs) = let rest = cut d cs in if c == d then ([], cs) else (c ∷ rest.0, rest.1)

unfoldable pub strtok : ℕ → Text → Option (Text × Text)
unfolding skip cut
strtok d s = elim (skip d s) [ [] ↦ none | c ∷ cs ↦ some (cut d (c ∷ cs)) ]

-- `!strncmp(tok, key, n)`, with the first `n` characters of the key.
unfoldable pub starts : Text → Text → Bool
starts [] tok = true
starts (k ∷ ks) [] = false
starts (k ∷ ks) (c ∷ cs) = (k == c) && starts ks cs

-- "actio", "src:", "dst:", "reason"
abbrev pub action_key : Text
action_key = b'a' ∷ b'c' ∷ b't' ∷ b'i' ∷ b'o' ∷ []

abbrev pub src_key : Text
src_key = b's' ∷ b'r' ∷ b'c' ∷ b':' ∷ []

abbrev pub dst_key : Text
dst_key = b'd' ∷ b's' ∷ b't' ∷ b':' ∷ []

abbrev pub reason_key : Text
reason_key = b'r' ∷ b'e' ∷ b'a' ∷ b's' ∷ b'o' ∷ b'n' ∷ []

abbrev pub is_space : ℕ → Bool
is_space c = (c == 32) || (leb 9 c && leb c 13)

-- The word that `%s` reads.
unfoldable pub word : Text → Text
word [] = []
word (c ∷ cs) = let rest = word cs in if is_space c then [] else c ∷ rest

unfoldable pub scan_word : Text → Text
unfolding word
scan_word [] = []
scan_word (c ∷ cs) = elim (is_space c) [ true ↦ scan_word cs | false ↦ word (c ∷ cs) ]

abbrev pub action_size : ℕ
action_size = 6

-- The variables of the loop: `action`, `tok` and what `saveptr` points to; and what was printed.
pub record Vars : Type 0 where
  pub act : Text
  pub tok : Text
  pub rest : Text
  pub outs : List Out

-- If no word was read, `action` keeps what it held.
abbrev pub or_stale : Text → Text → Text
or_stale act [] = act
or_stale act (c ∷ cs) = c ∷ cs

-- `sscanf(tok, "%s", action)`, and what is printed behind it, whether or not a word was read.
-- `none` is a crash: `strtok_r` gave NULL and it is read, or a word does not fit `action`.
unfoldable pub put_action : Vars → Option (Text × Text) → Option Vars
unfolding scan_word
put_action v none = none
put_action v (some (tok, rest)) =
    let w = scan_word tok in
    if leb action_size (length w)
    then none
    else some (record {
      act = or_stale v.act w;
      tok = tok;
      rest = rest;
      outs = v.outs ++ (action (or_stale v.act w) ∷ []);
    })

-- What became of a line: `action` and the output.
pub data Outcome : Type 0 where
  printed : Text → List Out → Outcome
  crashed : Outcome
  out_of_fuel : Outcome

-- What comes behind it, unless the process has crashed.
abbrev pub after : Outcome → (Text → List Out → Outcome) → Outcome
after (printed act outs) next = next act outs
after crashed next = crashed
after out_of_fuel next = out_of_fuel

module _ (scan_u : Text → Option ℕ) where
  -- The whole `if` of "action:"; a token of blanks leaves `action` as it is, and it is printed.
  unfoldable pub on_action : Vars → Option Vars
  unfolding strtok starts put_action
  on_action v = if starts action_key v.tok then put_action v (strtok b',' v.rest) else some v

  -- `print_ip_addr`
  abbrev pub print_ip_addr : (ℕ → Out) → Text → List Out
  print_ip_addr key value = elim (scan_u value) [ none ↦ [] | some addr ↦ key addr ∷ [] ]

  -- The `if` of "src:" or of "dst:".
  unfoldable pub on_address : Text → (ℕ → Out) → Vars → Option Vars
  unfolding strtok starts
  on_address key out v =
      if starts key v.tok
      then Option.map
          (λ t. record v { tok = t.0; rest = t.1; outs = v.outs ++ print_ip_addr out t.0 })
          (strtok b' ' v.rest)
      else some v

  unfoldable pub on_reason : Vars → Vars
  unfolding starts
  on_reason v =
      if starts reason_key v.tok then record v { outs = v.outs ++ (reason v.rest ∷ []) } else v

  -- The body of the loop over the tokens.
  unfoldable pub body : Vars → Option Vars
  unfolding on_action on_address on_reason
  body v = do
    a ← on_action v
    s ← on_address src_key src a
    d ← on_address dst_key dst s
    some (on_reason d)

  -- `while (tok)`, with fuel: each round takes a token off the rest.
  unfoldable pub tokens : ℕ → Text → List Out → Text → Outcome
  unfolding body
  tokens zero act outs rest = out_of_fuel
  tokens (suc fuel) act outs rest = elim (strtok b' ' rest) [
    | none ↦ printed act outs
    | some (tok, rest') ↦ elim (body (record { act = act; tok = tok; rest = rest'; outs = outs })) [
      | none ↦ crashed
      | some v ↦ tokens fuel v.act v.outs v.rest
    ]
  ]

  -- One line, and the end of its line of output.
  unfoldable pub read_line : Text → List Out → Text → Outcome
  unfolding tokens
  read_line act outs line =
      after (tokens (suc (length line)) act outs line)
        (λ act' outs'. printed act' (outs' ++ (newline ∷ [])))

  -- The lines that `getline` gives.
  unfoldable pub read_lines : List Text → Text → List Out → Outcome
  unfolding read_line
  read_lines [] act outs = printed act outs
  read_lines (line ∷ lines) act outs =
      after (read_line act outs line) (λ act' outs'. read_lines lines act' outs')
