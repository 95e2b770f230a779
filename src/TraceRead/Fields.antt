-- ===== src/TraceRead/Fields.antt =====
-- main/trace_read.c against the lines that main/xdp_prog_kern.c and main/common/check_rules.h trace.
use anti_dos.Base.{
  ℕ, suc, ◌≡◌, refl, ap, ◌∙◌, true, false, ◌&&◌, List, [], ◌∷◌, ◌++◌, Option, some, ◌==◌, leb, All,
  arith, codes,
}
use anti_dos.Maps.Kernel.{Text}
use anti_dos.Filter.Rules.{
  Trace, white_listed, black_listed, fragmented_icmp, large_icmp, fragmented_tcp,
}
use anti_dos.TraceRead.{
  Out, action, src, dst, reason, newline, skip, cut, strtok, starts, put_action, scan_word, word,
  Vars, body, on_action, on_address, on_reason, printed, tokens, read_line, print_ip_addr, after,
}

abbrev pub action_text : Trace → Text
action_text (white_listed s d) = codes "PASS"
action_text _ = codes "DROP"

abbrev pub word_text : Trace → Text
word_text (white_listed s d) = codes "reason_1: "
word_text (black_listed s d) = codes "reason_1: "
word_text _ = codes "reason_id: "

abbrev pub why_text : Trace → Text
why_text (white_listed s d) = codes "IP in WHITE LIST" ++ (10 ∷ [])
why_text (black_listed s d) = codes "IP in BLACK LIST" ++ (10 ∷ [])
why_text (fragmented_icmp s d) = codes "Fragmented ICMP Packet" ++ (10 ∷ [])
why_text (large_icmp s d) = codes "Large ICMP Packet" ++ (10 ∷ [])
why_text (fragmented_tcp s d) = codes "Fragmented TCP Packet" ++ (10 ∷ [])

-- The line of `bpf_printk`, with the two addresses as the kernel prints them.
abbrev pub line_of : Trace → Text → Text → Text
line_of t u v =
    codes "action: "
    ++ (action_text t
        ++ (codes ", src: "
            ++ (u ++ (codes ", dst: " ++ (v ++ (codes ", " ++ (word_text t ++ why_text t)))))))

-- Decimal digits.
abbrev pub AllDigits : Text → Type 0
AllDigits u = All (λ c. leb b'0' c && leb c b'9' ≡ true) u

cut-number :
    (u rest : Text) → AllDigits u → cut b' ' (u ++ (codes ", " ++ rest)) ≡ (u ++ codes ",", rest)
unfolding cut
cut-number [] rest h = refl
cut-number (c ∷ u) rest h = ground (arith, h.0, cut-number u rest h.1)

strtok-number :
    (u rest : Text)
    → AllDigits u
    → strtok b' ' (u ++ (codes ", " ++ rest)) ≡ some (u ++ codes ",", rest)
unfolding strtok skip
strtok-number [] rest h = refl
strtok-number (c ∷ u) rest h =
    let other : (c == b' ') ≡ false = ground (arith, h.0) in
    ground (arith, other, cut-number (c ∷ u) rest h)

in_turn :
    (xs : List Out) (a b c d e : Out)
    → ((((xs ++ (a ∷ [])) ++ (b ∷ [])) ++ (c ∷ [])) ++ (d ∷ [])) ++ (e ∷ [])
      ≡ xs ++ (a ∷ b ∷ c ∷ d ∷ e ∷ [])
in_turn [] a b c d e = refl
in_turn (x ∷ xs) a b c d e = ap (λ ys. x ∷ ys) (in_turn xs a b c d e)

-- A number is no key.
starts-number :
    (k : ℕ) (ks u : Text) → leb 97 k ≡ true → AllDigits u → starts (k ∷ ks) (u ++ codes ",") ≡ false
unfolding starts
starts-number k ks [] l h = ground (arith, l)
starts-number k ks (c ∷ u) l h = ground (arith, l, h.0)

module _ (scan_u : Text → Option ℕ) where
  -- A round over "src:" or "dst:" and the number behind it.
  src_round :
      (act u rest : Text) (outs : List Out) (n : ℕ)
      → AllDigits u
      → scan_u (u ++ codes ",") ≡ some n
      → body scan_u
          (record { act = act; tok = codes "src:"; rest = u ++ (codes ", " ++ rest); outs = outs })
        ≡ some
            (record { act = act; tok = u ++ codes ","; rest = rest; outs = outs ++ (src n ∷ []) })
  unfolding body on_action on_address on_reason starts
  src_round act u rest outs n h e =
      rw
        (
          strtok-number u rest h,
          starts-number b'd' _ u refl h,
          starts-number b'r' _ u refl h,
          print_ip_addr,
          e,
        )
        refl

  dst_round :
      (act u rest : Text) (outs : List Out) (n : ℕ)
      → AllDigits u
      → scan_u (u ++ codes ",") ≡ some n
      → body scan_u
          (record { act = act; tok = codes "dst:"; rest = u ++ (codes ", " ++ rest); outs = outs })
        ≡ some
            (record { act = act; tok = u ++ codes ","; rest = rest; outs = outs ++ (dst n ∷ []) })
  unfolding body on_action on_address on_reason starts
  dst_round act u rest outs n h e =
      rw (strtok-number u rest h, starts-number b'r' _ u refl h, print_ip_addr, e) refl

  -- A round of the loop.
  round :
      (fuel : ℕ) (act : Text) (outs : List Out) (rest tok rest' : Text) (v : Vars)
      → strtok b' ' rest ≡ some (tok, rest')
      → body scan_u (record { act = act; tok = tok; rest = rest'; outs = outs }) ≡ some v
      → tokens scan_u (suc fuel) act outs rest ≡ tokens scan_u fuel v.act v.outs v.rest
  unfolding tokens
  round fuel act outs rest tok rest' v e e' = rw (tokens, e, e') refl

  -- The rounds behind "action:", up to the words of the reason.
  addresses :
      (fuel : ℕ) (act u v rest : Text) (outs : List Out) (n m : ℕ)
      → AllDigits u
      → AllDigits v
      → scan_u (u ++ codes ",") ≡ some n
      → scan_u (v ++ codes ",") ≡ some m
      → tokens scan_u
          (suc (suc fuel))
          act
          outs
          (codes " src: " ++ (u ++ (codes ", dst: " ++ (v ++ (codes ", " ++ rest)))))
        ≡ tokens scan_u fuel act ((outs ++ (src n ∷ [])) ++ (dst m ∷ [])) rest
  unfolding strtok skip cut
  addresses fuel act u v rest outs n m h h' e e' =
      round (suc fuel) act outs _ _ _ _ refl (src_round act u _ outs n h e)
      ∙ round fuel act (outs ++ (src n ∷ [])) _ _ _ _ refl (dst_round act v rest _ m h' e')

  -- The round over "action:".
  action_round :
      (t : Trace) (fuel : ℕ) (act rest : Text) (outs : List Out)
      → tokens scan_u
          (suc fuel)
          act
          outs
          (codes "action: " ++ (action_text t ++ (codes ", src: " ++ rest)))
        ≡ tokens scan_u fuel
            (action_text t)
            (outs ++ (action (action_text t) ∷ []))
            (codes " src: " ++ rest)
  unfolding tokens body on_action on_address on_reason put_action scan_word word starts strtok skip
      cut
  action_round (white_listed s d) fuel act rest outs = refl
  action_round (black_listed s d) fuel act rest outs = refl
  action_round (fragmented_icmp s d) fuel act rest outs = refl
  action_round (large_icmp s d) fuel act rest outs = refl
  action_round (fragmented_tcp s d) fuel act rest outs = refl

  -- The rounds over the words of the reason.
  reason_rounds :
      (t : Trace) (fuel : ℕ) (act : Text) (outs : List Out)
      → tokens scan_u (suc (suc (suc (suc (suc (suc fuel)))))) act outs (word_text t ++ why_text t)
        ≡ printed act (outs ++ (reason (why_text t) ∷ []))
  unfolding tokens body on_action on_address on_reason starts strtok skip cut
  reason_rounds (white_listed s d) fuel act outs = refl
  reason_rounds (black_listed s d) fuel act outs = refl
  reason_rounds (fragmented_icmp s d) fuel act outs = refl
  reason_rounds (large_icmp s d) fuel act outs = refl
  reason_rounds (fragmented_tcp s d) fuel act outs = refl

  line_rounds :
      (t : Trace) (fuel : ℕ) (u v act : Text) (outs : List Out) (n m : ℕ)
      → AllDigits u
      → AllDigits v
      → scan_u (u ++ codes ",") ≡ some n
      → scan_u (v ++ codes ",") ≡ some m
      → tokens scan_u
          (suc (suc (suc (suc (suc (suc (suc (suc (suc fuel)))))))))
          act
          outs
          (line_of t u v)
        ≡ printed (action_text t) (
            (((outs ++ (action (action_text t) ∷ [])) ++ (src n ∷ [])) ++ (dst m ∷ []))
            ++ (reason (why_text t) ∷ []))
  line_rounds t fuel u v act outs n m h h' e e' =
      action_round t _ act _ outs
      ∙ addresses _ (action_text t) u v _ _ n m h h' e e'
      ∙ reason_rounds t fuel (action_text t) _

  -- Every line that the packet program traces is read back: for any trace, if the two numbers of the
  -- line are digits and are read as `n` and `m`, the fields are printed: the verdict, source `n`,
  -- destination `m` and the reason, whatever stood in `action` or was printed before.
  pub read_line-line_of :
      (t : Trace) (u v act : Text) (outs : List Out) (n m : ℕ)
      → AllDigits u
      → AllDigits v
      → scan_u (u ++ codes ",") ≡ some n
      → scan_u (v ++ codes ",") ≡ some m
      → read_line scan_u act outs (line_of t u v)
        ≡ printed
            (action_text t)
            (outs ++ (action (action_text t) ∷ src n ∷ dst m ∷ reason (why_text t) ∷ newline ∷ []))
  unfolding read_line
  read_line-line_of t u v act outs n m h h' e e' =
      ap (λ o. after o (λ act' outs'. printed act' (outs' ++ (newline ∷ []))))
        (line_rounds t _ u v act outs n m h h' e e')
      ∙ ap (printed (action_text t)) (in_turn outs _ _ _ _ _)
