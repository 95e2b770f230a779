-- ===== src/Tests/TraceRead.antt =====
-- main/trace_read.c on the lines of two packets.
use anti_dos.Base.{ℕ, ◌-◌, ◌≡◌, ◌≢◌, refl, [], ◌∷◌, ◌++◌, Option, none, some, codes}
use anti_dos.Maps.Kernel.{Text}
use anti_dos.Filter.Rules.{large_icmp}
use anti_dos.TraceRead.{
  action, src, dst, reason, newline, printed, out_of_fuel, read_line, read_lines,
}
use anti_dos.TraceRead.Ends.{read_lines_end}
use anti_dos.TraceRead.Fields.{line_of, read_line-line_of}

-- `sscanf(value, "%u", &addr)` over one digit.
abbrev digit : Text → Option ℕ
digit [] = none
digit (c ∷ cs) = some (c - 48)

read_lines_end_example :
    read_lines digit (codes "action:" ∷ line_of (large_icmp 1 2) (codes "1") (codes "2") ∷ []) [] []
    ≢ out_of_fuel
read_lines_end_example =
    read_lines_end digit (codes "action:" ∷ line_of (large_icmp 1 2) (codes "1") (codes "2") ∷ [])
      [] []

read_line-line_of_example :
    read_line digit (codes "old") [] (line_of (large_icmp 1 2) (codes "1") (codes "2"))
    ≡ printed (codes "DROP") (
        []
        ++ (action (codes "DROP")
            ∷ src 1
            ∷ dst 2
            ∷ reason (codes "Large ICMP Packet" ++ (10 ∷ []))
            ∷ newline
            ∷ []))
read_line-line_of_example =
    read_line-line_of digit (large_icmp 1 2) (codes "1") (codes "2") (codes "old") [] 1 2 (refl, tt)
      (refl, tt) refl refl
