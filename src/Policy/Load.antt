-- ===== src/Policy/Load.antt =====
-- main/start_policy.c: `load_policy`. `scan` is one call of `fscanf` with "%d %s %d\n": how far it
-- came and the file behind. The `int` values are their 32-bit patterns.
pub mod Lines
use mathlib.Core.Option
use anti_dos.Base.{
  ℕ, zero, suc, List, [], ◌∷◌, Option, none, some, leb, length, if◌then◌else◌, ◌>>=◌,
}
use anti_dos.Maps.Kernel.{Text}
use anti_dos.Policy.{Policy}
use anti_dos.Policy.BlackList.{or_else}

-- `EOF`, or the fields that were converted.
pub data Scanned : Type 0 where
  eof : Scanned
  nothing : Scanned
  one : ℕ → Scanned
  two : ℕ → Text → Scanned
  three : ℕ → Text → ℕ → Scanned

-- The local variables; `ip` has 20 bytes.
pub record Vars : Type 0 where
  pub id : ℕ
  pub ip : Text
  pub threshold : ℕ

-- `list_policy`.
abbrev pub policies_max : ℕ
policies_max = 10

abbrev pub put_ip : Text → Vars → Option Vars
put_ip ip v = if leb 20 (length ip) then none else some (record v { ip = ip })

-- What the call writes; a longer word than `ip` holds is a fault.
unfoldable pub put_fields : Scanned → Vars → Option Vars
put_fields eof v = some v
put_fields nothing v = some v
put_fields (one id) v = some (record v { id = id })
put_fields (two id ip) v = put_ip ip (record v { id = id })
put_fields (three id ip threshold) v = put_ip ip (record v { id = id; threshold = threshold })

-- An address that `inet_pton` refuses leaves the 0 of the global.
unfoldable pub to_policy : (Text → Option ℕ) → Vars → Policy
to_policy inet_pton v = record {
  id = v.id;
  ip = or_else (inet_pton v.ip) 0;
  threshold = v.threshold;
}

module _ {File : Type 0} (scan : File → Scanned × File) (inet_pton : Text → Option ℕ) where
  -- The `while` loop with `room` entries left: what it appends. A write past the array is a fault.
  unfoldable pub load_rest : ℕ → Vars → File → Option (List Policy)
  unfolding put_fields to_policy
  load_rest zero v file = elim (scan file).0 [ eof ↦ some [] | _ ↦ none ]
  load_rest (suc n) v file = elim (scan file).0 [
    | eof ↦ some []
    | got ↦ do
      v' ← put_fields got v
      ps ← load_rest n v' (scan file).1
      some (to_policy inet_pton v' ∷ ps)
  ]

  -- The first call, whose result must be positive.
  unfoldable pub load_first : Vars → File → Option (List Policy)
  unfolding load_rest
  load_first v file = elim (scan file).0 [
    | eof ↦ some []
    | nothing ↦ some []
    | got ↦ do
      v' ← put_fields got v
      ps ← load_rest 9 v' (scan file).1
      some (to_policy inet_pton v' ∷ ps)
  ]

  -- `none`: the file cannot be opened.
  unfoldable pub load_policy : Vars → Option File → Option (ℕ × List Policy)
  unfolding load_first
  load_policy junk none = some (1, [])
  load_policy junk (some file) = Option.map (λ ps. (0, ps)) (load_first junk file)
