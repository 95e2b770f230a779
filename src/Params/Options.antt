-- ===== src/Params/Options.antt =====
-- common/common_params.c: `option_wrappers_to_options`, which makes the array for `getopt_long`.
use mathlib.Core.Option
use anti_dos.Base.{
  ℕ, suc, ◌≡◌, refl, ap, Bool, true, List, [], ◌∷◌, ◌++◌, Option, none, some, ℤ, pos, negsuc, map,
  All, length, take, if◌then◌else◌, ◌>>=◌,
}
use anti_dos.Maps.Kernel.{Text}

-- `struct option`; the name `none` is NULL.
pub record LongOption : Type 0 where
  pub name : Option Text
  pub has_arg : ℕ
  pub val : ℕ

-- `struct option_wrapper`.
pub record OptionWrapper : Type 0 where
  pub option : LongOption
  pub help : Option Text
  pub metavar : Option Text
  pub required : Bool

-- The first loop: the number of entries before the first without a name. `none` is a read past the
-- array.
unfoldable pub count_options : List OptionWrapper → Option ℕ
count_options [] = none
count_options (w ∷ ws) =
    let rest = count_options ws in
    elim w.option.name [ none ↦ some 0 | some _ ↦ Option.map suc rest ]

-- With the result of `malloc`.
unfoldable pub option_wrappers_to_options : Bool → List OptionWrapper → Option (ℤ × List LongOption)
unfolding count_options
option_wrappers_to_options allocated wrapper = do
  num ← count_options wrapper
  if allocated
      then some (pos 0, map (λ (w : OptionWrapper). w.option) (take num wrapper))
      else some (negsuc 0, [])

-- The entry has a name, so it is not the entry of zeros that ends an array for `getopt_long`.
abbrev pub Named : LongOption → Type 0
Named o = (name : Text) × (o.name ≡ some name)

count_options_lem :
    (ws : List OptionWrapper) (end : OptionWrapper) (more : List OptionWrapper)
    → All (λ w. Named w.option) ws
    → end.option.name ≡ none
    → count_options (ws ++ (end ∷ more)) ≡ some (length ws)
unfolding count_options
count_options_lem [] end more h e = rw e refl
count_options_lem (w ∷ ws) end more ((name, n), h) e =
    rw (n, count_options_lem ws end more h e) refl

take-length : (ws more : List OptionWrapper) → take (length ws) (ws ++ more) ≡ ws
take-length [] more = refl
take-length (w ∷ ws) more = ap (λ xs. w ∷ xs) (take-length ws more)

All-map :
    (ws : List OptionWrapper)
    → All (λ w. Named w.option) ws
    → All Named (map (λ (w : OptionWrapper). w.option) ws)
All-map [] h = tt
All-map (w ∷ ws) (n, h) = (n, All-map ws h)

-- From an array of named entries with an entry of zeros behind them, where memory is to be had,
-- `option_wrappers_to_options` makes the array of the options in order, and each of them has a
-- name: the entry of zeros at which `getopt_long` stops is not among them.
pub option_wrappers_to_options_unended :
    (ws : List OptionWrapper) (end : OptionWrapper) (more : List OptionWrapper)
    → All (λ w. Named w.option) ws
    → end.option.name ≡ none
    → (option_wrappers_to_options true (ws ++ (end ∷ more))
        ≡ some (pos 0, map (λ (w : OptionWrapper). w.option) ws))
      × All Named (map (λ (w : OptionWrapper). w.option) ws)
unfolding option_wrappers_to_options
option_wrappers_to_options_unended ws end more h e = (
  rw (option_wrappers_to_options, count_options_lem ws end more h e, take-length ws (end ∷ more))
      refl,
  All-map ws h,
)
