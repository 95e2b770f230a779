-- ===== src/Tests/Loader.antt =====
-- Witnesses of the loader and of the policy file.
use anti_dos.Base.{
  ℕ, ◌≡◌, refl, Bool, true, false, List, [], ◌∷◌, Option, none, some, ℤ, pos, negsuc, map, ◌==◌,
  if◌then◌else◌, arith,
}
use anti_dos.Maps.Kernel.{Text}
use anti_dos.Loader.{reuse_maps}
use anti_dos.Loader.Pins.{Reusable, reused, reuse_maps_lem}
use anti_dos.Policy.Load.{Scanned, Vars, eof, nothing, three, to_policy, load_policy}
use anti_dos.Policy.Load.Lines.{Begins, Fits, load_policy_lem, load_policy_stuck}

-- The state is what stands behind each map; a descriptor is the last letter of a path.
abbrev last : Text → ℕ
last [] = 0
last (x ∷ []) = x
last (x ∷ y ∷ ys) = last (y ∷ ys)

abbrev get_fd : Text → (ℕ → ℕ) → ℤ × (ℕ → ℕ)
get_fd path s = (pos (last path), s)

abbrev set_fd : ℕ → ℕ → (ℕ → ℕ) → ℤ × (ℕ → ℕ)
set_fd i fd s = (pos 0, λ j. if j == i then fd else s j)

abbrev reusable : Reusable get_fd set_fd
reusable = record {
  pinned = last;
  backing = λ s j. s j;
  opened = λ path s. last path;
  open_ok = λ path s. refl;
  reuse_ok = λ path i s. refl;
  reuse_backing = λ path i j s. refl;
}

abbrev names : List Text
names = (b'a' ∷ []) ∷ (b'b' ∷ []) ∷ []

reuse_maps_lem_example :
    ((reuse_maps get_fd set_fd (some names) (some (b'/' ∷ [])) (λ j. 0)).0 ≡ pos 0)
    × ((j : ℕ)
        → (reuse_maps get_fd set_fd (some names) (some (b'/' ∷ [])) (λ j. 0)).1 j
          ≡ reused get_fd set_fd reusable (b'/' ∷ []) 0 names (λ j. 0) j)
reuse_maps_lem_example =
    reuse_maps_lem get_fd set_fd reusable (b'/' ∷ []) names (λ j. 0) (omega arith)

-- One directory for three maps: whether their files are there, and whether they are this object's.
abbrev pub there : Text → Bool × Bool → Bool
there path s = s.0

abbrev pub unpin : Text → Bool × Bool → ℤ × (Bool × Bool)
unpin dir (true, b) = (pos 0, (false, false))
unpin dir (false, b) = (negsuc 1, (false, b))

abbrev pub files : Bool × Bool → ℕ
files s = if s.0 then 3 else 0

pub files_there : (s : Bool × Bool) → files s ≡ 3 → s.0 ≡ true
files_there (true, b) e = refl
files_there (false, b) e = absurd (omega arith)

pub no_files : (s : Bool × Bool) → files s ≡ 0 → s.0 ≡ false
no_files (true, b) e = absurd (omega arith)
no_files (false, b) e = refl

pub unpin_all_there :
    (s : Bool × Bool) → files s ≡ 3 → ((unpin [] s).0 ≡ pos 0) × (files (unpin [] s).1 ≡ 0)
unpin_all_there (true, b) e = (refl, refl)
unpin_all_there (false, b) e = absurd (omega arith)

abbrev pub pin : Text → Bool × Bool → ℤ × (Bool × Bool)
pin dir (true, b) = (negsuc 16, (true, b))
pin dir (false, b) = (pos 0, (true, true))

pub pin_free : (s : Bool × Bool) → s.0 ≡ false → ((pin [] s).0 ≡ pos 0) × ((pin [] s).1.1 ≡ true)
pin_free (a, b) e = rw e (refl, refl)

-- A file by its scans; a line that begins with a letter is not left.
abbrev pub scan : List Scanned → Scanned × List Scanned
scan [] = (eof, [])
scan (nothing ∷ file) = (nothing, nothing ∷ file)
scan (got ∷ file) = (got, file)

abbrev pub pton : Text → Option ℕ
pton [] = none
pton (x ∷ xs) = some x

abbrev pub web_line : Vars
web_line = record { id = 1; ip = 80 ∷ []; threshold = 1000 }

abbrev pub no_line : Vars
no_line = record { id = 0; ip = []; threshold = 0 }

load_policy_lem_example :
    load_policy scan pton no_line (some (three 1 (80 ∷ []) 1000 ∷ []))
    ≡ some (0, map (to_policy pton) (web_line ∷ []))
unfolding Begins Fits
load_policy_lem_example =
    load_policy_lem scan pton (web_line ∷ []) no_line (three 1 (80 ∷ []) 1000 ∷ []) []
      ([], refl, refl) refl (omega arith) (omega arith)

load_policy_stuck_example :
    load_policy scan pton no_line (some (three 1 (80 ∷ []) 1000 ∷ nothing ∷ [])) ≡ none
unfolding Begins Fits
load_policy_stuck_example =
    load_policy_stuck scan pton web_line [] no_line (three 1 (80 ∷ []) 1000 ∷ nothing ∷ [])
      (nothing ∷ []) (nothing ∷ [], refl, refl) refl (omega arith)
