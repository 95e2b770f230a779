-- ===== src/Loader/Pins.antt =====
-- common/common_user_bpf_xdp.c and main/xdp_loader.c: what the maps are backed by, and what is
-- pinned.
use mathlib.Core.Option
use anti_dos.Base.{
  ℕ, suc, ◌-◌, ◌<◌, ◌≡◌, refl, ◌∙◌, Bool, true, false, List, [], ◌∷◌, some, ℤ, pos, All, ltb, ◌==◌,
  length, get_elem?, if◌then◌else◌, arith, Bool-cases, inl, inr, ◌⊎◌,
}
use anti_dos.Maps.Kernel.{Text}
use anti_dos.Maps.{join_path}
use anti_dos.UpdateList.{pin_basedir}
use anti_dos.Policy.BlackList.{or_else}
use anti_dos.Loader.{whole_path, reuse_loop, reuse_maps, map_name, pin_maps_in_bpf_object}

-- Pinned maps that can be opened and reused: `pinned` is the map at a path, and `backing` what
-- stands behind a map of the object.
pub record Reusable {St : Type 0} (obj_get : Text → St → ℤ × St) (reuse_fd : ℕ → ℕ → St → ℤ × St)
    : Type 0 where
  pub pinned : Text → ℕ
  pub backing : St → ℕ → ℕ
  pub opened : Text → St → ℕ
  pub open_ok : (path : Text) (s : St) → (obj_get path s).0 ≡ pos (opened path s)
  pub reuse_ok :
      (path : Text) (i : ℕ) (s : St) → (reuse_fd i (opened path s) (obj_get path s).1).0 ≡ pos 0
  pub reuse_backing :
      (path : Text) (i j : ℕ) (s : St)
      → backing (reuse_fd i (opened path s) (obj_get path s).1).1 j
        ≡ (if j == i then pinned path else backing s j)

module _ {St : Type 0} (obj_get : Text → St → ℤ × St) (reuse_fd : ℕ → ℕ → St → ℤ × St)
    (r : Reusable obj_get reuse_fd) (path : Text) where
  open r use {pinned, backing, opened, open_ok, reuse_ok, reuse_backing}

  -- The path of every map fits PATH_MAX.
  abbrev pub Short : List Text → Type 0
  Short names = All (λ name. length (whole_path path name) < 4096) names

  -- What stands behind the map `j` when those from `i` on have these names: the map that is pinned
  -- under its name, or what stood there before.
  abbrev pub reused : ℕ → List Text → (ℕ → ℕ) → ℕ → ℕ
  reused i names before j =
      if ltb j i
      then before j
      else or_else (Option.map (λ n. pinned (join_path path n)) (get_elem? names (j - i)))
          (before j)

  reused-cons :
      (i : ℕ) (name : Text) (names : List Text) (before after : ℕ → ℕ) (j : ℕ)
      → after j ≡ (if j == i then pinned (join_path path name) else before j)
      → reused (suc i) names after j ≡ reused i (name ∷ names) before j
  reused-cons i name names before after j e = elim (Bool-cases (ltb i j)) [
    | inl more ↦ rw (behind more) (ground (arith, e, more))
    | inr less ↦ elim (Bool-cases (j == i)) [
      | inl same ↦ rw (start same) (ground (arith, e, same))
      | inr other ↦ ground (arith, e, less, other)
    ]
  ]
    where
      behind : ltb i j ≡ true → j - i ≡ suc (j - suc i)
      behind h = ground (arith, h)

      start : (j == i) ≡ true → j - i ≡ 0
      start h = ground (arith, h)

  abbrev after_one : ℕ → Text → St → St
  after_one i name s =
      (reuse_fd i (opened (join_path path name) s) (obj_get (join_path path name) s).1).1

  loop_step :
      (i : ℕ) (name : Text) (names : List Text) (s : St)
      → length (whole_path path name) < 4096
      → reuse_loop obj_get reuse_fd path i (name ∷ names) s
        ≡ reuse_loop obj_get reuse_fd path (suc i) names (after_one i name s)
  unfolding reuse_loop
  loop_step i name names s h =
      ground (arith, h, open_ok (join_path path name) s, reuse_ok (join_path path name) i s)

  reuse_loop_lem :
      (i : ℕ) (names : List Text) (s : St)
      → Short names
      → ((reuse_loop obj_get reuse_fd path i names s).0 ≡ pos 0)
        × ((j : ℕ)
            → backing (reuse_loop obj_get reuse_fd path i names s).1 j
              ≡ reused i names (backing s) j)
  unfolding reuse_loop
  reuse_loop_lem i [] s h = (refl, λ j. ground arith)
  reuse_loop_lem i (name ∷ names) s h =
      let (e, b) = reuse_loop_lem (suc i) names (after_one i name s) h.1 in
      rw (loop_step i name names s h.0) (
        e,
        λ j.
            b j
            ∙ reused-cons i name names (backing s) (backing (after_one i name s)) j
                (reuse_backing (join_path path name) i j s),
      )

  -- If every pinned map can be opened and reused and every path fits PATH_MAX, `reuse_maps` returns
  -- 0, and behind each map of the object stands the map that is pinned under its name.
  pub reuse_maps_lem :
      (names : List Text) (s : St)
      → Short names
      → ((reuse_maps obj_get reuse_fd (some names) (some path) s).0 ≡ pos 0)
        × ((j : ℕ)
            → backing (reuse_maps obj_get reuse_fd (some names) (some path) s).1 j
              ≡ reused 0 names (backing s) j)
  unfolding reuse_maps
  reuse_maps_lem names s h = reuse_loop_lem 0 names s h

-- The directory of an interface as libbpf leaves it: `there` counts the files of the object's `all`
-- maps, of which "xdp_stats_map" is one. Unpinning works if every file is there and removes them,
-- and pinning if none is; `owner` tells whether the files are those of this object.
pub record PinDir {St : Type 0} (exists : Text → St → Bool)
    (unpin_maps pin_maps : Text → St → ℤ × St) (dir : Text) : Type 0 where
  pub all : ℕ
  pub there : St → ℕ
  pub owner : St → Bool
  pub exists_all : (s : St) → there s ≡ all → exists (join_path dir map_name) s ≡ true
  pub exists_none : (s : St) → there s ≡ 0 → exists (join_path dir map_name) s ≡ false
  pub unpin_ok :
      (s : St) → there s ≡ all → ((unpin_maps dir s).0 ≡ pos 0) × (there (unpin_maps dir s).1 ≡ 0)
  pub pin_ok :
      (s : St) → there s ≡ 0 → ((pin_maps dir s).0 ≡ pos 0) × (owner (pin_maps dir s).1 ≡ true)

-- In such a directory, if the files of all of the object's maps are there or none is,
-- `pin_maps_in_bpf_object` returns 0 and leaves the maps of this object pinned, whether or not an
-- earlier program had left its own there.
pub pin_maps_in_bpf_object_lem :
    {St : Type 0} (exists : Text → St → Bool) (unpin_maps pin_maps : Text → St → ℤ × St)
    (subdir : Text) (d : PinDir exists unpin_maps pin_maps (join_path pin_basedir subdir)) (s : St)
    → (d.there s ≡ 0) ⊎ (d.there s ≡ d.all)
    → ((pin_maps_in_bpf_object exists unpin_maps pin_maps subdir s).0 ≡ 0)
      × (d.owner (pin_maps_in_bpf_object exists unpin_maps pin_maps subdir s).1 ≡ true)
unfolding pin_maps_in_bpf_object
pin_maps_in_bpf_object_lem exists unpin_maps pin_maps subdir d s (inl new) =
    ground (arith, d.exists_none s new, d.pin_ok s new)
pin_maps_in_bpf_object_lem exists unpin_maps pin_maps subdir d s (inr old) =
    let (removed, free) = d.unpin_ok s old in
    let s' = (unpin_maps (join_path pin_basedir subdir) s).1 in
    ground (arith, d.exists_all s old, removed, d.pin_ok s' free)
