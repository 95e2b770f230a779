-- ===== src/Loader.antt =====
-- Maps of a BPF object and their pinned files: `reuse_maps` of common/common_user_bpf_xdp.c and
-- `pin_maps_in_bpf_object` of main/xdp_loader.c. `St` is the object and the kernel together; a map
-- of the object is its index.
pub mod Pins
pub mod Attach
pub mod Main
use anti_dos.Base.{
  ℕ, suc, ◌+◌, Bool, List, [], ◌∷◌, ◌++◌, Option, none, some, ℤ, pos, negsuc, leb, length,
  if◌then◌else◌,
}
use anti_dos.Maps.Kernel.{Text}
use anti_dos.Maps.{join_path, path_max, exit_fail_bpf}
use anti_dos.Link.{nonzero}
use anti_dos.UpdateList.{pin_basedir}

abbrev pub enoent : ℤ
enoent = negsuc 1

abbrev pub einval : ℤ
einval = negsuc 21

abbrev pub enametoolong : ℤ
enametoolong = negsuc 35

-- "%s/%s", whose length `snprintf` returns.
abbrev pub whole_path : Text → Text → Text
whole_path path name = path ++ (b'/' ∷ name)

-- `bpf_obj_get`, and `bpf_map__reuse_fd` for a map.
module _ {St : Type 0} (obj_get : Text → St → ℤ × St) (reuse_fd : ℕ → ℕ → St → ℤ × St) where
  -- The loop over the maps from the `i`-th on, with their names.
  unfoldable pub reuse_loop : Text → ℕ → List Text → St → ℤ × St
  reuse_loop path i [] s = (pos 0, s)
  reuse_loop path i (name ∷ names) s =
      let (fd, s') = obj_get (join_path path name) s in
      if leb path_max (length (whole_path path name)) then (enametoolong, s) else elim fd [
        | negsuc n ↦ (negsuc n, s')
        | pos n ↦
            let (err, s'') = reuse_fd i n s' in
            let rest = reuse_loop path (suc i) names s'' in if nonzero err then (err, s'') else rest
      ]

  -- `none` is NULL, for the object (its maps) and for the path.
  unfoldable pub reuse_maps : Option (List Text) → Option Text → St → ℤ × St
  unfolding reuse_loop join_path
  reuse_maps none path s = (enoent, s)
  reuse_maps (some names) none s = (einval, s)
  reuse_maps (some names) (some path) s = reuse_loop path 0 names s

-- "xdp_stats_map"
abbrev pub map_name : Text
map_name =
    b'x' ∷ b'd' ∷ b'p' ∷ b'_' ∷ b's' ∷ b't' ∷ b'a' ∷ b't' ∷ b's' ∷ b'_' ∷ b'm' ∷ b'a' ∷ b'p' ∷ []

-- `access(path, F_OK) != -1`, `bpf_object__unpin_maps` and `bpf_object__pin_maps`.
module _ {St : Type 0} (exists : Text → St → Bool) (unpin_maps pin_maps : Text → St → ℤ × St) where
  unfoldable pub pin_maps_in_bpf_object : Text → St → ℕ × St
  unfolding join_path
  pin_maps_in_bpf_object subdir s =
      let pin_dir = join_path pin_basedir subdir in
      let found = exists (join_path pin_dir map_name) s in
      let (err, s') = (if found then unpin_maps pin_dir s else (pos 0, s)) in
      let (err', s'') = pin_maps pin_dir s' in
      if nonzero err
      then (exit_fail_bpf, s')
      else if nonzero err'
      then (exit_fail_bpf, s'')
      else (0, s'')
