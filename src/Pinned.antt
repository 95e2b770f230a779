-- ===== src/Pinned.antt =====
-- common/common_libbpf.c: an object is loaded whose maps are shared through pinned files.
pub mod Files
pub mod Taken
pub mod Made
pub mod Shared
use anti_dos.Base.{
  ℕ, zero, suc, Bool, true, false, ◌&&◌, List, [], ◌∷◌, Option, none, some, ℤ, pos, negsuc, ◌==◌,
  if◌then◌else◌, map,
}
use anti_dos.Maps.Kernel.{Text}
use anti_dos.Link.{nonzero}
use anti_dos.Loader.{enoent, einval}
use anti_dos.UpdateList.{same_text}

-- `struct bpf_pinned_map`.
pub record PinnedMap : Type 0 where
  pub name : Text
  pub filename : Text
  pub map_fd : ℤ

-- `struct bpf_prog_load_attr_maps`; `none` is NULL.
pub record Attr : Type 0 where
  pub file : Option Text
  pub prog_type : ℕ
  pub expected_attach_type : ℕ
  pub ifindex : ℕ
  pub pinned_maps : List PinnedMap

-- What libbpf does; `St` is the object and the kernel together, a map is its index.
pub record Objects : Type 1 where
  pub Prog : Type 0
  pub St : Type 0
  -- `bpf_object__open_xattr`: the programs and the names of the maps; `none` is NULL or an error.
  pub open_xattr : Text → ℕ → St → Option ((List Prog × List Text) × St)
  pub set_prog_ifindex : Prog → ℕ → St → St
  pub set_type : Prog → ℕ → St → St
  pub set_expected_attach_type : Prog → ℕ → St → St
  pub is_offload_neutral : ℕ → St → Bool
  pub set_map_ifindex : ℕ → ℕ → St → St
  pub obj_get : Text → St → ℤ × St
  pub reuse_fd : ℕ → ℕ → St → ℤ × St
  pub object_load : St → ℤ × St
  pub map_pin : ℕ → Text → St → ℤ × St
  pub map_fd_of : ℕ → St → ℤ
  pub program_fd : Prog → St → ℤ
  pub object_close : St → St

-- The result, `*prog_fd` where it is set, the pinned maps and the names that a warning is printed
-- for.
pub record LoadResult (St : Type 0) : Type 0 where
  pub ret : ℤ
  pub prog_fd : Option ℤ
  pub pins : List PinnedMap
  pub warned : List Text
  pub st : St

-- `pinned_maps[i].map_fd = -1`, for each of them.
abbrev pub reset_pins : List PinnedMap → List PinnedMap
reset_pins pins = map (λ (p : PinnedMap). record p { map_fd = negsuc 0 }) pins

-- The last loop: requests for names that no map has.
unfoldable pub not_seen : List PinnedMap → List Text
not_seen [] = []
not_seen (p ∷ ps) =
    let rest = not_seen ps in elim p.map_fd [ pos n ↦ rest | negsuc n ↦ p.name ∷ rest ]

module _ (lib : Objects) where
  open lib use {Prog, St}

  -- The loop over the programs.
  unfoldable pub set_all : Attr → List Prog → St → St
  set_all attr [] s = s
  set_all attr (p ∷ ps) s = set_all attr ps (
      lib.set_expected_attach_type p attr.expected_attach_type
        (lib.set_type p attr.prog_type (lib.set_prog_ifindex p attr.ifindex s)))

  -- The descriptor of the pinned file, if there is one, takes the place of the map.
  unfoldable pub take_fd : ℕ → PinnedMap → ℤ → St → PinnedMap × St
  take_fd i pin (negsuc n) s = (pin, s)
  take_fd i pin (pos zero) s = (pin, s)
  take_fd i pin (pos (suc n)) s =
      (record pin { map_fd = pos (suc n) }, (lib.reuse_fd i (suc n) s).1)

  -- A requested map and the `i`-th map of the object, before loading.
  unfoldable pub reuse_pin : ℕ → Text → PinnedMap → St → PinnedMap × St
  unfolding same_text take_fd
  reuse_pin i mapname pin s =
      let (fd, s') = lib.obj_get pin.filename s in
      if same_text mapname pin.name then take_fd i pin fd s' else (pin, s)

  unfoldable pub reuse_pins : ℕ → Text → List PinnedMap → St → List PinnedMap × St
  unfolding reuse_pin
  reuse_pins i mapname [] s = ([], s)
  reuse_pins i mapname (p ∷ ps) s =
      let (p', s') = reuse_pin i mapname p s in
      let (ps', s'') = reuse_pins i mapname ps s' in (p' ∷ ps', s'')

  -- `bpf_map__set_ifindex`, unless the map is neutral.
  abbrev pub prepare : ℕ → ℕ → St → St
  prepare ifindex i s = if lib.is_offload_neutral i s then s else lib.set_map_ifindex i ifindex s

  -- The loop over the maps before loading, from the `i`-th on.
  unfoldable pub reuse_all : ℕ → ℕ → List Text → List PinnedMap → St → List PinnedMap × St
  unfolding reuse_pins
  reuse_all ifindex i [] pins s = (pins, s)
  reuse_all ifindex i (m ∷ ms) pins s =
      let (pins', s') = reuse_pins i m pins (prepare ifindex i s) in
      reuse_all ifindex (suc i) ms pins' s'

  -- Is the descriptor -1?
  abbrev pub is_unset : ℤ → Bool
  is_unset (pos n) = false
  is_unset (negsuc n) = n == 0

  -- A requested map and the `i`-th map of the object, after loading.
  unfoldable pub pin_missing : ℕ → Text → PinnedMap → St → PinnedMap × St
  unfolding same_text
  pin_missing i mapname pin s =
      let (err, s') = lib.map_pin i pin.filename s in
      if same_text mapname pin.name && is_unset pin.map_fd
      then (if nonzero err then (pin, s') else (record pin { map_fd = lib.map_fd_of i s' }, s'))
      else (pin, s)

  unfoldable pub pin_each : ℕ → Text → List PinnedMap → St → List PinnedMap × St
  unfolding pin_missing
  pin_each i mapname [] s = ([], s)
  pin_each i mapname (p ∷ ps) s =
      let (p', s') = pin_missing i mapname p s in
      let (ps', s'') = pin_each i mapname ps s' in (p' ∷ ps', s'')

  unfoldable pub pin_all : ℕ → List Text → List PinnedMap → St → List PinnedMap × St
  unfolding pin_each
  pin_all i [] pins s = (pins, s)
  pin_all i (m ∷ ms) pins s = let (pins', s') = pin_each i m pins s in pin_all (suc i) ms pins' s'

  -- Behind the opening of the object.
  unfoldable pub load_opened : Attr → List Prog → List Text → St → LoadResult St
  unfolding set_all reuse_all pin_all not_seen
  load_opened attr progs names s =
      let (pins, s1) =
        reuse_all attr.ifindex 0 names (reset_pins attr.pinned_maps) (set_all attr progs s) in
      let (err, s2) = lib.object_load s1 in
      let (pins', s3) = pin_all 0 names pins s2 in
      elim progs [
        | [] ↦ record {
          ret = enoent;
          prog_fd = none;
          pins = pins;
          warned = [];
          st = lib.object_close s1;
        }
        | p ∷ _ ↦
            if nonzero err
            then record {
              ret = einval;
              prog_fd = none;
              pins = pins;
              warned = [];
              st = lib.object_close s2;
            }
            else record {
              ret = pos 0;
              prog_fd = some (lib.program_fd p s3);
              pins = pins';
              warned = not_seen pins';
              st = s3;
            }
      ]

  -- `none` is the read of `attr->file` through NULL, which comes before the test of `attr`.
  unfoldable pub bpf_prog_load_xattr_maps : Option Attr → St → Option (LoadResult St)
  unfolding load_opened
  bpf_prog_load_xattr_maps none s = none
  bpf_prog_load_xattr_maps (some attr) s = elim attr.file [
    | none ↦
        some (record { ret = einval; prog_fd = none; pins = attr.pinned_maps; warned = []; st = s })
    | some file ↦ elim (lib.open_xattr file attr.prog_type s) [
      | none ↦
          some
            (record { ret = enoent; prog_fd = none; pins = attr.pinned_maps; warned = []; st = s })
      | some ((progs, names), s') ↦ some (load_opened attr progs names s')
    ]
  ]
