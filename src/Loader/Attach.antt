-- ===== src/Loader/Attach.antt =====
-- common/common_user_bpf_xdp.c: a BPF object is loaded and one of its programs attached. An exit of
-- the process is its code on the left.
pub mod Loaded
use anti_dos.Base.{
  ℕ, zero, suc, ◌+◌, Bool, not, ◌⊎◌, inl, inr, List, [], ◌∷◌, Option, none, some, ℤ, pos, negsuc,
  pos_part, bit_and, ◌==◌, if◌then◌else◌,
}
use anti_dos.Maps.Kernel.{Text}
use anti_dos.Maps.{exit_fail_bpf}
use anti_dos.Link.{nonzero, xdp_link_attach}
use anti_dos.Loader.{reuse_maps}
use anti_dos.Params.{Config, strncpy}

-- What libbpf does with objects; `St` is the kernel. `none` is NULL or an error.
pub record Libbpf : Type 1 where
  pub Obj : Type 0
  pub Prog : Type 0
  pub St : Type 0
  -- `bpf_prog_load_xattr` and `bpf_object__open_xattr`.
  pub load_xattr : Text → ℕ → St → Option Obj × St
  pub open_xattr : Text → St → Option Obj
  -- The programs and the names of the maps, and what is set before loading.
  pub programs : Obj → List Prog
  pub maps : Obj → List Text
  pub set_program : ℕ → Prog → Obj → Obj
  pub is_offload_neutral : ℕ → Obj → Bool
  pub set_map_ifindex : ℕ → ℕ → Obj → Obj
  pub obj_get : Text → Obj × St → ℤ × (Obj × St)
  pub reuse_fd : ℕ → ℕ → Obj × St → ℤ × (Obj × St)
  pub object_load : Obj × St → ℤ × (Obj × St)
  pub find_program_by_title : Obj → Text → Option Prog
  pub title : Prog → Text
  pub program_fd : Prog → St → ℤ
  pub set_link_xdp_fd : ℕ → ℤ → ℕ → St → ℤ × St

-- The two loops of `open_bpf_object`; a map is its index.
unfoldable pub set_programs : (lib : Libbpf) → ℕ → List lib.Prog → lib.Obj → lib.Obj
set_programs lib ifindex [] obj = obj
set_programs lib ifindex (p ∷ ps) obj = set_programs lib ifindex ps (lib.set_program ifindex p obj)

unfoldable pub set_maps : (lib : Libbpf) → ℕ → ℕ → List Text → lib.Obj → lib.Obj
set_maps lib ifindex i [] obj = obj
set_maps lib ifindex i (m ∷ ms) obj =
    set_maps lib ifindex (suc i) ms
      (if lib.is_offload_neutral i obj then obj else lib.set_map_ifindex i ifindex obj)

abbrev pub first {ℓ} : {A : Type ℓ} → List A → Option A
first [] = none
first (x ∷ xs) = some x

module _ (lib : Libbpf) where
  open lib use {Obj, Prog, St}

  unfoldable pub load_bpf_object_file : Text → ℕ → St → Option Obj × St
  load_bpf_object_file filename ifindex s = lib.load_xattr filename ifindex s

  unfoldable pub open_bpf_object : Text → ℕ → St → Option Obj
  unfolding set_programs set_maps
  open_bpf_object file ifindex s = elim (lib.open_xattr file s) [
    | none ↦ none
    | some obj ↦ elim (first (lib.programs obj)) [
      | none ↦ none
      | some _ ↦
          let obj' = set_programs lib ifindex (lib.programs obj) obj in
          some (set_maps lib ifindex 0 (lib.maps obj') obj')
    ]
  ]

  unfoldable pub load_bpf_object_file_reuse_maps : Text → ℕ → Text → St → Option Obj × St
  unfolding open_bpf_object reuse_maps
  load_bpf_object_file_reuse_maps file ifindex pin_dir s = elim (open_bpf_object file ifindex s) [
    | none ↦ (none, s)
    | some obj ↦
        let (err, (obj', s')) =
          reuse_maps lib.obj_get lib.reuse_fd (some (lib.maps obj)) (some pin_dir) (obj, s) in
        let (err', (obj'', s'')) = lib.object_load (obj', s') in
        if nonzero err then (none, s') else if nonzero err' then (none, s'') else (some obj'', s'')
  ]

  -- `cfg->progsec[0]` decides between the section and the first program.
  abbrev pub choose_program : Text → Obj → Option Prog
  choose_program [] obj = first (lib.programs obj)
  choose_program (zero ∷ cs) obj = first (lib.programs obj)
  choose_program (suc c ∷ cs) obj = lib.find_program_by_title obj (suc c ∷ cs)

  -- Behind the load.
  unfoldable pub attach_program : Config → Obj → Prog → St → (ℕ ⊎ (Obj × Config)) × St
  unfolding xdp_link_attach strncpy
  attach_program cfg obj prog s = elim (lib.program_fd prog s) [
    | negsuc n ↦ (inl exit_fail_bpf, s)
    | pos fd ↦
        let (err, s') =
          xdp_link_attach lib.set_link_xdp_fd (pos_part cfg.ifindex) cfg.xdp_flags fd s in
        if fd == 0
        then (inl exit_fail_bpf, s)
        else if not (err == 0)
        then (inl err, s')
        else (inr (obj, record cfg { progsec = strncpy 32 (lib.title prog) }), s')
  ]

  unfoldable pub load_bpf_and_xdp_attach : Config → Text → St → (ℕ ⊎ (Obj × Config)) × St
  unfolding load_bpf_object_file load_bpf_object_file_reuse_maps attach_program
  load_bpf_and_xdp_attach cfg pin_dir s =
      let offload_ifindex =
        (if not (bit_and cfg.xdp_flags 8 == 0) then pos_part cfg.ifindex else 0) in
      let (obj, s') =
        (if cfg.reuse_maps
          then load_bpf_object_file_reuse_maps cfg.filename offload_ifindex pin_dir s
          else load_bpf_object_file cfg.filename offload_ifindex s) in
      elim obj [
        | none ↦ (inl exit_fail_bpf, s')
        | some o ↦ elim (choose_program cfg.progsec o) [
          | none ↦ (inl exit_fail_bpf, s')
          | some prog ↦ attach_program cfg o prog s'
        ]
      ]
