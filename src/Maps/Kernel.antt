-- ===== src/Maps/Kernel.antt =====
-- The kernel and libbpf as the user-space programs of main/ use them: a parameter of the model. The
-- laws are those of bpf(2) for a hash map: what an update or a deletion of one key does to the keys.
use anti_dos.Base.{ℕ, ◌≡◌, Bool, ◌&&◌, ◌||◌, not, List, Option, some, ◌==◌, ℤ, pos}

-- A string, by its character codes.
abbrev pub Text : Type 0
Text = List ℕ

-- The fields of `struct bpf_map_info` that the programs read.
pub record BpfMapInfo : Type 0 where
  pub kind : ℕ
  pub id : ℕ
  pub key_size : ℕ
  pub value_size : ℕ
  pub max_entries : ℕ

pub record Sys : Type 1 where
  pub Store : Type 0
  -- `bpf_obj_get`: a new descriptor, or a negative number.
  pub obj_get : Text → Store → ℤ × Store
  -- `bpf_obj_get_info_by_fd`: `none` if it fails.
  pub info_by_fd : ℕ → Store → Option BpfMapInfo
  -- `bpf_map_update_elem` and `bpf_map_delete_elem` by descriptor and key; 0 is success.
  pub update_elem : ℕ → ℕ → List ℕ → Store → ℤ × Store
  pub delete_elem : ℕ → ℕ → Store → ℤ × Store
  -- `bpf_num_possible_cpus`.
  pub num_cpus : ℕ

-- A system in which a descriptor of the pinned map at `path` can always be had and used: what its
-- map holds, and what the calls do to it.
pub record Serves (sys : Sys) (path : Text) (info : BpfMapInfo) : Type 0 where
  pub holds : sys.Store → ℕ → Bool
  pub opened : sys.Store → ℕ
  pub open_ok : (s : sys.Store) → (sys.obj_get path s).0 ≡ pos (opened s)
  pub open_holds : (s : sys.Store) (j : ℕ) → holds (sys.obj_get path s).1 j ≡ holds s j
  pub info_ok : (s : sys.Store) → sys.info_by_fd (opened s) (sys.obj_get path s).1 ≡ some info
  pub update_holds :
      (s : sys.Store) (k j : ℕ) (v : List ℕ)
      → holds (sys.update_elem (opened s) k v (sys.obj_get path s).1).1 j ≡ (j == k) || holds s j
  pub delete_holds :
      (s : sys.Store) (k j : ℕ)
      → holds (sys.delete_elem (opened s) k (sys.obj_get path s).1).1 j ≡ not (j == k) && holds s j
