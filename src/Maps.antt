-- ===== src/Maps.antt =====
-- Opening pinned maps: `check_map_fd_info` and `open_bpf_map_file` of common/common_user_bpf_xdp.c,
-- over an interface for the calls into libbpf and the kernel.
pub mod Kernel
pub mod Checks
use anti_dos.Base.{
  ℕ, List, [], ◌∷◌, ◌++◌, Option, none, some, ◌&&◌, not, ◌==◌, if◌then◌else◌, ℤ, pos, negsuc,
  is_neg, Bool, take,
}
use Kernel.{Sys, BpfMapInfo, Text}

-- The test `exp->f && exp->f != info->f`.
abbrev pub mismatch : ℕ → ℕ → Bool
mismatch exp info = not (exp == 0) && not (exp == info)

abbrev pub exit_fail : ℕ
exit_fail = 1

abbrev pub exit_fail_bpf : ℕ
exit_fail_bpf = 40

unfoldable pub check_map_fd_info : BpfMapInfo → BpfMapInfo → ℕ
check_map_fd_info info exp =
    if mismatch exp.key_size info.key_size
    then exit_fail
    else if mismatch exp.value_size info.value_size
    then exit_fail
    else if mismatch exp.max_entries info.max_entries
    then exit_fail
    else if mismatch exp.kind info.kind
    then exit_fail
    else 0

abbrev pub path_max : ℕ
path_max = 4096

-- `snprintf(buf, PATH_MAX, "%s/%s", dir, name)` keeps 4095 characters, and never fails.
unfoldable pub join_path : Text → Text → Text
join_path dir name = take 4095 (dir ++ (b'/' ∷ name))

-- The result, what is stored through `info` (`none`: nothing), and the system after the calls. A
-- failure to read the information returns EXIT_FAIL_BPF, which is not negative.
module _ (sys : Sys) where
  open sys use {Store, obj_get, info_by_fd}

  unfoldable pub open_bpf_map_file : Text → Text → Store → ℤ × Option BpfMapInfo × Store
  unfolding join_path
  open_bpf_map_file pin_dir mapname s =
      let (fd, s') = obj_get (join_path pin_dir mapname) s in
      elim fd [
        | negsuc n ↦ (negsuc n, none, s')
        | pos n ↦ elim (info_by_fd n s') [
          | none ↦ (pos exit_fail_bpf, none, s')
          | some info ↦ (pos n, some info, s')
        ]
      ]
