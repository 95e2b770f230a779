-- ===== src/Maps/Checks.antt =====
-- common/common_user_bpf_xdp.c: what `check_map_fd_info` accepts, and what the callers of
-- `open_bpf_map_file` cannot see.
use anti_dos.Base.{ℕ, ◌≡◌, ◌↔◌, ◌⊎◌, arith}
use anti_dos.Maps.Kernel.{BpfMapInfo}
use anti_dos.Maps.{check_map_fd_info}

-- An expectation is met where it is 0 (do not care) or equal.
abbrev pub Meets : ℕ → ℕ → Type 0
Meets exp info = (exp ≡ 0) ⊎ (exp ≡ info)

pub record MeetsAll (info exp : BpfMapInfo) : Type 0 where
  pub key_size : Meets exp.key_size info.key_size
  pub value_size : Meets exp.value_size info.value_size
  pub max_entries : Meets exp.max_entries info.max_entries
  pub kind : Meets exp.kind info.kind

-- `check_map_fd_info` returns 0 exactly when each of the four expected fields is 0 or equal to the
-- map's, and 1 otherwise.
pub check_map_fd_info_iff :
    (info exp : BpfMapInfo)
    → ((check_map_fd_info info exp ≡ 0) ↔ MeetsAll info exp)
      × ((check_map_fd_info info exp ≡ 0) ⊎ (check_map_fd_info info exp ≡ 1))
unfolding check_map_fd_info
check_map_fd_info_iff info exp = ((λ e. ground arith, λ m. ground arith), ground arith)
