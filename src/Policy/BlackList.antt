-- ===== src/Policy/BlackList.antt =====
-- main/start_policy.c: `policy_change_black_list`.
pub mod Keys
use anti_dos.Base.{ℕ, ◌≡◌, [], ◌∷◌, Option, none, some, pos, negsuc, ◌==◌, if◌then◌else◌, replicate}
use anti_dos.Maps.Kernel.{Sys, BpfMapInfo, Text, Serves}
use anti_dos.Maps.{check_map_fd_info, open_bpf_map_file, exit_fail_bpf, join_path}
use anti_dos.Policy.{World}

abbrev pub block : ℕ
block = 1

abbrev pub unblock : ℕ
unblock = 0

-- `map_expect`: key and value of four bytes.
abbrev pub map_expect : BpfMapInfo
map_expect = record { kind = 0; id = 0; key_size = 4; value_size = 4; max_entries = 0 }

-- "black_list"
abbrev pub black_list_name : Text
black_list_name = b'b' ∷ b'l' ∷ b'a' ∷ b'c' ∷ b'k' ∷ b'_' ∷ b'l' ∷ b'i' ∷ b's' ∷ b't' ∷ []

abbrev pub or_else {ℓ} : {A : Type ℓ} → Option A → A → A
or_else none a = a
or_else (some b) a = b

module _ (sys : Sys) where
  open sys use {Store, update_elem, delete_elem, num_cpus}

  -- The two calls, whose results only decide what is printed.
  unfoldable pub change : ℕ → ℕ → ℕ → Store → ℕ × Store
  change fd ip action s =
      if action == block
      then (0, (update_elem fd ip (replicate num_cpus 0) s).1)
      else if action == unblock
      then (0, (delete_elem fd ip s).1)
      else (1, s)

  unfoldable pub policy_change_black_list : Text → ℕ → ℕ → World sys → ℕ × World sys
  unfolding open_bpf_map_file check_map_fd_info change
  policy_change_black_list pin_dir ip action w =
      let (fd, seen, s) = open_bpf_map_file sys pin_dir black_list_name w.store in
      let info = or_else seen w.info in
      elim fd [
        | negsuc _ ↦ (exit_fail_bpf, record { info = info; store = s })
        | pos n ↦
            if check_map_fd_info info map_expect == 0
            then (
              (change n ip action s).0,
              record { info = info; store = (change n ip action s).1 },
            )
            else (check_map_fd_info info map_expect, record { info = info; store = s })
      ]

  -- A system that serves the black list, with the information of a map of 4-byte keys and values.
  pub record ServesBlackList (pin_dir : Text) : Type 0 where
    pub info : BpfMapInfo
    pub key_is : info.key_size ≡ 4
    pub value_is : info.value_size ≡ 4
    pub serves : Serves sys (join_path pin_dir black_list_name) info
    pub open serves use *
