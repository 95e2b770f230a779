-- ===== src/UpdateList.antt =====
-- main/update_list.c: the white list or the black list is filled from a file of addresses. A file
-- is the list of its words, as `%s` reads them; a word that does not fit `ip[20]` is a fault
-- (`none`).
pub mod Loaded
use anti_dos.Base.{
  ℕ, Bool, true, false, ◌+◌, ◌≤◌, ◌&&◌, List, [], ◌∷◌, Option, none, some, ℤ, pos, negsuc, ◌==◌,
  leb, length, replicate, if◌then◌else◌, ◌>>=◌,
}
use mathlib.Core.Option
use anti_dos.Link.{nonzero}
use anti_dos.Policy.BlackList.{or_else, black_list_name}
use anti_dos.Maps.Kernel.{Sys, BpfMapInfo, Text}
use anti_dos.Maps.{check_map_fd_info, open_bpf_map_file, exit_fail_bpf, join_path}

-- The array that the words are read into.
abbrev pub ip_size : ℕ
ip_size = 20

-- The array for the name of the list.
abbrev pub name_size : ℕ
name_size = 100

-- "white_list" and "/sys/fs/bpf"
abbrev pub white_list_name : Text
white_list_name = b'w' ∷ b'h' ∷ b'i' ∷ b't' ∷ b'e' ∷ b'_' ∷ b'l' ∷ b'i' ∷ b's' ∷ b't' ∷ []

abbrev pub pin_basedir : Text
pin_basedir = b'/' ∷ b's' ∷ b'y' ∷ b's' ∷ b'/' ∷ b'f' ∷ b's' ∷ b'/' ∷ b'b' ∷ b'p' ∷ b'f' ∷ []

-- The two files.
pub data ListFile : Type 0 where
  whitelist : ListFile
  blacklist : ListFile

-- `strcmp(a, b) == 0`
unfoldable pub same_text : Text → Text → Bool
same_text [] [] = true
same_text [] (y ∷ ys) = false
same_text (x ∷ xs) [] = false
same_text (x ∷ xs) (y ∷ ys) = (x == y) && same_text xs ys

-- The file of a list name.
unfoldable pub list_file : Text → Option ListFile
unfolding same_text
list_file name =
    if same_text name white_list_name
    then some whitelist
    else if same_text name black_list_name
    then some blacklist
    else none

-- `map_expect`: 10000 entries, key and value of four bytes.
abbrev pub list_expect : BpfMapInfo
list_expect = record { kind = 0; id = 0; key_size = 4; value_size = 4; max_entries = 10000 }

-- `info` as `main` initialises it.
abbrev pub no_info : BpfMapInfo
no_info = record { kind = 0; id = 0; key_size = 0; value_size = 0; max_entries = 0 }

-- `ifindex == -1`
abbrev pub is_minus_one : ℤ → Bool
is_minus_one (pos n) = false
is_minus_one (negsuc n) = n == 0

-- `inet_pton` gives the address in network byte order, or `none` if the text is no address.
module _ (sys : Sys) (inet_pton : Text → Option ℕ) where
  open sys use {Store, update_elem, num_cpus}

  -- The result is 1 for an address that is stored, and for a text that is no address.
  unfoldable pub update_list : ℕ → Text → Store → ℕ × Store
  update_list map_fd ip_string s = elim (inet_pton ip_string) [
    | none ↦ (1, s)
    | some key ↦
        let (res, s') = update_elem map_fd key (replicate num_cpus 0) s in
        ((if nonzero res then 0 else 1), s')
  ]

  -- The loop over the words; the result of `update_list` is not looked at.
  unfoldable pub load_words : ℕ → List Text → Store → Option Store
  unfolding update_list
  load_words map_fd [] s = some s
  load_words map_fd (w ∷ ws) s =
      let rest = load_words map_fd ws (update_list map_fd w s).1 in
      if leb ip_size (length w) then none else rest

  -- `none`: the file cannot be opened.
  unfoldable pub load_user_map : ℕ → Option (List Text) → Store → Option (ℕ × Store)
  unfolding load_words
  load_user_map map_fd none s = some (1, s)
  load_user_map map_fd (some ws) s = do s' ← load_words map_fd ws s; some (0, s')

  -- `main`, from the parsed `--dev` and the line that is typed in, which must fit `file_name[100]`.
  unfoldable pub update_main :
      (ListFile → Option (List Text)) → ℤ → Text → Text → Store → Option (ℤ × Store)
  unfolding list_file load_user_map open_bpf_map_file check_map_fd_info join_path
  update_main files ifindex ifname file_name s =
      if is_minus_one ifindex
      then some (pos 2, s)
      else if leb name_size (length file_name)
      then none
      else elim (list_file file_name) [
        | none ↦ some (negsuc 0, s)
        | some file ↦
            let (fd, seen, s') = open_bpf_map_file sys (join_path pin_basedir ifname) file_name s in
            let info = or_else seen no_info in
            elim fd [
              | negsuc m ↦ some (pos exit_fail_bpf, s')
              | pos map_fd ↦
                  if check_map_fd_info info list_expect == 0
                  then Option.map (λ r. (pos 0, r.1)) (load_user_map map_fd (files file) s')
                  else some (pos (check_map_fd_info info list_expect), s')
            ]
      ]
