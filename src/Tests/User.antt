-- ===== src/Tests/User.antt =====
-- Witnesses of the user-space programs: the link, the list update, the command line.
use anti_dos.Base.{
  codes, All, true, false, ℕ, ◌≡◌, refl, inl, inr, true, false, ◌+◌, ◌%◌, ◌⊎◌, is_neg, ◌&&◌, ◌||◌,
  List, [], ◌∷◌, Option, none, some, ℤ, pos, negsuc, ◌==◌, if◌then◌else◌, arith, ◌≢◌,
}
use anti_dos.Maps.Kernel.{Text}
use anti_dos.Link.{xdp_link_attach}
use anti_dos.Link.Swap.{Kernel, Carried, carried_by, FlagsOf, Switchable, xdp_link_attach_lem}
use anti_dos.UpdateList.{load_user_map}
use anti_dos.UpdateList.Loaded.{Updates, listed, Grows, load_user_map_lem, load_user_map-listed}
use anti_dos.Params.{Opt, Config, parse_cmdline_args, dev, skb_mode, native_mode, force}
use anti_dos.Params.Options.{
  OptionWrapper, Named, option_wrappers_to_options, option_wrappers_to_options_unended,
}
use anti_dos.Params.Modes.{last_mode, forced, all_good, parse_cmdline_args_lem}
use anti_dos.Tests.System.{toy, quiet}

-- One interface, whose state is what it carries. The lowest bit is not looked at when a program is
-- taken off.
abbrev pub set_link : ℕ → ℤ → ℕ → Carried → ℤ × Carried
set_link ifindex fd mode none = (pos 0, carried_by fd mode)
set_link ifindex fd mode (some (m, old)) =
    if mode == m || is_neg fd && mode == m + 1 && (m == 2 || m == 4)
    then (pos 0, carried_by fd mode)
    else (negsuc 16, some (m, old))

pub replaced :
    (fd : ℤ) (mode old : ℕ) (net : Carried)
    → net ≡ some (mode, old)
    → ((set_link 1 fd mode net).0 ≡ pos 0) × ((set_link 1 fd mode net).1 ≡ carried_by fd mode)
replaced fd mode old net e = ground (arith, e)

pub refused :
    (fd : ℤ) (mode mode' old : ℕ) (net : Carried)
    → net ≡ some (mode', old)
    → mode ≢ mode'
    → (mode % 2 ≡ 0) ⊎ (is_neg fd ≡ false)
    → set_link 1 fd mode net ≡ (negsuc 16, net)
refused fd mode mode' old net e d h = ground (arith, e, d)

abbrev pub link_kernel : Kernel set_link 1
link_kernel = record {
  carries = λ net. net;
  set_empty = λ fd mode net e even. rw e (refl, refl);
  set_same = λ fd mode old net e. replaced fd mode old net e;
  set_other = λ fd mode mode' old net e d even. refused fd mode mode' old net e d (inl even);
  set_busy = λ fd flags mode' old net e m odd.
      (16, refused (pos fd) flags mode' old net e (omega (arith, m)) (inr refl));
}

pub taken_off :
    (mode flags old : ℕ) (net : Carried)
    → net ≡ some (mode, old)
    → Switchable mode
    → FlagsOf mode flags
    → ((set_link 1 (negsuc 0) flags net).0 ≡ pos 0) × ((set_link 1 (negsuc 0) flags net).1 ≡ none)
taken_off mode flags old net e m same = ground (arith, e, m, same)

abbrev pub get_id : ℕ → ℕ → Carried → ℤ × ℕ
get_id ifindex mode none = (pos 0, 0)
get_id ifindex mode (some (m, old)) = (pos 0, 40 + old)

xdp_link_attach_lem_example :
    ((xdp_link_attach set_link 1 4 9 (some (2, 7))).0 ≡ 0)
    × ((xdp_link_attach set_link 1 4 9 (some (2, 7))).1 ≡ some (4, 9))
xdp_link_attach_lem_example =
    xdp_link_attach_lem set_link 1 link_kernel 9 (some (2, 7)) 4 (inr refl)
      (inr (2, 7, inl refl, refl))

-- A word is an address if it is not empty.
abbrev read_address : Text → Option ℕ
read_address [] = none
read_address (b ∷ bs) = some b

abbrev toy_updates : Updates toy 3
toy_updates = record {
  holds = λ s j. s j;
  update_done = λ s k j v e. refl;
  update_fails = λ s k j v. inl refl;
}

abbrev words : List Text
words = (5 ∷ 6 ∷ []) ∷ [] ∷ (7 ∷ []) ∷ []

load_user_map_lem_example :
    (s' : toy.Store) × (load_user_map toy read_address 3 (some words) quiet.store ≡ some (0, s'))
    × Grows toy read_address 3 toy_updates words quiet.store s'
load_user_map_lem_example =
    load_user_map_lem toy read_address 3 toy_updates words quiet.store (omega arith)

load_user_map-listed_example :
    (s' : toy.Store) × (load_user_map toy read_address 3 (some words) quiet.store ≡ some (0, s'))
    × ((j : ℕ) → s' j ≡ listed read_address j words || quiet.store j)
load_user_map-listed_example =
    load_user_map-listed toy read_address 3 toy_updates (λ s k v. refl) words quiet.store
      (omega arith)

abbrev config : Config
config = record {
  xdp_flags = 1;
  ifindex = negsuc 0;
  ifname = none;
  redirect_ifindex = negsuc 0;
  redirect_ifname = none;
  do_unload = false;
  reuse_maps = false;
  filename = [];
  progsec = [];
  src_mac = [];
  dest_mac = [];
  xsk_bind_flags = 0;
  xsk_if_queue = pos 0;
  xsk_poll_mode = false;
  verbose = true;
}

-- "--dev lo -S -F -N"
abbrev options : List Opt
options = dev (b'l' ∷ b'o' ∷ []) ∷ skb_mode ∷ force ∷ native_mode ∷ []

parse_cmdline_args_lem_example :
    (c' : Config) × (parse_cmdline_args (λ n. 1) (λ n. pos 0) options config ≡ some c')
    × (c'.xdp_flags ≡ last_mode options 0 + (if forced options then 0 else 1))
unfolding all_good
parse_cmdline_args_lem_example =
    parse_cmdline_args_lem (λ n. 1) (λ n. pos 0) options config refl (omega arith)

-- "--dev" and "--help", and the entry of zeros.
abbrev dev_wrapper : OptionWrapper
dev_wrapper = record {
  option = record { name = some (codes "dev"); has_arg = 1; val = 100 };
  help = none;
  metavar = none;
  required = true;
}

abbrev help_wrapper : OptionWrapper
help_wrapper = record {
  option = record { name = some (codes "help"); has_arg = 0; val = 104 };
  help = none;
  metavar = none;
  required = false;
}

abbrev zero_wrapper : OptionWrapper
zero_wrapper = record {
  option = record { name = none; has_arg = 0; val = 0 };
  help = none;
  metavar = none;
  required = false;
}

option_wrappers_to_options_unended_example :
    (option_wrappers_to_options true (dev_wrapper ∷ help_wrapper ∷ zero_wrapper ∷ [])
      ≡ some (pos 0, dev_wrapper.option ∷ help_wrapper.option ∷ []))
    × All Named (dev_wrapper.option ∷ help_wrapper.option ∷ [])
option_wrappers_to_options_unended_example =
    option_wrappers_to_options_unended (dev_wrapper ∷ help_wrapper ∷ []) zero_wrapper []
      ((codes "dev", refl), ((codes "help", refl), tt)) refl
