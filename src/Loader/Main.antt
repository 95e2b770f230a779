-- ===== src/Loader/Main.antt =====
-- main/xdp_loader.c: `main`, which unloads the program of an interface, or loads an object,
-- attaches its program and pins its maps.
pub mod Runs
pub mod Refused
use anti_dos.Base.{
  ℕ, Bool, true, false, ◌⊎◌, inl, inr, List, [], Option, none, some, ℤ, pos, negsuc, pos_part,
  replicate, ◌==◌, if◌then◌else◌, codes,
}
use anti_dos.Maps.Kernel.{Text}
use anti_dos.Policy.BlackList.{or_else}
use anti_dos.Link.{xdp_link_detach}
use anti_dos.UpdateList.{is_minus_one}
use anti_dos.Params.{Opt, Config, strncpy, parse_cmdline_args}
use anti_dos.Loader.{pin_maps_in_bpf_object}
use anti_dos.Loader.Attach.{Libbpf, load_bpf_and_xdp_attach}

abbrev pub exit_fail_option : ℕ
exit_fail_option = 2

-- `cfg` before the options: native mode, and no replacement of another program.
unfoldable pub default_config : Config
unfolding strncpy
default_config = record {
  xdp_flags = 5;
  ifindex = negsuc 0;
  ifname = none;
  redirect_ifindex = pos 0;
  redirect_ifname = none;
  do_unload = false;
  reuse_maps = false;
  filename = strncpy 512 (codes "xdp_prog_kern.o");
  progsec = replicate 32 0;
  src_mac = replicate 18 0;
  dest_mac = replicate 18 0;
  xsk_bind_flags = 0;
  xsk_if_queue = pos 0;
  xsk_poll_mode = false;
  verbose = true;
}

module _ (lib : Libbpf) (get_link_xdp_id : ℕ → ℕ → lib.St → ℤ × ℕ) (exists : Text → lib.St → Bool)
    (unpin_maps pin_maps : lib.Obj → Text → lib.St → ℤ × lib.St) where
  -- Behind `load_bpf_and_xdp_attach`.
  unfoldable pub pin_loaded : (ℕ ⊎ (lib.Obj × Config)) × lib.St → ℕ × lib.St
  unfolding pin_maps_in_bpf_object
  pin_loaded (inl code, s) = (code, s)
  pin_loaded (inr (obj, cfg), s) =
      pin_maps_in_bpf_object exists (unpin_maps obj) (pin_maps obj) (or_else cfg.ifname []) s

  -- Behind the options. `cfg.pin_dir` is not set by `main` and is empty.
  unfoldable pub run_loader : Config → lib.St → ℕ × lib.St
  unfolding xdp_link_detach load_bpf_and_xdp_attach pin_loaded
  run_loader cfg s =
      let ifindex = pos_part cfg.ifindex in
      if is_minus_one cfg.ifindex
      then (exit_fail_option, s)
      else if cfg.do_unload
      then xdp_link_detach lib.set_link_xdp_fd get_link_xdp_id ifindex cfg.xdp_flags 0 s
      else pin_loaded (load_bpf_and_xdp_attach lib cfg [] s)

  -- The whole of it; the process exits inside `parse_cmdline_args` on a bad option.
  unfoldable pub loader_main : (Text → ℕ) → (Text → ℤ) → List Opt → lib.St → ℕ × lib.St
  unfolding run_loader parse_cmdline_args default_config
  loader_main if_nametoindex atoi os s =
      elim (parse_cmdline_args if_nametoindex atoi os default_config) [
        | none ↦ (exit_fail_option, s)
        | some cfg ↦ run_loader cfg s
      ]
