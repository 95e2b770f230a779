-- ===== src/Loader/Main/Refused.antt =====
-- main/xdp_loader.c: without `--force` no program of an interface is replaced, and a load that
-- fails leaves everything as it was.
use anti_dos.Base.{
  if_else, ℕ, suc, ◌+◌, ◌≡◌, refl, sym, ◌∙◌, ap, ◌⊎◌, inl, inr, Bool, true, false, List, [], none,
  some, ℤ, pos, negsuc, bit_and, arith,
}
use anti_dos.Maps.Kernel.{Text}
use anti_dos.Link.{xdp_link_attach}
use anti_dos.Link.Swap.{Kernel, Switchable}
use anti_dos.UpdateList.{is_minus_one}
use anti_dos.Params.{Opt, Config, parse_cmdline_args}
use anti_dos.Params.Modes.{all_good, last_mode, forced, parse_cmdline_args_lem}
use anti_dos.Loader.Attach.{
  Libbpf, load_bpf_object_file, choose_program, attach_program, load_bpf_and_xdp_attach,
}
use anti_dos.Loader.Main.{pin_loaded, default_config, run_loader, loader_main}

-- The flags without `--force`.
abbrev NoExist : ℕ → Type 0
NoExist flags = (flags ≡ 3) ⊎ (flags ≡ 5)

module _ {Net : Type 0} (set_link_xdp_fd : ℕ → ℤ → ℕ → Net → ℤ × Net) (i : ℕ)
    (k : Kernel set_link_xdp_fd i) where
  -- A program that is carried stays, and the result is 30.
  attach_busy :
      (flags prog_fd mode' old : ℕ) (net : Net)
      → NoExist flags
      → k.carries net ≡ some (mode', old)
      → Switchable mode'
      → xdp_link_attach set_link_xdp_fd i flags prog_fd net ≡ (30, net)
  unfolding xdp_link_attach
  attach_busy flags prog_fd mode' old net (inl three) h m =
      let (n, refusal) = k.set_busy prog_fd 3 mode' old net h m refl in
      rw three (ground (arith, refusal))
  attach_busy flags prog_fd mode' old net (inr five) h m =
      let (n, refusal) = k.set_busy prog_fd 5 mode' old net h m refl in
      rw five (ground (arith, refusal))

module _ (if_nametoindex : Text → ℕ) (atoi : Text → ℤ) (lib : Libbpf)
    (get_link_xdp_id : ℕ → ℕ → lib.St → ℤ × ℕ) (exists : Text → lib.St → Bool)
    (unpin_maps pin_maps : lib.Obj → Text → lib.St → ℤ × lib.St) (i : ℕ) where
  flags_of :
      (os : List Opt) (cfg : Config)
      → all_good if_nametoindex atoi os ≡ true
      → forced os ≡ false
      → Switchable (last_mode os 4)
      → parse_cmdline_args if_nametoindex atoi os default_config ≡ some cfg
      → NoExist cfg.xdp_flags
  unfolding default_config
  flags_of os cfg good force mode parsed =
      let (c, e, f) =
        parse_cmdline_args_lem if_nametoindex atoi os default_config good (omega arith) in
      let same : some c ≡ some cfg = sym e ∙ parsed in
      let flags : cfg.xdp_flags ≡ last_mode os 4 + 1 = ground (arith, f, force, same) in
      omega (arith, flags, mode)

  no_offload : {flags : ℕ} → NoExist flags → bit_and flags 8 ≡ 0
  no_offload (inl e) = rw e refl
  no_offload (inr e) = rw e refl

  -- What `load_bpf_and_xdp_attach` gives is what the loader returns, if it is a code.
  run_loader_code :
      (cfg : Config) (code : ℕ) (s s' : lib.St)
      → (cfg.ifindex ≡ pos i) × (cfg.do_unload ≡ false)
      → load_bpf_and_xdp_attach lib cfg [] s ≡ (inl code, s')
      → run_loader lib get_link_xdp_id exists unpin_maps pin_maps cfg s ≡ (code, s')
  unfolding run_loader pin_loaded
  run_loader_code cfg code s s' (at, stay) failed =
      if_else (is_minus_one cfg.ifindex) _ _ (ap is_minus_one at)
      ∙ if_else cfg.do_unload _ _ stay
      ∙ ap (pin_loaded lib get_link_xdp_id exists unpin_maps pin_maps) failed

  attach_program_busy :
      (k : Kernel lib.set_link_xdp_fd i) (cfg : Config) (obj : lib.Obj) (prog : lib.Prog)
      (fd mode' old : ℕ) (s : lib.St)
      → cfg.ifindex ≡ pos i
      → NoExist cfg.xdp_flags
      → lib.program_fd prog s ≡ pos (suc fd)
      → k.carries s ≡ some (mode', old)
      → Switchable mode'
      → attach_program lib cfg obj prog s ≡ (inl 30, s)
  unfolding attach_program
  attach_program_busy k cfg obj prog fd mode' old s at flags opened carried m = ground (
    arith,
    opened,
    at,
    attach_busy lib.set_link_xdp_fd i k cfg.xdp_flags (suc fd) mode' old s flags carried m,
  )

  -- The load does not give an object; the object has no program in the section; or the program has
  -- no descriptor.
  abbrev pub LoadFails : Config → lib.St → lib.St → Type 0
  LoadFails cfg s s' =
      (lib.load_xattr cfg.filename 0 s ≡ (none, s'))
      ⊎ ((obj : lib.Obj) × (lib.load_xattr cfg.filename 0 s ≡ (some obj, s'))
          × ((choose_program lib cfg.progsec obj ≡ none)
              ⊎ ((prog : lib.Prog) × (n : ℕ) × (choose_program lib cfg.progsec obj ≡ some prog)
                  × (lib.program_fd prog s' ≡ negsuc n))))

  load_fails :
      (cfg : Config) (s s' : lib.St)
      → cfg.reuse_maps ≡ false
      → NoExist cfg.xdp_flags
      → LoadFails cfg s s'
      → load_bpf_and_xdp_attach lib cfg [] s ≡ (inl 40, s')
  unfolding load_bpf_and_xdp_attach load_bpf_object_file attach_program
  load_fails cfg s s' fresh flags (inl failed) = ground (arith, fresh, failed, no_offload flags)
  load_fails cfg s s' fresh flags (inr (obj, loaded, inl missing)) =
      ground (arith, fresh, loaded, missing, no_offload flags)
  load_fails cfg s s' fresh flags (inr (obj, loaded, inr (prog, n, chosen, unopened))) =
      ground (arith, fresh, loaded, chosen, unopened, no_offload flags)

  -- The object file is loaded with a program in the section asked for, and the interface carries a
  -- program in generic or native mode.
  abbrev pub IsBusy : Kernel lib.set_link_xdp_fd i → Config → lib.St → lib.St → Type 0
  IsBusy k cfg s s' =
      (obj : lib.Obj) × (prog : lib.Prog) × (fd : ℕ) × (mode' : ℕ) × (old : ℕ) × (lib.load_xattr
          cfg.filename 0 s
        ≡ (some obj, s'))
      × (choose_program lib cfg.progsec obj ≡ some prog)
      × (lib.program_fd prog s' ≡ pos (suc fd))
      × (k.carries s' ≡ some (mode', old))
      × Switchable mode'

  -- Why a run ends with a code.
  abbrev pub EndsWith : ℕ → Kernel lib.set_link_xdp_fd i → Config → lib.St → lib.St → Type 0
  EndsWith code k cfg s s' = ((code ≡ 40) × LoadFails cfg s s') ⊎ ((code ≡ 30) × IsBusy k cfg s s')

  load_ends :
      (code : ℕ) (k : Kernel lib.set_link_xdp_fd i) (cfg : Config) (s s' : lib.St)
      → (cfg.ifindex ≡ pos i) × (cfg.reuse_maps ≡ false)
      → NoExist cfg.xdp_flags
      → EndsWith code k cfg s s'
      → load_bpf_and_xdp_attach lib cfg [] s ≡ (inl code, s')
  unfolding load_bpf_and_xdp_attach load_bpf_object_file
  load_ends code k cfg s s' (at, fresh) flags (inl (e, fails)) =
      rw e (load_fails cfg s s' fresh flags fails)
  load_ends code k cfg s s' (at, fresh) flags
        (inr (e, (obj, prog, fd, m, old, loaded, chosen, opened, carried, switchable))) =
      rw e (
        ground (
          arith,
          fresh,
          loaded,
          chosen,
          no_offload flags,
          attach_program_busy k cfg obj prog fd m old s' at flags opened carried switchable,
        ))

  -- The command line has options that all are good, without `--force`, and names the interface but
  -- neither `--unload` nor reuse of maps; the last mode chosen is generic or native. If the object
  -- file cannot be loaded, has no program in the section asked for, or the program has no
  -- descriptor, the loader returns 40; if it is loaded and the interface carries a program in one
  -- of these modes, 30. In both cases the loading is all that it has done: the interface keeps what
  -- it carries, and nothing is pinned or taken off.
  pub loader_main_refused :
      (k : Kernel lib.set_link_xdp_fd i) (os : List Opt) (cfg : Config) (code : ℕ) (s s' : lib.St)
      → all_good if_nametoindex atoi os ≡ true
      → forced os ≡ false
      → Switchable (last_mode os 4)
      → parse_cmdline_args if_nametoindex atoi os default_config ≡ some cfg
      → (cfg.ifindex ≡ pos i) × (cfg.do_unload ≡ false) × (cfg.reuse_maps ≡ false)
      → EndsWith code k cfg s s'
      → loader_main lib get_link_xdp_id exists unpin_maps pin_maps if_nametoindex atoi os s
        ≡ (code, s')
  unfolding loader_main
  loader_main_refused k os cfg code s s' good force mode parsed (at, stay, fresh) ends =
      let flags = flags_of os cfg good force mode parsed in
      rw (loader_main, parsed)
        (run_loader_code cfg code s s' (at, stay)
          (load_ends code k cfg s s' (at, fresh) flags ends))
