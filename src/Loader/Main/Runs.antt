-- ===== src/Loader/Main/Runs.antt =====
-- main/xdp_loader.c: what a run leaves on the interface and in its directory of pinned maps.
use anti_dos.Base.{
  if_else, ℕ, suc, ◌≡◌, ◌≢◌, refl, sym, ◌∙◌, ap, ◌⊎◌, inl, inr, Bool, true, false, List, [], none,
  some, ℤ, pos, arith,
}
use anti_dos.Maps.Kernel.{Text}
use anti_dos.Maps.{join_path}
use anti_dos.Policy.BlackList.{or_else}
use anti_dos.Link.Swap.{Kernel, Removes, FlagsOf, Switchable, xdp_link_detach_lem}
use anti_dos.UpdateList.{is_minus_one, pin_basedir}
use anti_dos.Params.{Opt, Config, parse_cmdline_args}
use anti_dos.Params.Modes.{all_good, last_mode, forced, parse_cmdline_args_lem}
use anti_dos.Loader.{pin_maps_in_bpf_object}
use anti_dos.Loader.Pins.{PinDir, pin_maps_in_bpf_object_lem}
use anti_dos.Loader.Attach.{Libbpf, choose_program, load_bpf_and_xdp_attach}
use anti_dos.Loader.Attach.Loaded.{load_bpf_and_xdp_attach_lem}
use anti_dos.Loader.Main.{pin_loaded, default_config, run_loader, loader_main}

module _ (if_nametoindex : Text → ℕ) (atoi : Text → ℤ) (lib : Libbpf)
    (get_link_xdp_id : ℕ → ℕ → lib.St → ℤ × ℕ) (exists : Text → lib.St → Bool)
    (unpin_maps pin_maps : lib.Obj → Text → lib.St → ℤ × lib.St) (i : ℕ)
    (k : Kernel lib.set_link_xdp_fd i) where
  flags_of :
      (os : List Opt) (cfg : Config)
      → all_good if_nametoindex atoi os ≡ true
      → forced os ≡ true
      → parse_cmdline_args if_nametoindex atoi os default_config ≡ some cfg
      → cfg.xdp_flags ≡ last_mode os 4
  unfolding default_config
  flags_of os cfg good force parsed =
      let (c, e, f) =
        parse_cmdline_args_lem if_nametoindex atoi os default_config good (omega arith) in
      let same : some c ≡ some cfg = sym e ∙ parsed in ground (arith, f, force, same)

  -- Pinning and unpinning leave the interface alone, and the calls about the interface the files.
  pub record PinsOnly (obj : lib.Obj) (there : lib.St → ℕ) : Type 0 where
    pub link_there :
        (fd : ℤ) (flags : ℕ) (s : lib.St) → there (lib.set_link_xdp_fd i fd flags s).1 ≡ there s
    pub unpin_carries : (dir : Text) (s : lib.St) → k.carries (unpin_maps obj dir s).1 ≡ k.carries s
    pub pin_carries : (dir : Text) (s : lib.St) → k.carries (pin_maps obj dir s).1 ≡ k.carries s

  pins_carries :
      (obj : lib.Obj) (there : lib.St → ℕ) (subdir : Text) (s : lib.St)
      → PinsOnly obj there
      → k.carries (pin_maps_in_bpf_object exists (unpin_maps obj) (pin_maps obj) subdir s).1
        ≡ k.carries s
  unfolding pin_maps_in_bpf_object
  pins_carries obj there subdir s o =
      let dir = join_path pin_basedir subdir in
      ground (
        arith,
        o.unpin_carries dir s,
        o.pin_carries dir s,
        o.pin_carries dir (unpin_maps obj dir s).1,
      )

  run_loader_pins :
      (cfg cfg' : Config) (obj : lib.Obj) (s s' : lib.St)
      → (cfg.ifindex ≡ pos i) × (cfg.do_unload ≡ false)
      → load_bpf_and_xdp_attach lib cfg [] s ≡ (inr (obj, cfg'), s')
      → run_loader lib get_link_xdp_id exists unpin_maps pin_maps cfg s
        ≡ pin_maps_in_bpf_object exists (unpin_maps obj) (pin_maps obj) (or_else cfg'.ifname []) s'
  unfolding run_loader pin_loaded
  run_loader_pins cfg cfg' obj s s' (at, stay) attached =
      if_else (is_minus_one cfg.ifindex) _ _ (ap is_minus_one at)
      ∙ if_else cfg.do_unload _ _ stay
      ∙ ap (pin_loaded lib get_link_xdp_id exists unpin_maps pin_maps) attached

  -- The command line has options that all are good, with `--force`, and names the interface but
  -- neither `--unload` nor reuse of maps; the last mode chosen (native, if none is) is generic or
  -- native. The object file is loaded with a program in the section asked for, and the interface
  -- carries no program or one in these modes; of the object's maps all have their file in the
  -- directory of the interface or none has. Then on a kernel and with pinning that behave as
  -- documented the loader returns 0, the interface carries the program in the chosen mode, and the
  -- maps of the object are the pinned ones.
  pub loader_main_lem :
      (os : List Opt) (cfg : Config) (obj : lib.Obj) (prog : lib.Prog) (fd : ℕ) (s s' : lib.St)
      (d : PinDir exists
        (unpin_maps obj)
        (pin_maps obj)
        (join_path pin_basedir (or_else cfg.ifname [])))
      → all_good if_nametoindex atoi os ≡ true
      → forced os ≡ true
      → Switchable (last_mode os 4)
      → parse_cmdline_args if_nametoindex atoi os default_config ≡ some cfg
      → (cfg.ifindex ≡ pos i) × (cfg.do_unload ≡ false) × (cfg.reuse_maps ≡ false)
      → lib.load_xattr cfg.filename 0 s ≡ (some obj, s')
      → choose_program lib cfg.progsec obj ≡ some prog
      → lib.program_fd prog s' ≡ pos (suc fd)
      → (k.carries s' ≡ none)
        ⊎ ((m : ℕ) × (old : ℕ) × Switchable m × (k.carries s' ≡ some (m, old)))
      → (d.there s' ≡ 0) ⊎ (d.there s' ≡ d.all)
      → PinsOnly obj d.there
      → ((loader_main lib get_link_xdp_id exists unpin_maps pin_maps if_nametoindex atoi os s).0
          ≡ 0)
        × (k.carries
              (loader_main lib get_link_xdp_id exists unpin_maps pin_maps if_nametoindex atoi os
                s).1
            ≡ some (last_mode os 4, suc fd))
        × (d.owner
              (loader_main lib get_link_xdp_id exists unpin_maps pin_maps if_nametoindex atoi os
                s).1
            ≡ true)
  unfolding loader_main run_loader
  loader_main_lem os cfg obj prog fd s s' d good force mode parsed (at, stay, fresh) loaded chosen
        opened before files only =
      let flags = flags_of os cfg good force parsed in
      let (s'', attached, carried, keeps) =
        load_bpf_and_xdp_attach_lem lib i k cfg obj prog fd s' at (rw flags mode) opened before [] s
          fresh loaded chosen in
      let (zero_code, owned) =
        pin_maps_in_bpf_object_lem exists (unpin_maps obj) (pin_maps obj) (or_else cfg.ifname []) d
          s''
          (elim files [
            | inl new ↦ inl (keeps d.there only.link_there ∙ new)
            | inr old ↦ inr (keeps d.there only.link_there ∙ old)
          ]) in
      let same = pins_carries obj d.there (or_else cfg.ifname []) s'' only in
      rw (loader_main, parsed, run_loader_pins cfg _ obj s s'' (at, stay) attached)
        (zero_code, same ∙ carried ∙ ap (λ m. some (m, suc fd)) flags, owned)

  -- With `--unload`, where the command line is accepted and names the interface, and the interface
  -- carries a program in generic or native mode and the flags are those of its mode, with `--force`
  -- or without, on a kernel that takes programs off as documented the loader returns 0 and leaves
  -- it without a program.
  pub loader_main_unload :
      (r : Removes lib.set_link_xdp_fd i k.carries) (os : List Opt) (cfg : Config) (s : lib.St)
      (mode old id : ℕ)
      → parse_cmdline_args if_nametoindex atoi os default_config ≡ some cfg
      → (cfg.ifindex ≡ pos i) × (cfg.do_unload ≡ true)
      → k.carries s ≡ some (mode, old)
      → Switchable mode
      → FlagsOf mode cfg.xdp_flags
      → get_link_xdp_id i cfg.xdp_flags s ≡ (pos 0, id)
      → id ≢ 0
      → ((loader_main lib get_link_xdp_id exists unpin_maps pin_maps if_nametoindex atoi os s).0
          ≡ 0)
        × (k.carries
              (loader_main lib get_link_xdp_id exists unpin_maps pin_maps if_nametoindex atoi os
                s).1
            ≡ none)
  unfolding loader_main run_loader
  loader_main_unload r os cfg s mode old id parsed (at, unload) carried m same known running =
      rw (loader_main, parsed, at, unload)
        (xdp_link_detach_lem lib.set_link_xdp_fd i k r get_link_xdp_id s mode cfg.xdp_flags old id 0
          carried m same known (inl refl) running)
