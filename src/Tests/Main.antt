-- ===== src/Tests/Main.antt =====
-- main/xdp_loader.c on one interface and one directory of pinned maps.
use anti_dos.Base.{
  ℕ, ◌≡◌, refl, ap, Bool, true, false, inl, inr, List, [], ◌∷◌, none, some, ℤ, pos, negsuc, arith,
  codes,
}
use anti_dos.Maps.Kernel.{Text}
use anti_dos.Maps.{join_path}
use anti_dos.UpdateList.{pin_basedir}
use anti_dos.Link.Swap.{Carried, Kernel, Removes}
use anti_dos.Params.{dev, skb_mode, force, unload, Config, parse_cmdline_args}
use anti_dos.Params.Modes.{all_good, last_mode, forced}
use anti_dos.Loader.Pins.{PinDir}
use anti_dos.Loader.Attach.{Libbpf}
use anti_dos.Loader.Main.{default_config, loader_main}
use anti_dos.Loader.Main.Runs.{loader_main_lem, loader_main_unload}
use anti_dos.Loader.Main.Refused.{loader_main_refused}
use anti_dos.Tests.User.{set_link, link_kernel, taken_off, get_id}
use anti_dos.Tests.Loader.{
  there, files, files_there, no_files, unpin, unpin_all_there, pin, pin_free,
}

-- What the interface carries, and the directory.
abbrev Machine : Type 0
Machine = Carried × (Bool × Bool)

abbrev set_fd : ℕ → ℤ → ℕ → Machine → ℤ × Machine
set_fd ifindex fd mode s =
    ((set_link ifindex fd mode s.0).0, ((set_link ifindex fd mode s.0).1, s.1))

abbrev machine_kernel : Kernel set_fd 1
machine_kernel = record {
  carries = λ s. s.0;
  set_empty = λ fd mode s e even. link_kernel.set_empty fd mode s.0 e even;
  set_same = λ fd mode old s e. link_kernel.set_same fd mode old s.0 e;
  set_other = λ fd mode mode' old s e d even.
      ap (λ (x : ℤ × Carried). (x.0, (x.1, s.1)))
        (link_kernel.set_other fd mode mode' old s.0 e d even);
  set_busy = λ fd flags mode' old s e m odd.
      let (n, f) = link_kernel.set_busy fd flags mode' old s.0 e m odd in
      (n, ap (λ (x : ℤ × Carried). (x.0, (x.1, s.1))) f);
}

abbrev machine_removes : Removes set_fd 1 (λ s. s.0)
machine_removes = record {
  removed = λ mode flags old s e m same. taken_off mode flags old s.0 e m same;
}

abbrev lib : Libbpf
lib = record {
  Obj = List ℕ;
  Prog = ℕ;
  St = Machine;
  load_xattr = λ file ifindex s. (some (9 ∷ []), s);
  open_xattr = λ file s. none;
  programs = λ obj. obj;
  maps = λ obj. [];
  set_program = λ ifindex p obj. obj;
  is_offload_neutral = λ i obj. true;
  set_map_ifindex = λ i ifindex obj. obj;
  obj_get = λ path s. (negsuc 1, s);
  reuse_fd = λ i fd s. (pos 0, s);
  object_load = λ s. (pos 0, s);
  find_program_by_title = λ obj title. none;
  title = λ p. codes "xdp";
  program_fd = λ p s. pos p;
  set_link_xdp_fd = set_fd;
}

abbrev index_of : Text → ℕ
index_of name = 1

abbrev number : Text → ℤ
number text = pos 0

abbrev id_of : ℕ → ℕ → Machine → ℤ × ℕ
id_of ifindex mode s = get_id ifindex mode s.0

abbrev file_there : Text → Machine → Bool
file_there path s = there path s.1

abbrev unpin_all : List ℕ → Text → Machine → ℤ × Machine
unpin_all obj dir s = ((unpin dir s.1).0, (s.0, (unpin dir s.1).1))

abbrev pin_all : List ℕ → Text → Machine → ℤ × Machine
pin_all obj dir s = ((pin dir s.1).0, (s.0, (pin dir s.1).1))

abbrev lo : Text
lo = codes "lo"

lo_dir : PinDir file_there (unpin_all (9 ∷ [])) (pin_all (9 ∷ [])) (join_path pin_basedir lo)
lo_dir = record {
  all = 3;
  there = λ s. files s.1;
  owner = λ s. s.1.1;
  exists_all = λ s e. files_there s.1 e;
  exists_none = λ s e. no_files s.1 e;
  unpin_ok = λ s e. unpin_all_there s.1 e;
  pin_ok = λ s e. pin_free s.1 (no_files s.1 e);
}

-- `--dev lo --skb-mode --force`, over a program in native mode with its maps pinned.
abbrev chosen : Config
chosen = record default_config {
  ifname = some lo;
  ifindex = pos 1;
  xdp_flags = 2;
  xsk_bind_flags = 2;
}

loader_main_lem_example :
    ((loader_main lib id_of file_there unpin_all pin_all index_of number
        (dev lo ∷ skb_mode ∷ force ∷ [])
        (some (4, 7), (true, false))).0
      ≡ 0)
    × ((loader_main lib id_of file_there unpin_all pin_all index_of number
          (dev lo ∷ skb_mode ∷ force ∷ [])
          (some (4, 7), (true, false))).1.0
        ≡ some (2, 9))
    × ((loader_main lib id_of file_there unpin_all pin_all index_of number
          (dev lo ∷ skb_mode ∷ force ∷ [])
          (some (4, 7), (true, false))).1.1.1
        ≡ true)
unfolding lo_dir default_config parse_cmdline_args all_good forced last_mode
loader_main_lem_example =
    loader_main_lem index_of number lib id_of file_there unpin_all pin_all 1 machine_kernel
      (dev lo ∷ skb_mode ∷ force ∷ []) chosen (9 ∷ []) 9 8 (some (4, 7), (true, false))
      (some (4, 7), (true, false)) lo_dir refl refl (inl refl) refl (refl, refl, refl) refl refl
      refl (inr (4, 7, inr refl, refl)) (inr refl)
      (record {
        link_there = λ fd flags s. refl;
        unpin_carries = λ dir s. refl;
        pin_carries = λ dir s. refl;
      })

-- `--dev lo --skb-mode --unload`, over a program in generic mode.
loader_main_unload_example :
    ((loader_main lib id_of file_there unpin_all pin_all index_of number
        (dev lo ∷ skb_mode ∷ unload ∷ [])
        (some (2, 7), (true, true))).0
      ≡ 0)
    × ((loader_main lib id_of file_there unpin_all pin_all index_of number
          (dev lo ∷ skb_mode ∷ unload ∷ [])
          (some (2, 7), (true, true))).1.0
        ≡ none)
unfolding default_config parse_cmdline_args
loader_main_unload_example =
    loader_main_unload index_of number lib id_of file_there unpin_all pin_all 1 machine_kernel
      machine_removes (dev lo ∷ skb_mode ∷ unload ∷ [])
      (record chosen { xdp_flags = 3; do_unload = true }) (some (2, 7), (true, true)) 2 7 47 refl
      (refl, refl) refl (inl refl) (inr refl) refl (omega arith)

-- Without `--force`, over the same program.
loader_main_refused_example :
    loader_main lib id_of file_there unpin_all pin_all index_of number
      (dev lo ∷ skb_mode ∷ [])
      (some (4, 7), (true, false))
    ≡ (30, (some (4, 7), (true, false)))
unfolding default_config parse_cmdline_args all_good forced last_mode
loader_main_refused_example =
    loader_main_refused index_of number lib id_of file_there unpin_all pin_all 1 machine_kernel
      (dev lo ∷ skb_mode ∷ []) (record chosen { xdp_flags = 3 }) 30 (some (4, 7), (true, false))
      (some (4, 7), (true, false)) refl refl (inl refl) refl (refl, refl, refl)
      (inr (refl, (9 ∷ [], 9, 8, 4, 7, refl, refl, refl, refl, inr refl)))
