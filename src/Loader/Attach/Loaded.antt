-- ===== src/Loader/Attach/Loaded.antt =====
-- common/common_user_bpf_xdp.c: what an interface carries after `load_bpf_and_xdp_attach`.
use anti_dos.Base.{ℕ, suc, ◌≡◌, refl, ◌⊎◌, inl, inr, false, bit_and, none, some, ℤ, pos, arith}
use anti_dos.Maps.Kernel.{Text}
use anti_dos.Link.{xdp_link_attach}
use anti_dos.Link.Swap.{Kernel, Switchable, xdp_link_attach_lem, xdp_link_attach_keeps}
use anti_dos.Params.{Config, strncpy}
use anti_dos.Loader.Attach.{
  Libbpf, load_bpf_object_file, choose_program, attach_program, load_bpf_and_xdp_attach,
}

no_offload : {flags : ℕ} → Switchable flags → bit_and flags 8 ≡ 0
no_offload (inl e) = rw e refl
no_offload (inr e) = rw e refl

module _ (lib : Libbpf) (i : ℕ) (k : Kernel lib.set_link_xdp_fd i) (cfg : Config) (obj : lib.Obj)
    (prog : lib.Prog) (fd : ℕ) (s' : lib.St) (at : cfg.ifindex ≡ pos i)
    (mode : Switchable cfg.xdp_flags) (opened : lib.program_fd prog s' ≡ pos (suc fd))
    (before : (k.carries s' ≡ none)
      ⊎ ((m : ℕ) × (old : ℕ) × Switchable m × (k.carries s' ≡ some (m, old)))) where
  link : ℕ × lib.St
  link = xdp_link_attach lib.set_link_xdp_fd i cfg.xdp_flags (suc fd) s'

  link_ok : (link.0 ≡ 0) × (k.carries link.1 ≡ some (cfg.xdp_flags, suc fd))
  unfolding link
  link_ok = xdp_link_attach_lem lib.set_link_xdp_fd i k (suc fd) s' cfg.xdp_flags mode before

  attach_eq :
      attach_program lib cfg obj prog s'
      ≡ (inr (obj, record cfg { progsec = strncpy 32 (lib.title prog) }), link.1)
  unfolding attach_program link
  attach_eq = ground (arith, opened, at, link_ok)

  -- If the object file is loaded without reuse of maps, in generic or native mode, with a program
  -- in the section asked for, and the interface carries no program or one in these modes, then on a
  -- kernel that behaves as documented `load_bpf_and_xdp_attach` returns the object, and the
  -- interface carries its program in the mode of the flags. What the calls about the interface do
  -- not change is as it was after the load.
  pub load_bpf_and_xdp_attach_lem :
      (pin_dir : Text) (s : lib.St)
      → cfg.reuse_maps ≡ false
      → lib.load_xattr cfg.filename 0 s ≡ (some obj, s')
      → choose_program lib cfg.progsec obj ≡ some prog
      → (s'' : lib.St) × (load_bpf_and_xdp_attach lib cfg pin_dir s
          ≡ (inr (obj, record cfg { progsec = strncpy 32 (lib.title prog) }), s''))
        × (k.carries s'' ≡ some (cfg.xdp_flags, suc fd))
        × ((f : lib.St → ℕ)
            → ((fd : ℤ) (flags : ℕ) (s : lib.St) → f (lib.set_link_xdp_fd i fd flags s).1 ≡ f s)
            → f s'' ≡ f s')
  unfolding link load_bpf_and_xdp_attach load_bpf_object_file
  load_bpf_and_xdp_attach_lem pin_dir s fresh loaded chosen = (
    link.1,
    ground (arith, fresh, loaded, chosen, attach_eq, no_offload mode),
    link_ok.1,
    λ f keeps. xdp_link_attach_keeps lib.set_link_xdp_fd i f keeps cfg.xdp_flags (suc fd) s',
  )
