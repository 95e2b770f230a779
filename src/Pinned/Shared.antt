-- ===== src/Pinned/Shared.antt =====
-- common/common_libbpf.c: an object and the pinned files share their maps.
use anti_dos.Base.{
  ℕ, ◌≡◌, refl, ◌∙◌, inl, inr, List, [], ◌∷◌, ◌++◌, some, ℤ, pos, negsuc, All, length, arith,
  Option-cases,
}
use anti_dos.Maps.Kernel.{Text}
use anti_dos.Pinned.{
  PinnedMap, Attr, Objects, LoadResult, reset_pins, set_all, reuse_all, pin_all, not_seen,
  load_opened, bpf_prog_load_xattr_maps,
}
use anti_dos.Pinned.Files.{PinFiles, Other, Tracked}
use anti_dos.Pinned.Taken.{Taken, Without, reuse_all-Taken}
use anti_dos.Pinned.Made.{Ready, pin_all-Shared}

module _ (lib : Objects) (r : PinFiles lib) (a q : Text) where
  open lib use {Prog, St}
  open r use {files, backing}

  reset_pins-others : (ps : List PinnedMap) → All (Other a q) ps → All (Other a q) (reset_pins ps)
  reset_pins-others [] h = tt
  reset_pins-others (p ∷ ps) h = (h.0, reset_pins-others ps h.1)

  reset_pins-Tracked :
      (f : ℤ) (ps : List PinnedMap) → Tracked a q f ps → Tracked a q (negsuc 0) (reset_pins ps)
  reset_pins-Tracked f [] t = absurd t
  reset_pins-Tracked f (p ∷ ps) (inl (n, file, fd, others)) =
      inl (n, file, refl, reset_pins-others ps others)
  reset_pins-Tracked f (p ∷ ps) (inr (other, t)) = inr (other, reset_pins-Tracked f ps t)

  load-Ready :
      (i : ℕ) (ps : List PinnedMap) (s : St)
      → Taken lib r a q i (ps, s)
      → Ready lib r a q i (ps, (lib.object_load s).1)
  load-Ready i ps s (inl (m, n, f, b, t)) =
      inl ((m, r.load_files s q ∙ f, r.load_old s i m b), (n, t))
  load-Ready i ps s (inr (f, t)) = elim (Option-cases (backing s i)) [
    | inl new ↦ inr (r.load_files s q ∙ f, (r.fresh s i, r.load_new s i new), t)
    | inr (m, old) ↦ inr (r.load_files s q ∙ f, (m, r.load_old s i m old), t)
  ]

  -- In a system of pinned files where objects are opened and loaded: if one request is for the map
  -- `a` under the file `q`, the others are for other maps and files, and the object has one map
  -- named `a` and a program, then the function returns 0 with the descriptor of the first program,
  -- and the file `q` and the map of the object are the same map, whether or not the file was there
  -- before.
  pub bpf_prog_load_xattr_maps_lem :
      (attr : Attr) (s s0 : St) (file : Text) (f : ℤ) (prog : Prog) (progs : List Prog)
      (before behind : List Text)
      → attr.file ≡ some file
      → lib.open_xattr file attr.prog_type s ≡ some ((prog ∷ progs, before ++ (a ∷ behind)), s0)
      → ((t : St) → (lib.object_load t).0 ≡ pos 0)
      → Tracked a q f attr.pinned_maps
      → Without lib r a q (length before) before
      → Without lib r a q (length before) behind
      → (res : LoadResult St) × (bpf_prog_load_xattr_maps lib (some attr) s ≡ some res)
        × (res.ret ≡ pos 0)
        × (res.prog_fd ≡ some (lib.program_fd prog res.st))
        × ((m : ℕ) × (files res.st q ≡ some m) × (backing res.st (length before) ≡ some m))
  unfolding bpf_prog_load_xattr_maps load_opened
  bpf_prog_load_xattr_maps_lem attr s s0 file f prog progs before behind e o ok t w w' =
      let names = before ++ (a ∷ behind) in
      let s1 = set_all lib attr (prog ∷ progs) s0 in
      let x = reuse_all lib attr.ifindex 0 names (reset_pins attr.pinned_maps) s1 in
      let taken =
        reuse_all-Taken lib r a q (length before) attr.ifindex 0 before behind
          (reset_pins attr.pinned_maps) s1 (omega arith) w w'
          (reset_pins-Tracked f attr.pinned_maps t) in
      let s2 = (lib.object_load x.1).1 in
      let y = pin_all lib 0 names x.0 s2 in
      let (shared, _) =
        pin_all-Shared lib r a q (length before) 0 before behind x.0 s2 (omega arith) w w'
          (load-Ready (length before) x.0 x.1 taken) in
      let res : LoadResult St = record {
        ret = pos 0;
        prog_fd = some (lib.program_fd prog y.1);
        pins = y.0;
        warned = not_seen y.0;
        st = y.1;
      } in
      (res, rw (e, o, ok x.1) refl, refl, refl, shared)
